-- ===== src/Intents/Create/Repeats.antt =====
-- What a creation answers that is repeated with the memo of the first.
use comos_pay_community_serv.Base.{
  String, Option, some, ◌≡◌, inl, inr, sym, done, value, subst, ℕ, ◌⊎◌,
}
use comos_pay_community_serv.Prisma.Client.{IsLawfulClient}
use comos_pay_community_serv.Gateway.Consumer.{GatewayConsumer}
use comos_pay_community_serv.Platform.{Platform, World, Supply}
use comos_pay_community_serv.Platform.Tenants.{HasUniqueConsumers}
use comos_pay_community_serv.Intents.Resolve.{ResolvedAsset, resolve_asset}
use comos_pay_community_serv.Intents.Memo.{resolve_memo, resolve_memo_given}
use comos_pay_community_serv.Intents.Store.{PaymentIntentView}
use comos_pay_community_serv.Intents.Create.{
  CreatePayPaymentIntentDto, CreateTxPaymentIntentDto, create_pay, create_tx,
}
use comos_pay_community_serv.Intents.Create.Answer.{
  HasUniqueIntents, IsCreated, create_with-IsCreated,
}
use comos_pay_community_serv.Intents.Create.Idempotent.{create_with-again, pay-Builds, tx-Builds}

module _ (P : Platform) (law : IsLawfulClient P.client) where
  -- Both creations at `w'` answer `v`, and change nothing but the table of the consumers.
  abbrev pub Repeats :
      Supply
      → GatewayConsumer
      → CreatePayPaymentIntentDto
      → CreateTxPaymentIntentDto
      → PaymentIntentView
      → World P.client
      → Type 0
  Repeats s c dto tx v w' =
      ((w'' : World P.client) × (create_pay P s c dto w' ≡ done v w'')
        × (w'' ≡ record w' { consumers = w''.consumers }))
      × ((w'' : World P.client) × (create_tx P s c tx w' ≡ done v w'')
          × (w'' ≡ record w' { consumers = w''.consumers }))

  IsCreated-Repeats :
      (s' : Supply) (username : String) (c' : GatewayConsumer) (memo : Option String) (random : ℕ)
      (dto' : CreatePayPaymentIntentDto) (tx : CreateTxPaymentIntentDto) (w' : World P.client)
      (v : PaymentIntentView) (m m' : String) (asset asset' : ResolvedAsset)
      → resolve_memo memo random ≡ value m'
      → IsCreated P law username m' v w'
      → c'.username ≡ username
      → memo ≡ some m
      → dto'.memo ≡ some m
      → tx.memo ≡ some m
      → resolve_asset P dto'.asset_code dto'.asset_issuer ≡ value asset
      → resolve_asset P tx.asset_code tx.asset_issuer ≡ value asset'
      → Repeats s' c' dto' tx v w'
  unfolding create_pay create_tx
  IsCreated-Repeats s' username c' memo random dto' tx w' v m m' asset asset' ok k user em em' et a
        a' =
      let (same, valid) =
        resolve_memo_given m m' random s'.random
          (subst (λ o. resolve_memo o random ≡ value m') em ok) in
      let known : IsCreated P law c'.username m v w' =
        subst (λ n. IsCreated P law n m v w') (sym user)
          (subst (λ x. IsCreated P law username x v w') same k) in
      (
        create_with-again P law s' c' dto'.asset_code dto'.asset_issuer dto'.memo _ w' v m asset
            known a (rw em' valid),
        create_with-again P law s' c' tx.asset_code tx.asset_issuer tx.memo _ w' v m asset' known a'
            (rw et valid),
      )

  pay_idempotent :
      (s s' : Supply) (c c' : GatewayConsumer) (dto dto' : CreatePayPaymentIntentDto)
      (tx : CreateTxPaymentIntentDto) (w w' : World P.client) (v : PaymentIntentView) (m : String)
      (asset asset' : ResolvedAsset)
      → HasUniqueConsumers P.client w
      → HasUniqueIntents P w
      → create_pay P s c dto w ≡ done v w'
      → c'.username ≡ c.username
      → dto.memo ≡ some m
      → dto'.memo ≡ some m
      → tx.memo ≡ some m
      → resolve_asset P dto'.asset_code dto'.asset_issuer ≡ value asset
      → resolve_asset P tx.asset_code tx.asset_issuer ≡ value asset'
      → Repeats s' c' dto' tx v w'
  unfolding create_pay
  pay_idempotent s s' c c' dto dto' tx w w' v m asset asset' uc ui h user em em' et a a' =
      let (m', memo_ok, k) =
        create_with-IsCreated P law s c dto.asset_code dto.asset_issuer dto.memo _ w w' v
          (pay-Builds P law s c dto) uc ui h in
      IsCreated-Repeats s' c.username c' dto.memo s.random dto' tx w' v m m' asset asset' memo_ok k
        user em em' et a a'

  tx_idempotent :
      (s s' : Supply) (c c' : GatewayConsumer) (dto : CreateTxPaymentIntentDto)
      (dto' : CreatePayPaymentIntentDto) (tx : CreateTxPaymentIntentDto) (w w' : World P.client)
      (v : PaymentIntentView) (m : String) (asset asset' : ResolvedAsset)
      → HasUniqueConsumers P.client w
      → HasUniqueIntents P w
      → create_tx P s c dto w ≡ done v w'
      → c'.username ≡ c.username
      → dto.memo ≡ some m
      → dto'.memo ≡ some m
      → tx.memo ≡ some m
      → resolve_asset P dto'.asset_code dto'.asset_issuer ≡ value asset
      → resolve_asset P tx.asset_code tx.asset_issuer ≡ value asset'
      → Repeats s' c' dto' tx v w'
  unfolding create_tx
  tx_idempotent s s' c c' dto dto' tx w w' v m asset asset' uc ui h user em em' et a a' =
      let (m', memo_ok, k) =
        create_with-IsCreated P law s c dto.asset_code dto.asset_issuer dto.memo _ w w' v
          (tx-Builds P law s c dto) uc ui h in
      IsCreated-Repeats s' c.username c' dto.memo s.random dto' tx w' v m m' asset asset' memo_ok k
        user em em' et a a'

  -- Once a creation of either kind with a given memo has returned a view, a creation of either kind
  -- on the world that it left, with the same username and memo and a valid asset, returns that very
  -- view. It changes nothing but the table of the consumers: no intent is stored and no event
  -- emitted. The unique constraints on consumers and on intents hold before the first.
  pub create_idempotent :
      (s s' : Supply) (c c' : GatewayConsumer) (dto dto' : CreatePayPaymentIntentDto)
      (tx tx' : CreateTxPaymentIntentDto) (w w' : World P.client) (v : PaymentIntentView)
      (m : String) (asset asset' : ResolvedAsset)
      → HasUniqueConsumers P.client w
      → HasUniqueIntents P w
      → (create_pay P s c dto w ≡ done v w') ⊎ (create_tx P s c tx w ≡ done v w')
      → c'.username ≡ c.username
      → dto.memo ≡ some m
      → tx.memo ≡ some m
      → dto'.memo ≡ some m
      → tx'.memo ≡ some m
      → resolve_asset P dto'.asset_code dto'.asset_issuer ≡ value asset
      → resolve_asset P tx'.asset_code tx'.asset_issuer ≡ value asset'
      → Repeats s' c' dto' tx' v w'
  create_idempotent s s' c c' dto dto' tx tx' w w' v m asset asset' uc ui (inl h) user ed et ed' et'
        a a' =
      pay_idempotent s s' c c' dto dto' tx' w w' v m asset asset' uc ui h user ed ed' et' a a'
  create_idempotent s s' c c' dto dto' tx tx' w w' v m asset asset' uc ui (inr h) user ed et ed' et'
        a a' =
      tx_idempotent s s' c c' tx dto' tx' w w' v m asset asset' uc ui h user et ed' et' a a'
