-- ===== src/Lifecycle/Creation.antt =====
-- Creating an intent is a step of the state machine.
use comos_pay_community_serv.Lifecycle.{Life, IsNew, Life-refl}
use comos_pay_community_serv.Lifecycle.Evolves.{
  Keeps, Keeps-bind, Evolves, Evolves-after, Evolves-before, Keeps-Evolves, Lives, Lives-kept,
}
use comos_pay_community_serv.Base.{
  Bool-cases, Exception, M, Option, Option-cases, Outcome, String, arith, eq_iff, inl, inr, lift,
  none, or_throw, raised, refl, some, unexpected, value, ◌==◌, ◌>>=◌, ◌>>◌, ◌≡◌,
}
use comos_pay_community_serv.Prisma.Schema.{
  Consumer, PaymentIntent, StellarNetwork, payment_intent_created,
}
use comos_pay_community_serv.Intents.Create.{
  CreatePayPaymentIntentDto, CreateTxPaymentIntentDto, build_transaction, create_pay, create_tx,
  create_with, load_source, pay_draft, prepare, store, tx_draft, unless_existing,
}
use comos_pay_community_serv.Gateway.Consumer.{GatewayConsumer}
use comos_pay_community_serv.Prisma.Client.{IsLawfulClient}
use comos_pay_community_serv.Lifecycle.Keeps.{IsReader-Keeps, mapped, resolve_consumer-Keeps}
use comos_pay_community_serv.Http.ReadOnly.{IsReader-or_throw}
use comos_pay_community_serv.Intents.Store.{PaymentIntentView, find_by_memo, persist, with_qr}
use comos_pay_community_serv.Platform.{Platform, Supply, World, emit, resolve_consumer}
use comos_pay_community_serv.Intents.Resolve.{ResolvedAsset, resolve_asset, resolve_network}
use comos_pay_community_serv.Intents.Memo.{resolve_memo}
use comos_pay_community_serv.Intents.Create.Race.{stamped}

module _ (P : Platform) where
  pub or_throw-Keeps : {A : Type 0} (o : Option A) (e : Exception) → Keeps P (or_throw o e)
  or_throw-Keeps o e = IsReader-Keeps P (or_throw o e) (IsReader-or_throw o e)

  pub lift-Keeps : {A : Type 0} (o : Outcome A) → Keeps P (lift o)
  lift-Keeps (value a) w = refl
  lift-Keeps (raised e) w = refl

  pub with_qr-Keeps : (intent : PaymentIntent) → Keeps P (with_qr P intent)
  unfolding with_qr
  with_qr-Keeps intent =
      mapped P (or_throw (P.qr intent.uri) (unexpected "QR code generation failed"))
        (λ code. record { intent = intent; qr = code })
        (or_throw-Keeps (P.qr intent.uri) (unexpected "QR code generation failed"))

  find_by_memo-Keeps : (consumer_id memo : String) → Keeps P (find_by_memo P consumer_id memo)
  unfolding find_by_memo
  find_by_memo-Keeps consumer_id memo w = refl

  load_source-Keeps :
      (network : StellarNetwork) (source : String) → Keeps P (load_source P network source)
  unfolding load_source
  load_source-Keeps network source w = ground arith

  build_transaction-Keeps :
      (c : GatewayConsumer) (dto : CreateTxPaymentIntentDto) (asset : ResolvedAsset) (memo : String)
      → Keeps P (build_transaction P c dto asset memo)
  unfolding build_transaction
  build_transaction-Keeps c dto asset memo =
      Keeps-bind P (load_source P (resolve_network P.config.network c.environment) dto.source) _
        (load_source-Keeps (resolve_network P.config.network c.environment) dto.source)
        λ sequence. or_throw-Keeps _ (unexpected "invalid transaction")

  prepare-Keeps :
      (s : Supply) (c : GatewayConsumer) (code issuer memo : Option String)
      → Keeps P (prepare P s c code issuer memo)
  unfolding prepare
  prepare-Keeps s c code issuer memo =
      Keeps-bind P (resolve_consumer P.client s c) _ (resolve_consumer-Keeps P s c) λ local.
        Keeps-bind P (lift (resolve_asset P code issuer)) _
          (lift-Keeps (resolve_asset P code issuer))
          λ asset.
            Keeps-bind P (lift (resolve_memo memo s.random)) _
              (lift-Keeps (resolve_memo memo s.random)) λ resolved w. refl

module _ (P : Platform) (law : IsLawfulClient P.client) where
  -- An intent that is created is new.
  create-Lives :
      (r : PaymentIntent) (s t : P.client.payment_intent.State)
      → P.client.payment_intent.create r s ≡ some t
      → IsNew r
      → Lives P none s t
  unfolding Life
  create-Lives r s t e new j = elim (Bool-cases (r.id == j)) [
    | inr other ↦
        let same : P.client.payment_intent.get j t ≡ P.client.payment_intent.get j s =
          ground (arith, law.payment_intent.get-create r s t j e) in
        rw (same) (Life-refl P.horizon P.numbers none (P.client.payment_intent.get j s))
    | inl mine ↦ elim (Option-cases (P.client.payment_intent.get j s)) [
      | inl free ↦
          let after : P.client.payment_intent.get j t ≡ some r =
            ground (arith, law.payment_intent.get-create r s t j e) in
          rw (free, after) new
      | inr (q, taken) ↦
          absurd ((law.payment_intent.create_new r s t j q e taken).0 ((eq_iff r.id j).0 mine))
    ]
  ]

  persist-Evolves :
      (s : Supply) (draft : PaymentIntent) → IsNew draft → Evolves P none (persist P s draft)
  unfolding persist
  persist-Evolves s draft new w =
      elim (Option-cases (P.client.payment_intent.create (stamped P s draft) w.intents)) [
        | inl e ↦ rw (e, persist) (Lives-kept P none w.intents w.intents refl)
        | inr (t, e) ↦
            rw (e, persist)
              (create-Lives (stamped P s draft) w.intents t e
                (record { status = new.status; tx_hash = new.tx_hash; reference = new.reference }))
      ]

  store-Evolves :
      (s : Supply) (username : String) (draft : PaymentIntent)
      → IsNew draft
      → Evolves P none (store P s username draft)
  unfolding store
  store-Evolves s username draft new =
      Evolves-before P none (persist P s draft) _ (persist-Evolves s draft new)
        (answers s username draft)
    where
      answers :
          (s : Supply) (username : String) (draft : PaymentIntent) (stored : Option PaymentIntent)
          → Keeps P (elim stored [
            | some intent ↦ emit P.client username payment_intent_created intent >> with_qr P intent
            | none ↦ find_by_memo P draft.consumer_id draft.memo >>= λ existing.
                or_throw existing (unexpected "Cannot read properties of null (reading 'uri')")
                >>= λ intent. with_qr P intent
          ])
      answers s username draft (some intent) =
          Keeps-bind P (emit P.client username payment_intent_created intent)
            (λ _. with_qr P intent) (λ w. refl) (λ _. with_qr-Keeps P intent)
      answers s username draft none =
          Keeps-bind P (find_by_memo P draft.consumer_id draft.memo) _
            (find_by_memo-Keeps P draft.consumer_id draft.memo)
            λ existing.
              Keeps-bind P
                (or_throw existing (unexpected "Cannot read properties of null (reading 'uri')")) _
                (or_throw-Keeps P existing
                  (unexpected "Cannot read properties of null (reading 'uri')"))
                (with_qr-Keeps P)

  unless_existing-Evolves :
      (consumer_id memo : String) (rest : M (World P.client) PaymentIntentView)
      → Evolves P none rest
      → Evolves P none (unless_existing P consumer_id memo rest)
  unfolding unless_existing
  unless_existing-Evolves consumer_id memo rest h =
      Evolves-after P none (find_by_memo P consumer_id memo) _
        (find_by_memo-Keeps P consumer_id memo) go
    where
      go :
          (existing : Option PaymentIntent)
          → Evolves P none (elim existing [ some intent ↦ with_qr P intent | none ↦ rest ])
      go (some intent) = Keeps-Evolves P none (with_qr P intent) (with_qr-Keeps P intent)
      go none = h

  create_with-Evolves :
      (s : Supply) (c : GatewayConsumer) (code issuer memo : Option String)
      (build : Consumer → ResolvedAsset → String → M (World P.client) PaymentIntentView)
      → ((local : Consumer) (asset : ResolvedAsset) (m : String)
          → Evolves P none (build local asset m))
      → Evolves P none (create_with P s c code issuer memo build)
  unfolding create_with
  create_with-Evolves s c code issuer memo build h =
      Evolves-after P none (prepare P s c code issuer memo) _ (prepare-Keeps P s c code issuer memo)
        λ (local, asset, m).
          unless_existing-Evolves local.id m (build local asset m) (h local asset m)

  pub create_pay-Evolves :
      (s : Supply) (c : GatewayConsumer) (dto : CreatePayPaymentIntentDto)
      → Evolves P none (create_pay P s c dto)
  unfolding create_pay pay_draft
  create_pay-Evolves s c dto =
      create_with-Evolves s c dto.asset_code dto.asset_issuer dto.memo _ λ local asset m.
        store-Evolves s c.username (pay_draft P s c dto local.id asset m)
          (record { status = refl; tx_hash = refl; reference = refl })

  pub create_tx-Evolves :
      (s : Supply) (c : GatewayConsumer) (dto : CreateTxPaymentIntentDto)
      → Evolves P none (create_tx P s c dto)
  unfolding create_tx tx_draft
  create_tx-Evolves s c dto =
      create_with-Evolves s c dto.asset_code dto.asset_issuer dto.memo _ λ local asset m.
        Evolves-after P none (build_transaction P c dto asset m) _
          (build_transaction-Keeps P c dto asset m)
          λ xdr.
            store-Evolves s c.username (tx_draft P s c dto local.id asset m xdr)
              (record { status = refl; tx_hash = refl; reference = refl })
