-- ===== src/Intents/Create/Idempotent.antt =====
-- A creation that is repeated with the memo of the first.
use comos_pay_community_serv.Base.{
  none, String, Option, some, ◌≡◌, inl, inr, refl, sym, ap, ◌∙◌, arith, ◌==◌, eq_iff, M, done,
  ◌>>=◌, value, Option-cases, subst, and_true, >>=-eq-done, Exception, or_throw,
}
use comos_pay_community_serv.Prisma.Schema.{Consumer}
use comos_pay_community_serv.Prisma.Client.{IsLawfulClient}
use comos_pay_community_serv.Stellar.Horizon.{Reply-cases}
use comos_pay_community_serv.Gateway.Consumer.{GatewayConsumer}
use comos_pay_community_serv.Platform.{Platform, World, Supply, resolve_consumer}
use comos_pay_community_serv.Platform.Tenants.{resolve_consumer-IsLocal, resolve_consumer-again}
use comos_pay_community_serv.Intents.Resolve.{ResolvedAsset, resolve_asset}
use comos_pay_community_serv.Intents.Memo.{resolve_memo}
use comos_pay_community_serv.Intents.Store.{PaymentIntentView, with_qr, has_memo, find_by_memo}
use comos_pay_community_serv.Intents.Create.{
  CreatePayPaymentIntentDto, CreateTxPaymentIntentDto, prepare, unless_existing, create_with, store,
  pay_draft, build_transaction, tx_draft, load_source, StellarNetwork, resolve_network,
}
use comos_pay_community_serv.Intents.Create.Answer.{
  HasUniqueIntents, IsAnswer, IsCreated, Builds, store-IsAnswer,
}

module _ (P : Platform) (law : IsLawfulClient P.client) where
  -- The lookup by the memo of an answer finds it.
  find_answer :
      (id m : String) (v : PaymentIntentView) (w : World P.client)
      → HasUniqueIntents P w
      → IsAnswer P id m v w
      → P.client.payment_intent.find_first (has_memo P id m) w.intents ≡ some v.intent
  find_answer id m v w u a =
      elim (Option-cases (P.client.payment_intent.find_first (has_memo P id m) w.intents)) [
        | inl e ↦ absurd (
            ground (
              arith,
              law.payment_intent.find_first_none (has_memo P id m) w.intents v.intent.id v.intent e
                  a.row,
              a.carries,
            ))
        | inr (r, e) ↦
            let (there, hit) = law.payment_intent.find_first_some (has_memo P id m) w.intents r e in
            let (rc, rm) = and_true (r.consumer_id == id) (r.memo == m) hit in
            let (vc, vm) = and_true (v.intent.consumer_id == id) (v.intent.memo == m) a.carries in
            let same : r.id ≡ v.intent.id = u r.id v.intent.id r v.intent there a.row (
              ground (
                arith,
                eq_iff r.consumer_id id,
                eq_iff v.intent.consumer_id id,
                eq_iff r.memo m,
                eq_iff v.intent.memo m,
                eq_iff r.consumer_id v.intent.consumer_id,
                eq_iff r.memo v.intent.memo,
              )) in
            e
            ∙ sym there
            ∙ subst (λ k. P.client.payment_intent.get k w.intents ≡ some v.intent) (sym same) a.row
      ]

  prepare-done :
      (s : Supply) (c : GatewayConsumer) (code issuer memo : Option String) (w w1 : World P.client)
      (local : Consumer) (asset : ResolvedAsset) (m : String)
      → resolve_consumer P.client s c w ≡ done local w1
      → resolve_asset P code issuer ≡ value asset
      → resolve_memo memo s.random ≡ value m
      → prepare P s c code issuer memo w ≡ done (local, asset, m) w1
  unfolding prepare
  prepare-done s c code issuer memo w w1 local asset m e a n = rw (e, a, n, ◌>>=◌)

  unless_existing-found :
      (id m : String) (rest : M (World P.client) PaymentIntentView) (w : World P.client)
      (v : PaymentIntentView)
      → P.client.payment_intent.find_first (has_memo P id m) w.intents ≡ some v.intent
      → P.qr v.intent.uri ≡ some v.qr
      → unless_existing P id m rest w ≡ done v w
  unfolding unless_existing find_by_memo with_qr
  unless_existing-found id m rest w v hit code = rw (hit, code)

  -- Any creation for the username and the memo of an answer returns it again.
  pub create_with-again :
      (s : Supply) (c : GatewayConsumer) (code issuer memo : Option String)
      (build : Consumer → ResolvedAsset → String → M (World P.client) PaymentIntentView)
      (w : World P.client) (v : PaymentIntentView) (m : String) (asset : ResolvedAsset)
      → IsCreated P law c.username m v w
      → resolve_asset P code issuer ≡ value asset
      → resolve_memo memo s.random ≡ value m
      → (w' : World P.client) × (create_with P s c code issuer memo build w ≡ done v w')
        × (w' ≡ record w { consumers = w'.consumers })
  unfolding create_with
  create_with-again s c code issuer memo build w v m asset k asset_ok memo_ok =
      let (local, w1, e, same) =
        resolve_consumer-again P.client law s c w k.local.id k.local k.consumers k.stored k.named in
      let l = resolve_consumer-IsLocal P.client law s c w w1 local e in
      let rows : w1.intents ≡ w.intents = ap (λ (x : World P.client). x.intents) l.rest in
      let hit : P.client.payment_intent.find_first (has_memo P local.id m) w1.intents
          ≡ some v.intent =
        subst (λ i. P.client.payment_intent.find_first (has_memo P i m) w1.intents ≡ some v.intent)
          (sym same)
          (subst
            (λ t. P.client.payment_intent.find_first (has_memo P k.local.id m) t ≡ some v.intent)
            (sym rows) (find_answer k.local.id m v w k.intents k.answer)) in
      (
        w1,
        rw (prepare-done s c code issuer memo w w1 local asset m e asset_ok memo_ok, ◌>>=◌)
            (unless_existing-found local.id m (build local asset m) w1 v hit k.answer.qr),
        l.rest,
      )

module _ (P : Platform) (law : IsLawfulClient P.client) where
  pub pay-Builds :
      (s : Supply) (c : GatewayConsumer) (dto : CreatePayPaymentIntentDto)
      → Builds P law
          (λ local asset memo. store P s c.username (pay_draft P s c dto local.id asset memo))
  unfolding pay_draft
  pay-Builds s c dto local asset m w w' v u h =
      store-IsAnswer P law s c.username (pay_draft P s c dto local.id asset m) w w' v refl u h

  load_source-world :
      (network : StellarNetwork) (source sequence : String) (w w1 : World P.client)
      → load_source P network source w ≡ done sequence w1
      → w1 ≡ w
  unfolding load_source
  load_source-world network source sequence w w1 h =
      elim (Reply-cases (P.load_account network source)) [
        | inl (a, e) ↦ ground arith
        | inr (inl e) ↦ absurd (ground arith)
        | inr (inr (x, e)) ↦ absurd (ground arith)
      ]

  or_throw-world :
      (o : Option String) (x : Exception) (w w1 : World P.client) (text : String)
      → or_throw o x w ≡ done text w1
      → w1 ≡ w
  or_throw-world none x w w1 text h = absurd (ground arith)
  or_throw-world (some a) x w w1 text h = ground arith

  -- Building the transaction changes nothing.
  build_transaction-world :
      (c : GatewayConsumer) (dto : CreateTxPaymentIntentDto) (asset : ResolvedAsset) (m : String)
      (w w1 : World P.client) (xdr : String)
      → build_transaction P c dto asset m w ≡ done xdr w1
      → w1 ≡ w
  unfolding build_transaction
  build_transaction-world c dto asset m w w1 xdr h =
      let network : StellarNetwork = resolve_network P.config.network c.environment in
      let (sequence, w2, e, k) = >>=-eq-done (load_source P network dto.source) _ w h in
      or_throw-world _ _ w2 w1 xdr k ∙ load_source-world network dto.source sequence w w2 e

  pub tx-Builds :
      (s : Supply) (c : GatewayConsumer) (dto : CreateTxPaymentIntentDto)
      → Builds P law (λ local asset memo. build_transaction P c dto asset memo >>= λ xdr.
          store P s c.username (tx_draft P s c dto local.id asset memo xdr))
  unfolding tx_draft
  tx-Builds s c dto local asset m w w' v u h =
      let (xdr, w1, e, k) = >>=-eq-done (build_transaction P c dto asset m) _ w h in
      let same : w1 ≡ w = build_transaction-world c dto asset m w w1 xdr e in
      store-IsAnswer P law s c.username (tx_draft P s c dto local.id asset m xdr) w w' v refl u (
        subst (λ x. store P s c.username (tx_draft P s c dto local.id asset m xdr) x ≡ done v w')
          same k)
