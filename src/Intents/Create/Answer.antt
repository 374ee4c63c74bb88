-- ===== src/Intents/Create/Answer.antt =====
-- What a creation answers.
use comos_pay_community_serv.Base.{
  String, true, Option, none, some, ◌≡◌, inl, inr, refl, sym, ap, arith, eq_iff, eq_refl, M, done,
  lift, pure, ◌>>=◌, >>=-eq-done, Outcome, value, raised, Option-cases, subst,
}
use comos_pay_community_serv.Prisma.Schema.{
  Consumer, PaymentIntent, consumer_clash, same_value, intent_clash,
}
use comos_pay_community_serv.Prisma.Client.{IsLawfulClient, intent_key, consumer_key}
use comos_pay_community_serv.Gateway.Consumer.{GatewayConsumer}
use comos_pay_community_serv.Platform.{Platform, World, Supply, resolve_consumer}
use comos_pay_community_serv.Platform.Uniqueness.{IsUnique, put-IsUnique}
use comos_pay_community_serv.Platform.Tenants.{HasUniqueConsumers, resolve_consumer-IsLocal}
use comos_pay_community_serv.Intents.Resolve.{ResolvedAsset, resolve_asset}
use comos_pay_community_serv.Intents.Memo.{resolve_memo}
use comos_pay_community_serv.Intents.Store.{PaymentIntentView, with_qr, has_memo, find_by_memo}
use comos_pay_community_serv.Intents.Create.{prepare, unless_existing, create_with, store}
use comos_pay_community_serv.Intents.Create.Race.{stamped, store-cases, store-qr}

module _ (P : Platform) where
  abbrev pub HasUniqueIntents : World P.client → Type 0
  HasUniqueIntents w = IsUnique intent_key intent_clash P.client.payment_intent w.intents

  -- What a view that a creation returns says of the table: it is the row of the consumer's memo.
  pub record IsAnswer (consumer_id memo : String) (v : PaymentIntentView) (w : World P.client)
      : Type 0 where
    pub row : P.client.payment_intent.get v.intent.id w.intents ≡ some v.intent
    pub carries : has_memo P consumer_id memo v.intent ≡ true
    pub qr : P.qr v.intent.uri ≡ some v.qr

  pub with_qr-done :
      (r : PaymentIntent) (w w' : World P.client) (v : PaymentIntentView)
      → with_qr P r w ≡ done v w'
      → (v.intent ≡ r) × (w' ≡ w) × (P.qr r.uri ≡ some v.qr)
  unfolding with_qr
  with_qr-done r w w' v h = elim (Option-cases (P.qr r.uri)) [
    | inl q ↦ absurd (ground arith)
    | inr (code, q) ↦ (ground arith, ground arith, ground arith)
  ]

  pub prepare-parts :
      (s : Supply) (c : GatewayConsumer) (code issuer memo : Option String) (w w' : World P.client)
      (local : Consumer) (asset : ResolvedAsset) (m : String)
      → prepare P s c code issuer memo w ≡ done (local, asset, m) w'
      → (resolve_consumer P.client s c w ≡ done local w')
        × (resolve_asset P code issuer ≡ value asset)
        × (resolve_memo memo s.random ≡ value m)
  unfolding prepare
  prepare-parts s c code issuer memo w w' local asset m h =
      let (l, w1, e, k) = >>=-eq-done (resolve_consumer P.client s c) _ w h in
      go l w1 (resolve_asset P code issuer) (resolve_memo memo s.random) refl refl e k
    where
      go :
          (l : Consumer) (w1 : World P.client) (a : Outcome ResolvedAsset) (n : Outcome String)
          → resolve_asset P code issuer ≡ a
          → resolve_memo memo s.random ≡ n
          → resolve_consumer P.client s c w ≡ done l w1
          → (lift a >>= λ x. lift n >>= λ y. pure {A = Consumer × ResolvedAsset × String} (l, x, y))
              w1
            ≡ done (local, asset, m) w'
          → (resolve_consumer P.client s c w ≡ done local w')
            × (resolve_asset P code issuer ≡ value asset)
            × (resolve_memo memo s.random ≡ value m)
      go l w1 (value a) (value n) ea en e k = (ground arith, ground arith, ground arith)
      go l w1 (value a) (raised x) ea en e k = absurd (ground arith)
      go l w1 (raised x) n ea en e k = absurd (ground arith)

same_value_comm : (a b : Option String) → same_value a b ≡ same_value b a
same_value_comm none none = refl
same_value_comm none (some b) = refl
same_value_comm (some a) none = refl
same_value_comm (some a) (some b) = ground (arith, eq_iff a b, eq_iff b a)

pub intent_clash_comm : (a b : PaymentIntent) → intent_clash a b ≡ intent_clash b a
intent_clash_comm a b = ground (
  arith,
  eq_iff a.consumer_id b.consumer_id,
  eq_iff b.consumer_id a.consumer_id,
  eq_iff a.memo b.memo,
  eq_iff b.memo a.memo,
  same_value_comm a.tx_hash b.tx_hash,
)

module _ (P : Platform) (law : IsLawfulClient P.client) where
  -- `store` answers with the row of the memo, and keeps the constraints.
  pub store-IsAnswer :
      (s : Supply) (username : String) (draft : PaymentIntent) (w w' : World P.client)
      (v : PaymentIntentView)
      → draft.tx_hash ≡ none
      → HasUniqueIntents P w
      → store P s username draft w ≡ done v w'
      → IsAnswer P draft.consumer_id draft.memo v w'
        × (w'.consumers ≡ w.consumers)
        × HasUniqueIntents P w'
  store-IsAnswer s username draft w w' v unhashed u h =
      elim (store-cases P law s username draft w w' v h) [
        | inl (e, k) ↦ (
          record {
            row = ground (arith, k.rows v.intent.id, eq_refl draft.id);
            carries = ground (arith, eq_refl draft.consumer_id, eq_refl draft.memo);
            qr = store-qr P law s username draft w w' v h;
          },
          k.consumers,
          put-IsUnique intent_key intent_clash P.client.payment_intent intent_clash_comm draft.id
              (stamped P s draft) w.intents w'.intents k.rows
              (λ j q g ne. ground (arith, k.free j q g)) u,
        )
        | inr (e, there, same) ↦ (
          record {
            row = rw e there;
            carries = same;
            qr = store-qr P law s username draft w w' v h;
          },
          ap (λ (x : World P.client). x.consumers) e,
          subst (HasUniqueIntents P) (sym e) u,
        )
      ]

  -- What is asked of the last part of a creation: it answers with the row of the memo.
  abbrev pub Builds :
      (Consumer → ResolvedAsset → String → M (World P.client) PaymentIntentView) → Type 0
  Builds build =
      (local : Consumer) (asset : ResolvedAsset) (m : String) (w w' : World P.client)
      (v : PaymentIntentView)
      → HasUniqueIntents P w
      → build local asset m w ≡ done v w'
      → IsAnswer P local.id m v w' × (w'.consumers ≡ w.consumers) × HasUniqueIntents P w'

  pub unless_existing-IsAnswer :
      (id m : String) (rest : M (World P.client) PaymentIntentView) (w w' : World P.client)
      (v : PaymentIntentView)
      → HasUniqueIntents P w
      → unless_existing P id m rest w ≡ done v w'
      → ((rest w ≡ done v w')
          → IsAnswer P id m v w' × (w'.consumers ≡ w.consumers) × HasUniqueIntents P w')
      → IsAnswer P id m v w' × (w'.consumers ≡ w.consumers) × HasUniqueIntents P w'
  unfolding unless_existing find_by_memo
  unless_existing-IsAnswer id m rest w w' v u h new =
      elim (Option-cases (P.client.payment_intent.find_first (has_memo P id m) w.intents)) [
        | inl e ↦ new (rw (e, unless_existing) at h)
        | inr (r, e) ↦
            let k : with_qr P r w ≡ done v w' = rw (e, unless_existing) at h in
            let (same, still, code) = with_qr-done P r w w' v k in
            let (there, hit) = law.payment_intent.find_first_some (has_memo P id m) w.intents r e in
            (
              record {
                row =
                    subst
                      (λ (x : PaymentIntent). P.client.payment_intent.get x.id w'.intents ≡ some x)
                      (sym same)
                      (subst
                        (λ (x : World P.client).
                          P.client.payment_intent.get r.id x.intents ≡ some r)
                        (sym still) there);
                carries = subst (λ x. has_memo P id m x ≡ true) (sym same) hit;
                qr = subst (λ (x : PaymentIntent). P.qr x.uri ≡ some v.qr) (sym same) code;
              },
              ap (λ (x : World P.client). x.consumers) still,
              subst (HasUniqueIntents P) (sym still) u,
            )
      ]

  -- Who a creation answers for, and what holds of the world after it.
  pub record IsCreated (username : String) (m : String) (v : PaymentIntentView)
      (w' : World P.client) : Type 0 where
    pub local : Consumer
    pub stored : P.client.consumer.get local.id w'.consumers ≡ some local
    pub named : local.apisix_username ≡ username
    pub answer : IsAnswer P local.id m v w'
    pub consumers : HasUniqueConsumers P.client w'
    pub intents : HasUniqueIntents P w'

  pub create_with-IsCreated :
      (s : Supply) (c : GatewayConsumer) (code issuer memo : Option String)
      (build : Consumer → ResolvedAsset → String → M (World P.client) PaymentIntentView)
      (w w' : World P.client) (v : PaymentIntentView)
      → Builds build
      → HasUniqueConsumers P.client w
      → HasUniqueIntents P w
      → create_with P s c code issuer memo build w ≡ done v w'
      → (m : String) × (resolve_memo memo s.random ≡ value m) × IsCreated c.username m v w'
  unfolding create_with
  create_with-IsCreated s c code issuer memo build w w' v builds uc ui h =
      let ((local, asset, m), w1, e, k) = >>=-eq-done (prepare P s c code issuer memo) _ w h in
      let (found_local, _, memo_ok) = prepare-parts P s c code issuer memo w w1 local asset m e in
      let l = resolve_consumer-IsLocal P.client law s c w w1 local found_local in
      let ui1 : HasUniqueIntents P w1 =
        subst (IsUnique intent_key intent_clash P.client.payment_intent)
          (sym (ap (λ (x : World P.client). x.intents) l.rest)) ui in
      let (answer, same, ui') =
        unless_existing-IsAnswer local.id m (build local asset m) w1 w' v ui1 k
          (builds local asset m w1 w' v ui1) in
      (
        m,
        memo_ok,
        record {
          local = local;
          stored = subst (λ t. P.client.consumer.get local.id t ≡ some local) (sym same) l.stored;
          named = l.named;
          answer = answer;
          consumers =
              subst (IsUnique consumer_key consumer_clash P.client.consumer) (sym same)
                (l.unique uc);
          intents = ui';
        },
      )
