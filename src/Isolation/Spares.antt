-- ===== src/Isolation/Spares.antt =====
-- What one consumer's requests leave alone: the rows of every other consumer.
use comos_pay_community_serv.Base.{
  String, Bool, M, Option-cases, Run, arith, done, eq_iff, fail, false, inl, inr, pure, refl, some,
  subst, sym, true, world, ◌>>=◌, ◌∙◌, ◌≡◌, ◌≢◌,
}
use comos_pay_community_serv.Isolation.Holds.{Holds, Holds-refl, create-Holds, update-Holds}
use comos_pay_community_serv.Prisma.Schema.{Consumer, consumer_clash}
use comos_pay_community_serv.Gateway.Consumer.{GatewayConsumer}
use comos_pay_community_serv.Prisma.Client.{IsLawfulClient, consumer_key}
use comos_pay_community_serv.Http.ReadOnly.{IsReader}
use comos_pay_community_serv.Platform.{Platform, Supply, World, owned_by, resolve_consumer}
use comos_pay_community_serv.Prisma.Table.{Write, conflict, created, missing, written}
use comos_pay_community_serv.Platform.Tenants.{fresh_row, has_name, renewed}

module _ (P : Platform) where
  -- The id is of a stored consumer with another username.
  abbrev pub IsAnothers : World P.client → String → String → Type 0
  IsAnothers w username consumer_id =
      (o : Consumer) × (P.client.consumer.get consumer_id w.consumers ≡ some o)
      × (o.apisix_username ≢ username)

  abbrev pub IsOther : String → Consumer → Type 0
  IsOther username o = o.apisix_username ≢ username

  -- From `w` to `w'` no consumer with another username is changed, and no customer, product,
  -- intent or endpoint of one.
  pub record Spares (username : String) (w w' : World P.client) : Type 0 where
    pub consumers : Holds P.client.consumer (IsOther username) w.consumers w'.consumers
    pub customers :
        Holds P.client.customer (λ r. IsAnothers w username r.consumer_id) w.customers w'.customers
    pub products :
        Holds P.client.product (λ r. IsAnothers w username r.consumer_id) w.products w'.products
    pub intents :
        Holds P.client.payment_intent
          (λ r. IsAnothers w username r.consumer_id)
          w.intents
          w'.intents
    pub endpoints :
        Holds P.client.webhook_endpoint
          (λ r. IsAnothers w username r.consumer_id)
          w.endpoints
          w'.endpoints

  abbrev pub IsSparing : {A : Type 0} → String → M (World P.client) A → Type 0
  IsSparing username m = (w : World P.client) → Spares username w (world (m w))

module _ (P : Platform) (username : String) where
  -- The five tables are as they were.
  pub untouched :
      (w w' : World P.client)
      → w'.consumers ≡ w.consumers
      → w'.customers ≡ w.customers
      → w'.products ≡ w.products
      → w'.intents ≡ w.intents
      → w'.endpoints ≡ w.endpoints
      → Spares P username w w'
  untouched w w' co cu pr pi en = record {
    consumers = Holds-refl P.client.consumer _ w.consumers w'.consumers co;
    customers = Holds-refl P.client.customer _ w.customers w'.customers cu;
    products = Holds-refl P.client.product _ w.products w'.products pr;
    intents = Holds-refl P.client.payment_intent _ w.intents w'.intents pi;
    endpoints = Holds-refl P.client.webhook_endpoint _ w.endpoints w'.endpoints en;
  }

  pub Spares-refl : (w : World P.client) → Spares P username w w
  Spares-refl w = untouched w w refl refl refl refl refl

  pub Spares-trans :
      (w w1 w2 : World P.client)
      → Spares P username w w1
      → Spares P username w1 w2
      → Spares P username w w2
  Spares-trans w w1 w2 h k = record {
    consumers = λ j r g o. k.consumers j r (h.consumers j r g o) o;
    customers = λ j r g f. k.customers j r (h.customers j r g f) (still r.consumer_id f);
    products = λ j r g f. k.products j r (h.products j r g f) (still r.consumer_id f);
    intents = λ j r g f. k.intents j r (h.intents j r g f) (still r.consumer_id f);
    endpoints = λ j r g f. k.endpoints j r (h.endpoints j r g f) (still r.consumer_id f);
  }
    where
      still : (id : String) → IsAnothers P w username id → IsAnothers P w1 username id
      still id (o, there, other) = (o, h.consumers id o there other, other)

  pub reader-IsSparing :
      {A : Type 0} (m : M (World P.client) A) → IsReader m → IsSparing P username m
  reader-IsSparing m r w = subst (Spares P username w) (sym (r w)) (Spares-refl w)

  -- A bind spares what its first part spares and, from where that returns, its second part.
  pub bind-Spares :
      {A B : Type 0} (m : M (World P.client) A) (f : A → M (World P.client) B) (w : World P.client)
      → Spares P username w (world (m w))
      → ((a : A) (v : World P.client) → m w ≡ done a v → Spares P username v (world (f a v)))
      → Spares P username w (world ((m >>= f) w))
  bind-Spares {A} {B} m f w h k = go (m w) refl
    where
      go : (o : Run (World P.client) A) → m w ≡ o → Spares P username w (world ((m >>= f) w))
      go (done a v) e =
          let h' : Spares P username w v =
            subst (λ (x : Run (World P.client) A). Spares P username w (world x)) e h in
          rw (e, ◌>>=◌) (Spares-trans w v (world (f a v)) h' (k a v e))
      go (fail x v) e =
          rw (e, ◌>>=◌) (subst (λ (x : Run (World P.client) A). Spares P username w (world x)) e h)

  pub IsSparing-bind :
      {A B : Type 0} (m : M (World P.client) A) (f : A → M (World P.client) B)
      → IsSparing P username m
      → ((a : A) → IsSparing P username (f a))
      → IsSparing P username (m >>= f)
  IsSparing-bind m f h k w = bind-Spares m f w (h w) (λ a v e. k a v)

  pub IsSparing-pure :
      {A B : Type 0} (m : M (World P.client) A) (g : A → B)
      → IsSparing P username m
      → IsSparing P username (m >>= λ a. pure (g a))
  IsSparing-pure m g h = IsSparing-bind m (λ a. pure (g a)) h (λ a. Spares-refl)

  pub reading-IsSparing :
      {A B : Type 0} (m : M (World P.client) A) (g : A → B)
      → IsReader m
      → IsSparing P username (m >>= λ a. pure (g a))
  reading-IsSparing m g r = IsSparing-pure m g (reader-IsSparing m r)

  -- The consumer of the join is not a foreign one.
  pub owned-apart :
      (w : World P.client) (id : String)
      → owned_by P.client w username id ≡ true
      → IsAnothers P w username id
      → false ≡ true
  owned-apart w id own (o, there, other) =
      absurd (other ((eq_iff o.apisix_username username).0 (rw (there, owned_by) at own)))

  pub named-apart :
      (w : World P.client) (c : Consumer) (id : String)
      → P.client.consumer.get c.id w.consumers ≡ some c
      → c.apisix_username ≡ username
      → id ≡ c.id
      → IsAnothers P w username id
      → false ≡ true
  named-apart w c id stored named same (o, there, other) =
      let one : c ≡ o = cc (stored, there, same) in
      absurd (other (subst (λ (x : Consumer). x.apisix_username ≡ username) one named))

module _ (P : Platform) (law : IsLawfulClient P.client) where
  upsert-Holds :
      (p : Consumer → Bool) (c : Consumer) (f : Consumer → Consumer) (s t : P.client.consumer.State)
      (r : Consumer) (username : String)
      → ((q : Consumer) → (f q).id ≡ q.id)
      → ((q : Consumer) → p q ≡ true → q.apisix_username ≡ username)
      → P.client.consumer.upsert p c f s ≡ written r t
      → Holds P.client.consumer (IsOther P username) s t
  upsert-Holds p c f s t r username fixes finds e =
      elim (Option-cases (P.client.consumer.find_first p s)) [
        | inl none_found ↦
            let k : created c (P.client.consumer.create c s) ≡ written r t =
              sym (law.consumer.upsert_none p c f s none_found) ∙ e in
            elim (Option-cases (P.client.consumer.create c s)) [
              | inl refused ↦ absurd (ground arith)
              | inr (u, made) ↦
                  create-Holds consumer_key consumer_clash P.client.consumer law.consumer _ c s t
                    (ground arith)
            ]
        | inr (q, found_one) ↦
            let (there, hit) = law.consumer.find_first_some p s q found_one in
            update-Holds consumer_key consumer_clash P.client.consumer law.consumer _ q.id f s t r
              fixes (sym (law.consumer.upsert_some p c f s q found_one) ∙ e)
              λ q' g other.
                let same : q ≡ q' = cc (there, g) in
                absurd (
                  other (subst (λ (x : Consumer). x.apisix_username ≡ username) same (finds q hit)))
      ]

  pub resolve_consumer-IsSparing :
      (s : Supply) (c : GatewayConsumer) → IsSparing P c.username (resolve_consumer P.client s c)
  unfolding resolve_consumer
  resolve_consumer-IsSparing s c w =
      go
        (P.client.consumer.upsert (has_name P.client c) (fresh_row P.client s c)
          (renewed P.client c) w.consumers)
        refl
    where
      go :
          (o : Write Consumer P.client.consumer.State)
          → P.client.consumer.upsert
              (has_name P.client c)
              (fresh_row P.client s c)
              (renewed P.client c)
              w.consumers
            ≡ o
          → Spares P c.username w (world (resolve_consumer P.client s c w))
      go (written r t) e =
          rw (e, resolve_consumer)
            (record {
              consumers =
                  upsert-Holds (has_name P.client c) (fresh_row P.client s c) (renewed P.client c)
                    w.consumers t r c.username (λ q. refl)
                    (λ q h. (eq_iff q.apisix_username c.username).0 h) e;
              customers = Holds-refl P.client.customer _ w.customers w.customers refl;
              products = Holds-refl P.client.product _ w.products w.products refl;
              intents = Holds-refl P.client.payment_intent _ w.intents w.intents refl;
              endpoints = Holds-refl P.client.webhook_endpoint _ w.endpoints w.endpoints refl;
            })
      go missing e = rw (e, resolve_consumer) (Spares-refl P c.username w)
      go conflict e = rw (e, resolve_consumer) (Spares-refl P c.username w)

  -- The local consumer is resolved, and `rest` reads.
  pub resolving-IsSparing :
      {A : Type 0} (s : Supply) (c : GatewayConsumer) (rest : Consumer → M (World P.client) A)
      → ((local : Consumer) → IsReader (rest local))
      → IsSparing P c.username (resolve_consumer P.client s c >>= rest)
  resolving-IsSparing s c rest reads =
      IsSparing-bind P c.username (resolve_consumer P.client s c) rest
        (resolve_consumer-IsSparing s c)
        (λ local. reader-IsSparing P c.username (rest local) (reads local))
