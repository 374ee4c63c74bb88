-- ===== src/Webhooks/Dispatcher/Fanout.antt =====
-- Which deliveries an event makes.
use comos_pay_community_serv.Base.{
  ℕ, String, true, Option, none, some, List, [], ◌∷◌, Memᴰ, ◌≡◌, ◌↔◌, ◌⊎◌, inl, inr, refl, ap, sym,
  ◌∙◌, arith, ◌==◌, eq_iff, eq_refl, if◌then◌else◌, done, world, Bool-cases, Option-cases, subst,
  any, All-mem, All-keep, mem-keep, ◌>>=◌,
}
use comos_pay_community_serv.Prisma.Schema.{
  PaymentIntent, WebhookEndpoint, WebhookDelivery, WebhookEventType, event_eq, delivery_pending,
}
use comos_pay_community_serv.Prisma.Client.{IsLawfulClient}
use comos_pay_community_serv.Prisma.Table.{Write, written, missing, conflict, whole, unordered}
use comos_pay_community_serv.Platform.{Platform, World, WebhookEvent, owned_by}
use comos_pay_community_serv.Webhooks.Dispatcher.{
  Transport, Codec, rounds, finalized, finalize, attempt, new_delivery, create_and_deliver,
  is_enabled, is_subscribed, targets, Attempted,
}

event_eq-true : (a b : WebhookEventType) → event_eq a b ≡ true → a ≡ b
event_eq-true a b h = ground arith

event_eq_refl : (a : WebhookEventType) → event_eq a a ≡ true
event_eq_refl a = ground arith

event_eq_iff : (a b : WebhookEventType) → (event_eq a b ≡ true) ↔ (a ≡ b)
event_eq_iff a b = (event_eq-true a b, λ e. subst (λ x. event_eq a x ≡ true) e (event_eq_refl a))

module _ (P : Platform) where
  -- The endpoint is the consumer's, enabled, and subscribed to the event's type.
  pub record IsTarget (w : World P.client) (event : WebhookEvent) (e : WebhookEndpoint)
      : Type 0 where
    pub stored : P.client.webhook_endpoint.get e.id w.endpoints ≡ some e
    pub enabled : e.enabled ≡ true
    pub owned : owned_by P.client w event.consumer_username e.consumer_id ≡ true
    pub subscribed : (e.event_types ≡ []) ⊎ Memᴰ event.type e.event_types

any_event :
    (t : WebhookEventType) (ts : List WebhookEventType) → any (event_eq t) ts ≡ true → Memᴰ t ts
any_event t [] h = cc
any_event t (x ∷ ts) h = elim (Bool-cases (event_eq t x)) [
  | inl e ↦ Memᴰ.head ((event_eq_iff t x).0 e)
  | inr e ↦ Memᴰ.tail (any_event t ts (ground arith))
]

event_any :
    (t : WebhookEventType) (ts : List WebhookEventType) → Memᴰ t ts → any (event_eq t) ts ≡ true
event_any t [] m = elim m [ ]
event_any t (x ∷ ts) (Memᴰ.head e) = ground (arith, event_eq_iff t x)
event_any t (x ∷ ts) (Memᴰ.tail m) = ground (arith, event_any t ts m)

subscribed_mem :
    (type : WebhookEventType) (ts : List WebhookEventType)
    → elim ts [ [] ↦ true | t ∷ rest ↦ any (event_eq type) (t ∷ rest) ] ≡ true
    → (ts ≡ []) ⊎ Memᴰ type ts
subscribed_mem type [] h = inl refl
subscribed_mem type (t ∷ ts) h = inr (any_event type (t ∷ ts) h)

mem_subscribed :
    (type : WebhookEventType) (ts : List WebhookEventType)
    → (ts ≡ []) ⊎ Memᴰ type ts
    → elim ts [ [] ↦ true | t ∷ rest ↦ any (event_eq type) (t ∷ rest) ] ≡ true
mem_subscribed type [] h = refl
mem_subscribed type (t ∷ ts) (inl e) = absurd (ground arith)
mem_subscribed type (t ∷ ts) (inr m) = event_any type (t ∷ ts) m

module _ (P : Platform) (law : IsLawfulClient P.client) where
  pub targets-IsTarget :
      (w : World P.client) (event : WebhookEvent) (e : WebhookEndpoint)
      → Memᴰ e (targets P w event)
      → IsTarget P w event e
  unfolding targets
  targets-IsTarget w event e m =
      All-mem (IsTarget P w event) (targets P w event)
        (All-keep
          (λ x.
            (P.client.webhook_endpoint.get x.id w.endpoints ≡ some x)
            × (is_enabled P w event.consumer_username x ≡ true))
          (IsTarget P w event) (is_subscribed event.type)
          (P.client.webhook_endpoint.find_many (is_enabled P w event.consumer_username)
            (whole unordered) w.endpoints)
          (λ x (s, k) t. record {
            stored = s;
            enabled = ground arith;
            owned = ground arith;
            subscribed = subscribed_mem event.type x.event_types t;
          })
          (law.webhook_endpoint.find_many_sound (is_enabled P w event.consumer_username)
            (whole unordered) w.endpoints))
        m

  pub IsTarget-targets :
      (w : World P.client) (event : WebhookEvent) (e : WebhookEndpoint)
      → IsTarget P w event e
      → Memᴰ e (targets P w event)
  unfolding targets
  IsTarget-targets w event e t =
      mem-keep (is_subscribed event.type) _
        (law.webhook_endpoint.find_many_complete (is_enabled P w event.consumer_username) unordered
          w.endpoints e.id e t.stored (ground (arith, t.enabled, t.owned)))
        (mem_subscribed event.type e.event_types t.subscribed)

module _ (P : Platform) (C : Codec) where
  -- The delivery of the endpoint as its rounds leave it: it was pending and not attempted before
  -- them, and records their result, their number, the last answer and when they ended.
  abbrev pub delivered :
      Transport
      → String
      → ℕ
      → WebhookEndpoint
      → WebhookEventType
      → String
      → PaymentIntent
      → WebhookDelivery
  delivered T id now e type event_id intent =
      let new : WebhookDelivery = record {
        id = id;
        endpoint_id = e.id;
        event_type = type;
        event_id = event_id;
        payload = C.body event_id type now intent;
        status = delivery_pending;
        attempts = 0;
        response_status = none;
        error = none;
        last_attempt_at = none;
        created_at = now;
      } in
      let a : Attempted = rounds P C T e new P.config.max_attempts 0 0 none none in
      record new {
        status = a.result;
        attempts = a.tries;
        response_status = a.code;
        error = a.message;
        last_attempt_at = some T.finished;
      }

  pub record Delivers (T : Transport) (id : String) (now : ℕ) (e : WebhookEndpoint)
      (type : WebhookEventType) (event_id : String) (intent : PaymentIntent) (w v : World P.client)
      : Type 0 where
    pub fresh : P.client.webhook_delivery.get id w.deliveries ≡ none
    pub after :
        (j : String)
        → P.client.webhook_delivery.get j v.deliveries ≡ (
            if id == j
            then some (delivered T id now e type event_id intent)
            else P.client.webhook_delivery.get j w.deliveries)
    pub rest : v ≡ record w { deliveries = v.deliveries }

module _ (P : Platform) (C : Codec) (law : IsLawfulClient P.client) where
  finalize_stored :
      (id : String) (a : Attempted) (now : ℕ) (new : WebhookDelivery) (w : World P.client)
      → P.client.webhook_delivery.get id w.deliveries ≡ some new
      → (t : P.client.webhook_delivery.State) × (finalize P C id a now w
          ≡ done (finalized P C a now new) (record w { deliveries = t }))
        × ((j : String)
            → P.client.webhook_delivery.get j t ≡ (
                if id == j
                then some (finalized P C a now new)
                else P.client.webhook_delivery.get j w.deliveries))
  unfolding finalize
  finalize_stored id a now new w there =
      go (P.client.webhook_delivery.update id (finalized P C a now) w.deliveries) refl
    where
      go :
          (o : Write WebhookDelivery P.client.webhook_delivery.State)
          → P.client.webhook_delivery.update id (finalized P C a now) w.deliveries ≡ o
          → (t : P.client.webhook_delivery.State) × (finalize P C id a now w
              ≡ done (finalized P C a now new) (record w { deliveries = t }))
            × ((j : String)
                → P.client.webhook_delivery.get j t ≡ (
                    if id == j
                    then some (finalized P C a now new)
                    else P.client.webhook_delivery.get j w.deliveries))
      go (written r t) e =
          let (q, g, same) = law.webhook_delivery.update_written id _ w.deliveries t r e in
          let k : q ≡ new = cc (g, there) in
          let same' : r ≡ finalized P C a now new = same ∙ ap (finalized P C a now) k in
          (
            t,
            rw (e, finalize) (ap (λ x. done x (record w { deliveries = t })) same'),
            λ j.
                subst
                  (λ x.
                    P.client.webhook_delivery.get j t
                    ≡ (if id == j then some x else P.client.webhook_delivery.get j w.deliveries))
                  same' (law.webhook_delivery.get-update id _ w.deliveries t r j (λ x. refl) e),
          )
      go missing e =
          let k : P.client.webhook_delivery.get id w.deliveries ≡ none =
            law.webhook_delivery.update_missing id _ w.deliveries e in
          absurd (ground arith)
      go conflict e =
          let (r, q, _, _, _, clash) = law.webhook_delivery.update_refused id _ w.deliveries e in
          absurd (cc clash)

  -- A delivery is refused where its id is taken, and else it is stored with its outcome.
  pub create_and_deliver-cases :
      (T : Transport) (id : String) (now : ℕ) (e : WebhookEndpoint) (type : WebhookEventType)
      (event_id : String) (intent : PaymentIntent) (w : World P.client)
      → ((world (create_and_deliver P C T id now e type event_id intent w) ≡ w)
          × ((d : WebhookDelivery) × (P.client.webhook_delivery.get id w.deliveries ≡ some d)))
        ⊎ Delivers P C T id now e type event_id intent w
            (world (create_and_deliver P C T id now e type event_id intent w))
  unfolding create_and_deliver attempt
  create_and_deliver-cases T id now e type event_id intent w =
      go (P.client.webhook_delivery.create new w.deliveries) refl
    where
      new : WebhookDelivery
      new = new_delivery P C id e type event_id now intent

      fresh :
          (t : P.client.webhook_delivery.State)
          → P.client.webhook_delivery.create new w.deliveries ≡ some t
          → P.client.webhook_delivery.get id w.deliveries ≡ none
      fresh t k = elim (Option-cases (P.client.webhook_delivery.get id w.deliveries)) [
        | inl e ↦ e
        | inr (q, there) ↦
            absurd ((law.webhook_delivery.create_new new w.deliveries t id q k there).0 refl)
      ]

      go :
          (o : Option P.client.webhook_delivery.State)
          → P.client.webhook_delivery.create new w.deliveries ≡ o
          → ((world (create_and_deliver P C T id now e type event_id intent w) ≡ w)
              × ((d : WebhookDelivery) × (P.client.webhook_delivery.get id w.deliveries ≡ some d)))
            ⊎ Delivers P C T id now e type event_id intent w
                (world (create_and_deliver P C T id now e type event_id intent w))
      go none k =
          let (q, there, taken) = law.webhook_delivery.create_refused new w.deliveries k in
          inl (
            rw (k, create_and_deliver) refl,
            (
              q,
              subst (λ i. P.client.webhook_delivery.get i w.deliveries ≡ some q)
                  ((eq_iff q.id id).0 (ground arith)) there,
            ),
          )
      go (some t) k =
          let stored : P.client.webhook_delivery.get id t ≡ some new =
            ground (arith, law.webhook_delivery.get-create new w.deliveries t id k, eq_refl id) in
          let (t', ends, after) =
            finalize_stored id (rounds P C T e new P.config.max_attempts 0 0 none none) T.finished
              new (record w { deliveries = t }) stored in
          let same : create_and_deliver P C T id now e type event_id intent w
              ≡ done tt (record w { deliveries = t' }) =
            rw (k, create_and_deliver) (rw (ends, ◌>>=◌) refl) in
          inr (
            subst (Delivers P C T id now e type event_id intent w) (sym (ap world same)) (record {
              fresh = fresh t k;
              after = λ j.
                  ground (arith, after j, law.webhook_delivery.get-create new w.deliveries t j k);
              rest = refl;
            }))
