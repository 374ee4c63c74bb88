-- ===== src/Webhooks/Dispatcher/Events.antt =====
-- What `handleEvent` leaves in the table of the deliveries.
use comos_pay_community_serv.Base.{
  ℕ, String, ◌<>◌, none, some, List, [], ◌∷◌, Memᴰ, ◌≡◌, ◌⊎◌, inl, inr, refl, ap, sym, ◌∙◌, arith,
  ◌==◌, eq_iff, eq_refl, world, Bool-cases, subst, Option-cases,
}
use comos_pay_community_serv.Prisma.Schema.{
  PaymentIntent, WebhookEndpoint, WebhookDelivery, WebhookEventType,
}
use comos_pay_community_serv.Prisma.Client.{IsLawfulClient}
use comos_pay_community_serv.Platform.{Platform, World, WebhookEvent}
use comos_pay_community_serv.Webhooks.Dispatcher.{
  Transport, Codec, create_and_deliver, targets, deliver_all, handle_event,
}
use comos_pay_community_serv.Webhooks.Dispatcher.Fanout.{
  IsTarget, targets-IsTarget, IsTarget-targets, delivered, create_and_deliver-cases,
}

module _ (P : Platform) (C : Codec) (law : IsLawfulClient P.client)
    (T : WebhookEndpoint → Transport) (id : WebhookEndpoint → String) (now : ℕ)
    (type : WebhookEventType) (event_id : String) (intent : PaymentIntent) where
  made : WebhookEndpoint → WebhookDelivery
  made e = delivered P C (T e) (id e) now e type event_id intent

  next : WebhookEndpoint → World P.client → World P.client
  next e w = world (create_and_deliver P C (T e) (id e) now e type event_id intent w)

  step_keeps :
      (e : WebhookEndpoint) (w : World P.client) (j : String) (d : WebhookDelivery)
      → P.client.webhook_delivery.get j w.deliveries ≡ some d
      → P.client.webhook_delivery.get j (next e w).deliveries ≡ some d
  unfolding next
  step_keeps e w j d h =
      elim (create_and_deliver-cases P C law (T e) (id e) now e type event_id intent w) [
        | inl (same, _) ↦ rw same h
        | inr k ↦ elim (Bool-cases (id e == j)) [
          | inr off ↦ ground (arith, k.after j)
          | inl on ↦
              let there : P.client.webhook_delivery.get (id e) w.deliveries ≡ some d =
                subst (λ i. P.client.webhook_delivery.get i w.deliveries ≡ some d)
                  (sym ((eq_iff (id e) j).0 on)) h in
              let free : P.client.webhook_delivery.get (id e) w.deliveries ≡ none = k.fresh in
              absurd (ground arith)
        ]
      ]

  step_only :
      (e : WebhookEndpoint) (w : World P.client) (j : String) (d : WebhookDelivery)
      → P.client.webhook_delivery.get j (next e w).deliveries ≡ some d
      → (P.client.webhook_delivery.get j w.deliveries ≡ some d) ⊎ ((id e ≡ j) × (d ≡ made e))
  unfolding next made
  step_only e w j d h =
      elim (create_and_deliver-cases P C law (T e) (id e) now e type event_id intent w) [
        | inl (same, _) ↦ inl (rw same at h)
        | inr k ↦ elim (Bool-cases (id e == j)) [
          | inr off ↦ inl (ground (arith, k.after j))
          | inl on ↦ inr ((eq_iff (id e) j).0 on, cc (h, k.after j, on))
        ]
      ]

  step_stores :
      (e : WebhookEndpoint) (w : World P.client)
      → P.client.webhook_delivery.get (id e) w.deliveries ≡ none
      → P.client.webhook_delivery.get (id e) (next e w).deliveries ≡ some (made e)
  unfolding next made
  step_stores e w h =
      elim (create_and_deliver-cases P C law (T e) (id e) now e type event_id intent w) [
        | inl (_, (d, there)) ↦ absurd (ground arith)
        | inr k ↦ k.after (id e) ∙ rw (eq_refl (id e)) refl
      ]

  all : List WebhookEndpoint → World P.client → World P.client
  all = deliver_all P C T id now type event_id intent

  pub all_keeps :
      (es : List WebhookEndpoint) (w : World P.client) (j : String) (d : WebhookDelivery)
      → P.client.webhook_delivery.get j w.deliveries ≡ some d
      → P.client.webhook_delivery.get j
          (deliver_all P C T id now type event_id intent es w).deliveries
        ≡ some d
  unfolding all deliver_all next
  all_keeps [] w j d h = h
  all_keeps (e ∷ es) w j d h = all_keeps es (next e w) j d (step_keeps e w j d h)

  step_rest :
      (e : WebhookEndpoint) (w : World P.client)
      → next e w ≡ record w { deliveries = (next e w).deliveries }
  unfolding next
  step_rest e w =
      elim (create_and_deliver-cases P C law (T e) (id e) now e type event_id intent w) [
        | inl (same, _) ↦
            same ∙ ap (λ (x : World P.client). record w { deliveries = x.deliveries }) (sym same)
        | inr k ↦ k.rest
      ]

  pub all_rest :
      (es : List WebhookEndpoint) (w : World P.client)
      → let w' = deliver_all P C T id now type event_id intent es w in
        w' ≡ record w { deliveries = w'.deliveries }
  unfolding deliver_all next
  all_rest [] w = refl
  all_rest (e ∷ es) w =
      let last : World P.client = deliver_all P C T id now type event_id intent es (next e w) in
      all_rest es (next e w)
      ∙ ap (λ (x : World P.client). record x { deliveries = last.deliveries }) (step_rest e w)

  pub all_only :
      (es : List WebhookEndpoint) (w : World P.client) (j : String) (d : WebhookDelivery)
      → P.client.webhook_delivery.get j
          (deliver_all P C T id now type event_id intent es w).deliveries
        ≡ some d
      → (P.client.webhook_delivery.get j w.deliveries ≡ some d)
        ⊎ ((e : WebhookEndpoint) × Memᴰ e es
            × (id e ≡ j)
            × (d ≡ delivered P C (T e) (id e) now e type event_id intent))
  unfolding deliver_all next made
  all_only [] w j d h = inl h
  all_only (e ∷ es) w j d h = elim (all_only es (next e w) j d h) [
    | inr (x, m, at, same) ↦ inr (x, Memᴰ.tail m, at, same)
    | inl k ↦ elim (step_only e w j d k) [
      | inl k' ↦ inl k'
      | inr (at, same) ↦ inr (e, Memᴰ.head refl, at, same)
    ]
  ]

  pub all_each :
      (es : List WebhookEndpoint) (e : WebhookEndpoint) (w : World P.client)
      → ((x y : WebhookEndpoint) → Memᴰ x es → Memᴰ y es → id x ≡ id y → x ≡ y)
      → Memᴰ e es
      → P.client.webhook_delivery.get (id e) w.deliveries ≡ none
      → P.client.webhook_delivery.get
          (id e)
          (deliver_all P C T id now type event_id intent es w).deliveries
        ≡ some (delivered P C (T e) (id e) now e type event_id intent)
  unfolding deliver_all next made all
  all_each [] e w distinct m free = elim m [ ]
  all_each (x ∷ es) e w distinct (Memᴰ.head same) free = all_keeps es (next x w) (id e) (made e) (
      subst (λ y. P.client.webhook_delivery.get (id e) (next y w).deliveries ≡ some (made e)) same
        (step_stores e w free))
  all_each (x ∷ es) e w distinct (Memᴰ.tail m) free =
      elim (Option-cases (P.client.webhook_delivery.get (id e) (next x w).deliveries)) [
        | inl free' ↦
            all_each es e (next x w) (λ y z a b. distinct y z (Memᴰ.tail a) (Memᴰ.tail b)) m free'
        | inr (d, there) ↦ elim (step_only x w (id e) d there) [
          | inl before ↦ absurd (ground arith)
          | inr (at, same) ↦
              all_keeps es (next x w) (id e) d there
              ∙ ap some (same ∙ ap made (distinct x e (Memᴰ.head refl) (Memᴰ.tail m) at))
        ]
      ]

module _ (P : Platform) (C : Codec) (law : IsLawfulClient P.client)
    (T : WebhookEndpoint → Transport) (id : WebhookEndpoint → String) (now : ℕ) where
  -- An event changes nothing but the deliveries. Under each id what stood stands unchanged, or
  -- nothing stood and there is the delivery, as its rounds leave it, of an endpoint with that id
  -- for it, which the event's consumer owns, enabled and subscribed to the type of the event.
  pub handle_event_only :
      (uuid : String) (event : WebhookEvent) (w : World P.client) (j : String)
      → let w' = handle_event P C T id now uuid event w in
        (w' ≡ record w { deliveries = w'.deliveries })
        × ((P.client.webhook_delivery.get j w'.deliveries
              ≡ P.client.webhook_delivery.get j w.deliveries)
            ⊎ ((e : WebhookEndpoint) × IsTarget P w event e
                × (id e ≡ j)
                × (P.client.webhook_delivery.get j w.deliveries ≡ none)
                × (P.client.webhook_delivery.get j w'.deliveries
                    ≡ some (
                        delivered P C
                          (T e)
                          (id e)
                          now
                          e
                          event.type
                          ("evt_" <> uuid)
                          event.payload))))
  unfolding handle_event
  handle_event_only uuid event w j =
      let es : List WebhookEndpoint = targets P w event in
      let type : WebhookEventType = event.type in
      let w' : World P.client = handle_event P C T id now uuid event w in
      (
        all_rest P C law T id now type ("evt_" <> uuid) event.payload es w,
        elim (Option-cases (P.client.webhook_delivery.get j w.deliveries)) [
          | inr (d, before) ↦ inl (
              all_keeps P C law T id now type ("evt_" <> uuid) event.payload es w j d before
              ∙ sym before)
          | inl free ↦ elim (Option-cases (P.client.webhook_delivery.get j w'.deliveries)) [
            | inl nothing ↦ inl (nothing ∙ sym free)
            | inr (d, after) ↦
                elim (all_only P C law T id now type ("evt_" <> uuid) event.payload es w j d
                  after) [
                    | inl before ↦ absurd (ground arith)
                    | inr (e, m, at, same) ↦
                        inr (e, targets-IsTarget P law w event e m, at, free, after ∙ ap some same)
                  ]
          ]
        ],
      )

  -- Where the targets' deliveries get different ids, each enabled endpoint of the event's consumer
  -- that is subscribed to its type, and whose delivery's id is not taken, has its delivery
  -- afterwards, as its rounds leave it.
  pub handle_event_each :
      (uuid : String) (event : WebhookEvent) (w : World P.client) (e : WebhookEndpoint)
      → ((x y : WebhookEndpoint)
          → IsTarget P w event x
          → IsTarget P w event y
          → id x ≡ id y
          → x ≡ y)
      → P.client.webhook_delivery.get (id e) w.deliveries ≡ none
      → IsTarget P w event e
      → P.client.webhook_delivery.get (id e) (handle_event P C T id now uuid event w).deliveries
        ≡ some (delivered P C (T e) (id e) now e event.type ("evt_" <> uuid) event.payload)
  unfolding handle_event
  handle_event_each uuid event w e distinct free t =
      all_each P C law T id now event.type ("evt_" <> uuid) event.payload (targets P w event) e w
        (λ x y a b.
          distinct x y (targets-IsTarget P law w event x a) (targets-IsTarget P law w event y b))
        (IsTarget-targets P law w event e t) free
