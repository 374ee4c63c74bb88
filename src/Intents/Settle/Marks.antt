-- ===== src/Intents/Settle/Marks.antt =====
-- What the marks of an intent write: one row changes, one event is emitted.
use mathlib.Core.List.{append-nil}
use comos_pay_community_serv.Base.{
  String, Option, none, some, List, [], ◌∷◌, ◌++◌, ◌≡◌, refl, arith, ◌==◌, if◌then◌else◌, Run, done,
  fail, world, inl, inr, ◌⊎◌, subst, ◌∙◌, sym, ap, Exception, truthy, ◌>>=◌, or_else,
}
use comos_pay_community_serv.Prisma.Schema.{
  PaymentIntent, WebhookEventType, failed, expired, payment_intent_succeeded, payment_intent_failed,
  payment_intent_updated,
}
use comos_pay_community_serv.Prisma.Table.{Write, written, missing, conflict}
use comos_pay_community_serv.Prisma.Client.{PrismaClient, IsLawfulClient}
use comos_pay_community_serv.Platform.{
  Platform, World, Supply, WebhookEvent, update_intent, not_found_error, unique_error,
}
use comos_pay_community_serv.Intents.Settle.{
  mark_succeeded, mark_failed, mark_expired, settled, has_source, customer_for,
  upsert_customer_from_payment,
}

module _ (D : PrismaClient) where
  -- From `w` to `w'` the intent `id` was replaced by `new`, which stood for `old`; no other
  -- intent and no webhook table changed, and `events` were emitted.
  pub record Replaces (id : String) (old new : PaymentIntent) (events : List WebhookEvent)
      (w w' : World D) : Type 0 where
    pub before : D.payment_intent.get id w.intents ≡ some old
    pub after :
        (j : String)
        → D.payment_intent.get j w'.intents
          ≡ (if id == j then some new else D.payment_intent.get j w.intents)
    pub consumers : w'.consumers ≡ w.consumers
    pub endpoints : w'.endpoints ≡ w.endpoints
    pub deliveries : w'.deliveries ≡ w.deliveries
    pub bus : w'.bus ≡ w.bus ++ events

  pub update_intent-cases :
      (id : String) (f : PaymentIntent → PaymentIntent) (w : World D)
      → ((r : PaymentIntent) × (w' : World D) × (update_intent D id f w ≡ done r w'))
        ⊎ ((update_intent D id f w ≡ fail not_found_error w)
            ⊎ (update_intent D id f w ≡ fail unique_error w))
  unfolding update_intent
  update_intent-cases id f w = go (D.payment_intent.update id f w.intents) refl
    where
      go :
          (o : Write PaymentIntent D.payment_intent.State)
          → D.payment_intent.update id f w.intents ≡ o
          → ((r : PaymentIntent) × (w' : World D) × (update_intent D id f w ≡ done r w'))
            ⊎ ((update_intent D id f w ≡ fail not_found_error w)
                ⊎ (update_intent D id f w ≡ fail unique_error w))
      go (written r t) e = inl (r, record w { intents = t }, rw (e, update_intent))
      go missing e = inr (inl (rw (e, update_intent)))
      go conflict e = inr (inr (rw (e, update_intent)))

  update_intent-written :
      (id : String) (f : PaymentIntent → PaymentIntent) (w w' : World D) (r : PaymentIntent)
      → update_intent D id f w ≡ done r w'
      → (t : D.payment_intent.State) × (D.payment_intent.update id f w.intents ≡ written r t)
        × (record w { intents = t } ≡ w')
  unfolding update_intent
  update_intent-written id f w w' r h = go (D.payment_intent.update id f w.intents) refl
    where
      go :
          (o : Write PaymentIntent D.payment_intent.State)
          → D.payment_intent.update id f w.intents ≡ o
          → (t : D.payment_intent.State) × (D.payment_intent.update id f w.intents ≡ written r t)
            × (record w { intents = t } ≡ w')
      go (written q t) e =
          let k : done q (record w { intents = t }) ≡ done r w' = rw (e, update_intent) at h in
          (t, e ∙ cc k, cc k)
      go missing e = absurd (ground arith)
      go conflict e = absurd (ground arith)

module _ (D : PrismaClient) (law : IsLawfulClient D) where
  pub update_intent-Replaces :
      (id : String) (f : PaymentIntent → PaymentIntent) (w w' : World D) (r : PaymentIntent)
      → ((q : PaymentIntent) → (f q).id ≡ q.id)
      → update_intent D id f w ≡ done r w'
      → (old : PaymentIntent) × (r ≡ f old) × Replaces D id old r [] w w'
  update_intent-Replaces id f w w' r fixes h =
      let (t, e, same) = update_intent-written D id f w w' r h in
      let (old, there, new) = law.payment_intent.update_written id f w.intents t r e in
      (
        old,
        new,
        subst (Replaces D id old r [] w) same (record {
          before = there;
          after = λ j. law.payment_intent.get-update id f w.intents t r j fixes e;
          consumers = refl;
          endpoints = refl;
          deliveries = refl;
          bus = sym (append-nil w.bus);
        }),
      )

abbrev pub event : String → WebhookEventType → PaymentIntent → WebhookEvent
event username type intent = record { consumer_username = username; type = type; payload = intent }

module _ (D : PrismaClient) where
  -- A mark fails and writes nothing, or replaces the intent by `f` of it and emits one event.
  abbrev pub Marked :
      String
      → (PaymentIntent → PaymentIntent)
      → String
      → WebhookEventType
      → World D
      → Run (World D) PaymentIntent
      → Type 0
  Marked id f username type w run =
      ((e : Exception) × (run ≡ fail e w))
      ⊎ ((old : PaymentIntent) × (w' : World D) × (run ≡ done (f old) w')
          × Replaces D id old (f old) (event username type (f old) ∷ []) w w')

  pub emit-Replaces :
      (id : String) (old new : PaymentIntent) (e : WebhookEvent) (w v : World D)
      → Replaces D id old new [] w v
      → Replaces D id old new (e ∷ []) w (record v { bus = v.bus ++ e ∷ [] })
  emit-Replaces id old new e w v h = record {
    before = h.before;
    after = h.after;
    consumers = h.consumers;
    endpoints = h.endpoints;
    deliveries = h.deliveries;
    bus = ap (λ b. b ++ e ∷ []) (h.bus ∙ append-nil w.bus);
  }

  customers-Replaces :
      (id : String) (old new : PaymentIntent) (es : List WebhookEvent) (w v v' : World D)
      → v' ≡ record v { customers = v'.customers }
      → Replaces D id old new es w v
      → Replaces D id old new es w v'
  customers-Replaces id old new es w v v' e h = subst (Replaces D id old new es w) (sym e) (record {
    before = h.before;
    after = h.after;
    consumers = h.consumers;
    endpoints = h.endpoints;
    deliveries = h.deliveries;
    bus = h.bus;
  })

module _ (D : PrismaClient) (law : IsLawfulClient D) where
  pub update_intent-Replaces_or_fails :
      (id : String) (f : PaymentIntent → PaymentIntent) (w : World D)
      → ((q : PaymentIntent) → (f q).id ≡ q.id)
      → ((e : Exception) × (update_intent D id f w ≡ fail e w))
        ⊎ ((old : PaymentIntent) × (v : World D) × (update_intent D id f w ≡ done (f old) v)
            × Replaces D id old (f old) [] w v)
  update_intent-Replaces_or_fails id f w fixes = elim (update_intent-cases D id f w) [
    | inr (inl e) ↦ inl (not_found_error, e)
    | inr (inr e) ↦ inl (unique_error, e)
    | inl (r, v, e) ↦
        let (old, same, h) = update_intent-Replaces D law id f w v r fixes e in
        inr (
          old,
          v,
          subst (λ q. update_intent D id f w ≡ done q v) same e,
          subst (λ q. Replaces D id old q [] w v) same h,
        )
  ]

module _ (P : Platform) (law : IsLawfulClient P.client) where
  pub mark_expired-Marked :
      (id username : String) (w : World P.client)
      → Marked P.client id
          (λ r. record r { status = expired })
          username
          payment_intent_updated
          w
          (mark_expired P id username w)
  unfolding mark_expired
  mark_expired-Marked id username w =
      elim (update_intent-Replaces_or_fails P.client law id (λ r. record r { status = expired }) w
        (λ q. refl)) [
          | inl (x, e) ↦ inl (x, rw (e, ◌>>=◌))
          | inr (old, v, e, h) ↦
              inr (old, _, rw (e, ◌>>=◌), emit-Replaces P.client id old _ _ w v h)
        ]

  pub mark_failed-Marked :
      (id username : String) (hash : Option String) (w : World P.client)
      → Marked P.client id
          (λ r. record r { status = failed; tx_hash = if truthy hash then hash else r.tx_hash })
          username
          payment_intent_failed
          w
          (mark_failed P id username hash w)
  unfolding mark_failed
  mark_failed-Marked id username hash w =
      elim (update_intent-Replaces_or_fails P.client law id
        (λ r. record r { status = failed; tx_hash = if truthy hash then hash else r.tx_hash }) w
        (λ q. refl)) [
          | inl (x, e) ↦ inl (x, rw (e, ◌>>=◌))
          | inr (old, v, e, h) ↦
              inr (old, _, rw (e, ◌>>=◌), emit-Replaces P.client id old _ _ w v h)
        ]

  -- The automatic customer touches the customers only.
  customer_for-customers :
      (s : Supply) (intent : PaymentIntent) (account : Option String) (w : World P.client)
      → world (customer_for P s intent account w)
        ≡ record w { customers = (world (customer_for P s intent account w)).customers }
  unfolding customer_for
  customer_for-customers s intent none w = refl
  customer_for-customers s intent (some account) w = ground arith

  pub upsert_customer-customers :
      (s : Supply) (intent : PaymentIntent) (payer : Option String) (w : World P.client)
      → world (upsert_customer_from_payment P s intent payer w) ≡ record w {
        customers = (world (upsert_customer_from_payment P s intent payer w)).customers;
      }
  unfolding upsert_customer_from_payment
  upsert_customer-customers s intent payer w =
      customer_for-customers s intent (or_else payer intent.source) w

  pub mark_succeeded-Marked :
      (s : Supply) (id username hash : String) (payer : Option String) (w : World P.client)
      → Marked P.client id
          (settled P hash payer (has_source P w id))
          username
          payment_intent_succeeded
          w
          (mark_succeeded P s id username hash payer w)
  unfolding mark_succeeded
  mark_succeeded-Marked s id username hash payer w =
      elim (update_intent-Replaces_or_fails P.client law id
        (settled P hash payer (has_source P w id)) w (λ q. refl)) [
          | inl (x, e) ↦ inl (x, rw (e, ◌>>=◌))
          | inr (old, v, e, h) ↦
              let new : PaymentIntent = settled P hash payer (has_source P w id) old in
              let told : World P.client = record v {
                bus = v.bus ++ event username payment_intent_succeeded new ∷ [];
              } in
              inr (
                old,
                world (upsert_customer_from_payment P s new payer told),
                rw (e, ◌>>=◌),
                customers-Replaces P.client id old new _ w told _
                    (upsert_customer-customers s new payer told)
                    (emit-Replaces P.client id old new _ w v h),
              )
        ]
