-- ===== src/Intents/Manage/Guarded.antt =====
-- What an update or a removal of an intent does, to whose intents, and which it refuses.
use comos_pay_community_serv.Base.{
  String, true, none, some, [], ◌∷◌, ◌++◌, ◌≡◌, ◌≢◌, ◌⊎◌, inl, inr, refl, arith, ◌==◌, eq_refl,
  Option, coalesce, if◌then◌else◌, done, fail, ◌>>=◌, bad_request, Bool-cases, Option-cases, subst,
  ap,
}
use comos_pay_community_serv.Prisma.Schema.{
  PaymentIntent, PaymentIntentStatus, succeeded, pending, submitted, failed, cancelled, expired,
  status_eq, status_eq-true, status_eq-false, WebhookEventType, payment_intent_updated,
  payment_intent_succeeded, payment_intent_failed, payment_intent_cancelled, payment_intent_deleted,
}
use comos_pay_community_serv.Prisma.Client.{IsLawfulClient}
use comos_pay_community_serv.Platform.{Platform, World, Supply, owned_by}
use comos_pay_community_serv.Intents.Store.{PaymentIntentView, with_qr, intent_not_found}
use comos_pay_community_serv.Intents.Store.Owned.{IsOwned, IsForeign, load_owned-cases}
use comos_pay_community_serv.Intents.Resolve.{status_event}
use comos_pay_community_serv.Intents.Settle.{validate}
use comos_pay_community_serv.Intents.Settle.Marks.{
  Replaces, event, emit-Replaces, update_intent-Replaces_or_fails,
}
use comos_pay_community_serv.Intents.Manage.{
  UpdatePaymentIntentDto, patched, update_event, find_one, assert_owned, update, delete_intent,
  remove,
}

-- The event that tells of the status that an update gives, if it gives one.
abbrev pub announces : Option PaymentIntentStatus → WebhookEventType
announces none = payment_intent_updated
announces (some succeeded) = payment_intent_succeeded
announces (some failed) = payment_intent_failed
announces (some cancelled) = payment_intent_cancelled
announces (some pending) = payment_intent_updated
announces (some submitted) = payment_intent_updated
announces (some expired) = payment_intent_updated

update_event-announces : (asked : Option PaymentIntentStatus) → update_event asked ≡ announces asked
unfolding update_event status_event
update_event-announces none = refl
update_event-announces (some succeeded) = refl
update_event-announces (some failed) = refl
update_event-announces (some cancelled) = refl
update_event-announces (some pending) = refl
update_event-announces (some submitted) = refl
update_event-announces (some expired) = refl

module _ (P : Platform) (law : IsLawfulClient P.client) where
  -- A caller who does not own the intent reads, updates, validates and deletes nothing: each call
  -- fails with 404 and the world is as before.
  pub foreign_refused :
      (s : Supply) (username id hash : String) (dto : UpdatePaymentIntentDto) (w : World P.client)
      → IsForeign P w username id
      → (find_one P username id w ≡ fail (intent_not_found id) w)
        × (update P username id dto w ≡ fail (intent_not_found id) w)
        × (validate P s username id hash w ≡ fail (intent_not_found id) w)
        × (remove P username id w ≡ fail (intent_not_found id) w)
  unfolding find_one update validate remove assert_owned
  foreign_refused s username id hash dto w foreign = elim (load_owned-cases P law username id w) [
    | inl (r, (there, own), e) ↦ absurd (ground (arith, foreign r there))
    | inr (_, e) ↦ (rw (e, ◌>>=◌), rw (e, ◌>>=◌), rw (e, ◌>>=◌), rw (e, ◌>>=◌))
  ]

  -- An update that returns is of an intent of the caller: the status, the hash and the reference of
  -- that row become what the body gives, or stay where it gives none; the other columns, the other
  -- rows and the consumers stay. One event is emitted, with the new row: it tells of success,
  -- failure or cancellation where the body gives that status, and else of an update.
  pub update-Replaces :
      (username id : String) (dto : UpdatePaymentIntentDto) (w w' : World P.client)
      (v : PaymentIntentView)
      → update P username id dto w ≡ done v w'
      → (old new : PaymentIntent) × IsOwned P w username id old
        × (new ≡ record old {
          status = coalesce dto.status old.status;
          tx_hash = coalesce dto.tx_hash old.tx_hash;
          reference = coalesce dto.reference old.reference;
        })
        × (v.intent ≡ new)
        × Replaces P.client id old new (event username (announces dto.status) new ∷ []) w w'
  unfolding update assert_owned with_qr
  update-Replaces username id dto w w' v h = elim (load_owned-cases P law username id w) [
    | inr (foreign, e) ↦ absurd (ground arith)
    | inl (r, (there, own), e) ↦
        elim (update_intent-Replaces_or_fails P.client law id (patched dto) w (λ q. refl)) [
          | inl (x, u) ↦ absurd (ground arith)
          | inr (old, w1, u, k) ↦ elim (Option-cases (P.qr (patched dto old).uri)) [
            | inl q ↦ absurd (ground arith)
            | inr (code, q) ↦
                let same : old ≡ r = cc (k.before, there) in
                let stored : Replaces P.client id old (patched dto old)
                    (event username (update_event dto.status) (patched dto old) ∷ []) w w' =
                  subst (Replaces P.client id old _ _ w) (ground arith)
                    (emit-Replaces P.client id old (patched dto old) _ w w1 k) in
                (
                  old,
                  patched dto old,
                  (k.before, ground arith),
                  refl,
                  ground arith,
                  subst
                      (λ type.
                        Replaces P.client id old (patched dto old)
                          (event username type (patched dto old) ∷ []) w w')
                      (update_event-announces dto.status) stored,
                )
          ]
        ]
  ]

  delete_intent-cases :
      (id : String) (w : World P.client) (r : PaymentIntent)
      → P.client.payment_intent.get id w.intents ≡ some r
      → ((r.status ≡ succeeded)
          × (delete_intent P id w
              ≡ fail (bad_request "A paid payment intent cannot be deleted.") w))
        ⊎ ((r.status ≢ succeeded)
            × (w' : World P.client) × (delete_intent P id w ≡ done r w')
            × ((j : String)
                → P.client.payment_intent.get j w'.intents
                  ≡ (if id == j then none else P.client.payment_intent.get j w.intents))
            × (w'.bus ≡ w.bus))
  unfolding delete_intent
  delete_intent-cases id w r there = elim (Bool-cases (status_eq r.status succeeded)) [
    | inl paid ↦ inl (status_eq-true r.status succeeded paid, ground arith)
    | inr unpaid ↦ elim (Option-cases (P.client.payment_intent.delete id w.intents)) [
      | inl gone ↦ absurd (ground (arith, law.payment_intent.delete_none id w.intents gone))
      | inr ((q, t), e) ↦
          let same : q ≡ r = cc (law.payment_intent.delete_some id w.intents t q e, there) in
          inr (
            status_eq-false r.status succeeded unpaid,
            record w { intents = t },
            ground arith,
            (λ j. law.payment_intent.get-delete id w.intents t q j e),
            refl,
          )
    ]
  ]

  -- What a removal does to an intent of the caller: a paid one is refused with 400 and nothing
  -- changes; another one is deleted, no other row changes, and the deletion is announced.
  pub remove-cases :
      (username id : String) (w : World P.client) (r : PaymentIntent)
      → IsOwned P w username id r
      → ((r.status ≡ succeeded)
          × (remove P username id w
              ≡ fail (bad_request "A paid payment intent cannot be deleted.") w))
        ⊎ ((r.status ≢ succeeded)
            × (w' : World P.client) × (remove P username id w ≡ done id w')
            × ((j : String)
                → P.client.payment_intent.get j w'.intents
                  ≡ (if id == j then none else P.client.payment_intent.get j w.intents))
            × (w'.bus ≡ w.bus ++ event username payment_intent_deleted r ∷ []))
  unfolding remove assert_owned
  remove-cases username id w r (there, own) = elim (load_owned-cases P law username id w) [
    | inr (foreign, e) ↦ absurd (ground (arith, foreign r there))
    | inl (q, _, e) ↦ elim (delete_intent-cases id w r there) [
      | inl (paid, d) ↦ inl (paid, rw (e, d, ◌>>=◌))
      | inr (unpaid, v, d, rows, bus) ↦ inr (
        unpaid,
        record v { bus = v.bus ++ event username payment_intent_deleted r ∷ [] },
        rw (e, d, ◌>>=◌),
        rows,
        ap (λ b. b ++ event username payment_intent_deleted r ∷ []) bus,
      )
    ]
  ]

  -- The rule that a paid intent cannot be deleted holds for one call only: `update` takes a paid
  -- intent to any other status, and after that `remove` deletes it.
  pub reopened_is_deletable :
      (username id : String) (status : PaymentIntentStatus) (w w' : World P.client)
      (v : PaymentIntentView) (r : PaymentIntent)
      → status ≢ succeeded
      → IsOwned P w username id r
      → r.status ≡ succeeded
      → update P username id (record { status = some status; tx_hash = none; reference = none }) w
        ≡ done v w'
      → (w'' : World P.client) × (remove P username id w' ≡ done id w'')
        × (P.client.payment_intent.get id w''.intents ≡ none)
  reopened_is_deletable username id status w w' v r other owned paid h =
      let dto : UpdatePaymentIntentDto = record {
        status = some status;
        tx_hash = none;
        reference = none;
      } in
      let (old, new, (there, own), edited, _, k) = update-Replaces username id dto w w' v h in
      let now : P.client.payment_intent.get id w'.intents ≡ some (patched dto old) =
        ground (arith, k.after id, eq_refl id, edited) in
      let still : owned_by P.client w' username old.consumer_id ≡ true = rw k.consumers own in
      elim (remove-cases username id w' (patched dto old) (now, still)) [
        | inl (e, _) ↦ absurd (other e)
        | inr (_, w'', d, rows, _) ↦ (w'', d, ground (arith, rows id, eq_refl id))
      ]
