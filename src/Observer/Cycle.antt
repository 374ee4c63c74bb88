-- ===== src/Observer/Cycle.antt =====
-- What one whole cycle of the observer does to the intents.
use comos_pay_community_serv.Base.{
  ℕ, String, some, ◌≡◌, ◌⊎◌, inl, inr, refl, ap, subst, arith, ◌∙◌, world, Run, done, fail, ◌>>=◌,
  ◌<◌,
}
use comos_pay_community_serv.Prisma.Schema.{PaymentIntent, pending, submitted, expired}
use comos_pay_community_serv.Prisma.Client.{IsLawfulClient}
use comos_pay_community_serv.Platform.{Platform, World, Supply}
use comos_pay_community_serv.Observer.{expire_phase, reconcile_phase, cycle}
use comos_pay_community_serv.Observer.Moves.{Moves}
use comos_pay_community_serv.Observer.Expiry.{IsOverdue, Expires, expire_phase-Moves}
use comos_pay_community_serv.Observer.Reconcile.{Settled, Settles, reconcile_phase-Moves}

module _ (P : Platform) where
  -- What a cycle at `now` makes of an intent.
  pub data Step (now : ℕ) (q q' : PaymentIntent) : Type 0 where
    stays : q' ≡ q → Step now q q'
    expires : IsOverdue now q → q' ≡ record q { status = expired } → Step now q q'
    settles : Settled P q q' → Step now q q'

module _ (P : Platform) where
  -- An intent that the first phase expired is left alone by the second.
  join_steps :
      (now : ℕ) (q q1 q2 : PaymentIntent) → Expires now q q1 → Settles P q1 q2 → Step P now q q2
  join_steps now q q1 q2 (inl same) (inl same') = Step.stays (same' ∙ same)
  join_steps now q q1 q2 (inl same) (inr s) = Step.settles (subst (λ x. Settled P x q2) same s)
  join_steps now q q1 q2 (inr (d, same)) (inl same') = Step.expires d (same' ∙ same)
  join_steps now q q1 q2 (inr (d, same)) (inr s) =
      let e : q1.status ≡ expired = ap (λ (x : PaymentIntent). x.status) same in
      let e' : q1.status ≡ pending = s.was_pending in absurd (ground arith)

module _ (P : Platform) (law : IsLawfulClient P.client) where
  pub cycle-Moves :
      (now : ℕ) (supply : String → Supply) (w : World P.client)
      → Moves P (Step P now) w (world (cycle P now supply w))
  unfolding cycle
  cycle-Moves now supply w = go (expire_phase P now w) refl
    where
      go :
          (o : Run (World P.client) (Unit {0}))
          → expire_phase P now w ≡ o
          → Moves P (Step P now) w (world (cycle P now supply w))
      go (fail e v) h =
          let m : Moves P (Expires now) w v =
            subst (λ x. Moves P (Expires now) w (world x)) h (expire_phase-Moves P law now w) in
          rw (h, ◌>>=◌)
            (record {
              rows = λ j q g.
                  let (q1, g1, k) = m.rows j q g in (q1, g1, join_steps P now q q1 q1 k (inl refl));
              absent = m.absent;
            })
      go (done tt v) h =
          let m : Moves P (Expires now) w v =
            subst (λ x. Moves P (Expires now) w (world x)) h (expire_phase-Moves P law now w) in
          let m' : Moves P (Settles P) v (world (reconcile_phase P supply v)) =
            reconcile_phase-Moves P law supply v in
          rw (h, ◌>>=◌)
            (record {
              rows = λ j q g.
                  let (q1, g1, k) = m.rows j q g in
                  let (q2, g2, k') = m'.rows j q1 g1 in (q2, g2, join_steps P now q q1 q2 k k');
              absent = λ j g. m'.absent j (m.absent j g);
            })

  -- After a cycle every intent stands under its id; it is unchanged, or it was open and past its
  -- lifetime and is EXPIRED, or it was PENDING and a transaction on the chain that settles it, by a
  -- payment that Horizon lists under it or among the newest to the destination, is recorded in it,
  -- as SUCCEEDED; a source that it had is kept.
  pub cycle-Step :
      (now : ℕ) (supply : String → Supply) (w : World P.client) (id : String) (q : PaymentIntent)
      → P.client.payment_intent.get id w.intents ≡ some q
      → (q' : PaymentIntent) × (P.client.payment_intent.get id
            (world (cycle P now supply w)).intents
          ≡ some q')
        × Step P now q q'
  cycle-Step now supply w id q g = (cycle-Moves now supply w).rows id q g

  -- A SUBMITTED intent is never settled by a cycle, whatever Horizon knows of its transaction: it
  -- stays as it is, or its lifetime is over and it becomes EXPIRED.
  pub submitted_never_settles :
      (now : ℕ) (supply : String → Supply) (w : World P.client) (id : String) (q : PaymentIntent)
      → P.client.payment_intent.get id w.intents ≡ some q
      → q.status ≡ submitted
      → (q' : PaymentIntent) × (P.client.payment_intent.get id
            (world (cycle P now supply w)).intents
          ≡ some q')
        × ((q' ≡ q)
            ⊎ ((t : ℕ) × (q.expires_at ≡ some t)
                × (t < now)
                × (q' ≡ record q { status = expired })))
  submitted_never_settles now supply w id q g s =
      let (q', g', step) = cycle-Step now supply w id q g in (q', g', go q' step)
    where
      go :
          (q' : PaymentIntent)
          → Step P now q q'
          → (q' ≡ q)
            ⊎ ((t : ℕ) × (q.expires_at ≡ some t) × (t < now) × (q' ≡ record q { status = expired }))
      go q' (Step.stays e) = inl e
      go q' (Step.expires (_, (t, e, l)) same) = inr (t, e, l, same)
      go q' (Step.settles d) = let e : q.status ≡ pending = d.was_pending in absurd (ground arith)
