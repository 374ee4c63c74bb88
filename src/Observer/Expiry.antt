-- ===== src/Observer/Expiry.antt =====
-- The first phase of a cycle, `expireOverdue`: it moves intents past their lifetime to EXPIRED.
use comos_pay_community_serv.Base.{
  ℕ, String, ◌||◌, ap, true, false, Option, none, some, ◌≡◌, ◌⊎◌, ◌<◌, inl, inr, refl, sym, subst,
  arith, ltb, world,
}
use comos_pay_community_serv.Prisma.Schema.{
  payment_intent_updated, PaymentIntent, PaymentIntentStatus, pending, submitted, expired,
  status_eq,
}
use comos_pay_community_serv.Prisma.Client.{IsLawfulClient}
use comos_pay_community_serv.Platform.{Platform, World}
use comos_pay_community_serv.Intents.Settle.{mark_expired}
use comos_pay_community_serv.Intents.Settle.Marks.{mark_expired-Marked}
use comos_pay_community_serv.Observer.{is_overdue, expire, expire_phase}
use comos_pay_community_serv.Observer.Moves.{world-then_pure, Moves, Marked-Moves, phase-Moves}

-- The intent is open, and its lifetime ended before `now`.
abbrev pub IsOverdue : ℕ → PaymentIntent → Type 0
IsOverdue now q =
    ((q.status ≡ pending) ⊎ (q.status ≡ submitted))
    × ((t : ℕ) × (q.expires_at ≡ some t) × (t < now))

abbrev pub Expires : ℕ → PaymentIntent → PaymentIntent → Type 0
Expires now q q' = (q' ≡ q) ⊎ (IsOverdue now q × (q' ≡ record q { status = expired }))

open_status :
    (s : PaymentIntentStatus)
    → (status_eq s pending || status_eq s submitted) ≡ true
    → (s ≡ pending) ⊎ (s ≡ submitted)
open_status s h = ground arith

overdue_at :
    (now : ℕ) (e : Option ℕ)
    → elim e [ none ↦ false | some t ↦ ltb t now ] ≡ true
    → (t : ℕ) × (e ≡ some t) × (t < now)
overdue_at now none h = absurd (ground arith)
overdue_at now (some t) h = (t, refl, ground arith)

is_overdue-IsOverdue : (now : ℕ) (q : PaymentIntent) → is_overdue now q ≡ true → IsOverdue now q
is_overdue-IsOverdue now q h =
    (open_status q.status (ground arith), overdue_at now q.expires_at (ground arith))

module _ (P : Platform) (law : IsLawfulClient P.client) where
  expire-Moves :
      (now : ℕ) (w v : World P.client) (r : PaymentIntent) (username : String)
      → P.client.payment_intent.get r.id w.intents ≡ some r
      → is_overdue now r ≡ true
      → Moves P (Expires now) w v
      → Moves P (Expires now) w (world (expire P (r, username) v))
  expire-Moves now w v r username e t m =
      subst (Moves P (Expires now) w) (sym (world-then_pure (mark_expired P r.id username) v)) (
        Marked-Moves P law (Expires now) r.id r (λ q. record q { status = expired }) username
          payment_intent_updated w v (mark_expired P r.id username v)
          (mark_expired-Marked P law r.id username v) m e (λ old there k. again old k))
    where
      again :
          (old : PaymentIntent)
          → Expires now r old
          → Expires now r (record old { status = expired })
      again old (inl same) = inr (
        is_overdue-IsOverdue now r t,
        ap {A = PaymentIntent} (λ q. record q { status = expired }) same,
      )
      again old (inr (d, same)) =
          inr (d, ap {A = PaymentIntent} (λ q. record q { status = expired }) same)

  pub expire_phase-Moves :
      (now : ℕ) (w : World P.client) → Moves P (Expires now) w (world (expire_phase P now w))
  unfolding expire_phase
  expire_phase-Moves now w =
      phase-Moves P law (Expires now) (λ q. inl refl) (is_overdue now) _ (expire P) w
        (λ r username v e t m. expire-Moves now w v r username e t m)
