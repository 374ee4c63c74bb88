-- ===== src/Observer/Overlap.antt =====
-- The `running` flag of the observer: `tick` is called by the timer while an earlier call may
-- still wait for the database or for Horizon.
use comos_pay_community_serv.Base.{
  ℕ, suc, ◌+◌, ◌-◌, ◌≤◌, Bool, true, false, ◌≡◌, refl, arith, inl, inr, Bool-cases, subst, sym,
  if◌then◌else◌,
}

-- The flag, and the number of cycles that have begun and not ended.
pub record Observing : Type 0 where
  pub running : Bool
  pub active : ℕ

abbrev pub idle : Observing
idle = record { running = false; active = 0 }

-- The start of `tick`: it returns at once, or sets the flag and begins a cycle.
unfoldable pub tick : Observing → Observing
tick s = if s.running then s else record { running = true; active = s.active + 1 }

-- The `finally` of a cycle.
unfoldable pub finish : Observing → Observing
finish s = record { running = false; active = s.active - 1 }

-- The timer calls `tick` at any time; a cycle ends only if one is active.
pub data Event (s : Observing) : Observing → Type 0 where
  ticks : Event s (tick s)
  finishes : (n : ℕ) → s.active ≡ suc n → Event s (finish s)

pub data Reaches : Observing → Type 0 where
  start : Reaches idle
  next : {s s' : Observing} → Reaches s → Event s s' → Reaches s'

-- The flag is set exactly while a cycle is active, and one at most is.
pub record IsExclusive (s : Observing) : Type 0 where
  pub at_most_one : s.active ≤ 1
  pub flag : (if s.running then 1 else 0) ≡ s.active

Event-IsExclusive : (s s' : Observing) → IsExclusive s → Event s s' → IsExclusive s'
unfolding tick finish
Event-IsExclusive s s' h Event.ticks = elim (Bool-cases s.running) [
  | inl on ↦ let same : tick s ≡ s = ground arith in subst IsExclusive (sym same) h
  | inr off ↦
      let none_active : s.active ≡ 0 = ground (arith, h.flag, off) in
      rw off
        (record { at_most_one = omega (arith, none_active); flag = omega (arith, none_active) })
]
Event-IsExclusive s s' h (Event.finishes n e) = record {
  at_most_one = omega (arith, h.at_most_one);
  flag = omega (arith, h.at_most_one);
}

-- Cycles never overlap: in each order of calls of `tick` and ends of cycles, at most one cycle is
-- active, and the flag is set exactly while one is.
pub Reaches-IsExclusive : (s : Observing) → Reaches s → IsExclusive s
Reaches-IsExclusive s Reaches.start = record { at_most_one = omega arith; flag = refl }
Reaches-IsExclusive s' (Reaches.next {s} before e) =
    Event-IsExclusive s s' (Reaches-IsExclusive s before) e
