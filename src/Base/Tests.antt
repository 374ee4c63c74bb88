-- ===== src/Base/Tests.antt =====
-- Boolean tests, the conditional, and splits that keep their equation.
use Prim.Native.Nat.{ℕ, compare, Ordering}
use Prim.Native.String.{String}
use mathlib.Core.Path.{◌≡◌, refl}
use mathlib.Core.Logic.{◌⊎◌, ◌≢◌, ◌↔◌, inl, inr}
use mathlib.Core.Bool.{Bool, true, false, ◌&&◌}
use mathlib.Core.Option.{Option, none, some}
use native.Mathlib.Omega.{arith}
use text.Mathlib.Text.{◌==◌}
use text.Mathlib.TextEquality.{eq_iff}

abbrev pub ltb : ℕ → ℕ → Bool
ltb a b = elim (compare a b) [ Ordering.lt ↦ true | _ ↦ false ]

abbrev pub leb : ℕ → ℕ → Bool
leb a b = elim (compare a b) [ Ordering.gt ↦ false | _ ↦ true ]

-- `===` on two numbers.
abbrev pub nat_eq : ℕ → ℕ → Bool
nat_eq a b = elim (compare a b) [ Ordering.eq ↦ true | _ ↦ false ]

infix 1 if◌then◌else◌
abbrev pub if◌then◌else◌ {ℓ} : {A : Type ℓ} → Bool → A → A → A
if true then x else y = x
if false then x else y = y

-- `===` on two texts that may be null.
abbrev pub option_eq : Option String → Option String → Bool
option_eq none none = true
option_eq none (some t) = false
option_eq (some s) none = false
option_eq (some s) (some t) = s == t

-- A text is truthy in JavaScript if it is there and not empty.
abbrev pub truthy : Option String → Bool
truthy none = false
truthy (some s) = if s == "" then false else true

-- `o ?? d`
abbrev pub coalesce {ℓ} : {A : Type ℓ} → Option A → A → A
coalesce none d = d
coalesce (some a) d = a

-- `o ?? p`, where `p` may be null too.
abbrev pub or_else {ℓ} : {A : Type ℓ} → Option A → Option A → Option A
or_else none p = p
or_else (some a) p = some a

abbrev pub is_some {ℓ} : {A : Type ℓ} → Option A → Bool
is_some none = false
is_some (some a) = true

pub Bool-cases : (b : Bool) → (b ≡ true) ⊎ (b ≡ false)
Bool-cases true = inl refl
Bool-cases false = inr refl

pub Option-cases {ℓ} : {A : Type ℓ} (o : Option A) → (o ≡ none) ⊎ ((a : A) × (o ≡ some a))
Option-cases none = inl refl
Option-cases (some a) = inr (a, refl)

pub option_eq_iff : (a b : Option String) → (option_eq a b ≡ true) ↔ (a ≡ b)
option_eq_iff none none = ground arith
option_eq_iff none (some t) = ground arith
option_eq_iff (some s) none = ground arith
option_eq_iff (some s) (some t) = ground (arith, eq_iff s t)

pub and_true : (a b : Bool) → (a && b) ≡ true → (a ≡ true) × (b ≡ true)
and_true true b h = (refl, h)
and_true false b h = cc

pub str_eq_false : (s t : String) → s ≢ t → (s == t) ≡ false
str_eq_false s t h = ground (arith, eq_iff s t)
