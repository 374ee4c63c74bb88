-- ===== src/Base/Lists.antt =====
-- Lists measured by native numbers, and the array methods that the services use.
use Prim.Native.Nat.{ℕ, zero, suc, ◌+◌, ◌-◌, min}
use Prim.Native.String.{String}
use mathlib.Core.Path.{◌≡◌, refl, sym, subst}
use mathlib.Core.Logic.{inl, inr}
use mathlib.Core.Bool.{Bool, true, false, ◌||◌}
use mathlib.Core.Option.{Option, none, some}
use mathlib.Core.List.{List, [], ◌∷◌, ◌++◌, Memᴰ}
use native.Mathlib.Omega.{arith}
use text.Mathlib.Text.{◌==◌}
use comos_pay_community_serv.Base.Tests.{if◌then◌else◌, Bool-cases}

module _ {ℓ} {A : Type ℓ} where
  abbrev pub length : List A → ℕ
  length [] = 0
  length (x ∷ xs) = suc (length xs)

  abbrev pub take : ℕ → List A → List A
  take zero xs = []
  take (suc n) [] = []
  take (suc n) (x ∷ xs) = x ∷ take n xs

  abbrev pub drop : ℕ → List A → List A
  drop zero xs = xs
  drop (suc n) [] = []
  drop (suc n) (x ∷ xs) = drop n xs

  -- `xs.filter(p)`
  abbrev pub keep : (A → Bool) → List A → List A
  keep p [] = []
  keep p (x ∷ xs) = if p x then x ∷ keep p xs else keep p xs

  -- `xs.find(p)`
  abbrev pub find : (A → Bool) → List A → Option A
  find p [] = none
  find p (x ∷ xs) = if p x then some x else find p xs

  abbrev pub any : (A → Bool) → List A → Bool
  any p [] = false
  any p (x ∷ xs) = p x || any p xs

  pub length-append : (xs ys : List A) → length (xs ++ ys) ≡ length xs + length ys
  length-append [] ys = omega arith
  length-append (x ∷ xs) ys = omega (arith, length-append xs ys)

module _ {ℓ} {A : Type ℓ} where
  pub length-take : (n : ℕ) (xs : List A) → length (take n xs) ≡ min n (length xs)
  length-take zero xs = omega arith
  length-take (suc n) [] = omega arith
  length-take (suc n) (x ∷ xs) = omega (arith, length-take n xs)

  pub length-drop : (n : ℕ) (xs : List A) → length (drop n xs) ≡ length xs - n
  length-drop zero xs = omega arith
  length-drop (suc n) [] = omega arith
  length-drop (suc n) (x ∷ xs) = omega (arith, length-drop n xs)

  -- `find` returns a member that passes the test, or there is none.
  pub find-some :
      (p : A → Bool) (xs : List A) {a : A} → find p xs ≡ some a → Memᴰ a xs × (p a ≡ true)
  find-some p [] h = cc
  find-some p (x ∷ xs) {a} h = elim (Bool-cases (p x)) [
    | inl hit ↦ let e : x ≡ a = ground arith in (Memᴰ.head (sym e), subst (λ y. p y ≡ true) e hit)
    | inr miss ↦ let (m, q) = find-some p xs {a = a} (ground arith) in (Memᴰ.tail m, q)
  ]

  pub find-none : (p : A → Bool) (xs : List A) {a : A} → find p xs ≡ none → Memᴰ a xs → p a ≡ false
  find-none p [] h m = elim m [ ]
  find-none p (x ∷ xs) {a} h (Memᴰ.head e) = subst (λ y. p y ≡ false) (sym e) (ground (arith))
  find-none p (x ∷ xs) {a} h (Memᴰ.tail m) = find-none p xs (ground (arith)) m

module _ {ℓ κ} {A : Type ℓ} (P : A → Type κ) where
  abbrev pub All : List A → Type κ
  All [] = Unit
  All (x ∷ xs) = P x × All xs

module _ {ℓ κ} {A : Type ℓ} (P : A → Type κ) where
  pub All-mem : {a : A} (xs : List A) → All P xs → Memᴰ a xs → P a
  All-mem [] h m = elim m [ ]
  All-mem (x ∷ xs) h (Memᴰ.head e) = subst P (sym e) h.0
  All-mem (x ∷ xs) h (Memᴰ.tail m) = All-mem xs h.1 m

  pub All-every : (xs : List A) → ((a : A) → Memᴰ a xs → P a) → All P xs
  All-every [] h = tt
  All-every (x ∷ xs) h = (h x (Memᴰ.head refl), All-every xs (λ a m. h a (Memᴰ.tail m)))

  pub All-take : (n : ℕ) (xs : List A) → All P xs → All P (take n xs)
  All-take zero xs h = tt
  All-take (suc n) [] h = tt
  All-take (suc n) (x ∷ xs) h = (h.0, All-take n xs h.1)

  pub All-drop : (n : ℕ) (xs : List A) → All P xs → All P (drop n xs)
  All-drop zero xs h = h
  All-drop (suc n) [] h = tt
  All-drop (suc n) (x ∷ xs) h = All-drop n xs h.1

module _ {ℓ κ μ} {A : Type ℓ} (P : A → Type κ) (Q : A → Type μ) (p : A → Bool) where
  pub All-keep : (xs : List A) → ((x : A) → P x → p x ≡ true → Q x) → All P xs → All Q (keep p xs)
  All-keep [] h a = tt
  All-keep (x ∷ xs) h (a, as') = elim (Bool-cases (p x)) [
    | inl e ↦ rw (e, keep) (h x a e, All-keep xs h as')
    | inr e ↦ rw (e, keep) (All-keep xs h as')
  ]

module _ {ℓ} {A : Type ℓ} (p : A → Bool) where
  pub mem-keep : {a : A} (xs : List A) → Memᴰ a xs → p a ≡ true → Memᴰ a (keep p xs)
  mem-keep [] m h = elim m [ ]
  mem-keep {a} (x ∷ xs) (Memᴰ.head e) h = rw (subst (λ y. p y ≡ true) e h) (Memᴰ.head e)
  mem-keep (x ∷ xs) (Memᴰ.tail m) h = elim (Bool-cases (p x)) [
    | inl e ↦ rw e (Memᴰ.tail (mem-keep xs m h))
    | inr e ↦ rw e (mem-keep xs m h)
  ]

  pub any-false : {a : A} (xs : List A) → any p xs ≡ false → Memᴰ a xs → p a ≡ false
  any-false [] h m = elim m [ ]
  any-false (x ∷ xs) h (Memᴰ.head e) = subst (λ y. p y ≡ false) (sym e) (ground arith)
  any-false (x ∷ xs) h (Memᴰ.tail m) = any-false xs (ground arith) m

  pub any-true : (xs : List A) → any p xs ≡ true → (a : A) × Memᴰ a xs × (p a ≡ true)
  any-true [] h = cc
  any-true (x ∷ xs) h = elim (Bool-cases (p x)) [
    | inl e ↦ (x, Memᴰ.head refl, e)
    | inr e ↦ let (a, m, q) = any-true xs (ground arith) in (a, Memᴰ.tail m, q)
  ]

-- `xs.includes(s)`
abbrev pub includes : String → List String → Bool
includes s [] = false
includes s (x ∷ xs) = x == s || includes s xs

module _ {ℓ κ μ} {A : Type ℓ} {P : A → Type κ} {Q : A → Type μ} where
  pub All-map : ((x : A) → P x → Q x) → (xs : List A) → All P xs → All Q xs
  All-map f [] h = tt
  All-map f (x ∷ xs) (h, hs) = (f x h, All-map f xs hs)
