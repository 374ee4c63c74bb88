-- ===== src/Base/Effects.antt =====
-- What a service method does: it changes the world, and returns a value or throws.
use mathlib.Core.Path.{◌≡◌, refl}
use mathlib.Core.Option.{Option, none, some}
use Prim.Native.Nat.{ℕ}
use Prim.Native.String.{String}
use mathlib.Core.Bool.{Bool, true, false}

-- The exceptions of the source. `http` is an HttpException with its status and message; any
-- other Error is `unexpected`.
pub data Exception : Type 0 where
  http : ℕ → String → Exception
  unexpected : String → Exception

abbrev pub bad_request : String → Exception
bad_request = http 400

abbrev pub unauthorized : String → Exception
unauthorized = http 401

abbrev pub forbidden : String → Exception
forbidden = http 403

abbrev pub not_found : String → Exception
not_found = http 404

abbrev pub internal_error : String → Exception
internal_error = http 500

abbrev pub service_unavailable : String → Exception
service_unavailable = http 503

-- A call that changes nothing, and returns or throws.
pub data Outcome (A : Type 0) : Type 0 where
  value : A → Outcome A
  raised : Exception → Outcome A

pub data Run (W : Type 0) (A : Type 0) : Type 0 where
  done : A → W → Run W A
  fail : Exception → W → Run W A

-- A method that throws keeps the writes it made before.
abbrev pub M : Type 0 → Type 0 → Type 0
M W A = W → Run W A

abbrev pub world : {W A : Type 0} → Run W A → W
world (done a w) = w
world (fail e w) = w

abbrev pub pure : {W A : Type 0} → A → M W A
pure a w = done a w

abbrev pub throw : {W A : Type 0} → Exception → M W A
throw e w = fail e w

infixl 5 ◌>>=◌ ◌>>◌
abbrev pub ◌>>=◌ : {W A B : Type 0} → M W A → (A → M W B) → M W B
◌>>=◌ m f w = elim (m w) [ done a w' ↦ f a w' | fail e w' ↦ fail e w' ]

abbrev pub ◌>>◌ : {W B : Type 0} → M W (Unit {0}) → M W B → M W B
m >> k = m >>= λ _. k

abbrev pub guard : {W : Type 0} → Bool → Exception → M W (Unit {0})
guard true e w = done tt w
guard false e w = fail e w

-- `x ?? throw e`
abbrev pub or_throw : {W A : Type 0} → Option A → Exception → M W A
or_throw none e w = fail e w
or_throw (some a) e w = done a w

abbrev pub lift : {W A : Type 0} → Outcome A → M W A
lift (value a) w = done a w
lift (raised e) w = fail e w

-- `m.catch(() => …)`: a failure of `m` is logged and forgotten.
abbrev pub best_effort : {W : Type 0} → M W (Unit {0}) → M W (Unit {0})
best_effort m w = done tt (world (m w))

-- A bind that returns splits into two parts that return.
pub >>=-eq-done :
    {W A B : Type 0} (m : M W A) (f : A → M W B) (w : W) {b : B} {w' : W}
    → (m >>= f) w ≡ done b w'
    → (a : A) × (v : W) × (m w ≡ done a v) × (f a v ≡ done b w')
>>=-eq-done {W} {A} {B} m f w {b} {w'} h = go (m w) refl h
  where
    go :
        (r : Run W A)
        → m w ≡ r
        → (elim r [ done a v ↦ f a v | fail e v ↦ fail e v ]) ≡ done b w'
        → (a : A) × (v : W) × (m w ≡ done a v) × (f a v ≡ done b w')
    go (done a v) e k = (a, v, e, k)
    go (fail x v) e k = cc
