-- ===== src/Intents/Memo/Decimal.antt =====
-- The memos that the service draws, as decimal text.
use Prim.Native.Char.{Char, code}
use native.Mathlib.Numerals.{unary_clauses}
use comos_pay_community_serv.Base.{
  ℕ, zero, suc, ◌+◌, ◌-◌, ◌*◌, ◌/◌, ◌%◌, ◌^◌, ◌≤◌, ◌<◌, String, true, false, [], ◌∷◌, ◌≡◌, inl, inr,
  refl, sym, ap, ◌∙◌, arith, ◌==◌, ltb, codes, Bool-cases, str_eq_false, some, none, value,
}
use comos_pay_community_serv.Intents.Memo.{
  is_digit, all_digits, is_numeric, digits_value, big_int, max_memo, digit, print_digits,
  to_decimal, resolve_memo,
}

code-digit : (d : ℕ) → d < 10 → code (digit d) ≡ d + 48
unfolding digit
code-digit zero h = refl
code-digit (suc zero) h = refl
code-digit (suc (suc zero)) h = refl
code-digit (suc (suc (suc zero))) h = refl
code-digit (suc (suc (suc (suc zero)))) h = refl
code-digit (suc (suc (suc (suc (suc zero))))) h = refl
code-digit (suc (suc (suc (suc (suc (suc zero)))))) h = refl
code-digit (suc (suc (suc (suc (suc (suc (suc zero))))))) h = refl
code-digit (suc (suc (suc (suc (suc (suc (suc (suc zero)))))))) h = refl
code-digit (suc (suc (suc (suc (suc (suc (suc (suc (suc zero))))))))) h = refl
code-digit (suc (suc (suc (suc (suc (suc (suc (suc (suc (suc n)))))))))) h =
    absurd (omega (arith, h))

is_digit-digit : (d : ℕ) → d < 10 → is_digit (code (digit d)) ≡ true
unfolding is_digit
is_digit-digit d h = let e : code (digit d) ≡ d + 48 = code-digit d h in rw e (ground arith)

print_digits-value :
    (fuel n : ℕ) (tail : String)
    → n < 10 ^ fuel
    → digits_value 0 (codes (print_digits fuel n tail)) ≡ digits_value n (codes tail)
unfolding print_digits digits_value
print_digits-value zero n tail h =
    let e : n ≡ 0 = omega (arith, h) in ap (λ k. digits_value k (codes tail)) (sym e)
print_digits-value (suc fuel) n tail h = elim (Bool-cases (ltb n 10)) [
  | inl small ↦
      let e : 10 * 0 + (code (digit n) - 48) ≡ n = omega (arith, code-digit n (ground arith)) in
      rw small (ap (λ k. digits_value k (codes tail)) e)
  | inr large ↦
      let p : n < 10 ^ fuel * 10 = simp unary_clauses at h in
      let c : code (digit (n % 10)) ≡ n % 10 + 48 = code-digit (n % 10) (omega arith) in
      let e : 10 * (n / 10) + (code (digit (n % 10)) - 48) ≡ n = omega (arith, c) in
      rw large (
        print_digits-value fuel (n / 10) (String.◌∷◌ (digit (n % 10)) tail) (omega (arith, p))
        ∙ ap (λ k. digits_value k (codes tail)) e)
]

print_digits-all :
    (fuel n : ℕ) (tail : String)
    → all_digits (codes tail) ≡ true
    → all_digits (codes (print_digits fuel n tail)) ≡ true
unfolding print_digits
print_digits-all zero n tail h = h
print_digits-all (suc fuel) n tail h = elim (Bool-cases (ltb n 10)) [
  | inl small ↦ rw small (ground (arith, is_digit-digit n (ground arith)))
  | inr large ↦ rw large (
      print_digits-all fuel (n / 10) (String.◌∷◌ (digit (n % 10)) tail)
        (ground (arith, is_digit-digit (n % 10) (omega arith))))
]

cons_text : (c : Char) (t : String) → (String.◌∷◌ c t == "") ≡ false
cons_text c t =
    str_eq_false (String.◌∷◌ c t) ""
      (λ e. let f : code c ∷ codes t ≡ [] = ap codes e in ground arith)

print_digits-text :
    (fuel n : ℕ) (tail : String) → (tail == "") ≡ false → (print_digits fuel n tail == "") ≡ false
unfolding print_digits
print_digits-text zero n tail h = h
print_digits-text (suc fuel) n tail h = elim (Bool-cases (ltb n 10)) [
  | inl small ↦ rw small (cons_text (digit n) tail)
  | inr large ↦ rw large (
      print_digits-text fuel (n / 10) (String.◌∷◌ (digit (n % 10)) tail)
        (cons_text (digit (n % 10)) tail))
]

to_decimal-text : (n : ℕ) → (to_decimal n == "") ≡ false
unfolding to_decimal print_digits
to_decimal-text n = elim (Bool-cases (ltb n 10)) [
  | inl small ↦ rw small (cons_text (digit n) "")
  | inr large ↦ rw large (
      print_digits-text 19 (n / 10) (String.◌∷◌ (digit (n % 10)) "")
        (cons_text (digit (n % 10)) ""))
]

pub big_int-to_decimal : (n : ℕ) → n ≤ max_memo → big_int (to_decimal n) ≡ n
unfolding big_int to_decimal digits_value
big_int-to_decimal n h = print_digits-value 20 n "" (omega (arith, h))

to_decimal-all : (n : ℕ) → all_digits (codes (to_decimal n)) ≡ true
unfolding to_decimal
to_decimal-all n = print_digits-all 20 n "" refl

is_numeric-to_decimal : (n : ℕ) → is_numeric (to_decimal n) ≡ true
unfolding is_numeric
is_numeric-to_decimal n = ground (arith, to_decimal-text n, to_decimal-all n)

-- A memo that is drawn from eight random bytes is a text that reads back as the number drawn, and
-- that is accepted as it is when a request gives it.
pub drawn_memo :
    (random other : ℕ)
    → random ≤ max_memo
    → (m : String) × (resolve_memo none random ≡ value m)
      × (big_int m ≡ random)
      × (resolve_memo (some m) other ≡ value m)
unfolding resolve_memo
drawn_memo random other h =
    let e : big_int (to_decimal random) ≡ random = big_int-to_decimal random h in
    let t : is_numeric (to_decimal random) ≡ true = is_numeric-to_decimal random in
    (to_decimal random, refl, e, ground arith)
