-- ===== src/Intents/Memo.antt =====
-- `resolveMemo` of src/payment-intents/payment-intents.service.ts: decimal texts of 64-bit numbers.
pub mod Decimal
use Prim.Native.Char.{Char}
use comos_pay_community_serv.Base.{
  ℕ, zero, suc, ◌+◌, ◌-◌, ◌*◌, ◌/◌, ◌%◌, String, Bool, true, not, ◌&&◌, ◌||◌, Option, none, some,
  List, [], ◌∷◌, ◌==◌, ltb, leb, nat_eq, codes, if◌then◌else◌, Outcome, value, raised, bad_request,
  ◌≡◌, arith,
}

unfoldable pub is_digit : ℕ → Bool
is_digit c = leb b'0' c && leb c b'9'

abbrev pub all_digits : List ℕ → Bool
all_digits [] = true
all_digits (c ∷ cs) = is_digit c && all_digits cs

-- `/^\d+$/.test(text)`
unfoldable pub is_numeric : String → Bool
unfolding is_digit
is_numeric text = not (text == "") && all_digits (codes text)

-- `BigInt(text)` of a text of digits.
unfoldable pub digits_value : ℕ → List ℕ → ℕ
digits_value acc [] = acc
digits_value acc (c ∷ cs) = digits_value (10 * acc + (c - 48)) cs

unfoldable pub big_int : String → ℕ
unfolding digits_value
big_int text = digits_value 0 (codes text)

abbrev pub max_memo : ℕ
max_memo = 18446744073709551615

unfoldable pub digit : ℕ → Char
digit n =
    if nat_eq n 0
    then "0"
    else if nat_eq n 1
    then "1"
    else if nat_eq n 2
    then "2"
    else if nat_eq n 3
    then "3"
    else if nat_eq n 4
    then "4"
    else if nat_eq n 5
    then "5"
    else if nat_eq n 6
    then "6"
    else if nat_eq n 7
    then "7"
    else if nat_eq n 8
    then "8"
    else "9"

-- `BigInt.prototype.toString`: the digits of `n` before `tail`, at most `fuel` of them.
unfoldable pub print_digits : ℕ → ℕ → String → String
unfolding digit
print_digits zero n tail = tail
print_digits (suc fuel) n tail =
    let more = print_digits fuel (n / 10) (String.◌∷◌ (digit (n % 10)) tail) in
    if ltb n 10 then String.◌∷◌ (digit n) tail else more

-- Twenty digits are enough for 64 bits.
unfoldable pub to_decimal : ℕ → String
unfolding print_digits
to_decimal n = print_digits 20 n ""

unfoldable pub resolve_memo : Option String → ℕ → Outcome String
resolve_memo (some text) random =
    if not (is_numeric text) || ltb max_memo (big_int text)
    then raised (bad_request "memo must be a MEMO_ID: a numeric uint64 string")
    else value text
resolve_memo none random = value (to_decimal random)

-- A given memo is taken as it is or refused, whatever the random bytes are.
pub resolve_memo_given :
    (text m : String) (random random' : ℕ)
    → resolve_memo (some text) random ≡ value m
    → (m ≡ text) × (resolve_memo (some text) random' ≡ value text)
unfolding resolve_memo
resolve_memo_given text m random random' h = ground arith
