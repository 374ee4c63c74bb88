-- ===== src/Base/Text.antt =====
-- `String.prototype.trim`, and the case-insensitive comparisons of the source.
use Prim.Native.Nat.{ℕ, ◌+◌}
use Prim.Native.Char.{code}
use Prim.Native.String.{String}
use mathlib.Core.Bool.{Bool, true, false, ◌&&◌, ◌||◌}
use mathlib.Core.List.{List, [], ◌∷◌, map}
use text.Mathlib.Text.{◌==◌}
use comos_pay_community_serv.Base.Tests.{leb, nat_eq, if◌then◌else◌}

-- The white space and line terminators of ECMAScript.
unfoldable pub is_space : ℕ → Bool
is_space c =
    (leb 9 c && leb c 13)
    || nat_eq c 32
    || nat_eq c 0xa0
    || nat_eq c 0x1680
    || (leb 0x2000 c && leb c 0x200a)
    || nat_eq c 0x2028
    || nat_eq c 0x2029
    || nat_eq c 0x202f
    || nat_eq c 0x205f
    || nat_eq c 0x3000
    || nat_eq c 0xfeff

unfoldable pub trim_start : String → String
unfolding is_space
trim_start String.[] = ""
trim_start (String.◌∷◌ c s) =
    let rest = trim_start s in if is_space (code c) then rest else String.◌∷◌ c s

unfoldable pub trim_end : String → String
unfolding is_space
trim_end String.[] = ""
trim_end (String.◌∷◌ c s) =
    let rest = trim_end s in if is_space (code c) && rest == "" then "" else String.◌∷◌ c rest

unfoldable pub trim : String → String
unfolding trim_start trim_end
trim s = trim_end (trim_start s)

unfoldable pub to_lower : ℕ → ℕ
to_lower c = if leb b'A' c && leb c b'Z' then c + 32 else c

abbrev pub codes : String → List ℕ
codes String.[] = []
codes (String.◌∷◌ c s) = code c ∷ codes s

abbrev pub codes_eq : List ℕ → List ℕ → Bool
codes_eq [] [] = true
codes_eq [] (b ∷ bs) = false
codes_eq (a ∷ as') [] = false
codes_eq (a ∷ as') (b ∷ bs) = nat_eq a b && codes_eq as' bs

-- `s.toLowerCase() === t`, for a `t` of small ASCII letters other than `k`. Then no letter
-- outside ASCII has a small form that occurs in `t`, so lowering A to Z is exact.
unfoldable pub lower_eq : String → String → Bool
unfolding to_lower
lower_eq s t = codes_eq (map to_lower (codes s)) (codes t)
