-- ===== src/Analytics/Series/Dates.antt =====
-- The dates of the daily series, and where the index of the series finds them.
use comos_pay_community_serv.Base.{
  ℕ, zero, suc, ◌+◌, ◌*◌, ◌/◌, ◌<◌, String, false, Option, none, some, List, [], ◌∷◌, map, ◌≡◌,
  refl, ap, ◌∙◌, inl, inr, arith, ◌==◌, eq_iff, map_get, map_set, get-set, Bool-cases, Option-cases,
  if◌then◌else◌, subst, str_eq_false,
}
use comos_pay_community_serv.Analytics.{Floats, day_ms}
use comos_pay_community_serv.Analytics.Series.{Day, date_of, modify, index_dates, days_from}

abbrev pub position : String → List String → Option ℕ
position key [] = none
position key (date ∷ rest) =
    if date == key
    then some 0
    else (elim (position key rest) [ none ↦ none | some k ↦ some (suc k) ])

-- No date stands twice.
abbrev pub IsDistinct : List String → Type 0
IsDistinct [] = Unit
IsDistinct (date ∷ rest) = (position date rest ≡ none) × IsDistinct rest

abbrev pub shifted : ℕ → Option ℕ → Option ℕ → Option ℕ
shifted p none o = o
shifted p (some k) o = some (p + k)

shifted-suc :
    (p : ℕ) (found o : Option ℕ)
    → shifted (suc p) found o ≡ shifted p (elim found [ none ↦ none | some k ↦ some (suc k) ]) o
shifted-suc p none o = refl
shifted-suc p (some k) o = ap some (omega arith)

-- The index finds the position of each date.
pub get-index_dates :
    (m : List (String × ℕ)) (p : ℕ) (dates : List String) (key : String)
    → IsDistinct dates
    → map_get key (index_dates m p dates) ≡ shifted p (position key dates) (map_get key m)
unfolding index_dates
get-index_dates m p [] key h = refl
get-index_dates m p (date ∷ rest) key (new, h) = elim (Bool-cases (date == key)) [
  | inl e ↦
      let none_left : position key rest ≡ none =
        subst (λ k. position k rest ≡ none) ((eq_iff date key).0 e) new in
      get-index_dates (map_set date p m) (suc p) rest key h
      ∙ rw (get-set date key p m) (rw (e, none_left) (ap some (omega arith)))
  | inr e ↦
      get-index_dates (map_set date p m) (suc p) rest key h
      ∙ rw (get-set date key p m) (rw e (shifted-suc p (position key rest) (map_get key m)))
]

-- A change at the position of a date is a change of the entry with that date.
pub modify-position :
    (key : String) (f : Day → Day) (series : List Day)
    → IsDistinct (map date_of series)
    → (elim (position key (map date_of series)) [ none ↦ series | some k ↦ modify k f series ])
      ≡ map (λ d. if d.date == key then f d else d) series
unfolding modify
modify-position key f [] h = refl
modify-position key f (d ∷ rest) (new, h) = elim (Bool-cases (d.date == key)) [
  | inl e ↦
      let none_left : position key (map date_of rest) ≡ none =
        subst (λ k. position k (map date_of rest) ≡ none) ((eq_iff d.date key).0 e) new in
      let same : rest ≡ map (λ x. if x.date == key then f x else x) rest =
        rw none_left at (modify-position key f rest h) in
      rw e (ap (λ xs. f d ∷ xs) same)
  | inr e ↦ elim (Option-cases (position key (map date_of rest))) [
    | inl absent ↦
        let same : rest ≡ map (λ x. if x.date == key then f x else x) rest =
          rw absent at (modify-position key f rest h) in
        rw (e, absent) (ap (λ xs. d ∷ xs) same)
    | inr (k, there) ↦
        let same : modify k f rest ≡ map (λ x. if x.date == key then f x else x) rest =
          rw there at (modify-position key f rest h) in
        rw (e, there) (ap (λ xs. d ∷ xs) same)
  ]
]

-- The rows of different days have different dates, in the years that are written with four digits.
abbrev pub year_10000 : ℕ
year_10000 = 253402300800000

abbrev pub TellsDays : (ℕ → String) → Type 0
TellsDays iso_date =
    (a b : ℕ) → a < year_10000 → b < year_10000 → iso_date a ≡ iso_date b → a / day_ms ≡ b / day_ms

module _ (F : Floats) (iso_date : ℕ → String) (tells : TellsDays iso_date) where
  days_from-later :
      (start c d left : ℕ)
      → c < d
      → start + (d + left) * day_ms < year_10000
      → position (iso_date (start + c * day_ms)) (days_from F iso_date start d left) ≡ none
  unfolding days_from
  days_from-later start c d zero before bound = refl
  days_from-later start c d (suc left) before bound =
      let other : (iso_date (start + d * day_ms) == iso_date (start + c * day_ms)) ≡ false =
        str_eq_false (iso_date (start + d * day_ms)) (iso_date (start + c * day_ms)) λ same.
          let days : (start + d * day_ms) / day_ms ≡ (start + c * day_ms) / day_ms =
            tells (start + d * day_ms) (start + c * day_ms) (omega arith) (omega arith) same in
          omega (arith, days) in
      rw (other, days_from-later start c (suc d) left (omega arith) (omega arith))

  pub days_from-IsDistinct :
      (start d left : ℕ)
      → start + (d + left) * day_ms < year_10000
      → IsDistinct (days_from F iso_date start d left)
  unfolding days_from
  days_from-IsDistinct start d zero bound = tt
  days_from-IsDistinct start d (suc left) bound = (
    days_from-later start d (suc d) left (omega arith) (omega arith),
    days_from-IsDistinct start (suc d) left (omega arith),
  )
