-- ===== src/Analytics/Series/Reference.antt =====
-- The daily series against a count of the intents of each date.
use comos_pay_community_serv.Base.{
  ℕ, zero, suc, ◌+◌, ◌-◌, ◌*◌, ◌<◌, ◌≤◌, String, Bool, true, false, none, some, List, [], ◌∷◌, map,
  ◌≡◌, refl, sym, ap, subst, ◌∙◌, arith, ◌==◌, ◌&&◌, eq_iff, map_get, keep, length, Bool-cases,
  Option-cases, inl, inr, if◌then◌else◌,
}
use comos_pay_community_serv.Prisma.Schema.{PaymentIntent, succeeded, status_eq}
use comos_pay_community_serv.Analytics.{Floats, num, money, day_ms}
use comos_pay_community_serv.Analytics.Series.{
  Day, date_of, blank, modify, index_dates, days_from, bump, count_day, count_days, series_of,
}
use comos_pay_community_serv.Analytics.Series.Dates.{
  position, IsDistinct, shifted, get-index_dates, modify-position, TellsDays, year_10000,
  days_from-IsDistinct,
}

module _ (F : Floats) (iso_date : ℕ → String) where
  -- The intents of a date, those of them that succeeded, and the sum of the amounts of these, which
  -- is rounded to a text after each.
  abbrev pub is_on : String → PaymentIntent → Bool
  is_on date i = iso_date i.created_at == date

  abbrev pub succeeded_on : String → PaymentIntent → Bool
  succeeded_on date i = iso_date i.created_at == date && status_eq i.status succeeded

  abbrev pub rounded_sum : String → List PaymentIntent → String
  rounded_sum volume [] = volume
  rounded_sum volume (i ∷ rest) =
      rounded_sum (money F (F.add (num F (some volume)) (num F i.amount))) rest

  abbrev pub added_to : Day → List PaymentIntent → Day
  added_to d intents = record {
    date = d.date;
    count = d.count + length (keep (is_on d.date) intents);
    volume = rounded_sum d.volume (keep (succeeded_on d.date) intents);
  }

  abbrev bump_own : PaymentIntent → Day → Day
  bump_own i d = if d.date == iso_date i.created_at then bump F iso_date i d else d

  date_of-bump_own : (i : PaymentIntent) (d : Day) → (bump_own i d).date ≡ d.date
  unfolding bump
  date_of-bump_own i d = ground arith

  added_to-bump_own :
      (i : PaymentIntent) (d : Day) (rest : List PaymentIntent)
      → added_to (bump_own i d) rest ≡ added_to d (i ∷ rest)
  unfolding bump
  added_to-bump_own i d rest = elim (Bool-cases (d.date == iso_date i.created_at)) [
    | inr off ↦
        let other : (iso_date i.created_at == d.date) ≡ false =
          ground
            (arith, eq_iff (iso_date i.created_at) d.date, eq_iff d.date (iso_date i.created_at)) in
        rw (off, other) refl
    | inl on ↦
        let other : (iso_date i.created_at == d.date) ≡ true =
          ground
            (arith, eq_iff (iso_date i.created_at) d.date, eq_iff d.date (iso_date i.created_at)) in
        let one_more : d.count + 1 + length (keep (is_on d.date) rest)
            ≡ d.count + length (i ∷ keep (is_on d.date) rest) =
          omega arith in
        elim (Bool-cases (status_eq i.status succeeded)) [
          | inl good ↦ rw (on, other, good, one_more) refl
          | inr bad ↦ rw (on, other, bad, one_more) refl
        ]
  ]

  map-date_of :
      (i : PaymentIntent) (series : List Day)
      → map date_of (map (bump_own i) series) ≡ map date_of series
  map-date_of i [] = refl
  map-date_of i (d ∷ rest) = rw (date_of-bump_own i d) (ap (λ ds. d.date ∷ ds) (map-date_of i rest))

  count_day_lem :
      (i : PaymentIntent) (dates : List String) (series : List Day)
      → IsDistinct dates
      → map date_of series ≡ dates
      → count_day F iso_date (index_dates [] 0 dates) series i ≡ map (bump_own i) series
  unfolding count_day map_get
  count_day_lem i dates series h same =
      let key : String = iso_date i.created_at in
      let found : map_get key (index_dates [] 0 dates)
          ≡ shifted 0 (position key (map date_of series)) none =
        get-index_dates [] 0 dates key h ∙ ap (λ ds. shifted 0 (position key ds) none) (sym same) in
      rw (found, count_day)
        (drop_shift key series
          ∙ modify-position key (bump F iso_date i) series (subst IsDistinct (sym same) h))
    where
      drop_shift :
          (key : String) (xs : List Day)
          → (elim (shifted 0 (position key (map date_of xs)) none) [
            | none ↦ xs
            | some k ↦ modify k (bump F iso_date i) xs
          ])
            ≡ (elim (position key (map date_of xs)) [
              | none ↦ xs
              | some k ↦ modify k (bump F iso_date i) xs
            ])
      drop_shift key xs = elim (Option-cases (position key (map date_of xs))) [
        | inl e ↦ rw e refl
        | inr (k, e) ↦ let plain : 0 + k ≡ k = omega arith in rw (e, plain) refl
      ]

  map-added_to_nil : (series : List Day) → series ≡ map (λ d. added_to d []) series
  map-added_to_nil [] = refl
  map-added_to_nil (d ∷ rest) =
      let plain : d.count + 0 ≡ d.count = omega arith in
      rw plain (ap (λ ds. d ∷ ds) (map-added_to_nil rest))

  map-added_to_cons :
      (i : PaymentIntent) (rest : List PaymentIntent) (series : List Day)
      → map (λ d. added_to d rest) (map (bump_own i) series)
        ≡ map (λ d. added_to d (i ∷ rest)) series
  map-added_to_cons i rest [] = refl
  map-added_to_cons i rest (d ∷ ds) =
      ap (λ x. x ∷ map (λ d. added_to d rest) (map (bump_own i) ds)) (added_to-bump_own i d rest)
      ∙ ap (λ xs. added_to d (i ∷ rest) ∷ xs) (map-added_to_cons i rest ds)

  count_days_lem :
      (dates : List String) (series : List Day) (intents : List PaymentIntent)
      → IsDistinct dates
      → map date_of series ≡ dates
      → count_days F iso_date (index_dates [] 0 dates) series intents
        ≡ map (λ d. added_to d intents) series
  unfolding count_days
  count_days_lem dates series [] h same = map-added_to_nil series
  count_days_lem dates series (i ∷ rest) h same =
      ap (λ xs. count_days F iso_date (index_dates [] 0 dates) xs rest)
        (count_day_lem i dates series h same)
      ∙ (count_days_lem dates (map (bump_own i) series) rest h (map-date_of i series ∙ same)
          ∙ map-added_to_cons i rest series)

  -- What an entry of the series says of a date.
  abbrev pub day_of : List PaymentIntent → String → Day
  day_of intents date = record {
    date = date;
    count = length (keep (is_on date) intents);
    volume = rounded_sum "0" (keep (succeeded_on date) intents);
  }

  map-blank : (dates : List String) → map date_of (map blank dates) ≡ dates
  map-blank [] = refl
  map-blank (date ∷ rest) = ap (λ ds. date ∷ ds) (map-blank rest)

  map-day_of :
      (intents : List PaymentIntent) (dates : List String)
      → map (λ d. added_to d intents) (map blank dates) ≡ map (day_of intents) dates
  map-day_of intents [] = refl
  map-day_of intents (date ∷ rest) =
      let plain : 0 + length (keep (is_on date) intents) ≡ length (keep (is_on date) intents) =
        omega arith in
      rw plain (ap (λ ds. day_of intents date ∷ ds) (map-day_of intents rest))

  -- The dates of the last days, the oldest first: `n` counts them, and the last is the one of `now`.
  abbrev pub last_days : ℕ → ℕ → List String
  last_days now zero = []
  last_days now (suc n) = iso_date (now - n * day_ms) ∷ last_days now n

  days_from-last_days :
      (start now d left : ℕ)
      → start + (d + left) * day_ms ≡ now + day_ms
      → days_from F iso_date start d left ≡ last_days now left
  unfolding days_from
  days_from-last_days start now d zero h = refl
  days_from-last_days start now d (suc left) h =
      let first : start + d * day_ms ≡ now - left * day_ms = omega arith in
      ap (λ t. iso_date t ∷ days_from F iso_date start (suc d) left) first
      ∙ ap (λ ds. iso_date (now - left * day_ms) ∷ ds)
          (days_from-last_days start now (suc d) left (omega arith))

  -- Where the dates tell days apart, and the clock is at least 29 days past 1970-01-01 and a day
  -- before the year 10000, the daily series has 30 entries, for the dates of 29 days ago up to now,
  -- each a day later than the one before. An entry counts the intents of its date, and its volume
  -- is the sum of the amounts of those that succeeded, rounded after each.
  pub series_of_lem :
      TellsDays iso_date
      → (now : ℕ) (intents : List PaymentIntent) → 29 * day_ms ≤ now
      → now + day_ms < year_10000
      → series_of F iso_date now intents ≡ map (day_of intents) (last_days now 30)
  unfolding series_of
  series_of_lem tells now intents late early =
      let dates : List String = days_from F iso_date (now - 29 * day_ms) 0 30 in
      let distinct : IsDistinct dates =
        days_from-IsDistinct F iso_date tells (now - 29 * day_ms) 0 30 (omega arith) in
      count_days_lem dates (map blank dates) intents distinct (map-blank dates)
      ∙ map-day_of intents dates
      ∙ ap (map (day_of intents)) (days_from-last_days (now - 29 * day_ms) now 0 30 (omega arith))
