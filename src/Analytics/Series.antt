-- ===== src/Analytics/Series.antt =====
-- The daily series of `summary` in src/analytics/analytics.service.ts.
pub mod Dates
pub mod Reference
use comos_pay_community_serv.Base.{
  ℕ, zero, suc, ◌+◌, ◌-◌, ◌*◌, String, Option, none, some, List, [], ◌∷◌, map, map_get, map_set,
  if◌then◌else◌,
}
use comos_pay_community_serv.Prisma.Schema.{PaymentIntent, succeeded, status_eq}
use comos_pay_community_serv.Analytics.{Floats, num, money, day_ms}

-- One entry of the series.
pub record Day : Type 0 where
  pub date : String
  pub count : ℕ
  pub volume : String

abbrev pub date_of : Day → String
date_of d = d.date

abbrev pub blank : String → Day
blank date = record { date = date; count = 0; volume = "0" }

-- `series[idx]` is changed in place.
unfoldable pub modify : ℕ → (Day → Day) → List Day → List Day
modify k f [] = []
modify zero f (d ∷ rest) = f d ∷ rest
modify (suc k) f (d ∷ rest) = d ∷ modify k f rest

-- `new Map(series.map((s, idx) => [s.date, idx]))`, from the position `p`.
unfoldable pub index_dates : List (String × ℕ) → ℕ → List String → List (String × ℕ)
index_dates m p [] = m
index_dates m p (date ∷ rest) = index_dates (map_set date p m) (suc p) rest

-- `iso_date` is `new Date(ms).toISOString().slice(0, 10)`.
module _ (F : Floats) (iso_date : ℕ → String) where
  -- The `left` days from the day `d` after `start`.
  unfoldable pub days_from : ℕ → ℕ → ℕ → List String
  days_from start d zero = []
  days_from start d (suc left) = iso_date (start + d * day_ms) ∷ days_from start (suc d) left

  unfoldable pub bump : PaymentIntent → Day → Day
  bump i d = record d {
    count = d.count + 1;
    volume =
        if status_eq i.status succeeded
        then money F (F.add (num F (some d.volume)) (num F i.amount))
        else d.volume;
  }

  unfoldable pub count_day : List (String × ℕ) → List Day → PaymentIntent → List Day
  count_day index series i = elim (map_get (iso_date i.created_at) index) [
    | none ↦ series
    | some k ↦ modify k (bump i) series
  ]

  unfoldable pub count_days : List (String × ℕ) → List Day → List PaymentIntent → List Day
  count_days index series [] = series
  count_days index series (i ∷ rest) = count_days index (count_day index series i) rest

  -- The series of the 30 days up to `now`.
  unfoldable pub series_of : ℕ → List PaymentIntent → List Day
  unfolding days_from
  series_of now intents =
      let dates : List String = days_from (now - 29 * day_ms) 0 30 in
      count_days (index_dates [] 0 dates) (map blank dates) intents
