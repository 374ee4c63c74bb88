-- ===== src/Analytics/Summary/Totals.antt =====
-- The totals of the summary against a count of the intents of each status.
use comos_pay_community_serv.Base.{
  ℕ, ◌+◌, List, [], ◌∷◌, ◌≡◌, refl, ◌∙◌, arith, length, keep, inl, inr, Bool-cases, Bool,
  if◌then◌else◌,
}
use comos_pay_community_serv.Prisma.Schema.{
  PaymentIntent, PaymentIntentStatus, pending, submitted, succeeded, failed, cancelled, expired,
  status_eq,
}
use comos_pay_community_serv.Analytics.{Floats}
use comos_pay_community_serv.Analytics.Summary.{Tally, counted, tally, totals_of}

abbrev pub has_status : PaymentIntentStatus → PaymentIntent → Bool
has_status s i = status_eq i.status s

abbrev pub number_with : PaymentIntentStatus → List PaymentIntent → ℕ
number_with s intents = length (keep (has_status s) intents)

tally_lem :
    (t : Tally) (intents : List PaymentIntent) (s : PaymentIntentStatus)
    → tally t intents s ≡ t s + number_with s intents
unfolding tally
tally_lem t [] s = omega arith
tally_lem t (i ∷ rest) s = elim (Bool-cases (status_eq i.status s)) [
  | inl e ↦ tally_lem (counted t i) rest s ∙ rw e (omega arith)
  | inr e ↦ tally_lem (counted t i) rest s ∙ rw e refl
]

abbrev one_of : PaymentIntentStatus → PaymentIntentStatus → ℕ
one_of a s = if status_eq a s then 1 else 0

length-keep_cons :
    (s : PaymentIntentStatus) (i : PaymentIntent) (rest : List PaymentIntent)
    → number_with s (i ∷ rest) ≡ one_of i.status s + number_with s rest
length-keep_cons s i rest = elim (Bool-cases (status_eq i.status s)) [
  | inl e ↦ rw e (omega arith)
  | inr e ↦ rw e (omega arith)
]

one_status :
    (a : PaymentIntentStatus)
    → one_of a succeeded
        + one_of a pending
        + one_of a submitted
        + one_of a failed
        + one_of a cancelled
        + one_of a expired
      ≡ 1
one_status a = ground arith

-- Each intent has one of the six statuses.
length-statuses :
    (intents : List PaymentIntent)
    → length intents
      ≡ number_with succeeded intents
        + number_with pending intents
        + number_with submitted intents
        + number_with failed intents
        + number_with cancelled intents
        + number_with expired intents
length-statuses [] = omega arith
length-statuses (i ∷ rest) = omega (
  arith,
  length-statuses rest,
  one_status i.status,
  length-keep_cons succeeded i rest,
  length-keep_cons pending i rest,
  length-keep_cons submitted i rest,
  length-keep_cons failed i rest,
  length-keep_cons cancelled i rest,
  length-keep_cons expired i rest,
)

module _ (F : Floats) where
  -- Each total of the summary is the number of the intents with its status, `all` is the number of
  -- the intents, and the totals of the six statuses add up to `all`.
  pub totals_of-Counts :
      (intents : List PaymentIntent)
      → ((totals_of F intents).all ≡ length intents)
        × ((totals_of F intents).succeeded ≡ number_with succeeded intents)
        × ((totals_of F intents).pending ≡ number_with pending intents)
        × ((totals_of F intents).submitted ≡ number_with submitted intents)
        × ((totals_of F intents).failed ≡ number_with failed intents)
        × ((totals_of F intents).cancelled ≡ number_with cancelled intents)
        × ((totals_of F intents).expired ≡ number_with expired intents)
        × ((totals_of F intents).succeeded
              + (totals_of F intents).pending
              + (totals_of F intents).submitted
              + (totals_of F intents).failed
              + (totals_of F intents).cancelled
              + (totals_of F intents).expired
            ≡ (totals_of F intents).all)
  unfolding totals_of
  totals_of-Counts intents =
      let none_yet : Tally = λ s. 0 in
      let counts : (s : PaymentIntentStatus) → tally none_yet intents s ≡ number_with s intents =
        λ s. omega (arith, tally_lem none_yet intents s) in
      (
        refl,
        refl,
        counts pending,
        counts submitted,
        counts failed,
        counts cancelled,
        counts expired,
        omega (
          arith,
          counts pending,
          counts submitted,
          counts failed,
          counts cancelled,
          counts expired,
          length-statuses intents,
        ),
      )
