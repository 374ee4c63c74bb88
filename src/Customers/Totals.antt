-- ===== src/Customers/Totals.antt =====
-- The statistics of a customer against a count of the intents of its account.
use comos_pay_community_serv.Base.{
  ◌+◌, String, Bool, ◌&&◌, some, List, [], ◌∷◌, ◌≡◌, ◌≢◌, inl, inr, refl, ap, ◌∙◌, arith, ◌==◌,
  eq_iff, coalesce, length, keep, option_eq, if◌then◌else◌, Bool-cases, Option-cases, str_eq_false,
  map_get, get-set,
}
use comos_pay_community_serv.Prisma.Schema.{PaymentIntent, succeeded, status_eq}
use comos_pay_community_serv.Customers.{
  Sums, Stats, no_stats, counted, count_intent, count_intents, stats_of,
}

module _ (S : Sums) where
  -- The intents of the account, and those of them that succeeded.
  abbrev pub pays_from : String → PaymentIntent → Bool
  pays_from account i = option_eq i.source (some account)

  abbrev pub succeeds_from : String → PaymentIntent → Bool
  succeeds_from account i = option_eq i.source (some account) && status_eq i.status succeeded

  abbrev pub sum_of : S.Sum → List PaymentIntent → S.Sum
  sum_of acc [] = acc
  sum_of acc (i ∷ rest) = sum_of (S.add acc i.amount) rest

  abbrev pub added : String → Stats S → List PaymentIntent → Stats S
  added account s intents = record {
    payments = s.payments + length (keep (pays_from account) intents);
    succeeded_payments = s.succeeded_payments + length (keep (succeeds_from account) intents);
    total = sum_of s.total (keep (succeeds_from account) intents);
  }

  added_cons :
      (account : String) (s : Stats S) (i : PaymentIntent) (rest : List PaymentIntent)
      → added account (if pays_from account i then counted S i s else s) rest
        ≡ added account s (i ∷ rest)
  added_cons account s i rest = elim (Bool-cases (option_eq i.source (some account))) [
    | inr off ↦ rw off refl
    | inl on ↦ elim (Bool-cases (status_eq i.status succeeded)) [
      | inl good ↦
          let p : s.payments + 1 + length (keep (pays_from account) rest)
              ≡ s.payments + length (i ∷ keep (pays_from account) rest) =
            ground arith in
          let q : s.succeeded_payments + 1 + length (keep (succeeds_from account) rest)
              ≡ s.succeeded_payments + length (i ∷ keep (succeeds_from account) rest) =
            ground arith in
          rw (on, good, p, q) refl
      | inr bad ↦
          let p : s.payments + 1 + length (keep (pays_from account) rest)
              ≡ s.payments + length (i ∷ keep (pays_from account) rest) =
            ground arith in
          rw (on, bad, p) refl
    ]
  ]

  added_nil : (account : String) (s : Stats S) → s ≡ added account s []
  added_nil account s =
      let p : s.payments + 0 ≡ s.payments = omega arith in
      let q : s.succeeded_payments + 0 ≡ s.succeeded_payments = omega arith in rw (p, q) refl

  step :
      (account : String) (m : List (String × Stats S)) (i : PaymentIntent)
      → coalesce (map_get account (count_intent S m i)) (no_stats S) ≡ (
          if pays_from account i
          then counted S i (coalesce (map_get account m) (no_stats S))
          else coalesce (map_get account m) (no_stats S))
  unfolding count_intent
  step account m i = elim (Option-cases i.source) [
    | inl e ↦ rw (e, count_intent) refl
    | inr (a, e) ↦ elim (Bool-cases (a == account)) [
      | inl t ↦
          rw (e, count_intent)
            (rw (get-set a account (counted S i (coalesce (map_get a m) (no_stats S))) m) (
              rw t (
                ap (λ x. counted S i (coalesce (map_get x m) (no_stats S)))
                  ((eq_iff a account).0 t))))
      | inr t ↦
          rw (e, count_intent)
            (rw (get-set a account (counted S i (coalesce (map_get a m) (no_stats S))) m)
              (rw t refl))
    ]
  ]

  counts :
      (account : String) (m : List (String × Stats S)) (intents : List PaymentIntent)
      → coalesce (map_get account (count_intents S m intents)) (no_stats S)
        ≡ added account (coalesce (map_get account m) (no_stats S)) intents
  unfolding count_intents
  counts account m [] = added_nil account (coalesce (map_get account m) (no_stats S))
  counts account m (i ∷ rest) =
      counts account (count_intent S m i) rest
      ∙ (ap (λ s. added account s rest) (step account m i)
          ∙ added_cons account (coalesce (map_get account m) (no_stats S)) i rest)

  -- The statistics of an account that is not empty, as findAll computes them over the intents: the
  -- number of the intents whose source it is, the number of those that succeeded, and the sum of the
  -- amounts of these, in their order.
  pub stats_of-count_intents :
      (account : String) (intents : List PaymentIntent)
      → account ≢ ""
      → stats_of S (count_intents S [] intents) (some account) ≡ record {
        payments = length (keep (pays_from account) intents);
        succeeded_payments = length (keep (succeeds_from account) intents);
        total = sum_of S.zero (keep (succeeds_from account) intents);
      }
  unfolding stats_of map_get
  stats_of-count_intents account intents full =
      let p : 0 + length (keep (pays_from account) intents)
          ≡ length (keep (pays_from account) intents) =
        omega arith in
      let q : 0 + length (keep (succeeds_from account) intents)
          ≡ length (keep (succeeds_from account) intents) =
        omega arith in
      rw (str_eq_false account "" full) (counts account [] intents ∙ rw (p, q) refl)
