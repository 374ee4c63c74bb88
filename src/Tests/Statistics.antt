-- ===== src/Tests/Statistics.antt =====
-- The theorem on the statistics of a customer, for two payments of one account.
use comos_pay_community_serv.Base.{
  String, Option, some, List, [], ◌∷◌, ◌≡◌, ◌≢◌, arith, eq_iff, length, keep,
}
use comos_pay_community_serv.Prisma.Schema.{PaymentIntent}
use comos_pay_community_serv.Customers.{Sums, count_intents, stats_of}
use comos_pay_community_serv.Customers.Totals.{
  pays_from, succeeds_from, sum_of, stats_of-count_intents,
}
use comos_pay_community_serv.Tests.{order, paid_order}

-- A sum as the list of its terms.
abbrev pub terms : Sums
terms = record {
  Sum = List (Option String);
  zero = [];
  add = λ sum amount. amount ∷ sum;
  show = λ sum. "";
}

abbrev intents : List PaymentIntent
intents = record order { source = some "PAYER" } ∷ record paid_order { source = some "PAYER" } ∷ []

payer_is_named : ◌≢◌ {A = String} "PAYER" ""
payer_is_named = ground (arith, eq_iff "PAYER" "")

stats_of-count_intents_example :
    stats_of terms (count_intents terms [] intents) (some "PAYER") ≡ record {
      payments = length (keep (pays_from terms "PAYER") intents);
      succeeded_payments = length (keep (succeeds_from terms "PAYER") intents);
      total = sum_of terms [] (keep (succeeds_from terms "PAYER") intents);
    }
stats_of-count_intents_example = stats_of-count_intents terms "PAYER" intents payer_is_named
