-- ===== src/Tests/Dashboard.antt =====
-- The theorems on the aggregates, for whole amounts and three intents.
use mathlib.Core.List.{Permᴰ}
use comos_pay_community_serv.Base.{
  ℕ, ◌+◌, ◌*◌, ◌/◌, ◌≤◌, String, true, some, List, [], ◌∷◌, ◌≡◌, refl, sym, ap, ◌∙◌, arith, ltb,
  map, length, All, HasKeys, done, false,
}
use comos_pay_community_serv.Prisma.Schema.{
  PaymentIntent, succeeded, pending, submitted, failed, cancelled, expired,
}
use comos_pay_community_serv.Prisma.Client.{memory_client-IsLawfulClient}
use comos_pay_community_serv.Intents.Memo.{big_int, to_decimal}
use comos_pay_community_serv.Intents.Memo.Decimal.{big_int-to_decimal}
use comos_pay_community_serv.Analytics.{Floats, day_ms, money}
use comos_pay_community_serv.Analytics.Series.{series_of}
use comos_pay_community_serv.Analytics.Series.Dates.{TellsDays}
use comos_pay_community_serv.Analytics.Series.Reference.{day_of, last_days, series_of_lem}
use comos_pay_community_serv.Analytics.Summary.{totals_of, volume_map, volume_row}
use comos_pay_community_serv.Analytics.Summary.Totals.{number_with, totals_of-Counts}
use comos_pay_community_serv.Analytics.Summary.PerAsset.{
  of_asset, sum_amounts, sum_counts, volume_map-Counts,
}
use comos_pay_community_serv.Analytics.Balances.{balances_of, balance_map, balance_row}
use comos_pay_community_serv.Analytics.Balances.Sorted.{IsOrdered, IsDescending}
use comos_pay_community_serv.Analytics.Balances.Sums.{HasRow, HasIntent, Tells, balances_of_lem}
use comos_pay_community_serv.Analytics.Logs.{WebhookLogs, list_webhook_logs}
use comos_pay_community_serv.Analytics.Logs.Scoped.{IsOwnDelivery, list_webhook_logs_lem}
use comos_pay_community_serv.Tests.{platform, order, paid_order}
use comos_pay_community_serv.Tests.Deliveries.{one_delivery}

-- Whole numbers and their decimal texts.
abbrev pub whole_numbers : Floats
whole_numbers = record {
  Number = ℕ;
  of_nat = λ n. n;
  of_text = big_int;
  is_finite = λ n. true;
  add = λ a b. a + b;
  times = λ a b. a * b;
  over = λ a b. a / b;
  round = λ n. n;
  less = ltb;
  to_fixed = λ n digits. to_decimal n;
  to_text = to_decimal;
}

-- The number of the day as a decimal text.
abbrev pub day_number : ℕ → String
day_number ms = to_decimal (ms / day_ms)

day_number-TellsDays : TellsDays day_number
day_number-TellsDays a b early_a early_b same =
    sym (big_int-to_decimal (a / day_ms) (omega arith))
    ∙ (ap big_int same ∙ big_int-to_decimal (b / day_ms) (omega arith))

abbrev sales : List PaymentIntent
sales = paid_order ∷ record paid_order { asset = "USDC"; amount = some "7" } ∷ order ∷ []

series_of_lem_example :
    series_of whole_numbers day_number 5000000000 sales
    ≡ map (day_of whole_numbers day_number sales) (last_days whole_numbers day_number 5000000000 30)
series_of_lem_example =
    series_of_lem whole_numbers day_number day_number-TellsDays 5000000000 sales (omega arith)
      (omega arith)

totals_of-Counts_example :
    ((totals_of whole_numbers sales).all ≡ length sales)
    × ((totals_of whole_numbers sales).succeeded ≡ number_with succeeded sales)
    × ((totals_of whole_numbers sales).pending ≡ number_with pending sales)
    × ((totals_of whole_numbers sales).submitted ≡ number_with submitted sales)
    × ((totals_of whole_numbers sales).failed ≡ number_with failed sales)
    × ((totals_of whole_numbers sales).cancelled ≡ number_with cancelled sales)
    × ((totals_of whole_numbers sales).expired ≡ number_with expired sales)
    × ((totals_of whole_numbers sales).succeeded
          + (totals_of whole_numbers sales).pending
          + (totals_of whole_numbers sales).submitted
          + (totals_of whole_numbers sales).failed
          + (totals_of whole_numbers sales).cancelled
          + (totals_of whole_numbers sales).expired
        ≡ (totals_of whole_numbers sales).all)
totals_of-Counts_example = totals_of-Counts whole_numbers sales

volume_map-Counts_example :
    HasKeys (volume_map whole_numbers sales)
    × All
        (λ r.
          (r.count ≡ length (of_asset whole_numbers r.asset sales))
          × (r.amount
              ≡ money whole_numbers
                  (sum_amounts whole_numbers 0 (of_asset whole_numbers r.asset sales))))
        (map (volume_row whole_numbers) (volume_map whole_numbers sales))
    × (sum_counts whole_numbers (map (volume_row whole_numbers) (volume_map whole_numbers sales))
        ≡ length sales)
volume_map-Counts_example = volume_map-Counts whole_numbers sales

ltb_asym : (a b : ℕ) → ltb a b ≡ true → ltb b a ≡ false
ltb_asym a b h = ground arith

whole_numbers-IsOrdered : IsOrdered whole_numbers
whole_numbers-IsOrdered = record {
  nought_finite = refl;
  less_asym = ltb_asym;
  less_trans = λ a b c fa fb fc h k. ground arith;
}

balances_of_lem_example :
    HasKeys (balance_map whole_numbers sales)
    × Permᴰ
        (balances_of whole_numbers sales)
        (map (balance_row whole_numbers) (balance_map whole_numbers sales))
    × All (HasRow whole_numbers (balances_of whole_numbers sales)) sales
    × All (HasIntent whole_numbers sales) (balances_of whole_numbers sales)
    × All (Tells whole_numbers sales) (balances_of whole_numbers sales)
    × IsDescending whole_numbers (balances_of whole_numbers sales)
balances_of_lem_example = balances_of_lem whole_numbers whole_numbers-IsOrdered sales

list_webhook_logs_lem_example :
    (l : WebhookLogs) × (list_webhook_logs platform 100 "c1" one_delivery ≡ done l one_delivery)
    × All (IsOwnDelivery platform one_delivery "c1") l.items
    × (l.total ≡ length l.items)
    × (l.total ≤ 100)
list_webhook_logs_lem_example =
    list_webhook_logs_lem platform memory_client-IsLawfulClient 100 one_delivery "c1"
