-- ===== src/Analytics/Balances/Sums.antt =====
-- The balance of each asset against its intents.
use mathlib.Core.List.{Permᴰ}
use comos_pay_community_serv.Base.{
  ◌+◌, String, Bool, true, false, ◌||◌, List, [], ◌∷◌, ◌≡◌, refl, ◌∙◌, arith, length, keep, map,
  All, All-every, Memᴰ, ap, fold_rows, group, group-HasKeys, group-All, group-has, group-All-from,
  mem-get, HasKeys, inl, inr, Bool-cases,
}
use comos_pay_community_serv.Prisma.Schema.{
  PaymentIntent, PaymentIntentStatus, pending, submitted, succeeded, status_eq,
}
use comos_pay_community_serv.Analytics.{Floats, money}
use comos_pay_community_serv.Analytics.Summary.{is_succeeded}
use comos_pay_community_serv.Analytics.Summary.PerAsset.{sum_amounts, of_asset}
use comos_pay_community_serv.Analytics.Balances.{
  Balance, BalanceRow, no_balance, add_balance, balance_label, balance_map, balance_row,
  balances_of,
}
use comos_pay_community_serv.Analytics.Balances.Sorted.{
  IsOrdered, IsDescending, sort_rows-IsDescending, sort_rows-All, sort_rows-perm, mem-sort_rows,
}

abbrev pub is_open : PaymentIntent → Bool
is_open i = status_eq i.status pending || status_eq i.status submitted

not_both :
    (s : PaymentIntentStatus)
    → status_eq s succeeded ≡ true
    → (status_eq s pending || status_eq s submitted) ≡ false
not_both s h = ground arith

module _ (F : Floats) where
  -- The row tells the intents of its asset that succeeded, how many and how much, and how much is
  -- still open.
  abbrev pub Tells : List PaymentIntent → BalanceRow → Type 0
  Tells intents r =
      (r.count ≡ length (keep is_succeeded (of_asset F r.asset intents)))
      × (r.amount
          ≡ money F (sum_amounts F (F.of_nat 0) (keep is_succeeded (of_asset F r.asset intents))))
      × (r.pending
          ≡ money F (sum_amounts F (F.of_nat 0) (keep is_open (of_asset F r.asset intents))))

  abbrev totalled : Balance F → List PaymentIntent → Balance F
  totalled v intents = record {
    settled = sum_amounts F v.settled (keep is_succeeded intents);
    pending = sum_amounts F v.pending (keep is_open intents);
    settled_count = v.settled_count + length (keep is_succeeded intents);
  }

  fold_balance :
      (v : Balance F) (intents : List PaymentIntent)
      → fold_rows (balance_label F) (no_balance F) (add_balance F) v intents ≡ totalled v intents
  fold_balance v [] =
      let plain : v.settled_count + 0 ≡ v.settled_count = omega arith in rw plain refl
  fold_balance v (i ∷ rest) = fold_balance (add_balance F i v) rest ∙ step
    where
      step : totalled (add_balance F i v) rest ≡ totalled v (i ∷ rest)
      step = elim (Bool-cases (is_succeeded i)) [
        | inl good ↦
            let one_more : v.settled_count + 1 + length (keep is_succeeded rest)
                ≡ v.settled_count + length (i ∷ keep is_succeeded rest) =
              omega arith in
            rw (good, not_both i.status good, one_more) refl
        | inr bad ↦ elim (Bool-cases (is_open i)) [
          | inl pays ↦ rw (bad, pays) refl
          | inr closed ↦ rw (bad, closed) refl
        ]
      ]

  All-balances :
      (intents : List PaymentIntent) (m : List (String × Balance F))
      → All
          (λ e.
            e.1
            ≡ fold_rows
                (balance_label F)
                (no_balance F)
                (add_balance F)
                (no_balance F)
                (of_asset F e.0 intents))
          m
      → All (Tells intents) (map (balance_row F) m)
  All-balances intents [] h = tt
  All-balances intents ((asset, v) ∷ rest) (e, h) =
      let same : v ≡ totalled (no_balance F) (of_asset F asset intents) =
        e ∙ fold_balance (no_balance F) (of_asset F asset intents) in
      (
        (
          ap (λ (x : Balance F). x.settled_count) same ∙ omega arith,
          ap (λ (x : Balance F). money F x.settled) same,
          ap (λ (x : Balance F). money F x.pending) same,
        ),
        All-balances intents rest h,
      )

  mem-balance_row :
      (e : String × Balance F) (m : List (String × Balance F))
      → Memᴰ e m
      → Memᴰ (balance_row F e) (map (balance_row F) m)
  mem-balance_row e [] h = elim h [ ]
  mem-balance_row e (x ∷ rest) (Memᴰ.head same) = Memᴰ.head (ap (balance_row F) same)
  mem-balance_row e (x ∷ rest) (Memᴰ.tail h) = Memᴰ.tail (mem-balance_row e rest h)

  -- A row of the asset of the intent; and an intent of the asset of the row.
  abbrev pub HasRow : List BalanceRow → PaymentIntent → Type 0
  HasRow rows i = (r : BalanceRow) × Memᴰ r rows × (r.asset ≡ balance_label F i)

  abbrev pub HasIntent : List PaymentIntent → BalanceRow → Type 0
  HasIntent intents r = (i : PaymentIntent) × Memᴰ i intents × (balance_label F i ≡ r.asset)

  balances_of-HasRow :
      (intents : List PaymentIntent) (i : PaymentIntent)
      → Memᴰ i intents
      → HasRow (balances_of F intents) i
  unfolding balances_of balance_map
  balances_of-HasRow intents i there =
      let m : List (String × Balance F) =
        group (balance_label F) (no_balance F) (add_balance F) [] intents in
      let (v, e) = group-has (balance_label F) (no_balance F) (add_balance F) [] intents i there in
      let entry : String × Balance F = (balance_label F i, v) in
      (
        balance_row F entry,
        mem-sort_rows F (balance_row F entry) (map (balance_row F) m)
            (mem-balance_row entry m (mem-get (balance_label F i) m v e)),
        refl,
      )

  rows-HasIntent :
      (intents : List PaymentIntent) (m : List (String × Balance F))
      → All (λ e. (i : PaymentIntent) × Memᴰ i intents × (balance_label F i ≡ e.0)) m
      → All (HasIntent intents) (map (balance_row F) m)
  rows-HasIntent intents [] h = tt
  rows-HasIntent intents (e ∷ rest) (here, h) = (here, rows-HasIntent intents rest h)

  balances_of-HasIntent :
      (intents : List PaymentIntent) → All (HasIntent intents) (balances_of F intents)
  unfolding balances_of balance_map
  balances_of-HasIntent intents =
      let m : List (String × Balance F) =
        group (balance_label F) (no_balance F) (add_balance F) [] intents in
      sort_rows-All F (HasIntent intents) (map (balance_row F) m) (
        rows-HasIntent intents m
          (group-All-from (balance_label F) (no_balance F) (add_balance F) intents))

  -- The balances have exactly one row for each asset of the intents, and none for another. A row
  -- tells how many of the intents of its asset succeeded, how much they settled and how much is
  -- still open. No row is worth less than a later one, where the numbers are ordered.
  pub balances_of_lem :
      IsOrdered F
      → (intents : List PaymentIntent)
      → HasKeys (balance_map F intents)
        × Permᴰ (balances_of F intents) (map (balance_row F) (balance_map F intents))
        × All (HasRow (balances_of F intents)) intents
        × All (HasIntent intents) (balances_of F intents)
        × All (Tells intents) (balances_of F intents)
        × IsDescending F (balances_of F intents)
  unfolding balances_of balance_map
  balances_of_lem ordered intents =
      let rows : List BalanceRow =
        map (balance_row F) (group (balance_label F) (no_balance F) (add_balance F) [] intents) in
      (
        group-HasKeys (balance_label F) (no_balance F) (add_balance F) [] intents tt,
        sort_rows-perm F rows,
        All-every (HasRow (balances_of F intents)) intents (balances_of-HasRow intents),
        balances_of-HasIntent intents,
        sort_rows-All F (Tells intents) rows (
            All-balances intents (group (balance_label F) (no_balance F) (add_balance F) [] intents)
              (group-All (balance_label F) (no_balance F) (add_balance F) intents)),
        sort_rows-IsDescending F ordered rows,
      )
