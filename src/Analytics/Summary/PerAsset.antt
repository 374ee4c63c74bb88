-- ===== src/Analytics/Summary/PerAsset.antt =====
-- The settled volume of the summary against the intents of each asset.
use comos_pay_community_serv.Base.{
  ℕ, ◌+◌, String, List, [], ◌∷◌, ◌≡◌, refl, ◌∙◌, arith, length, keep, map, All, ◌==◌, ap, fold_rows,
  group, HasKeys, group-HasKeys, group-All, total_size, total_size-group,
}
use comos_pay_community_serv.Prisma.Schema.{PaymentIntent}
use comos_pay_community_serv.Analytics.{Floats, num, money}
use comos_pay_community_serv.Analytics.Summary.{
  Volume, VolumeRow, no_volume, add_volume, label_of, volume_map, volume_row,
}

module _ (F : Floats) where
  -- The amounts of the intents, added in their order.
  abbrev pub sum_amounts : F.Number → List PaymentIntent → F.Number
  sum_amounts n [] = n
  sum_amounts n (i ∷ rest) = sum_amounts (F.add n (num F i.amount)) rest

  abbrev pub of_asset : String → List PaymentIntent → List PaymentIntent
  of_asset asset intents = keep (λ i. label_of F i == asset) intents

  abbrev pub sum_counts : List VolumeRow → ℕ
  sum_counts [] = 0
  sum_counts (r ∷ rest) = r.count + sum_counts rest

  fold_volume :
      (v : Volume F) (intents : List PaymentIntent)
      → fold_rows (label_of F) (no_volume F) (add_volume F) v intents
        ≡ record { amount = sum_amounts v.amount intents; count = v.count + length intents }
  fold_volume v [] = let plain : v.count + 0 ≡ v.count = omega arith in rw plain refl
  fold_volume v (i ∷ rest) =
      let one_more : v.count + 1 + length rest ≡ v.count + length (i ∷ rest) = omega arith in
      fold_volume (add_volume F i v) rest ∙ rw one_more refl

  All-rows :
      (good : List PaymentIntent) (m : List (String × Volume F))
      → All
          (λ e.
            e.1
            ≡ fold_rows (label_of F) (no_volume F) (add_volume F) (no_volume F) (of_asset e.0 good))
          m
      → All
          (λ r.
            (r.count ≡ length (of_asset r.asset good))
            × (r.amount ≡ money F (sum_amounts (F.of_nat 0) (of_asset r.asset good))))
          (map (volume_row F) m)
  All-rows good [] h = tt
  All-rows good ((asset, v) ∷ rest) (e, h) =
      let same : v ≡ record {
        amount = sum_amounts (F.of_nat 0) (of_asset asset good);
        count = 0 + length (of_asset asset good);
      } =
        e ∙ fold_volume (no_volume F) (of_asset asset good) in
      (
        (
          ap (λ (x : Volume F). x.count) same ∙ omega arith,
          ap (λ (x : Volume F). money F x.amount) same,
        ),
        All-rows good rest h,
      )

  sum_counts-map :
      (m : List (String × Volume F))
      → sum_counts (map (volume_row F) m) ≡ total_size (λ (v : Volume F). v.count) m
  sum_counts-map [] = refl
  sum_counts-map (e ∷ rest) = ap (λ n. (e.1).count + n) (sum_counts-map rest)

  -- Each asset of the intents has one row of volume. The row counts the intents of the asset and
  -- shows the sum of their amounts, added in their order; and the counts of the rows add up to the
  -- number of the intents, so that none is left out.
  pub volume_map-Counts :
      (good : List PaymentIntent)
      → HasKeys (volume_map F good)
        × All
            (λ r.
              (r.count ≡ length (of_asset r.asset good))
              × (r.amount ≡ money F (sum_amounts (F.of_nat 0) (of_asset r.asset good))))
            (map (volume_row F) (volume_map F good))
        × (sum_counts (map (volume_row F) (volume_map F good)) ≡ length good)
  unfolding volume_map
  volume_map-Counts good = (
    group-HasKeys (label_of F) (no_volume F) (add_volume F) [] good tt,
    All-rows good (group (label_of F) (no_volume F) (add_volume F) [] good)
        (group-All (label_of F) (no_volume F) (add_volume F) good),
    sum_counts-map (group (label_of F) (no_volume F) (add_volume F) [] good)
        ∙ (total_size-group (λ (v : Volume F). v.count) (label_of F) (no_volume F) (add_volume F) []
              good refl (λ x v. refl)
            ∙ omega arith),
  )
