-- ===== src/Analytics/Balances/Sorted.antt =====
-- The order of the balances.
use mathlib.Core.List.{Permᴰ}
use mathlib.Core.List.Permᴰ
use comos_pay_community_serv.Base.{
  true, false, Option, none, some, String, List, [], ◌∷◌, Memᴰ, ◌≡◌, refl, arith, All, All-map, inl,
  inr, Bool-cases,
}
use comos_pay_community_serv.Analytics.{Floats, num}
use comos_pay_community_serv.Analytics.Balances.{BalanceRow, worth, insert_row, sort_rows}

-- What the comparison of JavaScript's numbers promises: it is asymmetric, and on finite numbers
-- its negation is transitive.
pub record IsOrdered (F : Floats) : Type 0 where
  pub nought_finite : F.is_finite (F.of_nat 0) ≡ true
  pub less_asym : (a b : F.Number) → F.less a b ≡ true → F.less b a ≡ false
  pub less_trans :
      (a b c : F.Number)
      → F.is_finite a ≡ true
      → F.is_finite b ≡ true
      → F.is_finite c ≡ true
      → F.less a b ≡ false
      → F.less b c ≡ false
      → F.less a c ≡ false

module _ (F : Floats) where
  -- No row is worth less than a later one.
  abbrev pub IsDescending : List BalanceRow → Type 0
  IsDescending [] = Unit
  IsDescending (r ∷ rest) =
      All (λ x. F.less (worth F r) (worth F x) ≡ false) rest × IsDescending rest

  insert-All :
      (Q : BalanceRow → Type 0) (r : BalanceRow) (rows : List BalanceRow)
      → Q r
      → All Q rows
      → All Q (insert_row F r rows)
  unfolding insert_row
  insert-All Q r [] q h = (q, tt)
  insert-All Q r (x ∷ rest) q (first, h) = elim (Bool-cases (F.less (worth F r) (worth F x))) [
    | inl e ↦ rw e (first, insert-All Q r rest q h)
    | inr e ↦ rw e (q, (first, h))
  ]

  pub sort_rows-All :
      (Q : BalanceRow → Type 0) (rows : List BalanceRow) → All Q rows → All Q (sort_rows F rows)
  unfolding sort_rows
  sort_rows-All Q [] h = tt
  sort_rows-All Q (r ∷ rest) (q, h) = insert-All Q r (sort_rows F rest) q (sort_rows-All Q rest h)

  module _ (ordered : IsOrdered F) where
    num-is_finite : (text : Option String) → F.is_finite (num F text) ≡ true
    unfolding num
    num-is_finite none = ordered.nought_finite
    num-is_finite (some s) = ground (arith, ordered.nought_finite)

    insert-IsDescending :
        (r : BalanceRow) (rows : List BalanceRow)
        → IsDescending rows
        → IsDescending (insert_row F r rows)
    unfolding insert_row
    insert-IsDescending r [] h = (tt, tt)
    insert-IsDescending r (x ∷ rest) (below, h) =
        elim (Bool-cases (F.less (worth F r) (worth F x))) [
          | inl e ↦ rw e (
            insert-All (λ y. F.less (worth F x) (worth F y) ≡ false) r rest
                (ordered.less_asym (worth F r) (worth F x) e) below,
            insert-IsDescending r rest h,
          )
          | inr e ↦ rw e (
            (
              e,
              All-map
                  (λ y le.
                    ordered.less_trans (worth F r) (worth F x) (worth F y)
                      (num-is_finite (some r.amount)) (num-is_finite (some x.amount))
                      (num-is_finite (some y.amount)) e le)
                  rest below,
            ),
            (below, h),
          )
        ]

    pub sort_rows-IsDescending : (rows : List BalanceRow) → IsDescending (sort_rows F rows)
    unfolding sort_rows
    sort_rows-IsDescending [] = tt
    sort_rows-IsDescending (r ∷ rest) =
        insert-IsDescending r (sort_rows F rest) (sort_rows-IsDescending rest)

  insert-perm : (r : BalanceRow) (rows : List BalanceRow) → Permᴰ (insert_row F r rows) (r ∷ rows)
  unfolding insert_row
  insert-perm r [] = Permᴰ.refl (r ∷ [])
  insert-perm r (x ∷ rest) = elim (Bool-cases (F.less (worth F r) (worth F x))) [
    | inl e ↦ rw e (Permᴰ.trans (Permᴰ.cons refl (insert-perm r rest)) (Permᴰ.swap refl refl))
    | inr e ↦ rw e (Permᴰ.refl (r ∷ x ∷ rest))
  ]

  mem-insert_row :
      (r x : BalanceRow) (rows : List BalanceRow) → Memᴰ r (x ∷ rows) → Memᴰ r (insert_row F x rows)
  unfolding insert_row
  mem-insert_row r x [] h = h
  mem-insert_row r x (y ∷ rest) (Memᴰ.head same) =
      elim (Bool-cases (F.less (worth F x) (worth F y))) [
        | inr e ↦ rw e (Memᴰ.head same)
        | inl e ↦ rw e (Memᴰ.tail (mem-insert_row r x rest (Memᴰ.head same)))
      ]
  mem-insert_row r x (y ∷ rest) (Memᴰ.tail (Memᴰ.head same)) =
      elim (Bool-cases (F.less (worth F x) (worth F y))) [
        | inr e ↦ rw e (Memᴰ.tail (Memᴰ.head same))
        | inl e ↦ rw e (Memᴰ.head same)
      ]
  mem-insert_row r x (y ∷ rest) (Memᴰ.tail (Memᴰ.tail m)) =
      elim (Bool-cases (F.less (worth F x) (worth F y))) [
        | inr e ↦ rw e (Memᴰ.tail (Memᴰ.tail m))
        | inl e ↦ rw e (Memᴰ.tail (mem-insert_row r x rest (Memᴰ.tail m)))
      ]

  pub mem-sort_rows :
      (r : BalanceRow) (rows : List BalanceRow) → Memᴰ r rows → Memᴰ r (sort_rows F rows)
  unfolding sort_rows
  mem-sort_rows r [] h = h
  mem-sort_rows r (x ∷ rest) (Memᴰ.head same) =
      mem-insert_row r x (sort_rows F rest) (Memᴰ.head same)
  mem-sort_rows r (x ∷ rest) (Memᴰ.tail m) =
      mem-insert_row r x (sort_rows F rest) (Memᴰ.tail (mem-sort_rows r rest m))

  pub sort_rows-perm : (rows : List BalanceRow) → Permᴰ (sort_rows F rows) rows
  unfolding sort_rows
  sort_rows-perm [] = Permᴰ.nil
  sort_rows-perm (r ∷ rest) =
      Permᴰ.trans (insert-perm r (sort_rows F rest)) (Permᴰ.cons refl (sort_rows-perm rest))
