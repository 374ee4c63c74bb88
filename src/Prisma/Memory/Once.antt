-- ===== src/Prisma/Memory/Once.antt =====
-- The table in memory lists no row twice.
use comos_pay_community_serv.Base.{
  ℕ, zero, suc, String, Bool, true, List, [], ◌∷◌, ◌≡◌, ◌≢◌, arith, eq_iff, keep, take, drop, All,
  All-keep, All-take, Bool-cases, Option-cases, inl, inr,
}
use comos_pay_community_serv.Prisma.Table.{Page, IsOnce}
use comos_pay_community_serv.Prisma.Memory.{differs, rows, page}

module _ {Row : Type 0} (key : Row → String) where
  pub keep-IsOnce : (p : Row → Bool) (xs : List Row) → IsOnce key xs → IsOnce key (keep p xs)
  keep-IsOnce p [] h = tt
  keep-IsOnce p (x ∷ xs) (apart, h) = elim (Bool-cases (p x)) [
    | inl e ↦ rw e (All-keep (λ q. key q ≢ key x) _ p xs (λ q d t. d) apart, keep-IsOnce p xs h)
    | inr e ↦ rw e (keep-IsOnce p xs h)
  ]

  take-IsOnce : (n : ℕ) (xs : List Row) → IsOnce key xs → IsOnce key (take n xs)
  take-IsOnce zero xs h = tt
  take-IsOnce (suc n) [] h = tt
  take-IsOnce (suc n) (x ∷ xs) (apart, h) =
      (All-take (λ q. key q ≢ key x) n xs apart, take-IsOnce n xs h)

  drop-IsOnce : (n : ℕ) (xs : List Row) → IsOnce key xs → IsOnce key (drop n xs)
  drop-IsOnce zero xs h = h
  drop-IsOnce (suc n) [] h = tt
  drop-IsOnce (suc n) (x ∷ xs) (apart, h) = drop-IsOnce n xs h

  differs-other : (i : String) (q : Row) → differs key i q ≡ true → key q ≢ i
  unfolding differs
  differs-other i q h e = ground (arith, h, eq_iff (key q) i)

  every : (xs : List Row) → All (λ q. Unit {0}) xs
  every [] = tt
  every (x ∷ xs) = (tt, every xs)

  pub rows-IsOnce : (s : List Row) → IsOnce key (rows key s)
  unfolding rows
  rows-IsOnce [] = tt
  rows-IsOnce (r ∷ s) = (
    All-keep (λ q. Unit {0}) (λ q. key q ≢ key r) (differs key (key r)) (rows key s)
        (λ q u t. differs-other (key r) q t) (every (rows key s)),
    keep-IsOnce (differs key (key r)) (rows key s) (rows-IsOnce s),
  )

  pub page-IsOnce : (g : Page) (xs : List Row) → IsOnce key xs → IsOnce key (page key g xs)
  unfolding page
  page-IsOnce g xs h = elim (Option-cases g.take) [
    | inl e ↦ rw e (drop-IsOnce g.skip xs h)
    | inr (k, e) ↦ rw e (take-IsOnce k (drop g.skip xs) (drop-IsOnce g.skip xs h))
  ]
