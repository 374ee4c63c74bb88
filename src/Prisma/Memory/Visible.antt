-- ===== src/Prisma/Memory/Visible.antt =====
-- What a lookup sees of the rows that no newer row hides.
use comos_pay_community_serv.Base.{
  min, String, Bool, true, none, some, List, [], ◌∷◌, Memᴰ, ◌≡◌, ◌≢◌, refl, ap, arith, ◌==◌, eq_iff,
  length, drop, keep, All, All-take, All-drop, length-take, length-drop, if◌then◌else◌, Bool-cases,
  Option-cases, subst, ◌∙◌, All-keep, All-mem, inl, inr, mem-keep,
}
use comos_pay_community_serv.Prisma.Table.{Page, page_size}
use comos_pay_community_serv.Prisma.Memory.{get, differs, rows, page}

module _ {Row : Type 0} (key : Row → String) where
  pub key-get : (i : String) (s : List Row) (r : Row) → get key i s ≡ some r → key r ≡ i
  unfolding get
  key-get i [] r h = cc
  key-get i (q ∷ s) r h = ground (arith, eq_iff (key q) i, key-get i s r)

  pub get-keep-differs :
      (i j : String) (s : List Row)
      → get key j (keep (differs key i) s) ≡ (if i == j then none else get key j s)
  unfolding get differs
  get-keep-differs i j [] = ground arith
  get-keep-differs i j (q ∷ s) =
      ground (arith, eq_iff (key q) i, eq_iff (key q) j, eq_iff i j, get-keep-differs i j s)

  pub get-rows : (j : String) (s : List Row) → get key j (rows key s) ≡ get key j s
  unfolding get rows
  get-rows j [] = refl
  get-rows j (r ∷ s) = ground (arith, get-keep-differs (key r) j (rows key s), get-rows j s)

  pub mem_of_get : (i : String) (s : List Row) (r : Row) → get key i s ≡ some r → Memᴰ r s
  unfolding get
  mem_of_get i [] r h = cc
  mem_of_get i (q ∷ s) r h = elim (Bool-cases (key q == i)) [
    | inl e ↦ Memᴰ.head (ground arith)
    | inr e ↦ Memᴰ.tail (mem_of_get i s r (ground arith))
  ]

  unfoldable pub IsCurrent : List Row → Row → Type 0
  IsCurrent s r = get key (key r) s ≡ some r

  pub rows-IsCurrent : (s : List Row) → All (IsCurrent s) (rows key s)
  unfolding rows IsCurrent get differs
  rows-IsCurrent [] = tt
  rows-IsCurrent (r ∷ s) = (
    ground (arith, eq_iff (key r) (key r)),
    All-keep (IsCurrent s) (IsCurrent (r ∷ s)) (differs key (key r)) (rows key s)
        (λ q c d. ground (arith, eq_iff (key q) (key r), eq_iff (key r) (key q)))
        (rows-IsCurrent s),
  )

  pub current_of_mem : (s : List Row) (r : Row) → Memᴰ r (rows key s) → get key (key r) s ≡ some r
  unfolding IsCurrent
  current_of_mem s r m = All-mem (IsCurrent s) (rows key s) (rows-IsCurrent s) m

  pub mem-rows : (i : String) (s : List Row) (r : Row) → get key i s ≡ some r → Memᴰ r (rows key s)
  mem-rows i s r h = mem_of_get i (rows key s) r (get-rows i s ∙ h)

  pub All-page : (P : Row → Type 0) (g : Page) (xs : List Row) → All P xs → All P (page key g xs)
  unfolding page
  All-page P g xs h = elim (Option-cases g.take) [
    | inl e ↦ rw e (All-drop P g.skip xs h)
    | inr (k, e) ↦ rw e (All-take P k (drop g.skip xs) (All-drop P g.skip xs h))
  ]

  pub length-page : (g : Page) (xs : List Row) → length (page key g xs) ≡ page_size g (length xs)
  unfolding page
  length-page g xs = elim (Option-cases g.take) [
    | inl e ↦ rw e (length-drop g.skip xs)
    | inr (k, e) ↦ rw e (length-take k (drop g.skip xs) ∙ ap (min k) (length-drop g.skip xs))
  ]

  get_none : (j : String) (r : Row) (xs : List Row) → get key j xs ≡ none → Memᴰ r xs → key r ≢ j
  unfolding get
  get_none j r [] h m = elim m [ ]
  get_none j r (x ∷ xs) h (Memᴰ.head e) = rw e (λ k. ground (arith, eq_iff (key x) j))
  get_none j r (x ∷ xs) h (Memᴰ.tail m) = get_none j r xs (ground arith) m

  -- What a part of the visible rows key holds, the table holds.
  get_of_part :
      (j : String) (s xs : List Row) (q : Row)
      → All (IsCurrent s) xs
      → get key j xs ≡ some q
      → get key j s ≡ some q
  unfolding IsCurrent
  get_of_part j s xs q h e =
      subst (λ k. get key k s ≡ some q) (key-get j xs q e)
        (All-mem (IsCurrent s) xs h (mem_of_get j xs q e))

  pub get-keep :
      (p : Row → Bool) (j : String) (s : List Row)
      → get key j (keep p (rows key s))
        ≡ elim (get key j s) [ none ↦ none | some r ↦ if p r then some r else none ]
  get-keep p j s = elim (Option-cases (get key j kept)) [
    | inl gone ↦ elim (Option-cases (get key j s)) [
      | inl e ↦ rw (gone, e)
      | inr (r, e) ↦ elim (Bool-cases (p r)) [
        | inl t ↦ absurd (
            get_none j r kept gone (mem-keep p (rows key s) (mem-rows j s r e) t) (key-get j s r e))
        | inr f ↦ rw (gone, e) (rw f)
      ]
    ]
    | inr (q, e) ↦
        let there : get key j s ≡ some q =
          get_of_part j s kept q
            (All-keep (IsCurrent s) (IsCurrent s) p (rows key s) (λ _ c _. c) (rows-IsCurrent s))
            e in
        let passes : p q ≡ true =
          All-mem (λ x. p x ≡ true) kept
            (All-keep (IsCurrent s) (λ x. p x ≡ true) p (rows key s) (λ _ _ t. t)
              (rows-IsCurrent s))
            (mem_of_get j kept q e) in
        rw (e, there) (rw passes)
  ]
    where
      kept : List Row
      kept = keep p (rows key s)
