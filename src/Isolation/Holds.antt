-- ===== src/Isolation/Holds.antt =====
-- Writes of one row of a table that leave the rows of a predicate as they are.
use comos_pay_community_serv.Base.{
  String, Bool, Bool-cases, arith, eq_iff, false, inl, inr, some, subst, sym, true, ◌==◌, ◌≡◌,
}
use comos_pay_community_serv.Prisma.Table.{Table, IsLawful, written}

module _ {Row : Type 0} (T : Table Row) (Q : Row → Type 0) where
  -- Every row of `Q` stands in `s'` as it stands in `s`.
  abbrev pub Holds : T.State → T.State → Type 0
  Holds s s' = (j : String) (r : Row) → T.get j s ≡ some r → Q r → T.get j s' ≡ some r

  pub Holds-refl : (s s' : T.State) → s' ≡ s → Holds s s'
  Holds-refl s s' e j r g q = subst (λ t. T.get j t ≡ some r) (sym e) g

module _ {Row : Type 0} (key : Row → String) (clash : Row → Row → Bool) (T : Table Row)
    (law : IsLawful key clash T) (Q : Row → Type 0) where
  pub create-Holds : (r : Row) (s s' : T.State) → T.create r s ≡ some s' → Holds T Q s s'
  create-Holds r s s' made j q g _ =
      let (other, _) = law.create_new r s s' j q made g in
      ground (arith, law.get-create r s s' j made, eq_iff (key r) j)

  pub update-Holds :
      (i : String) (f : Row → Row) (s s' : T.State) (r : Row)
      → ((q : Row) → key (f q) ≡ key q)
      → T.update i f s ≡ written r s'
      → ((q : Row) → T.get i s ≡ some q → Q q → false ≡ true)
      → Holds T Q s s'
  update-Holds i f s s' r fixes e apart j q g held = elim (Bool-cases (i == j)) [
    | inl same ↦
        absurd (cc (apart q (subst (λ k. T.get k s ≡ some q) (sym ((eq_iff i j).0 same)) g) held))
    | inr other ↦ ground (arith, law.get-update i f s s' r j fixes e)
  ]

  pub delete-Holds :
      (i : String) (s s' : T.State) (r : Row)
      → T.delete i s ≡ some (r, s')
      → ((q : Row) → T.get i s ≡ some q → Q q → false ≡ true)
      → Holds T Q s s'
  delete-Holds i s s' r e apart j q g held = elim (Bool-cases (i == j)) [
    | inl same ↦
        absurd (cc (apart q (subst (λ k. T.get k s ≡ some q) (sym ((eq_iff i j).0 same)) g) held))
    | inr other ↦ ground (arith, law.get-delete i s s' r j e)
  ]
