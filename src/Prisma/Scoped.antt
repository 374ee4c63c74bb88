-- ===== src/Prisma/Scoped.antt =====
-- Lookups of an id among the rows of a scope, as the services look up what their caller owns.
use comos_pay_community_serv.Prisma.Table.{Table, IsLawful}
use comos_pay_community_serv.Base.{
  Bool, Option-cases, String, and_true, arith, eq_iff, false, inl, inr, none, some, subst, true,
  ◌&&◌, ◌==◌, ◌≡◌, ◌≢◌, ◌⊎◌,
}

module _ {Row : Type 0} (key : Row → String) (clash : Row → Row → Bool) (T : Table Row)
    (law : IsLawful key clash T) where
  pub scoped_some :
      (own : Row → Bool) (id : String) (s : T.State) (r : Row)
      → T.find_first (λ x. key x == id && own x) s ≡ some r
      → (T.get id s ≡ some r) × (own r ≡ true)
  scoped_some own id s r e =
      let (there, t) = law.find_first_some (λ x. key x == id && own x) s r e in
      let (same, mine) = and_true (key r == id) (own r) t in
      (subst (λ k. T.get k s ≡ some r) ((eq_iff (key r) id).0 same) there, mine)

  -- No row under the id, or one outside of the scope.
  pub scoped_none :
      (own : Row → Bool) (id : String) (s : T.State)
      → (T.get id s ≡ none) ⊎ ((q : Row) × (T.get id s ≡ some q) × (own q ≡ false))
      → T.find_first (λ x. key x == id && own x) s ≡ none
  scoped_none own id s h = elim (Option-cases (T.find_first (λ x. key x == id && own x) s)) [
    | inl e ↦ e
    | inr (r, e) ↦
        let (there, mine) = scoped_some own id s r e in absurd (cc (outside r there mine h))
  ]
    where
      outside :
          (r : Row)
          → T.get id s ≡ some r
          → own r ≡ true
          → (T.get id s ≡ none) ⊎ ((q : Row) × (T.get id s ≡ some q) × (own q ≡ false))
          → false ≡ true
      outside r there mine (inl free) = absurd (ground arith)
      outside r there mine (inr (q, taken, off)) =
          let same : q ≡ r = cc (taken, there) in cc (subst (λ x. own x ≡ false) same off, mine)

pub other_owner : (a b : String) → a ≢ b → (a == b) ≡ false
other_owner a b n = ground (arith, eq_iff a b)
