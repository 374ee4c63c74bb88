-- ===== src/Platform/Uniqueness.antt =====
-- The unique constraints of the schema as an invariant of the tables: the keys of two rows that
-- clash are one key.
use comos_pay_community_serv.Base.{
  String, Bool, true, false, some, ◌≡◌, ◌≢◌, sym, ◌∙◌, arith, ◌==◌, eq_iff, Bool-cases,
  Option-cases, inl, inr, if◌then◌else◌, subst,
}
use comos_pay_community_serv.Prisma.Table.{Table, IsLawful, written}

module _ {Row : Type 0} (key : Row → String) (clash : Row → Row → Bool) (T : Table Row) where
  abbrev pub IsUnique : T.State → Type 0
  IsUnique s =
      (i j : String) (q r : Row)
      → T.get i s ≡ some q
      → T.get j s ≡ some r
      → clash q r ≡ true
      → i ≡ j

module _ {Row : Type 0} (key : Row → String) (clash : Row → Row → Bool) (T : Table Row)
    (symmetric : (a b : Row) → clash a b ≡ clash b a) where
  -- A write of one row that clashes with no other row.
  pub put-IsUnique :
      (k : String) (r : Row) (s s' : T.State)
      → ((j : String) → T.get j s' ≡ (if k == j then some r else T.get j s))
      → ((j : String) (q : Row) → T.get j s ≡ some q → k ≢ j → clash r q ≡ false)
      → IsUnique key clash T s
      → IsUnique key clash T s'
  put-IsUnique k r s s' now fresh u i j a b ga gb t = elim (Bool-cases (k == i)) [
    | inl ei ↦ elim (Bool-cases (k == j)) [
      | inl ej ↦ sym ((eq_iff k i).0 ei) ∙ (eq_iff k j).0 ej
      | inr nj ↦
          absurd (ground (arith, now i, now j, fresh j b (ground (arith, now j)) (differ j nj)))
    ]
    | inr ni ↦ elim (Bool-cases (k == j)) [
      | inl ej ↦ absurd (
          ground
            (arith, now i, now j, symmetric a b, fresh i a (ground (arith, now i)) (differ i ni)))
      | inr nj ↦ u i j a b (ground (arith, now i)) (ground (arith, now j)) t
    ]
  ]
    where
      differ : (l : String) → (k == l) ≡ false → k ≢ l
      differ l n e = ground (arith, eq_iff k l)

  part-IsUnique :
      (s s' : T.State)
      → ((j : String) (q : Row) → T.get j s' ≡ some q → T.get j s ≡ some q)
      → IsUnique key clash T s
      → IsUnique key clash T s'
  part-IsUnique s s' part u i j a b ga gb t = u i j a b (part i a ga) (part j b gb) t

module _ {Row : Type 0} (key : Row → String) (clash : Row → Row → Bool) (T : Table Row)
    (law : IsLawful key clash T) (symmetric : (a b : Row) → clash a b ≡ clash b a) where
  pub create-IsUnique :
      (r : Row) (s s' : T.State)
      → T.create r s ≡ some s'
      → IsUnique key clash T s
      → IsUnique key clash T s'
  create-IsUnique r s s' made =
      put-IsUnique key clash T symmetric (key r) r s s' (λ j. law.get-create r s s' j made)
        (λ j q g _. (law.create_new r s s' j q made g).1)

  pub update-IsUnique :
      (i : String) (f : Row → Row) (s s' : T.State) (r : Row)
      → ((q : Row) → key (f q) ≡ key q)
      → T.update i f s ≡ written r s'
      → IsUnique key clash T s
      → IsUnique key clash T s'
  update-IsUnique i f s s' r fixes done =
      put-IsUnique key clash T symmetric i r s s' (λ j. law.get-update i f s s' r j fixes done)
        (λ j q g ne. law.update_new i f s s' r j q done g ne)

  pub delete-IsUnique :
      (i : String) (s s' : T.State) (r : Row)
      → T.delete i s ≡ some (r, s')
      → IsUnique key clash T s
      → IsUnique key clash T s'
  delete-IsUnique i s s' r gone =
      part-IsUnique key clash T symmetric s s'
        (λ j q g. ground (arith, law.get-delete i s s' r j gone))

  pub upsert-IsUnique :
      (p : Row → Bool) (c : Row) (f : Row → Row) (s s' : T.State) (r : Row)
      → ((q : Row) → key (f q) ≡ key q)
      → T.upsert p c f s ≡ written r s'
      → IsUnique key clash T s
      → IsUnique key clash T s'
  upsert-IsUnique p c f s s' r fixes done u = elim (Option-cases (T.find_first p s)) [
    | inl e ↦ elim (Option-cases (T.create c s)) [
      | inl no_row ↦ absurd (ground (arith, law.upsert_none p c f s e))
      | inr (t, made) ↦
          let same : t ≡ s' = ground (arith, law.upsert_none p c f s e) in
          subst (IsUnique key clash T) same (create-IsUnique c s t made u)
    ]
    | inr (q, e) ↦
        update-IsUnique (key q) f s s' r fixes (sym (law.upsert_some p c f s q e) ∙ done) u
  ]
