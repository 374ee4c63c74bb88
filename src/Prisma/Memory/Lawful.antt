-- ===== src/Prisma/Memory/Lawful.antt =====
-- The table in memory as an implementation of the laws of `Table`.
use comos_pay_community_serv.Base.{
  String, Bool, true, false, not, ◌&&◌, ◌||◌, none, some, List, ◌∷◌, ◌≡◌, ◌≢◌, refl, ◌∙◌, arith,
  ◌==◌, eq_iff, keep, any, All, All-keep, mem-keep, find-some, find-none, any-false, any-true,
  if◌then◌else◌, Option-cases, inl, inr,
}
use comos_pay_community_serv.Prisma.Table.{IsLawful, Page, written, missing, conflict}
use comos_pay_community_serv.Prisma.Memory.{
  get, differs, rows, page, memory_create, memory_update, memory_delete, memory_upsert,
  memory_table,
}
use comos_pay_community_serv.Prisma.Memory.Once.{keep-IsOnce, rows-IsOnce, page-IsOnce}
use comos_pay_community_serv.Prisma.Memory.Visible.{
  key-get, get-keep-differs, IsCurrent, rows-IsCurrent, current_of_mem, mem-rows, All-page,
  length-page, get-keep,
}

module _ {Row : Type 0} (key : Row → String) (clash : Row → Row → Bool) where
  find_many_sound :
      (p : Row → Bool) (g : Page) (s : List Row)
      → All (λ r. (get key (key r) s ≡ some r) × (p r ≡ true)) (page key g (keep p (rows key s)))
  unfolding IsCurrent
  find_many_sound p g s =
      All-page key _ g (keep p (rows key s))
        (All-keep (IsCurrent key s) _ p (rows key s) (λ r c t. (c, t)) (rows-IsCurrent key s))

  create_new :
      (r : Row) (s s' : List Row) (j : String) (q : Row)
      → memory_create key clash r s ≡ some s'
      → get key j s ≡ some q
      → (key r ≢ j) × (clash r q ≡ false)
  unfolding memory_create
  create_new r s s' j q h g =
      let quiet : (key q == key r || clash r q) ≡ false =
        any-false (λ x. key x == key r || clash r x) (rows key s) (ground arith)
          (mem-rows key j s q g) in
      let e = key-get key j s q g in ((λ k. ground (arith, eq_iff (key q) (key r))), ground arith)

  create_refused :
      (r : Row) (s : List Row)
      → memory_create key clash r s ≡ none
      → (q : Row) × (get key (key q) s ≡ some q) × ((key q == key r || clash r q) ≡ true)
  unfolding memory_create
  create_refused r s h =
      let (q, m, t) = any-true (λ x. key x == key r || clash r x) (rows key s) (ground arith) in
      (q, current_of_mem key s q m, t)

  update_written :
      (i : String) (f : Row → Row) (s s' : List Row) (r : Row)
      → memory_update key clash i f s ≡ written r s'
      → (q : Row) × (get key i s ≡ some q)
        × (r ≡ f q)
        × (s' ≡ f q ∷ s)
        × (any (λ x. differs key i x && clash (f q) x) (rows key s) ≡ false)
  unfolding memory_update
  update_written i f s s' r h = elim (Option-cases (get key i s)) [
    | inl e ↦ absurd (ground arith)
    | inr (q, e) ↦ (q, e, ground arith, ground arith, ground arith)
  ]

  get-update :
      (i : String) (f : Row → Row) (s s' : List Row) (r : Row) (j : String)
      → ((q : Row) → key (f q) ≡ key q)
      → memory_update key clash i f s ≡ written r s'
      → get key j s' ≡ (if i == j then some r else get key j s)
  unfolding get
  get-update i f s s' r j fixes h =
      let (q, there, same, next, _) = update_written i f s s' r h in
      let e = key-get key i s q there in let k = fixes q in rw (next, same, k, e) refl

  update_new :
      (i : String) (f : Row → Row) (s s' : List Row) (r : Row) (j : String) (q : Row)
      → memory_update key clash i f s ≡ written r s'
      → get key j s ≡ some q
      → i ≢ j
      → clash r q ≡ false
  unfolding differs
  update_new i f s s' r j q h g ne =
      let (old, there, same, next, quiet) = update_written i f s s' r h in
      let off : (differs key i q && clash (f old) q) ≡ false =
        any-false (λ x. differs key i x && clash (f old) x) (rows key s) quiet
          (mem-rows key j s q g) in
      let e = key-get key j s q g in ground (arith, eq_iff (key q) i)

  update_missing :
      (i : String) (f : Row → Row) (s : List Row)
      → memory_update key clash i f s ≡ missing
      → get key i s ≡ none
  unfolding memory_update
  update_missing i f s h = ground arith

  update_refused :
      (i : String) (f : Row → Row) (s : List Row)
      → memory_update key clash i f s ≡ conflict
      → (r : Row) × (q : Row) × (get key i s ≡ some r)
        × (get key (key q) s ≡ some q)
        × (key q ≢ i)
        × (clash (f r) q ≡ true)
  unfolding memory_update differs
  update_refused i f s h = elim (Option-cases (get key i s)) [
    | inl e ↦ absurd (ground arith)
    | inr (r, e) ↦
        let (q, m, t) =
          any-true (λ x. differs key i x && clash (f r) x) (rows key s) (ground arith) in
        (r, q, e, current_of_mem key s q m, (λ k. ground (arith, eq_iff (key q) i)), ground arith)
  ]

  get-delete_many :
      (p : Row → Bool) (s : List Row) (j : String)
      → get key j (keep (λ r. not (p r)) (rows key s))
        ≡ elim (get key j s) [ none ↦ none | some r ↦ if p r then none else some r ]
  get-delete_many p s j = get-keep key (λ r. not (p r)) j s ∙ ground arith

  pub memory_table-IsLawful : IsLawful key clash (memory_table key clash)
  unfolding memory_table memory_create memory_delete memory_upsert get
  memory_table-IsLawful = record {
    key-get = key-get key;
    find_first_some =
        λ p s r h. let (m, t) = find-some p (rows key s) h in (current_of_mem key s r m, t);
    find_first_none = λ p s i r h g. find-none p (rows key s) h (mem-rows key i s r g);
    find_many_sound = find_many_sound;
    find_many_complete = λ p o s i r g t. mem-keep p (rows key s) (mem-rows key i s r g) t;
    find_many_once = λ p g s.
        page-IsOnce key g (keep p (rows key s))
          (keep-IsOnce key p (rows key s) (rows-IsOnce key s));
    length-find_many = λ p g s. length-page key g (keep p (rows key s));
    get-create = λ r s s' j h. ground arith;
    create_new = create_new;
    create_refused = create_refused;
    get-update = get-update;
    update_written = λ i f s s' r h.
        let (q, there, same, _, _) = update_written i f s s' r h in (q, there, same);
    update_new = update_new;
    update_missing = update_missing;
    update_refused = update_refused;
    delete_some = λ i s s' r h. ground arith;
    get-delete = λ i s s' r j h. ground (arith, get-keep-differs key i j s);
    delete_none = λ i s h. ground arith;
    get-delete_many = get-delete_many;
    upsert_some = λ p c f s r h. rw (h, memory_upsert);
    upsert_none = λ p c f s h. rw (h, memory_upsert);
  }
