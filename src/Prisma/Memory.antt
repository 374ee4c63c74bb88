-- ===== src/Prisma/Memory.antt =====
-- A table in memory that meets the laws of `Table`: a list of rows, newest write first, in which a
-- row hides the older rows of its key.
mod Visible
mod Once
pub mod Lawful
use comos_pay_community_serv.Base.{
  ℕ, zero, suc, ◌-◌, min, String, Bool, true, false, not, ◌&&◌, ◌||◌, Option, none, some, List, [],
  ◌∷◌, Memᴰ, ◌≡◌, ◌≢◌, refl, sym, ap, arith, ◌==◌, eq_iff, length, take, drop, keep, find, any, All,
  All-take, All-drop, find-some, find-none, length-take, length-drop, if◌then◌else◌, Bool-cases,
  Option-cases, subst, ◌∙◌, All-keep, All-mem, inl, inr, mem-keep,
}
use comos_pay_community_serv.Prisma.Table.{
  Table, IsLawful, Page, Order, whole, page_size, Write, written, missing, conflict, created,
}

module _ {Row : Type 0} (key : Row → String) where
  unfoldable pub get : String → List Row → Option Row
  get i [] = none
  get i (r ∷ s) = if key r == i then some r else get i s

  unfoldable pub differs : String → Row → Bool
  differs i q = if key q == i then false else true

  -- The rows that no newer row hides.
  unfoldable pub rows : List Row → List Row
  unfolding differs
  rows [] = []
  rows (r ∷ s) = r ∷ keep (differs (key r)) (rows s)

  unfoldable pub page : Page → List Row → List Row
  page g xs = elim g.take [ none ↦ drop g.skip xs | some k ↦ take k (drop g.skip xs) ]

  unfoldable pub memory_create : (Row → Row → Bool) → Row → List Row → Option (List Row)
  unfolding rows
  memory_create clash r s =
      if any (λ q. key q == key r || clash r q) (rows s) then none else some (r ∷ s)

  unfoldable pub memory_update :
      (Row → Row → Bool) → String → (Row → Row) → List Row → Write Row (List Row)
  unfolding get rows differs
  memory_update clash i f s = elim (get i s) [
    | none ↦ missing
    | some r ↦
        if any (λ q. differs i q && clash (f r) q) (rows s)
        then conflict
        else written (f r) (f r ∷ s)
  ]

  unfoldable pub memory_delete : String → List Row → Option (Row × List Row)
  unfolding get differs
  memory_delete i s = elim (get i s) [ none ↦ none | some r ↦ some (r, keep (differs i) s) ]

  unfoldable pub memory_upsert :
      (Row → Row → Bool) → (Row → Bool) → Row → (Row → Row) → List Row → Write Row (List Row)
  unfolding memory_create memory_update
  memory_upsert clash p c f s = elim (find p (rows s)) [
    | none ↦ created c (memory_create clash c s)
    | some r ↦ memory_update clash (key r) f s
  ]

  unfoldable pub memory_table : (Row → Row → Bool) → Table Row
  unfolding get rows page memory_create memory_update memory_delete memory_upsert
  memory_table clash = record {
    State = List Row;
    get = get;
    find_first = λ p s. find p (rows s);
    find_many = λ p g s. page g (keep p (rows s));
    count = λ p s. length (keep p (rows s));
    create = memory_create clash;
    update = memory_update clash;
    delete = memory_delete;
    delete_many = λ p s. keep (λ r. not (p r)) (rows s);
    upsert = memory_upsert clash;
  }
