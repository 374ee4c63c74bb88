-- ===== src/Prisma/Table.antt =====
-- The operations of the Prisma client on one model, and what its documentation and the unique
-- constraints of the schema promise of them. The client and PostgreSQL are not in this
-- repository: they are a parameter of the development.
use comos_pay_community_serv.Base.{
  ℕ, ◌-◌, min, String, Bool, true, false, Option, none, some, List, [], ◌∷◌, Memᴰ, ◌≡◌, ◌≢◌, ◌==◌,
  ◌||◌, length, All, if◌then◌else◌,
}

pub data Order : Type 0 where
  unordered created_asc created_desc : Order

-- `orderBy`, `take` and `skip` of a `findMany`.
pub record Page : Type 0 where
  pub order_by : Order
  pub take : Option ℕ
  pub skip : ℕ

abbrev pub whole : Order → Page
whole o = record { order_by = o; take = none; skip = 0 }

-- How many of `n` matching rows a page holds.
abbrev pub page_size : Page → ℕ → ℕ
page_size p n = elim p.take [ none ↦ n - p.skip | some k ↦ min k (n - p.skip) ]

-- The outcome of an update: `missing` is the client's P2025, `conflict` its P2002.
pub data Write (Row : Type 0) (S : Type 0) : Type 0 where
  written : Row → S → Write Row S
  missing : Write Row S
  conflict : Write Row S

pub record Table (Row : Type 0) : Type 1 where
  pub State : Type 0
  -- `findUnique({ where: { id } })`
  pub get : String → State → Option Row
  pub find_first : (Row → Bool) → State → Option Row
  pub find_many : (Row → Bool) → Page → State → List Row
  pub count : (Row → Bool) → State → ℕ
  -- `none` is P2002.
  pub create : Row → State → Option State
  pub update : String → (Row → Row) → State → Write Row State
  -- `none` is P2025.
  pub delete : String → State → Option (Row × State)
  pub delete_many : (Row → Bool) → State → State
  -- `upsert({ where, create, update })` on a unique column.
  pub upsert : (Row → Bool) → Row → (Row → Row) → State → Write Row State

abbrev pub created : {Row S : Type 0} → Row → Option S → Write Row S
created r none = conflict
created r (some s) = written r s

-- No two rows have the same key.
abbrev pub IsOnce : {Row : Type 0} → (Row → String) → List Row → Type 0
IsOnce key [] = Unit
IsOnce key (r ∷ rest) = All (λ q. key q ≢ key r) rest × IsOnce key rest

module _ {Row : Type 0} (key : Row → String) (clash : Row → Row → Bool) (T : Table Row) where
  pub record IsLawful : Type 0 where
    pub key-get : (i : String) (s : T.State) (r : Row) → T.get i s ≡ some r → key r ≡ i
    pub find_first_some :
        (p : Row → Bool) (s : T.State) (r : Row)
        → T.find_first p s ≡ some r
        → (T.get (key r) s ≡ some r) × (p r ≡ true)
    pub find_first_none :
        (p : Row → Bool) (s : T.State) (i : String) (r : Row)
        → T.find_first p s ≡ none
        → T.get i s ≡ some r
        → p r ≡ false
    pub find_many_sound :
        (p : Row → Bool) (g : Page) (s : T.State)
        → All (λ r. (T.get (key r) s ≡ some r) × (p r ≡ true)) (T.find_many p g s)
    pub find_many_complete :
        (p : Row → Bool) (o : Order) (s : T.State) (i : String) (r : Row)
        → T.get i s ≡ some r
        → p r ≡ true
        → Memᴰ r (T.find_many p (whole o) s)
    pub find_many_once : (p : Row → Bool) (g : Page) (s : T.State) → IsOnce key (T.find_many p g s)
    pub length-find_many :
        (p : Row → Bool) (g : Page) (s : T.State)
        → length (T.find_many p g s) ≡ page_size g (T.count p s)
    pub get-create :
        (r : Row) (s s' : T.State) (j : String)
        → T.create r s ≡ some s'
        → T.get j s' ≡ (if key r == j then some r else T.get j s)
    pub create_new :
        (r : Row) (s s' : T.State) (j : String) (q : Row)
        → T.create r s ≡ some s'
        → T.get j s ≡ some q
        → (key r ≢ j) × (clash r q ≡ false)
    pub create_refused :
        (r : Row) (s : T.State)
        → T.create r s ≡ none
        → (q : Row) × (T.get (key q) s ≡ some q) × ((key q == key r || clash r q) ≡ true)
    pub get-update :
        (i : String) (f : Row → Row) (s s' : T.State) (r : Row) (j : String)
        → ((q : Row) → key (f q) ≡ key q)
        → T.update i f s ≡ written r s'
        → T.get j s' ≡ (if i == j then some r else T.get j s)
    pub update_written :
        (i : String) (f : Row → Row) (s s' : T.State) (r : Row)
        → T.update i f s ≡ written r s'
        → (q : Row) × (T.get i s ≡ some q) × (r ≡ f q)
    pub update_new :
        (i : String) (f : Row → Row) (s s' : T.State) (r : Row) (j : String) (q : Row)
        → T.update i f s ≡ written r s'
        → T.get j s ≡ some q
        → i ≢ j
        → clash r q ≡ false
    pub update_missing :
        (i : String) (f : Row → Row) (s : T.State) → T.update i f s ≡ missing → T.get i s ≡ none
    pub update_refused :
        (i : String) (f : Row → Row) (s : T.State)
        → T.update i f s ≡ conflict
        → (r : Row) × (q : Row) × (T.get i s ≡ some r)
          × (T.get (key q) s ≡ some q)
          × (key q ≢ i)
          × (clash (f r) q ≡ true)
    pub delete_some :
        (i : String) (s s' : T.State) (r : Row) → T.delete i s ≡ some (r, s') → T.get i s ≡ some r
    pub get-delete :
        (i : String) (s s' : T.State) (r : Row) (j : String)
        → T.delete i s ≡ some (r, s')
        → T.get j s' ≡ (if i == j then none else T.get j s)
    pub delete_none : (i : String) (s : T.State) → T.delete i s ≡ none → T.get i s ≡ none
    pub get-delete_many :
        (p : Row → Bool) (s : T.State) (j : String)
        → T.get j (T.delete_many p s)
          ≡ elim (T.get j s) [ none ↦ none | some r ↦ if p r then none else some r ]
    pub upsert_some :
        (p : Row → Bool) (c : Row) (f : Row → Row) (s : T.State) (r : Row)
        → T.find_first p s ≡ some r
        → T.upsert p c f s ≡ T.update (key r) f s
    pub upsert_none :
        (p : Row → Bool) (c : Row) (f : Row → Row) (s : T.State)
        → T.find_first p s ≡ none
        → T.upsert p c f s ≡ created c (T.create c s)
