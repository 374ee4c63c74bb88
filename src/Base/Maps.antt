-- ===== src/Base/Maps.antt =====
-- A `Map` of JavaScript with texts as keys: its entries, in the order in which the keys came.
use Prim.Native.Nat.{ℕ, ◌+◌}
use Prim.Native.String.{String}
use mathlib.Core.Path.{◌≡◌, refl, sym, ap, subst, ◌∙◌}
use mathlib.Core.Logic.{inl, inr, ◌⊎◌}
use mathlib.Core.Bool.{Bool}
use mathlib.Core.Option.{Option, none, some}
use mathlib.Core.List.{List, [], ◌∷◌, Memᴰ}
use native.Mathlib.Omega.{arith}
use text.Mathlib.Text.{◌==◌}
use text.Mathlib.TextEquality.{eq_iff}
use comos_pay_community_serv.Base.Tests.{if◌then◌else◌, coalesce, Bool-cases}
use comos_pay_community_serv.Base.Lists.{All, All-map, keep, length}

module _ {A : Type 0} where
  unfoldable pub map_get : String → List (String × A) → Option A
  map_get key [] = none
  map_get key ((k, a) ∷ rest) = if k == key then some a else map_get key rest

  unfoldable pub map_set : String → A → List (String × A) → List (String × A)
  map_set key a [] = (key, a) ∷ []
  map_set key a ((k, b) ∷ rest) =
      let later = map_set key a rest in if k == key then (k, a) ∷ rest else (k, b) ∷ later

  pub get-set :
      (key other : String) (a : A) (m : List (String × A))
      → map_get other (map_set key a m) ≡ (if key == other then some a else map_get other m)
  unfolding map_get map_set
  get-set key other a [] = refl
  get-set key other a ((k, b) ∷ rest) =
      ground (arith, get-set key other a rest, eq_iff k key, eq_iff k other, eq_iff key other)

  -- No key stands twice.
  abbrev pub HasKeys : List (String × A) → Type 0
  HasKeys [] = Unit
  HasKeys ((k, a) ∷ rest) = (map_get k rest ≡ none) × HasKeys rest

  pub set-HasKeys :
      (key : String) (a : A) (m : List (String × A)) → HasKeys m → HasKeys (map_set key a m)
  unfolding map_get map_set
  set-HasKeys key a [] h = (refl, tt)
  set-HasKeys key a ((k, b) ∷ rest) (new, h) = elim (Bool-cases (k == key)) [
    | inl e ↦ rw (e, map_set) (new, h)
    | inr e ↦
        rw (e, map_set)
          (
            ground (arith, get-set key k a rest, eq_iff k key, eq_iff key k, new),
            set-HasKeys key a rest h,
          )
  ]

  -- The entries of a map are what its keys give.
  pub HasKeys-All : (m : List (String × A)) → HasKeys m → All (λ e. map_get e.0 m ≡ some e.1) m
  unfolding map_get
  HasKeys-All [] h = tt
  HasKeys-All ((k, a) ∷ rest) (new, h) = (
    ground (arith, eq_iff k k),
    All-map
        (λ e found. elim (Bool-cases (k == e.0)) [
          | inl same ↦ absurd (cc (new, found, (eq_iff k e.0).0 same))
          | inr other ↦ rw (other, map_get) found
        ])
        rest (HasKeys-All rest h),
  )

-- A loop that adds each row to the value of the row's key, which starts with `start`.
module _ {R V : Type 0} (key : R → String) (start : V) (add : R → V → V) where
  unfoldable pub group : List (String × V) → List R → List (String × V)
  group m [] = m
  group m (x ∷ xs) = group (map_set (key x) (add x (coalesce (map_get (key x) m) start)) m) xs

  abbrev pub fold_rows : V → List R → V
  fold_rows v [] = v
  fold_rows v (x ∷ xs) = fold_rows (add x v) xs

  abbrev pub has_key : String → R → Bool
  has_key k x = key x == k

  -- What the loop leaves under a key is what the rows of that key add up to.
  pub get-group :
      (k : String) (m : List (String × V)) (xs : List R)
      → coalesce (map_get k (group m xs)) start
        ≡ fold_rows (coalesce (map_get k m) start) (keep (has_key k) xs)
  unfolding group
  get-group k m [] = refl
  get-group k m (x ∷ xs) =
      let m' : List (String × V) = map_set (key x) (add x (coalesce (map_get (key x) m) start)) m in
      elim (Bool-cases (key x == k)) [
        | inl e ↦
            get-group k m' xs
            ∙ rw (get-set (key x) k (add x (coalesce (map_get (key x) m) start)) m) (
                rw e (
                  ap (λ j. fold_rows (add x (coalesce (map_get j m) start)) (keep (has_key k) xs))
                    ((eq_iff (key x) k).0 e)))
        | inr e ↦
            get-group k m' xs
            ∙ rw (get-set (key x) k (add x (coalesce (map_get (key x) m) start)) m) (rw e refl)
      ]

  pub group-HasKeys : (m : List (String × V)) (xs : List R) → HasKeys m → HasKeys (group m xs)
  unfolding group
  group-HasKeys m [] h = h
  group-HasKeys m (x ∷ xs) h =
      group-HasKeys (map_set (key x) (add x (coalesce (map_get (key x) m) start)) m) xs
        (set-HasKeys (key x) _ m h)

  -- Each entry of the map that the loop makes is what the rows of its key add up to.
  pub group-All :
      (xs : List R) → All (λ e. e.1 ≡ fold_rows start (keep (has_key e.0) xs)) (group [] xs)
  unfolding map_get
  group-All xs =
      All-map (λ e found. sym (ap (λ o. coalesce o start) found) ∙ get-group e.0 [] xs)
        (group [] xs) (HasKeys-All (group [] xs) (group-HasKeys [] xs tt))

-- The keys of the map that a loop makes are those of its rows.
module _ {R V : Type 0} (key : R → String) (start : V) (add : R → V → V) where
  group-keeps :
      (k : String) (m : List (String × V)) (xs : List R) (v : V)
      → map_get k m ≡ some v
      → (u : V) × (map_get k (group key start add m xs) ≡ some u)
  unfolding group
  group-keeps k m [] v h = (v, h)
  group-keeps k m (x ∷ xs) v h =
      let new : V = add x (coalesce (map_get (key x) m) start) in
      elim (Bool-cases (key x == k)) [
        | inl e ↦ group-keeps k (map_set (key x) new m) xs new (get-set (key x) k new m ∙ rw e refl)
        | inr e ↦ group-keeps k (map_set (key x) new m) xs v (get-set (key x) k new m ∙ rw e h)
      ]

  pub group-has :
      (m : List (String × V)) (xs : List R) (x : R)
      → Memᴰ x xs
      → (v : V) × (map_get (key x) (group key start add m xs) ≡ some v)
  unfolding group
  group-has m [] x h = elim h [ ]
  group-has m (y ∷ xs) x (Memᴰ.head same) =
      let new : V = add y (coalesce (map_get (key y) m) start) in
      group-keeps (key x) (map_set (key y) new m) xs new
        (get-set (key y) (key x) new m ∙ rw ((eq_iff (key y) (key x)).1 (ap key (sym same))) refl)
  group-has m (y ∷ xs) x (Memᴰ.tail h) = group-has (map_set (key y) _ m) xs x h

  group-from :
      (k : String) (m : List (String × V)) (xs : List R) (v : V)
      → map_get k (group key start add m xs) ≡ some v
      → (map_get k m ≡ some v) ⊎ ((x : R) × Memᴰ x xs × (key x ≡ k))
  unfolding group
  group-from k m [] v h = inl h
  group-from k m (x ∷ xs) v h =
      let new : V = add x (coalesce (map_get (key x) m) start) in
      elim (group-from k (map_set (key x) new m) xs v h) [
        | inr (y, there, same) ↦ inr (y, Memᴰ.tail there, same)
        | inl stands ↦ elim (Bool-cases (key x == k)) [
          | inl e ↦ inr (x, Memᴰ.head refl, (eq_iff (key x) k).0 e)
          | inr e ↦ inl (sym (get-set (key x) k new m ∙ rw e refl) ∙ stands)
        ]
      ]

module _ {R V : Type 0} (key : R → String) (start : V) (add : R → V → V) where
  -- Each key of the map that the loop makes is the key of a row.
  pub group-All-from :
      (xs : List R) → All (λ e. (x : R) × Memᴰ x xs × (key x ≡ e.0)) (group key start add [] xs)
  unfolding map_get
  group-All-from xs =
      All-map
        (λ e found. elim (group-from key start add e.0 [] xs e.1 found) [
          | inl nothing ↦ absurd (ground arith)
          | inr x ↦ x
        ])
        (group key start add [] xs)
        (HasKeys-All (group key start add [] xs) (group-HasKeys key start add [] xs tt))

pub mem-get :
    {A : Type 0} (k : String) (m : List (String × A)) (a : A) → map_get k m ≡ some a → Memᴰ (k, a) m
unfolding map_get
mem-get k [] a h = absurd (ground arith)
mem-get {A} k ((j, b) ∷ rest) a h = elim (Bool-cases (j == k)) [
  | inl e ↦
      let same : b ≡ a = ground (arith, h, e) in
      subst (λ x. Memᴰ {A = String × A} (k, x) ((j, b) ∷ rest)) same
        (subst (λ x. Memᴰ {A = String × A} (x, b) ((j, b) ∷ rest)) ((eq_iff j k).0 e)
          (Memᴰ.head refl))
  | inr e ↦ Memᴰ.tail (mem-get k rest a (ground (arith, h, e)))
]

-- A size of the values, summed over the entries.
module _ {V : Type 0} (size : V → ℕ) where
  abbrev pub total_size : List (String × V) → ℕ
  total_size [] = 0
  total_size ((k, v) ∷ rest) = size v + total_size rest

  pub total_size-set :
      (key : String) (start v : V) (m : List (String × V))
      → size start ≡ 0
      → total_size (map_set key v m) + size (coalesce (map_get key m) start) ≡ total_size m + size v
  unfolding map_get map_set
  total_size-set key start v [] z = omega (arith, z)
  total_size-set key start v ((k, b) ∷ rest) z = elim (Bool-cases (k == key)) [
    | inl e ↦ rw (e, map_set) (omega arith)
    | inr e ↦ rw (e, map_set) (omega (arith, total_size-set key start v rest z))
  ]

  -- Where each row adds one, the map that a loop makes counts the rows.
  pub total_size-group :
      {R : Type 0} (key : R → String) (start : V) (add : R → V → V) (m : List (String × V))
      (xs : List R)
      → size start ≡ 0
      → ((x : R) (v : V) → size (add x v) ≡ size v + 1)
      → total_size (group key start add m xs) ≡ total_size m + length xs
  unfolding group
  total_size-group key start add m [] z one = omega arith
  total_size-group key start add m (x ∷ xs) z one =
      let old : V = coalesce (map_get (key x) m) start in
      omega (
        arith,
        total_size-group key start add (map_set (key x) (add x old) m) xs z one,
        total_size-set (key x) start (add x old) m z,
        one x old,
      )
