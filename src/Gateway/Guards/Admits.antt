-- ===== src/Gateway/Guards/Admits.antt =====
-- Which requests reach a handler, and as whom.
use comos_pay_community_serv.Base.{
  ℕ, String, true, false, Option, none, some, List, [], ◌∷◌, Memᴰ, ◌≡◌, ◌≢◌, ◌↔◌, ◌⊎◌, inl, inr,
  refl, ap, arith, length, includes, All, eq_iff, truthy, nat_eq, Bool-cases, Option-cases, value,
  subst, sym, ◌==◌, ◌∙◌, trim,
}
use comos_pay_community_serv.Gateway.Consumer.{Role, admin, user, GatewayConsumer}
use comos_pay_community_serv.Gateway.Context.{
  Headers, HeaderNames, Json, raw_header, first_header, attach,
}
use comos_pay_community_serv.Gateway.Guards.{
  Route, is_public, required, timing_safe_equal, has_valid_secret, apisix_guard, is_admin,
  missing_scopes, check_scopes, permissions_guard, enter,
}

pub includes_mem : (s : String) (xs : List String) → includes s xs ≡ true → Memᴰ s xs
includes_mem s [] h = cc
includes_mem s (x ∷ xs) h = elim (Bool-cases (x == s)) [
  | inl e ↦ Memᴰ.head (sym ((eq_iff x s).0 e))
  | inr e ↦ Memᴰ.tail (includes_mem s xs (ground arith))
]

pub mem-includes : (s : String) (xs : List String) → Memᴰ s xs → includes s xs ≡ true
mem-includes s [] m = elim m [ ]
mem-includes s (x ∷ xs) (Memᴰ.head e) = ground (arith, eq_iff x s)
mem-includes s (x ∷ xs) (Memᴰ.tail m) = ground (arith, mem-includes s xs m)

missing_none :
    (scopes granted : List String)
    → missing_scopes scopes granted ≡ []
    → All (λ s. Memᴰ s granted) scopes
unfolding missing_scopes
missing_none [] granted h = tt
missing_none (s ∷ scopes) granted h =
    (includes_mem s granted (ground arith), missing_none scopes granted (ground arith))

none_missing :
    (scopes granted : List String)
    → All (λ s. Memᴰ s granted) scopes
    → missing_scopes scopes granted ≡ []
unfolding missing_scopes
none_missing [] granted h = refl
none_missing (s ∷ scopes) granted (m, h) =
    ground (arith, mem-includes s granted m, none_missing scopes granted h)

-- The key may use a route of these scopes.
abbrev pub IsGranted : List String → GatewayConsumer → Type 0
IsGranted scopes c = (c.role ≡ some admin) ⊎ All (λ s. Memᴰ s c.permissions) scopes

is_admin_iff : (r : Option Role) → (is_admin r ≡ true) ↔ (r ≡ some admin)
is_admin_iff none = ground arith
is_admin_iff (some admin) = ground arith
is_admin_iff (some user) = ground arith

check_scopes-IsGranted :
    (scopes : List String) (c : GatewayConsumer)
    → check_scopes scopes c ≡ value tt
    → IsGranted scopes c
unfolding check_scopes
check_scopes-IsGranted scopes c h = elim (Bool-cases (is_admin c.role)) [
  | inl e ↦ inl ((is_admin_iff c.role).0 e)
  | inr e ↦
      inr (missing_none scopes c.permissions (go e (missing_scopes scopes c.permissions) refl))
]
  where
    go :
        is_admin c.role ≡ false
        → (missing : List String) → missing_scopes scopes c.permissions ≡ missing
        → missing_scopes scopes c.permissions ≡ []
    go e [] k = k
    go e (s ∷ rest) k = absurd (ground arith)

granted-check_scopes :
    (scopes : List String) (c : GatewayConsumer)
    → IsGranted scopes c
    → check_scopes scopes c ≡ value tt
unfolding check_scopes
granted-check_scopes scopes c (inl e) = ground (arith, is_admin_iff c.role)
granted-check_scopes scopes c (inr h) = ground (arith, none_missing scopes c.permissions h)

-- A request with a consumer passes the permissions guard of a route that is not public exactly when
-- the key is an admin's or holds every scope that the route requires.
pub permissions_guard_iff :
    (route : Route) (c : GatewayConsumer)
    → is_public route ≡ false
    → (permissions_guard route (some c) ≡ value tt) ↔ IsGranted (required route) c
unfolding permissions_guard
permissions_guard_iff route c p = go (required route) refl
  where
    go :
        (scopes : List String)
        → required route ≡ scopes
        → (permissions_guard route (some c) ≡ value tt) ↔ IsGranted (required route) c
    go [] e = rw (e, p) (λ h. inr tt, λ h. refl)
    go (s ∷ rest) e =
        rw (e, p) (check_scopes-IsGranted (s ∷ rest) c, granted-check_scopes (s ∷ rest) c)

timing_safe_equal_eq : (a b : List ℕ) → timing_safe_equal a b ≡ true → a ≡ b
timing_safe_equal_eq [] [] h = refl
timing_safe_equal_eq [] (b ∷ bs) h = cc
timing_safe_equal_eq (a ∷ as') [] h = cc
timing_safe_equal_eq (a ∷ as') (b ∷ bs) h =
    ground (arith, timing_safe_equal_eq as' bs (ground arith))

timing_safe_equal_refl : (a : List ℕ) → timing_safe_equal a a ≡ true
timing_safe_equal_refl [] = refl
timing_safe_equal_refl (a ∷ as') = ground (arith, timing_safe_equal_refl as')

length_zero : (a : List ℕ) → nat_eq (length a) 0 ≡ true → a ≡ []
length_zero [] h = refl
length_zero (a ∷ as') h = absurd (ground arith)

first_header-truthy :
    (headers : Headers) (name u : String)
    → first_header headers name ≡ some u
    → truthy (some u) ≡ true
unfolding first_header
first_header-truthy headers name u h = elim (Option-cases (raw_header headers name)) [
  | inl e ↦ absurd (ground arith)
  | inr (raw, e) ↦ elim (Bool-cases (truthy (some (trim raw)))) [
    | inl t ↦ subst (λ x. truthy (some x) ≡ true) (ground arith) t
    | inr t ↦ absurd (ground arith)
  ]
]

-- The username that the middleware attaches is not empty.
attach-username :
    (parse_json : String → Json) (names : HeaderNames) (headers : Headers) (c : GatewayConsumer)
    → attach parse_json names headers ≡ some c
    → truthy (some c.username) ≡ true
unfolding attach
attach-username parse_json names headers c h =
    elim (Option-cases (first_header headers names.consumer)) [
      | inl e ↦ absurd (ground arith)
      | inr (u, e) ↦
          let same : u ≡ c.username = ground arith in
          subst (λ x. truthy (some x) ≡ true) same (first_header-truthy headers names.consumer u e)
    ]

-- Who reaches a handler is attached to the request, and may use the route.
pub enter-IsGranted :
    (buffer : String → List ℕ) (gateway_secret : String) (names : HeaderNames)
    (parse_json : String → Json) (route : Route) (headers : Headers) (c : GatewayConsumer)
    → is_public route ≡ false
    → enter buffer gateway_secret names parse_json route headers ≡ value c
    → (attach parse_json names headers ≡ some c) × IsGranted (required route) c
unfolding enter apisix_guard
enter-IsGranted buffer gateway_secret names parse_json route headers c p h =
    elim (Option-cases (attach parse_json names headers)) [
      | inl e ↦ absurd (ground arith)
      | inr (d, e) ↦
          (e ∙ ap some (ground arith), (permissions_guard_iff route c p).0 (ground arith))
    ]

module _ (buffer : String → List ℕ) (gateway_secret : String) (names : HeaderNames)
    (injective : (s t : String) → buffer s ≡ buffer t → s ≡ t) (empty : buffer "" ≡ [])
    (configured : gateway_secret ≢ "") where
  configured_length : nat_eq (length (buffer gateway_secret)) 0 ≡ false
  configured_length = elim (Bool-cases (nat_eq (length (buffer gateway_secret)) 0)) [
    | inr e ↦ e
    | inl e ↦ absurd (
        configured
          (injective gateway_secret "" (length_zero (buffer gateway_secret) e ∙ sym empty)))
  ]

  valid_secret :
      (headers : Headers)
      → has_valid_secret buffer gateway_secret names headers ≡ value true
      → raw_header headers names.gateway_secret ≡ some gateway_secret
  unfolding has_valid_secret
  valid_secret headers h = elim (Option-cases (raw_header headers names.gateway_secret)) [
    | inl e ↦ absurd (ground (arith, configured_length))
    | inr (provided, e) ↦
        e
        ∙ ap some (
            injective provided gateway_secret (
              timing_safe_equal_eq (buffer provided) (buffer gateway_secret)
                (ground (arith, configured_length))))
  ]

  has_valid_secret_same :
      (headers : Headers)
      → raw_header headers names.gateway_secret ≡ some gateway_secret
      → has_valid_secret buffer gateway_secret names headers ≡ value true
  unfolding has_valid_secret
  has_valid_secret_same headers h = ground (
    arith,
    configured_length,
    timing_safe_equal_refl (buffer gateway_secret),
    eq_iff gateway_secret "",
    configured,
  )

  entered :
      (parse_json : String → Json) (route : Route) (headers : Headers) (c : GatewayConsumer)
      → is_public route ≡ false
      → enter buffer gateway_secret names parse_json route headers ≡ value c
      → (raw_header headers names.gateway_secret ≡ some gateway_secret)
        × (attach parse_json names headers ≡ some c)
        × IsGranted (required route) c
  unfolding enter apisix_guard
  entered parse_json route headers c p h = elim (Option-cases (attach parse_json names headers)) [
    | inl e ↦ absurd (ground arith)
    | inr (d, e) ↦
        let (there, granted) =
          enter-IsGranted buffer gateway_secret names parse_json route headers c p h in
        (valid_secret headers (ground arith), there, granted)
  ]

  enters :
      (parse_json : String → Json) (route : Route) (headers : Headers) (c : GatewayConsumer)
      → is_public route ≡ false
      → raw_header headers names.gateway_secret ≡ some gateway_secret
      → attach parse_json names headers ≡ some c
      → IsGranted (required route) c
      → enter buffer gateway_secret names parse_json route headers ≡ value c
  unfolding enter apisix_guard
  enters parse_json route headers c p s a g =
      let valid : has_valid_secret buffer gateway_secret names headers ≡ value true =
        has_valid_secret_same headers s in
      let named : truthy (some c.username) ≡ true = attach-username parse_json names headers c a in
      let granted : permissions_guard route (some c) ≡ value tt =
        (permissions_guard_iff route c p).1 g in
      ground arith

  -- Where the gateway's secret is configured, a request reaches the handler of a route that is not
  -- public, as the consumer `c`, exactly when it carries that secret, the middleware attached
  -- `c` to it, and the key of `c` is an admin's or holds every required scope.
  pub enter_iff :
      (parse_json : String → Json) (route : Route) (headers : Headers) (c : GatewayConsumer)
      → is_public route ≡ false
      → (enter buffer gateway_secret names parse_json route headers ≡ value c) ↔ (
          (raw_header headers names.gateway_secret ≡ some gateway_secret)
          × (attach parse_json names headers ≡ some c)
          × IsGranted (required route) c)
  enter_iff parse_json route headers c p =
      (entered parse_json route headers c p, λ (s, a, g). enters parse_json route headers c p s a g)
