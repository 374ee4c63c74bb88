-- ===== src/Gateway/Guards.antt =====
-- src/common/guards/apisix.guard.ts, src/common/guards/permissions.guard.ts and the decorators that
-- they read, in the order of src/app.module.ts.
pub mod Admits
use comos_pay_community_serv.Base.{
  ℕ, String, ◌<>◌, Bool, true, false, not, ◌&&◌, Option, none, some, List, [], ◌∷◌, length, keep,
  includes, truthy, nat_eq, or_else, coalesce, if◌then◌else◌, Outcome, value, raised, forbidden,
  unauthorized, service_unavailable, internal_error,
}
use comos_pay_community_serv.Gateway.Consumer.{Role, admin, user, GatewayConsumer}
use comos_pay_community_serv.Gateway.Context.{Headers, HeaderNames, Json, raw_header, attach}

-- The metadata of a route: of its handler, and of its controller.
pub record Route : Type 0 where
  pub handler_public : Option Bool
  pub class_public : Option Bool
  pub handler_scopes : Option (List String)
  pub class_scopes : Option (List String)

-- `getAllAndOverride`: the handler's metadata hides the controller's.
abbrev pub is_public : Route → Bool
is_public route = coalesce (or_else route.handler_public route.class_public) false

abbrev pub required : Route → List String
required route = coalesce (or_else route.handler_scopes route.class_scopes) []

-- `missing.join(', ')`
unfoldable pub join_texts : List String → String
join_texts [] = ""
join_texts (s ∷ []) = s
join_texts (s ∷ t ∷ rest) = s <> (", " <> join_texts (t ∷ rest))

-- Two buffers of one length, compared byte by byte.
abbrev pub timing_safe_equal : List ℕ → List ℕ → Bool
timing_safe_equal [] [] = true
timing_safe_equal [] (b ∷ bs) = false
timing_safe_equal (a ∷ as') [] = false
timing_safe_equal (a ∷ as') (b ∷ bs) = nat_eq a b && timing_safe_equal as' bs

-- `buffer` is `Buffer.from`, the bytes of a text in UTF-8.
module _ (buffer : String → List ℕ) (gateway_secret : String) (names : HeaderNames) where
  unfoldable pub has_valid_secret : Headers → Outcome Bool
  has_valid_secret headers =
      if nat_eq (length (buffer gateway_secret)) 0
      then raised (service_unavailable "Gateway secret not configured")
      else (elim (raw_header headers names.gateway_secret) [
        | none ↦ value false
        | some provided ↦
            if not (truthy (some provided))
            then value false
            else if not (nat_eq (length (buffer provided)) (length (buffer gateway_secret)))
            then value false
            else value (timing_safe_equal (buffer provided) (buffer gateway_secret))
      ])

  unfoldable pub apisix_guard : Route → Headers → Option GatewayConsumer → Outcome (Unit {0})
  apisix_guard route headers consumer =
      if is_public route then value tt else (elim (has_valid_secret headers) [
        | raised e ↦ raised e
        | value false ↦ raised (forbidden "Request did not originate from the gateway")
        | value true ↦ elim consumer [
          | none ↦ raised (unauthorized "No authenticated consumer")
          | some c ↦
              if truthy (some c.username)
              then value tt
              else raised (unauthorized "No authenticated consumer")
        ]
      ])

abbrev pub is_admin : Option Role → Bool
is_admin none = false
is_admin (some admin) = true
is_admin (some user) = false

unfoldable pub missing_scopes : List String → List String → List String
missing_scopes scopes granted = keep (λ scope. not (includes scope granted)) scopes

-- The check of the scopes that a route requires.
unfoldable pub check_scopes : List String → GatewayConsumer → Outcome (Unit {0})
unfolding join_texts
check_scopes scopes consumer =
    if is_admin consumer.role
    then value tt
    else (elim (missing_scopes scopes consumer.permissions) [
      | [] ↦ value tt
      | scope ∷ rest ↦ raised (
          forbidden
            ("This API key is missing the required scope(s): " <> join_texts (scope ∷ rest)))
    ])

unfoldable pub permissions_guard : Route → Option GatewayConsumer → Outcome (Unit {0})
permissions_guard route consumer = if is_public route then value tt else (elim (required route) [
  | [] ↦ value tt
  | scope ∷ rest ↦ elim consumer [
    | none ↦ raised (unauthorized "No authenticated consumer")
    | some c ↦ check_scopes (scope ∷ rest) c
  ]
])

-- src/common/decorators/current-consumer.decorator.ts
abbrev pub current_consumer : Option GatewayConsumer → Outcome GatewayConsumer
current_consumer none =
    raised (internal_error "No gateway consumer on request — was ApisixGuard applied?")
current_consumer (some c) = value c

module _ (buffer : String → List ℕ) (gateway_secret : String) (names : HeaderNames)
    (parse_json : String → Json) where
  -- The middleware, the two guards, and the argument that a handler receives.
  unfoldable pub enter : Route → Headers → Outcome GatewayConsumer
  enter route headers =
      let consumer : Option GatewayConsumer = attach parse_json names headers in
      elim (apisix_guard buffer gateway_secret names route headers consumer) [
        | raised e ↦ raised e
        | value _ ↦ elim (permissions_guard route consumer) [
          | raised e ↦ raised e
          | value _ ↦ current_consumer consumer
        ]
      ]
