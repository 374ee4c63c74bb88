-- ===== src/Gateway/Context.antt =====
-- src/common/middleware/apisix-context.middleware.ts: the identity that the gateway forwards.
use Prim.Native.Char.{Char, code}
use comos_pay_community_serv.Base.{
  String, Bool, false, ◌||◌, not, Option, none, some, List, [], ◌∷◌, map, keep, nat_eq, truthy,
  trim, lower_eq, if◌then◌else◌,
}
use comos_pay_community_serv.Gateway.Consumer.{
  Environment, dev, prod, Role, admin, user, GatewayConsumer,
}

-- `req.headers[name]`: a text, several, or undefined where no field has the name.
pub data HeaderValue : Type 0 where
  single : String → HeaderValue
  several : List String → HeaderValue

abbrev pub Headers : Type 0
Headers = String → Option HeaderValue

-- What `JSON.parse` makes of a text: it throws, or gives an array, whose members that are no texts
-- are `none`, or another value.
pub data Json : Type 0 where
  malformed : Json
  array : List (Option String) → Json
  other : Json

-- The names of the header fields, of the configuration.
pub record HeaderNames : Type 0 where
  pub consumer : String
  pub credential : String
  pub environment : String
  pub role : String
  pub permissions : String
  pub gateway_secret : String

abbrev pub raw_header : Headers → String → Option String
raw_header headers name = elim (headers name) [
  | none ↦ none
  | some (single s) ↦ some s
  | some (several []) ↦ none
  | some (several (s ∷ rest)) ↦ some s
]

unfoldable pub first_header : Headers → String → Option String
first_header headers name = elim (raw_header headers name) [
  | none ↦ none
  | some s ↦ if truthy (some (trim s)) then some (trim s) else none
]

unfoldable pub parse_role : Option String → Option Role
parse_role none = none
parse_role (some raw) =
    if truthy (some raw) then (if lower_eq raw "admin" then some admin else some user) else none

unfoldable pub parse_environment : Option String → Option Environment
parse_environment none = none
parse_environment (some raw) =
    if lower_eq raw "prod"
      || lower_eq raw "production"
      || lower_eq raw "live"
      || lower_eq raw "public"
    then some prod
    else if lower_eq raw "dev"
        || lower_eq raw "development"
        || lower_eq raw "test"
        || lower_eq raw "testnet"
    then some dev
    else none

-- The parts of a text between its commas.
abbrev extend : Char → List String → List String
extend c [] = String.◌∷◌ c "" ∷ []
extend c (s ∷ rest) = String.◌∷◌ c s ∷ rest

unfoldable pub split_comma : String → List String
split_comma String.[] = "" ∷ []
split_comma (String.◌∷◌ c s) =
    let rest = split_comma s in if nat_eq (code c) b',' then "" ∷ rest else extend c rest

abbrev starts_with_bracket : String → Bool
starts_with_bracket String.[] = false
starts_with_bracket (String.◌∷◌ c s) = nat_eq (code c) b'['

abbrev texts : List (Option String) → List String
texts [] = []
texts (none ∷ rest) = texts rest
texts (some s ∷ rest) = s ∷ texts rest

module _ (parse_json : String → Json) where
  unfoldable pub parse_permissions : Option String → List String
  unfolding split_comma
  parse_permissions none = []
  parse_permissions (some raw) =
      let trimmed : String = trim raw in
      if not (truthy (some raw))
      then []
      else if starts_with_bracket trimmed
      then (elim (parse_json trimmed) [
        | malformed ↦ []
        | array members ↦ texts members
        | other ↦ []
      ])
      else keep (λ p. truthy (some p)) (map trim (split_comma trimmed))

  -- `use`: the consumer that is put on the request, if there is a username.
  unfoldable pub attach : HeaderNames → Headers → Option GatewayConsumer
  attach names headers = elim (first_header headers names.consumer) [
    | none ↦ none
    | some username ↦ some (record {
      username = username;
      credential_id = first_header headers names.credential;
      environment = parse_environment (first_header headers names.environment);
      role = parse_role (first_header headers names.role);
      permissions = parse_permissions (first_header headers names.permissions);
    })
  ]
