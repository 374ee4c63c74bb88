-- ===== src/Config/Validation.antt =====
-- src/config/env.validation.ts: the check of the environment before the service starts.
use comos_pay_community_serv.Base.{
  ℕ, String, ◌<>◌, List, [], ◌∷◌, truthy, if◌then◌else◌, Outcome, value, raised, unexpected,
}
use comos_pay_community_serv.Config.{Environment}

-- The decorators of class-validator.
pub data Rule : Type 0 where
  is_optional is_string is_int is_not_empty : Rule
  at_least at_most : ℕ → Rule
  is_in : List String → Rule

abbrev pub Rules : Type 0
Rules = List (String × List Rule)

abbrev pub environment_variables : Rules
environment_variables =
    ("NODE_ENV", is_optional ∷ is_string ∷ [])
    ∷ ("PORT", is_optional ∷ is_int ∷ at_least 0 ∷ at_most 65535 ∷ [])
    ∷ ("DATABASE_URL", is_string ∷ is_not_empty ∷ [])
    ∷ ("APISIX_GATEWAY_SECRET", is_optional ∷ is_string ∷ [])
    ∷ ("APISIX_GATEWAY_SECRET_HEADER", is_optional ∷ is_string ∷ [])
    ∷ ("APISIX_CONSUMER_HEADER", is_optional ∷ is_string ∷ [])
    ∷ ("APISIX_CREDENTIAL_HEADER", is_optional ∷ is_string ∷ [])
    ∷ ("STELLAR_NETWORK", is_optional ∷ is_in ("public" ∷ "testnet" ∷ []) ∷ [])
    ∷ ("STELLAR_HORIZON_URL", is_optional ∷ is_string ∷ [])
    ∷ ("STELLAR_BASE_FEE", is_optional ∷ is_string ∷ [])
    ∷ ("STELLAR_TX_TIMEOUT", is_optional ∷ is_int ∷ at_least 1 ∷ [])
    ∷ []

-- `lines.join('\n')`
unfoldable pub join_lines : List String → String
join_lines [] = ""
join_lines (s ∷ []) = s
join_lines (s ∷ t ∷ rest) = s <> ("\n" <> join_lines (t ∷ rest))

-- `validateSync(plainToInstance(…))`: for each property that breaks its rules, the messages of
-- its constraints, joined by commas.
abbrev pub Violations : Type 0
Violations = Rules → Environment → List String

abbrev secret_required : String
secret_required =
    "APISIX_GATEWAY_SECRET is required: the service only trusts requests that "
    <> ("carry the shared secret APISIX injects. Set it to match the dev platform "
        <> "(COSMOS_GATEWAY_SECRET) and the gateway route's X-Gateway-Secret.")

-- What it returns are the values of the environment.
unfoldable pub validate_env : Violations → Environment → Outcome Environment
unfolding join_lines
validate_env violations env = elim (violations environment_variables env) [
  | e ∷ errors ↦
      raised (unexpected ("Invalid environment configuration:\n" <> join_lines (e ∷ errors)))
  | [] ↦
      if truthy (env "APISIX_GATEWAY_SECRET")
      then value env
      else raised (unexpected secret_required)
]
