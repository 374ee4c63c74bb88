-- ===== src/Tests/Entry.antt =====
-- The theorem on the guards, for a request of a key that may read payments.
use comos_pay_community_serv.Base.{
  String, none, some, [], ◌∷◌, ◌≡◌, ◌≢◌, ◌↔◌, refl, arith, ◌==◌, if◌then◌else◌, eq_iff, value,
  codes, trim,
}
use comos_pay_community_serv.Gateway.Consumer.{GatewayConsumer}
use comos_pay_community_serv.Gateway.Context.{
  first_header, parse_role, parse_permissions, parse_environment, Headers, HeaderNames, malformed,
  single, raw_header, attach,
}
use comos_pay_community_serv.Gateway.Guards.{
  apisix_guard, has_valid_secret, permissions_guard, check_scopes, missing_scopes, Route, required,
  enter,
}
use comos_pay_community_serv.Gateway.Guards.Admits.{IsGranted, enter_iff}
use text.Mathlib.TextEquality.{Char-path}

codes_injective : (s t : String) → codes s ≡ codes t → s ≡ t
codes_injective String.[] String.[] h = refl
codes_injective String.[] (String.◌∷◌ d t) h = absurd (ground arith)
codes_injective (String.◌∷◌ c s) String.[] h = absurd (ground arith)
codes_injective (String.◌∷◌ c s) (String.◌∷◌ d t) h =
    let first : c ≡ d = Char-path c d (cc h) in
    let rest : s ≡ t = codes_injective s t (cc h) in λ i. String.◌∷◌ (first i) (rest i)

abbrev pub names : HeaderNames
names = record {
  consumer = "x-consumer-username";
  credential = "x-credential-identifier";
  environment = "x-consumer-environment";
  role = "x-consumer-role";
  permissions = "x-consumer-permissions";
  gateway_secret = "x-gateway-secret";
}

abbrev pub request : Headers
request name =
    if name == "x-gateway-secret"
    then some (single "s")
    else if name == "x-consumer-username"
    then some (single "shop")
    else if name == "x-consumer-permissions"
    then some (single "payments:read")
    else none

abbrev route : Route
route = record {
  handler_public = none;
  class_public = none;
  handler_scopes = some ("payments:read" ∷ []);
  class_scopes = none;
}

abbrev pub caller : GatewayConsumer
caller = record {
  username = "shop";
  credential_id = none;
  environment = none;
  role = none;
  permissions = "payments:read" ∷ [];
}

configured : ◌≢◌ {A = String} "s" ""
configured = ground (arith, eq_iff "s" "")

enter_iff_example : (enter codes "s" names (λ text. malformed) route request ≡ value caller) ↔ (
    (raw_header request names.gateway_secret ≡ some "s")
    × (attach (λ text. malformed) names request ≡ some caller)
    × IsGranted (required route) caller)
enter_iff_example =
    enter_iff codes "s" names codes_injective refl configured (λ text. malformed) route request
      caller refl

-- The request does enter, as the caller.
pub enters_as_caller : enter codes "s" names (λ text. malformed) route request ≡ value caller
unfolding enter apisix_guard has_valid_secret attach first_header trim permissions_guard
    check_scopes parse_role missing_scopes parse_permissions parse_environment
enters_as_caller = refl
