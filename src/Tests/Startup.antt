-- ===== src/Tests/Startup.antt =====
-- The theorem on the start of the service, with a validator that knows the rule of presence.
use comos_pay_community_serv.Config.{Environment}
use comos_pay_community_serv.Config.Validation.{
  Rule, Rules, is_optional, is_string, is_int, is_not_empty, at_least, at_most, is_in,
}
use comos_pay_community_serv.Base.{
  Bool, List, String, [], false, if◌then◌else◌, none, not, some, true, truthy, ◌&&◌, ◌==◌, ◌∷◌,
}

abbrev required : List Rule → Bool
required [] = true
required (is_optional ∷ rest) = false
required (is_string ∷ rest) = true
required (is_int ∷ rest) = true
required (is_not_empty ∷ rest) = true
required (at_least n ∷ rest) = true
required (at_most n ∷ rest) = true
required (is_in options ∷ rest) = true

abbrev missing_of : Rules → Environment → List String
missing_of [] env = []
missing_of ((name, rules) ∷ rest) env =
    if required rules && not (truthy (env name))
    then name ∷ missing_of rest env
    else missing_of rest env

abbrev settings_of_test : Environment
settings_of_test name =
    if name == "DATABASE_URL"
    then some "postgres://db"
    else if name == "APISIX_GATEWAY_SECRET"
    then some "s"
    else none
