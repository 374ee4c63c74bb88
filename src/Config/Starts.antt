-- ===== src/Config/Starts.antt =====
-- What holds of the service once its environment is accepted.
use comos_pay_community_serv.Config.{Environment}
use comos_pay_community_serv.Config.Validation.{Rules, Violations, is_string, is_not_empty}
use comos_pay_community_serv.Base.{Memᴰ, String, [], some, ◌∷◌, ◌≡◌, ◌≢◌}

-- A property under IsString and IsNotEmpty alone, with no violation, has a text that is not empty.
abbrev pub RefusesEmpty : Violations → Type 0
RefusesEmpty violations =
    (rules : Rules) (env : Environment) (name : String)
    → Memᴰ (name, is_string ∷ is_not_empty ∷ []) rules
    → violations rules env ≡ []
    → (text : String) × (env name ≡ some text) × (text ≢ "")
