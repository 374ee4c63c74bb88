-- ===== src/Http/AccessLog.antt =====
-- src/common/interceptors/logging.interceptor.ts: the row that is kept of a request.
use Prim.Native.Char.{code}
use comos_pay_community_serv.Base.{
  ℕ, String, Bool, true, false, ◌&&◌, ◌||◌, Option, none, some, [], ◌∷◌, nat_eq, truthy,
  if◌then◌else◌,
}
use comos_pay_community_serv.Prisma.Schema.{RequestLog}
use comos_pay_community_serv.Gateway.Context.{Headers, HeaderValue, single, several}
use comos_pay_community_serv.Platform.{Platform, World}

-- What a handler and the filter see of a request.
pub record RequestInfo : Type 0 where
  pub method : String
  pub url : String
  pub ip : Option String
  pub headers : Headers

-- `url.split('?')[0]`
unfoldable pub before_question : String → String
before_question String.[] = ""
before_question (String.◌∷◌ c s) =
    let rest = before_question s in if nat_eq (code c) b'?' then "" else String.◌∷◌ c rest

-- `s.startsWith(prefix)`
unfoldable pub starts_with : String → String → Bool
starts_with String.[] s = true
starts_with (String.◌∷◌ c prefix) String.[] = false
starts_with (String.◌∷◌ c prefix) (String.◌∷◌ d s) =
    nat_eq (code c) (code d) && starts_with prefix s

abbrev pub is_set : Option HeaderValue → Bool
is_set none = false
is_set (some (single s)) = truthy (some s)
is_set (some (several xs)) = true

abbrev pub user_agent_of : Option HeaderValue → Option String
user_agent_of none = none
user_agent_of (some (single s)) = some s
user_agent_of (some (several [])) = none
user_agent_of (some (several (s ∷ rest))) = some s

-- The requests of which no row is kept.
unfoldable pub is_skipped : RequestInfo → Bool
unfolding before_question starts_with
is_skipped q =
    starts_with "/v1/health" (before_question q.url)
    || starts_with "/docs" (before_question q.url)
    || is_set (q.headers "x-cosmos-internal")

abbrev pub log_row : String → ℕ → RequestInfo → ℕ → ℕ → Option String → RequestLog
log_row id now q status duration consumer = record {
  id = id;
  consumer = consumer;
  method = q.method;
  path = before_question q.url;
  status_code = status;
  duration_ms = duration;
  ip = q.ip;
  user_agent = user_agent_of (q.headers "user-agent");
  created_at = now;
}

module _ (P : Platform) where
  -- `persist`, with the id and the time of the row: a write that fails is forgotten.
  unfoldable pub persist :
      String → ℕ → RequestInfo → ℕ → ℕ → Option String → World P.client → World P.client
  persist id now q status duration consumer w =
      if is_skipped q
      then w
      else elim (P.client.request_log.create (log_row id now q status duration consumer) w.logs) [
        | none ↦ w
        | some t ↦ record w { logs = t }
      ]
