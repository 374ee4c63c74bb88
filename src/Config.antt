-- ===== src/Config.antt =====
-- src/config/configuration.ts: the configuration that is loaded from the environment.
pub mod Validation
pub mod Starts
use comos_pay_community_serv.Base.{
  ℕ, ◌+◌, ◌-◌, ◌*◌, String, Bool, true, false, not, Option, none, some, List, [], ◌∷◌, coalesce,
  codes, trim_start, lower_eq, nat_eq, if◌then◌else◌,
}
use comos_pay_community_serv.Prisma.Schema.{StellarNetwork, public, testnet}
use comos_pay_community_serv.Gateway.Context.{HeaderNames}
use comos_pay_community_serv.Intents.Memo.{is_digit}

-- `process.env`
abbrev pub Environment : Type 0
Environment = String → Option String

-- What `parseInt` returns: NaN, or a whole number.
pub data Parsed : Type 0 where
  nan : Parsed
  natural : ℕ → Parsed
  negative : ℕ → Parsed

-- The digits at the start, after a number that was read.
unfoldable pub read_digits : ℕ → List ℕ → ℕ
unfolding is_digit
read_digits acc [] = acc
read_digits acc (c ∷ cs) =
    let rest = read_digits (10 * acc + (c - 48)) cs in if is_digit c then rest else acc

-- A number starts with a digit.
unfoldable pub read_number : (ℕ → Parsed) → List ℕ → Parsed
unfolding is_digit read_digits
read_number sign [] = nan
read_number sign (c ∷ cs) = if is_digit c then sign (read_digits 0 (c ∷ cs)) else nan

unfoldable pub read_signed : List ℕ → Parsed
unfolding read_number
read_signed [] = nan
read_signed (c ∷ cs) =
    if nat_eq c b'-'
    then read_number negative cs
    else if nat_eq c b'+'
    then read_number natural cs
    else read_number natural (c ∷ cs)

-- `parseInt(text, 10)`, exact up to 2^53.
unfoldable pub parse_int : String → Parsed
unfolding read_signed trim_start
parse_int text = read_signed (codes (trim_start text))

pub record StellarConfig : Type 0 where
  pub network : StellarNetwork
  pub horizon_public : String
  pub horizon_testnet : String
  pub base_fee : String
  pub timeout_seconds : Parsed

pub record ObserverConfig : Type 0 where
  pub enabled : Bool
  pub interval_ms : Parsed
  pub batch_size : Parsed

pub record WebhooksConfig : Type 0 where
  pub timeout_ms : Parsed
  pub max_attempts : Parsed
  pub backoff_ms : Parsed
  pub signature_header : String

pub record Configuration : Type 0 where
  pub node_env : String
  pub port : Parsed
  pub database_url : String
  pub gateway_secret : String
  pub header_names : HeaderNames
  pub stellar : StellarConfig
  pub observer : ObserverConfig
  pub ttl_seconds : Parsed
  pub webhooks : WebhooksConfig

-- `parseInt(process.env[name] ?? text, 10)`
abbrev number_of : Environment → String → String → Parsed
number_of env name text = parse_int (coalesce (env name) text)

-- `lower` is `toLowerCase` of texts that name headers.
module _ (lower : String → String) where
  -- `(process.env[name] ?? text).toLowerCase()`
  abbrev header_of : Environment → String → String → String
  header_of env name text = lower (coalesce (env name) text)

  unfoldable pub load_header_names : Environment → HeaderNames
  load_header_names env = record {
    consumer = header_of env "APISIX_CONSUMER_HEADER" "x-consumer-username";
    credential = header_of env "APISIX_CREDENTIAL_HEADER" "x-credential-identifier";
    environment = header_of env "APISIX_ENVIRONMENT_HEADER" "x-consumer-env";
    role = header_of env "APISIX_ROLE_HEADER" "x-consumer-role";
    permissions = header_of env "APISIX_PERMISSIONS_HEADER" "x-consumer-permissions";
    gateway_secret = header_of env "APISIX_GATEWAY_SECRET_HEADER" "x-gateway-secret";
  }

  unfoldable pub load_configuration : Environment → Configuration
  unfolding load_header_names parse_int lower_eq
  load_configuration env = record {
    node_env = coalesce (env "NODE_ENV") "development";
    port = number_of env "PORT" "3000";
    database_url = coalesce (env "DATABASE_URL") "";
    gateway_secret = coalesce (env "APISIX_GATEWAY_SECRET") "";
    header_names = load_header_names env;
    stellar = record {
      network =
          if lower_eq (coalesce (env "STELLAR_NETWORK") "testnet") "public"
          then public
          else testnet;
      horizon_public = coalesce (env "STELLAR_HORIZON_URL_PUBLIC") "https://horizon.stellar.org";
      horizon_testnet =
          coalesce (env "STELLAR_HORIZON_URL_TESTNET") "https://horizon-testnet.stellar.org";
      base_fee = coalesce (env "STELLAR_BASE_FEE") "100";
      timeout_seconds = number_of env "STELLAR_TX_TIMEOUT" "300";
    };
    observer = record {
      enabled = not (lower_eq (coalesce (env "OBSERVER_ENABLED") "true") "false");
      interval_ms = number_of env "OBSERVER_INTERVAL_MS" "15000";
      batch_size = number_of env "OBSERVER_BATCH_SIZE" "50";
    };
    ttl_seconds = number_of env "PAYMENT_INTENT_TTL_SECONDS" "3600";
    webhooks = record {
      timeout_ms = number_of env "WEBHOOK_TIMEOUT_MS" "5000";
      max_attempts = number_of env "WEBHOOK_MAX_ATTEMPTS" "3";
      backoff_ms = number_of env "WEBHOOK_BACKOFF_MS" "2000";
      signature_header = header_of env "WEBHOOK_SIGNATURE_HEADER" "x-cosmos-signature";
    };
  }
