-- ===== src/Http.antt =====
-- The HTTP side of the service: what the controllers, the error filter and the access log are built
-- from, and what one request draws.
pub mod Errors
pub mod AccessLog
pub mod Answer
pub mod Payments
pub mod Hooks
pub mod Catalog
pub mod Dashboard
pub mod Calls
pub mod ReadOnly
pub mod Server
use comos_pay_community_serv.Base.{ℕ, String, Option, List, [], ◌∷◌, some, none, Exception}
use comos_pay_community_serv.Gateway.Context.{HeaderNames, Json}
use comos_pay_community_serv.Gateway.Guards.{Route}
use comos_pay_community_serv.Platform.{Supply}
use comos_pay_community_serv.Customers.{Sums}
use comos_pay_community_serv.Webhooks.Dispatcher.{Codec, Transport}
use comos_pay_community_serv.Analytics.{Floats}

-- What the HTTP side uses of the runtime, of Nest and of the configuration, besides the platform.
pub record Edge : Type 1 where
  pub codec : Codec
  pub floats : Floats
  pub sums : Sums
  -- `new Date(ms).toISOString().slice(0, 10)`
  pub iso_date : ℕ → String
  -- `Buffer.from`
  pub buffer : String → List ℕ
  pub parse_json : String → Json
  pub gateway_secret : String
  pub names : HeaderNames
  -- The `error` text of Nest's built-in exception with a status.
  pub reason : ℕ → String

-- What the runtime generates while one request is served: the supply of the services, the random
-- bytes of a secret as hexadecimal text, a UUID, and the network.
pub record Draws : Type 0 where
  pub supply : Supply
  pub random : String
  pub uuid : String
  pub transport : Transport
  -- The id of the row of the access log, and how long the request took.
  pub log_id : String
  pub duration_ms : ℕ
  -- `response.statusCode` when the handler is done, by the exception that it ended with.
  pub code_at_end : Option Exception → ℕ

-- The metadata of a handler under `@RequirePermissions(scope)`.
abbrev pub requires : String → Route
requires scope = record {
  handler_public = none;
  class_public = none;
  handler_scopes = some (scope ∷ []);
  class_scopes = none;
}
