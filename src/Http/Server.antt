-- ===== src/Http/Server.antt =====
-- One request through the service: the middleware, the guards, the handler, the access log and the
-- error filter, in the order of src/app.module.ts and src/main.ts.
pub mod Least
pub mod Logged
pub mod Replies
use comos_pay_community_serv.Base.{
  ℕ, String, Bool, Option, none, some, Run, done, fail, Exception, Outcome, value, raised,
}
use comos_pay_community_serv.Gateway.Consumer.{GatewayConsumer}
use comos_pay_community_serv.Gateway.Context.{attach}
use comos_pay_community_serv.Gateway.Guards.{enter, apisix_guard, permissions_guard}
use comos_pay_community_serv.Platform.{Platform, World}
use comos_pay_community_serv.Http.{Edge, Draws}
use comos_pay_community_serv.Http.Answer.{Answer}
use comos_pay_community_serv.Http.Errors.{ErrorBody, catch_thrown, thrown}
use comos_pay_community_serv.Http.AccessLog.{RequestInfo, persist}
use comos_pay_community_serv.Http.Calls.{Call, route_of, handle}
use comos_pay_community_serv.Http.Dashboard.{HealthCall, health_route, handle_health}

pub data Response (E : Edge) : Type 0 where
  success : Answer E.floats → Response E
  failure : ErrorBody → Response E

module _ (P : Platform) (E : Edge) where
  unfoldable pub respond_error : Draws → RequestInfo → Exception → ErrorBody
  unfolding catch_thrown
  respond_error r q e = catch_thrown (thrown E.reason e) q.url (r.supply).now

  -- The access log and the filter, once the handler is done.
  unfoldable pub finish :
      Draws
      → RequestInfo
      → Option String
      → Run (World P.client) (Answer E.floats)
      → World P.client × Response E
  finish r q username (done a w) =
      (persist P r.log_id (r.supply).now q (r.code_at_end none) r.duration_ms username w, success a)
  finish r q username (fail e w) = (
    persist P r.log_id (r.supply).now q (r.code_at_end (some e)) r.duration_ms username w,
    failure (respond_error r q e),
  )

  -- A request that the router has sent to a handler of a controller.
  unfoldable pub serve : Draws → RequestInfo → Call → World P.client → World P.client × Response E
  unfolding finish
  serve r q call w =
      elim (enter E.buffer E.gateway_secret E.names E.parse_json (route_of call) q.headers) [
        | raised e ↦ (w, failure (respond_error r q e))
        | value consumer ↦ finish r q (some consumer.username) (handle P E r consumer call w)
      ]

  abbrev pub username_of : Option GatewayConsumer → Option String
  username_of none = none
  username_of (some c) = some c.username

  abbrev pub run_of :
      Outcome (Answer E.floats) → World P.client → Run (World P.client) (Answer E.floats)
  run_of (value a) w = done a w
  run_of (raised e) w = fail e w

  -- A probe of the orchestrator.
  unfoldable pub serve_health :
      Draws → RequestInfo → Bool → HealthCall → World P.client → World P.client × Response E
  unfolding finish
  serve_health r q database_up call w =
      let consumer : Option GatewayConsumer = attach E.parse_json E.names q.headers in
      elim (apisix_guard E.buffer E.gateway_secret E.names (health_route call) q.headers consumer) [
        | raised e ↦ (w, failure (respond_error r q e))
        | value _ ↦ elim (permissions_guard (health_route call) consumer) [
          | raised e ↦ (w, failure (respond_error r q e))
          | value _ ↦
              finish r q (username_of consumer) (run_of (handle_health E database_up call) w)
        ]
      ]
