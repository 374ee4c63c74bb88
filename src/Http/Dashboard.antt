-- ===== src/Http/Dashboard.antt =====
-- src/analytics/analytics.controller.ts and src/health/health.controller.ts
use comos_pay_community_serv.Base.{
  Bool, true, some, none, M, pure, ◌>>=◌, service_unavailable, Outcome, value, raised,
  if◌then◌else◌,
}
use comos_pay_community_serv.Gateway.Consumer.{GatewayConsumer}
use comos_pay_community_serv.Gateway.Guards.{Route}
use comos_pay_community_serv.Platform.{Platform, World}
use comos_pay_community_serv.Analytics.Summary
use comos_pay_community_serv.Analytics.Balances
use comos_pay_community_serv.Analytics.Logs
use comos_pay_community_serv.Http.{Edge, Draws, requires}
use comos_pay_community_serv.Http.Answer.{Answer}

pub data AnalyticsCall : Type 0 where
  get_summary get_balances get_logs get_webhook_logs : AnalyticsCall

unfoldable pub analytics_route : AnalyticsCall → Route
analytics_route get_summary = requires "payments:read"
analytics_route get_balances = requires "payments:read"
analytics_route get_logs = requires "payments:read"
analytics_route get_webhook_logs = requires "webhooks:read"

module _ (P : Platform) (E : Edge) where
  unfoldable pub handle_analytics :
      Draws → GatewayConsumer → AnalyticsCall → M (World P.client) (Answer E.floats)
  handle_analytics r consumer get_summary = do
    o ← Summary.summary P E.floats E.iso_date r.supply consumer
    pure (Answer.overview o)
  handle_analytics r consumer get_balances = do
    l ← Balances.balances E.floats P r.supply consumer
    pure (Answer.balances l)
  handle_analytics r consumer get_logs = do
    l ← Logs.api_logs P 100 consumer
    pure (Answer.api_log l)
  handle_analytics r consumer get_webhook_logs = do
    l ← Logs.webhook_logs P r.supply 100 consumer
    pure (Answer.webhook_log l)

pub data HealthCall : Type 0 where
  liveness readiness : HealthCall

-- `@Public()` on each handler.
unfoldable pub health_route : HealthCall → Route
health_route call = record {
  handler_public = some true;
  class_public = none;
  handler_scopes = none;
  class_scopes = none;
}

-- `database_up` is what the ping of the health check finds.
unfoldable pub handle_health : (E : Edge) → Bool → HealthCall → Outcome (Answer E.floats)
handle_health E database_up liveness = value Answer.healthy
handle_health E database_up readiness =
    if database_up
    then value Answer.healthy
    else raised (service_unavailable "Service Unavailable Exception")
