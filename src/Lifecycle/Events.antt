-- ===== src/Lifecycle/Events.antt =====
-- What happens to the service, one event after another: requests, probes, the timer of the
-- observer, and the events of the bus that the dispatcher handles.
use comos_pay_community_serv.Http.Payments.{PaymentIntentCall}
use comos_pay_community_serv.Http.AccessLog.{RequestInfo}
use comos_pay_community_serv.Base.{Bool, Option, String, none, some, world, ℕ}
use comos_pay_community_serv.Http.Calls.{Call}
use comos_pay_community_serv.Http.{Draws, Edge}
use comos_pay_community_serv.Http.Dashboard.{HealthCall}
use comos_pay_community_serv.Prisma.Schema.{WebhookEndpoint}
use comos_pay_community_serv.Platform.{Platform, Supply, WebhookEvent, World}
use comos_pay_community_serv.Webhooks.Dispatcher.{Transport, handle_event}
use comos_pay_community_serv.Intents.Manage.{UpdatePaymentIntentDto}
use comos_pay_community_serv.Observer.{cycle}
use comos_pay_community_serv.Intents.Settle.Marks.{event}
use comos_pay_community_serv.Http.Server.{serve, serve_health}

pub data SystemEvent : Type 0 where
  request : Draws → RequestInfo → Call → SystemEvent
  -- With what the health check finds of the database.
  probe : Draws → RequestInfo → Bool → HealthCall → SystemEvent
  -- The time, and what is generated while each intent is settled.
  tick : ℕ → (String → Supply) → SystemEvent
  -- With the network and the id of each delivery, the time, and the UUID of the event.
  dispatch :
      (WebhookEndpoint → Transport)
      → (WebhookEndpoint → String)
      → ℕ
      → String
      → WebhookEvent
      → SystemEvent

-- The body of a PATCH of an intent.
unfoldable pub edit_of_call : Call → Option UpdatePaymentIntentDto
edit_of_call (Call.payment_intents (PaymentIntentCall.post_tx dto)) = none
edit_of_call (Call.payment_intents (PaymentIntentCall.post_pay dto)) = none
edit_of_call (Call.payment_intents (PaymentIntentCall.get_all query)) = none
edit_of_call (Call.payment_intents (PaymentIntentCall.get_one id)) = none
edit_of_call (Call.payment_intents (PaymentIntentCall.post_validate id hash)) = none
edit_of_call (Call.payment_intents (PaymentIntentCall.patch id dto)) = some dto
edit_of_call (Call.payment_intents (PaymentIntentCall.delete id)) = none
edit_of_call (Call.webhooks call) = none
edit_of_call (Call.customers call) = none
edit_of_call (Call.products call) = none
edit_of_call (Call.analytics call) = none

unfoldable pub edit_of : SystemEvent → Option UpdatePaymentIntentDto
unfolding edit_of_call
edit_of (request r q call) = edit_of_call call
edit_of (probe r q up call) = none
edit_of (tick now supply) = none
edit_of (dispatch T id now uuid event) = none

module _ (P : Platform) (E : Edge) where
  unfoldable pub after : SystemEvent → World P.client → World P.client
  after (request r q call) w = (serve P E r q call w).0
  after (probe r q up call) w = (serve_health P E r q up call w).0
  after (tick now supply) w = world (cycle P now supply w)
  after (dispatch T id now uuid event) w = handle_event P E.codec T id now uuid event w
