-- ===== src/Http/Payments.antt =====
-- src/payment-intents/payment-intents.controller.ts
use comos_pay_community_serv.Base.{String, M, pure, ◌>>=◌}
use comos_pay_community_serv.Gateway.Consumer.{GatewayConsumer}
use comos_pay_community_serv.Gateway.Guards.{Route}
use comos_pay_community_serv.Platform.{Platform, World}
use comos_pay_community_serv.Intents.Create.{
  CreateTxPaymentIntentDto, CreatePayPaymentIntentDto, create_tx, create_pay,
}
use comos_pay_community_serv.Intents.Settle.{validate}
use comos_pay_community_serv.Intents.Manage.{
  QueryPaymentIntentsDto, UpdatePaymentIntentDto, find_all, find_one, update, remove,
}
use comos_pay_community_serv.Http.{Edge, Draws, requires}
use comos_pay_community_serv.Http.Answer.{Answer}

pub data PaymentIntentCall : Type 0 where
  post_tx : CreateTxPaymentIntentDto → PaymentIntentCall
  post_pay : CreatePayPaymentIntentDto → PaymentIntentCall
  get_all : QueryPaymentIntentsDto → PaymentIntentCall
  get_one : String → PaymentIntentCall
  post_validate : String → String → PaymentIntentCall
  patch : String → UpdatePaymentIntentDto → PaymentIntentCall
  delete : String → PaymentIntentCall

unfoldable pub payment_intent_route : PaymentIntentCall → Route
payment_intent_route (post_tx dto) = requires "payments:write"
payment_intent_route (post_pay dto) = requires "payments:write"
payment_intent_route (get_all query) = requires "payments:read"
payment_intent_route (get_one id) = requires "payments:read"
payment_intent_route (post_validate id hash) = requires "payments:write"
payment_intent_route (patch id dto) = requires "payments:write"
payment_intent_route (delete id) = requires "payments:write"

module _ (P : Platform) (E : Edge) where
  unfoldable pub handle_payment_intent :
      Draws → GatewayConsumer → PaymentIntentCall → M (World P.client) (Answer E.floats)
  handle_payment_intent r consumer (post_tx dto) = do
    v ← create_tx P r.supply consumer dto
    pure (Answer.intent v)
  handle_payment_intent r consumer (post_pay dto) = do
    v ← create_pay P r.supply consumer dto
    pure (Answer.intent v)
  handle_payment_intent r consumer (get_all query) = do
    l ← find_all P consumer.username query
    pure (Answer.intents l)
  handle_payment_intent r consumer (get_one id) = do
    v ← find_one P consumer.username id
    pure (Answer.intent v)
  handle_payment_intent r consumer (post_validate id hash) = do
    o ← validate P r.supply consumer.username id hash
    pure (Answer.validation o)
  handle_payment_intent r consumer (patch id dto) = do
    v ← update P consumer.username id dto
    pure (Answer.intent v)
  handle_payment_intent r consumer (delete id) = do
    gone ← remove P consumer.username id
    pure (Answer.deleted gone)
