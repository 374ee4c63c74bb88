-- ===== src/Webhooks/Dispatcher.antt =====
-- src/webhooks/webhook-dispatcher.service.ts: an event becomes deliveries, which are posted with
-- retries.
pub mod Rounds
pub mod Attempts
pub mod Fanout
pub mod Events
use comos_pay_community_serv.Base.{
  ℕ, zero, suc, ◌+◌, ◌*◌, ◌/◌, String, ◌<>◌, Bool, true, false, ◌&&◌, ◌||◌, Option, none, some,
  List, [], ◌∷◌, keep, any, leb, ltb, if◌then◌else◌, M, Run, done, fail, pure, throw, world,
  unexpected, ◌>>=◌,
}
use comos_pay_community_serv.Prisma.Schema.{
  PaymentIntent, WebhookEndpoint, WebhookDelivery, WebhookEventType, WebhookDeliveryStatus,
  delivery_pending, delivery_succeeded, delivery_failed, event_eq,
}
use comos_pay_community_serv.Prisma.Table.{Write, written, missing, conflict, whole, unordered}
use comos_pay_community_serv.Platform.{
  Platform, World, WebhookEvent, owned_by, not_found_error, unique_error,
}
use comos_pay_community_serv.Webhooks.Signature.{build_signature_header}
use comos_pay_community_serv.Intents.Memo.{to_decimal}

-- A POST as `fetch` is given it.
pub record Post : Type 0 where
  pub url : String
  pub headers : List (String × String)
  pub body : String

-- What a POST comes to: a response with its status, or an exception with its message.
pub data Answer : Type 0 where
  answered : ℕ → Answer
  errored : String → Answer

-- The network and the clock while one delivery is attempted: in each round, counted from 0, the
-- milliseconds at its start and the answer to its POST; and the time after the last.
pub record Transport : Type 0 where
  pub clock : ℕ → ℕ
  pub fetch : ℕ → Post → Answer
  pub finished : ℕ

-- The names of the event types in the database.
pub record Codec : Type 0 where
  pub event_name : WebhookEventType → String
  -- `JSON.stringify` of the body that `buildBody` makes, with its time.
  pub body : String → WebhookEventType → ℕ → PaymentIntent → String
  pub ping_body : String → ℕ → String
  pub hmac_sha256 : String → String → String

-- `res.ok`
abbrev pub is_ok : ℕ → Bool
is_ok status = leb 200 status && ltb status 300

-- How the rounds end, with the posts that were made and the pauses between them.
pub record Attempted : Type 0 where
  pub result : WebhookDeliveryStatus
  pub tries : ℕ
  pub code : Option ℕ
  pub message : Option String
  pub posts : List Post
  pub pauses : List ℕ

abbrev pub with_post : Post → Attempted → Attempted
with_post post a = record a { posts = post ∷ a.posts }

-- No pause after the last round.
abbrev pub with_pause : ℕ → ℕ → Attempted → Attempted
with_pause zero pause a = a
with_pause (suc left) pause a = record a { pauses = pause ∷ a.pauses }

abbrev pub is_subscribed : WebhookEventType → WebhookEndpoint → Bool
is_subscribed type e = elim e.event_types [ [] ↦ true | t ∷ rest ↦ any (event_eq type) (t ∷ rest) ]

module _ (P : Platform) where
  -- The `where` of `handleEvent`; `targets` are the rows of it that are subscribed.
  abbrev pub is_enabled : World P.client → String → WebhookEndpoint → Bool
  is_enabled w username e = e.enabled && owned_by P.client w username e.consumer_id

  unfoldable pub targets : World P.client → WebhookEvent → List WebhookEndpoint
  targets w event = keep (is_subscribed event.type) (
      P.client.webhook_endpoint.find_many (is_enabled w event.consumer_username) (whole unordered)
        w.endpoints)

-- The answer of a ping, which nothing stores.
pub record PingResult : Type 0 where
  pub ok : Bool
  pub response_status : Option ℕ
  pub error : Option String

module _ (P : Platform) (C : Codec) where
  unfoldable pub signed_post : WebhookEndpoint → WebhookDelivery → ℕ → Post
  signed_post endpoint delivery milliseconds = record {
    url = endpoint.url;
    headers =
        ("content-type", "application/json")
        ∷ ("user-agent", "CosmosPay-Webhooks/1.0")
        ∷ (
          P.config.signature_header,
          build_signature_header C.hmac_sha256 endpoint.secret delivery.payload
              (milliseconds / 1000),
        )
        ∷ ("x-cosmos-event", C.event_name delivery.event_type)
        ∷ ("x-cosmos-event-id", delivery.event_id)
        ∷ ("x-cosmos-delivery", delivery.id)
        ∷ [];
    body = delivery.payload;
  }

  -- The loop, with `left` rounds to go of which the next is round `i`.
  unfoldable pub rounds :
      Transport
      → WebhookEndpoint
      → WebhookDelivery
      → ℕ
      → ℕ
      → ℕ
      → Option ℕ
      → Option String
      → Attempted
  rounds T endpoint delivery zero i tries code message = record {
    result = delivery_failed;
    tries = tries;
    code = code;
    message = message;
    posts = [];
    pauses = [];
  }
  rounds T endpoint delivery (suc left) i tries code message =
      let post : Post = signed_post endpoint delivery (T.clock i) in
      let pause : ℕ = P.config.backoff_ms * (i + 1) in
      elim (T.fetch i post) [
        | answered status ↦
            let failed : Attempted =
              rounds T endpoint delivery left (suc i) (tries + 1) (some status)
                (some ("Non-2xx response: " <> to_decimal status)) in
            if is_ok status
            then record {
              result = delivery_succeeded;
              tries = tries + 1;
              code = some status;
              message = none;
              posts = post ∷ [];
              pauses = [];
            }
            else with_post post (with_pause left pause failed)
        | errored reason ↦ with_post post (
            with_pause left pause
              (rounds T endpoint delivery left (suc i) (tries + 1) none (some reason)))
      ]

  -- The row that `finalize` writes.
  abbrev pub finalized : Attempted → ℕ → WebhookDelivery → WebhookDelivery
  finalized a now r = record r {
    status = a.result;
    attempts = a.tries;
    response_status = a.code;
    error = a.message;
    last_attempt_at = some now;
  }

  unfoldable pub finalize : String → Attempted → ℕ → M (World P.client) WebhookDelivery
  finalize id a now w = elim (P.client.webhook_delivery.update id (finalized a now) w.deliveries) [
    | written r t ↦ done r (record w { deliveries = t })
    | missing ↦ fail not_found_error w
    | conflict ↦ fail unique_error w
  ]

  unfoldable pub attempt :
      Transport → WebhookEndpoint → WebhookDelivery → M (World P.client) WebhookDelivery
  attempt T endpoint delivery =
      finalize delivery.id
        (rounds T endpoint delivery P.config.max_attempts 0 delivery.attempts none none) T.finished

  -- A new delivery, with the id and the time that `createAndDeliver` is supplied with.
  abbrev pub new_delivery :
      String → WebhookEndpoint → WebhookEventType → String → ℕ → PaymentIntent → WebhookDelivery
  new_delivery id endpoint type event_id now intent = record {
    id = id;
    endpoint_id = endpoint.id;
    event_type = type;
    event_id = event_id;
    payload = C.body event_id type now intent;
    status = delivery_pending;
    attempts = 0;
    response_status = none;
    error = none;
    last_attempt_at = none;
    created_at = now;
  }

  unfoldable pub create_and_deliver :
      Transport
      → String
      → ℕ
      → WebhookEndpoint
      → WebhookEventType
      → String
      → PaymentIntent
      → M (World P.client) (Unit {0})
  create_and_deliver T id now endpoint type event_id intent w =
      let delivery : WebhookDelivery = new_delivery id endpoint type event_id now intent in
      elim (P.client.webhook_delivery.create delivery w.deliveries) [
        | none ↦ fail unique_error w
        | some t ↦ (attempt T endpoint delivery >>= λ row. pure tt) (record w { deliveries = t })
      ]

  -- `Promise.all(targets.map(…))`, in the order of the targets. One that fails stops no other.
  unfoldable pub deliver_all :
      (WebhookEndpoint → Transport)
      → (WebhookEndpoint → String)
      → ℕ
      → WebhookEventType
      → String
      → PaymentIntent
      → List WebhookEndpoint
      → World P.client
      → World P.client
  deliver_all T id now type event_id intent [] w = w
  deliver_all T id now type event_id intent (endpoint ∷ rest) w =
      deliver_all T id now type event_id intent rest
        (world (create_and_deliver (T endpoint) (id endpoint) now endpoint type event_id intent w))

  -- `eventId` is `evt_` and the UUID that is drawn.
  unfoldable pub handle_event :
      (WebhookEndpoint → Transport)
      → (WebhookEndpoint → String)
      → ℕ
      → String
      → WebhookEvent
      → World P.client
      → World P.client
  handle_event T id now uuid event w =
      deliver_all T id now event.type ("evt_" <> uuid) event.payload (targets P w event) w

  unfoldable pub redeliver : Transport → WebhookDelivery → M (World P.client) WebhookDelivery
  redeliver T delivery w = elim (P.client.webhook_endpoint.get delivery.endpoint_id w.endpoints) [
    | none ↦ fail (unexpected ("Endpoint " <> (delivery.endpoint_id <> " no longer exists"))) w
    | some endpoint ↦ attempt T endpoint delivery w
  ]

  abbrev pub ping_post : WebhookEndpoint → String → ℕ → Post
  ping_post endpoint uuid milliseconds =
      let body : String = C.ping_body ("evt_ping_" <> uuid) milliseconds in
      record {
        url = endpoint.url;
        headers =
            ("content-type", "application/json")
            ∷ ("user-agent", "CosmosPay-Webhooks/1.0")
            ∷ (
              P.config.signature_header,
              build_signature_header C.hmac_sha256 endpoint.secret body (milliseconds / 1000),
            )
            ∷ ("x-cosmos-event", "ping")
            ∷ [];
        body = body;
      }

  unfoldable pub ping_endpoint : Transport → String → WebhookEndpoint → PingResult
  ping_endpoint T uuid endpoint = elim (T.fetch 0 (ping_post endpoint uuid (T.clock 0))) [
    | answered status ↦ record { ok = is_ok status; response_status = some status; error = none }
    | errored reason ↦ record { ok = false; response_status = none; error = some reason }
  ]
