-- ===== src/Lifecycle/Refines.antt =====
-- Every event of the service is a step of the state machine.
use comos_pay_community_serv.Lifecycle.{Changes, Life}
use comos_pay_community_serv.Lifecycle.Evolves.{
  Lives, Evolves, Evolves-before, Keeps-Evolves, Lives-kept,
}
use comos_pay_community_serv.Http.Payments.{PaymentIntentCall, handle_payment_intent}
use comos_pay_community_serv.Http.AccessLog.{persist, RequestInfo}
use comos_pay_community_serv.Observer.Cycle.{Step, cycle-Moves}
use comos_pay_community_serv.Http.Answer.{Answer}
use comos_pay_community_serv.Base.{
  Bool, Option, Option-cases, Outcome, Run, String, arith, done, fail, inl, inr, none, raised, refl,
  some, subst, sym, value, world, ℕ, ◌≡◌, ap, ◌∙◌,
}
use comos_pay_community_serv.Http.Calls.{Call, handle, route_of}
use comos_pay_community_serv.Http.{Draws, Edge}
use comos_pay_community_serv.Gateway.Consumer.{GatewayConsumer}
use comos_pay_community_serv.Http.Dashboard.{HealthCall, health_route, handle_health}
use comos_pay_community_serv.Prisma.Client.{IsLawfulClient}
use comos_pay_community_serv.Prisma.Schema.{PaymentIntent, pending}
use comos_pay_community_serv.Platform.{Platform, Supply, World}
use comos_pay_community_serv.Intents.Manage.{UpdatePaymentIntentDto, remove, update}
use comos_pay_community_serv.Lifecycle.Keeps.Handlers.{
  analytics-Keeps, customers-Keeps, products-Keeps, read-Keeps, webhooks-Keeps,
}
use comos_pay_community_serv.Gateway.Guards.{apisix_guard, enter, permissions_guard}
use comos_pay_community_serv.Gateway.Context.{attach}
use comos_pay_community_serv.Intents.Create.{create_pay, create_tx}
use comos_pay_community_serv.Lifecycle.Creation.{create_pay-Evolves, create_tx-Evolves}
use comos_pay_community_serv.Observer.{cycle}
use comos_pay_community_serv.Intents.Settle.Marks.{event}
use comos_pay_community_serv.Http.Server.{
  finish, serve, serve_health, Response, failure, respond_error, run_of, username_of,
}
use comos_pay_community_serv.Lifecycle.Keeps.{handle_event-intents}
use comos_pay_community_serv.Lifecycle.Writing.{remove-Evolves, update-Evolves, validate-Evolves}
use comos_pay_community_serv.Intents.Settle.{validate}
use comos_pay_community_serv.Lifecycle.Events.{
  SystemEvent, request, probe, tick, dispatch, edit_of, edit_of_call, after,
}
use comos_pay_community_serv.Intents.Manage

module _ (P : Platform) (E : Edge) (law : IsLawfulClient P.client) where
  payments-Evolves :
      (r : Draws) (c : GatewayConsumer) (call : PaymentIntentCall)
      → Evolves P
          (edit_of_call (Call.payment_intents call))
          (handle P E r c (Call.payment_intents call))
  unfolding handle handle_payment_intent edit_of_call route_of
  payments-Evolves r c (PaymentIntentCall.post_tx dto) =
      Evolves-before P none (create_tx P r.supply c dto) _ (create_tx-Evolves P law r.supply c dto)
        (λ v w. refl)
  payments-Evolves r c (PaymentIntentCall.post_pay dto) =
      Evolves-before P none (create_pay P r.supply c dto) _
        (create_pay-Evolves P law r.supply c dto) (λ v w. refl)
  payments-Evolves r c (PaymentIntentCall.get_all query) =
      Keeps-Evolves P none (handle P E r c (Call.payment_intents (PaymentIntentCall.get_all query)))
        (read-Keeps P E r c (Call.payment_intents (PaymentIntentCall.get_all query)) refl)
  payments-Evolves r c (PaymentIntentCall.get_one id) =
      Keeps-Evolves P none (handle P E r c (Call.payment_intents (PaymentIntentCall.get_one id)))
        (read-Keeps P E r c (Call.payment_intents (PaymentIntentCall.get_one id)) refl)
  payments-Evolves r c (PaymentIntentCall.post_validate id hash) =
      Evolves-before P none (validate P r.supply c.username id hash) _
        (validate-Evolves P law r.supply c.username id hash) (λ v w. refl)
  payments-Evolves r c (PaymentIntentCall.patch id dto) =
      Evolves-before P (some dto) (Manage.update P c.username id dto) _
        (update-Evolves P law c.username id dto) (λ v w. refl)
  payments-Evolves r c (PaymentIntentCall.delete id) =
      Evolves-before P none (Manage.remove P c.username id) _ (remove-Evolves P law c.username id)
        (λ v w. refl)

  handle-Evolves :
      (r : Draws) (c : GatewayConsumer) (call : Call)
      → Evolves P (edit_of_call call) (handle P E r c call)
  unfolding edit_of_call
  handle-Evolves r c (Call.payment_intents call) = payments-Evolves r c call
  handle-Evolves r c (Call.webhooks call) =
      Keeps-Evolves P none (handle P E r c (Call.webhooks call)) (webhooks-Keeps P E r c call)
  handle-Evolves r c (Call.customers call) =
      Keeps-Evolves P none (handle P E r c (Call.customers call)) (customers-Keeps P E r c call)
  handle-Evolves r c (Call.products call) =
      Keeps-Evolves P none (handle P E r c (Call.products call)) (products-Keeps P E r c call)
  handle-Evolves r c (Call.analytics call) =
      Keeps-Evolves P none (handle P E r c (Call.analytics call)) (analytics-Keeps P E r c call)

module _ (P : Platform) (E : Edge) where
  persist-intents :
      (id : String) (now : ℕ) (q : RequestInfo) (status duration : ℕ) (username : Option String)
      (w : World P.client)
      → (persist P id now q status duration username w).intents ≡ w.intents
  unfolding persist
  persist-intents id now q status duration username w = ground arith

  finish-intents :
      (r : Draws) (q : RequestInfo) (username : Option String)
      (run : Run (World P.client) (Answer E.floats))
      → (finish P E r q username run).0.intents ≡ (world run).intents
  unfolding finish
  finish-intents r q username (done a w) = persist-intents r.log_id _ q _ r.duration_ms username w
  finish-intents r q username (fail e w) = persist-intents r.log_id _ q _ r.duration_ms username w

  world-run_of : (o : Outcome (Answer E.floats)) (w : World P.client) → world (run_of P E o w) ≡ w
  world-run_of (value a) w = refl
  world-run_of (raised e) w = refl

  -- A probe passes two guards or is refused, and its handler is given the world back.
  probed-intents :
      (r : Draws) (q : RequestInfo) (username : Option String) (first second : Outcome (Unit {0}))
      (o : Outcome (Answer E.floats)) (w : World P.client)
      → (elim first as (λ _. World P.client × Response E) [
        | raised e ↦ (w, failure (respond_error P E r q e))
        | value _ ↦ elim second as (λ _. World P.client × Response E) [
          | raised e ↦ (w, failure (respond_error P E r q e))
          | value _ ↦ finish P E r q username (run_of P E o w)
        ]
      ]).0.intents
        ≡ w.intents
  probed-intents r q username (raised e) second o w = refl
  probed-intents r q username (value u) (raised e) o w = refl
  probed-intents r q username (value u) (value v) o w =
      finish-intents r q username (run_of P E o w)
      ∙ ap (λ (x : World P.client). x.intents) (world-run_of o w)

  probe-intents :
      (r : Draws) (q : RequestInfo) (up : Bool) (call : HealthCall) (w : World P.client)
      → (serve_health P E r q up call w).0.intents ≡ w.intents
  unfolding serve_health
  probe-intents r q up call w =
      let c : Option GatewayConsumer = attach E.parse_json E.names q.headers in
      probed-intents r q (username_of P E c)
        (apisix_guard E.buffer E.gateway_secret E.names (health_route call) q.headers c)
        (permissions_guard (health_route call) c) (handle_health E up call) w

module _ (P : Platform) (E : Edge) (law : IsLawfulClient P.client) where
  serve-Lives :
      (r : Draws) (q : RequestInfo) (call : Call) (w : World P.client)
      → Lives P (edit_of_call call) w.intents (serve P E r q call w).0.intents
  unfolding serve
  serve-Lives r q call w =
      go (enter E.buffer E.gateway_secret E.names E.parse_json (route_of call) q.headers) refl
    where
      go :
          (o : Outcome GatewayConsumer)
          → enter E.buffer E.gateway_secret E.names E.parse_json (route_of call) q.headers ≡ o
          → Lives P (edit_of_call call) w.intents (serve P E r q call w).0.intents
      go (raised e) k = rw (k, serve) (Lives-kept P (edit_of_call call) w.intents w.intents refl)
      go (value c) k =
          rw (k, serve)
            (subst (Lives P (edit_of_call call) w.intents)
              (sym (finish-intents P E r q (some c.username) (handle P E r c call w)))
              (handle-Evolves P E law r c call w))

  Step-Changes :
      (now : ℕ) (q q' : PaymentIntent) → Step P now q q' → Changes P.horizon P.numbers none q q'
  Step-Changes now q q' (Step.stays e) = Changes.unchanged e
  Step-Changes now q q' (Step.expires (open_, t) e) = Changes.expires open_ e
  Step-Changes now q q' (Step.settles d) =
      let was : q.status ≡ pending = d.was_pending in
      Changes.settles d.hash d.payer d.payer_source (λ paid. absurd (ground arith)) d.is_settled
        d.keeps_source d.new

  tick-Lives :
      (now : ℕ) (supply : String → Supply) (w : World P.client)
      → Lives P none w.intents (world (cycle P now supply w)).intents
  unfolding Life
  tick-Lives now supply w j =
      let m = cycle-Moves P law now supply w in
      elim (Option-cases (P.client.payment_intent.get j w.intents)) [
        | inl e ↦ rw (e, m.absent j e) tt
        | inr (q, e) ↦ let (q', e', s) = m.rows j q e in rw (e, e') (Step-Changes now q q' s)
      ]

  -- The service refines the state machine of an intent: whatever request or probe is served,
  -- whichever cycle the observer runs or event the dispatcher handles, the row under every id lives
  -- as the machine allows. It stays absent or becomes a new PENDING intent; it is unchanged; it
  -- becomes SUCCEEDED, if it was not and a transaction settles it on the chain, by a payment that
  -- Horizon lists under it or among the newest to the destination; it becomes FAILED,
  -- if it was not SUCCEEDED and a transaction failed on the chain; it expires, if it was open; it is
  -- edited by the body of the PATCH that the event is; or it is removed, if it was not SUCCEEDED.
  pub after-Life :
      (e : SystemEvent) (w : World P.client) (id : String)
      → Life P.horizon P.numbers
          (edit_of e)
          (P.client.payment_intent.get id w.intents)
          (P.client.payment_intent.get id (after P E e w).intents)
  unfolding after edit_of
  after-Life (request r q call) w id = serve-Lives r q call w id
  after-Life (probe r q up call) w id =
      Lives-kept P none w.intents _ (probe-intents P E r q up call w) id
  after-Life (tick now supply) w id = tick-Lives now supply w id
  after-Life (dispatch T draw now uuid event) w id =
      Lives-kept P none w.intents _ (handle_event-intents P E.codec T draw now uuid event w) id
