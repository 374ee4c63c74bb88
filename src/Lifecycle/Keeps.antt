-- ===== src/Lifecycle/Keeps.antt =====
-- The methods of the services that write no payment intent: those of the webhooks, the customers
-- and the products.
pub mod Handlers
use comos_pay_community_serv.Lifecycle.Evolves.{Keeps, Keeps-bind}
use comos_pay_community_serv.Webhooks.Dispatcher.{
  Attempted, Codec, Transport, attempt, create_and_deliver, deliver_all, finalize, handle_event,
  new_delivery, redeliver, targets,
}
use comos_pay_community_serv.Gateway.Consumer.{GatewayConsumer}
use comos_pay_community_serv.Http.ReadOnly.{
  IsMirror, IsReader, MirrorsIn-rest, resolve_consumer-IsMirror,
}
use comos_pay_community_serv.Base.{
  world, [], List, M, Option-cases, String, ap, arith, inl, inr, pure, refl, ℕ, ◌<>◌, ◌>>=◌, ◌>>◌,
  ◌∙◌, ◌∷◌, ◌≡◌,
}
use comos_pay_community_serv.Prisma.Schema.{
  PaymentIntent, WebhookDelivery, WebhookEndpoint, WebhookEventType,
}
use comos_pay_community_serv.Platform.{Platform, Supply, WebhookEvent, World, resolve_consumer}
use comos_pay_community_serv.Webhooks.Endpoints.{
  create, delete_endpoint, insert_endpoint, update_endpoint,
}
use comos_pay_community_serv.Prisma.Memory.{get}

module _ (P : Platform) where
  pub IsMirror-Keeps :
      {A : Type 0} (c : GatewayConsumer) (m : M (World P.client) A) → IsMirror P c m → Keeps P m
  IsMirror-Keeps c m h w =
      ap (λ (x : World P.client). x.intents) (MirrorsIn-rest P c w (world (m w)) (h w))

  pub IsReader-Keeps : {A : Type 0} (m : M (World P.client) A) → IsReader m → Keeps P m
  IsReader-Keeps m h w = ap (λ (x : World P.client). x.intents) (h w)

  pub pure-Keeps : {A : Type 0} (a : A) → Keeps P (pure a)
  pure-Keeps a w = refl

  pub mapped :
      {A B : Type 0} (m : M (World P.client) A) (g : A → B)
      → Keeps P m
      → Keeps P (m >>= λ a. pure (g a))
  mapped m g k = Keeps-bind P m (λ a. pure (g a)) k (λ a w. refl)

  pub resolve_consumer-Keeps :
      (s : Supply) (c : GatewayConsumer) → Keeps P (resolve_consumer P.client s c)
  resolve_consumer-Keeps s c =
      IsMirror-Keeps c (resolve_consumer P.client s c) (resolve_consumer-IsMirror P c s)

module _ (P : Platform) where
  pub update_endpoint-Keeps :
      (id : String) (f : WebhookEndpoint → WebhookEndpoint) → Keeps P (update_endpoint P id f)
  unfolding update_endpoint
  update_endpoint-Keeps id f w = ground arith

  pub insert_endpoint-Keeps : (e : WebhookEndpoint) → Keeps P (insert_endpoint P e)
  unfolding insert_endpoint
  insert_endpoint-Keeps e w = ground arith

  pub delete_endpoint-Keeps : (id : String) → Keeps P (delete_endpoint P id)
  unfolding delete_endpoint
  delete_endpoint-Keeps id w = ground arith

  finalize-Keeps :
      (C : Codec) (id : String) (a : Attempted) (now : ℕ) → Keeps P (finalize P C id a now)
  unfolding finalize
  finalize-Keeps C id a now w = ground arith

  attempt-Keeps :
      (C : Codec) (T : Transport) (e : WebhookEndpoint) (d : WebhookDelivery)
      → Keeps P (attempt P C T e d)
  unfolding attempt
  attempt-Keeps C T e d = finalize-Keeps C d.id _ T.finished

  pub redeliver-Keeps :
      (C : Codec) (T : Transport) (d : WebhookDelivery) → Keeps P (redeliver P C T d)
  unfolding redeliver
  redeliver-Keeps C T d w =
      elim (Option-cases (P.client.webhook_endpoint.get d.endpoint_id w.endpoints)) [
        | inl e ↦ rw (e, redeliver) refl
        | inr (endpoint, e) ↦ rw (e, redeliver) (attempt-Keeps C T endpoint d w)
      ]

  create_and_deliver-Keeps :
      (C : Codec) (T : Transport) (id : String) (now : ℕ) (endpoint : WebhookEndpoint)
      (type : WebhookEventType) (event_id : String) (intent : PaymentIntent)
      → Keeps P (create_and_deliver P C T id now endpoint type event_id intent)
  unfolding create_and_deliver
  create_and_deliver-Keeps C T id now endpoint type event_id intent w =
      let d : WebhookDelivery = new_delivery P C id endpoint type event_id now intent in
      elim (Option-cases (P.client.webhook_delivery.create d w.deliveries)) [
        | inl e ↦ rw (e, create_and_deliver) refl
        | inr (t, e) ↦
            rw (e, create_and_deliver)
              (mapped P (attempt P C T endpoint d) (λ row. tt) (attempt-Keeps C T endpoint d)
                (record w { deliveries = t }))
      ]

  deliver_all-intents :
      (C : Codec) (T : WebhookEndpoint → Transport) (id : WebhookEndpoint → String) (now : ℕ)
      (type : WebhookEventType) (event_id : String) (intent : PaymentIntent)
      (es : List WebhookEndpoint) (w : World P.client)
      → (deliver_all P C T id now type event_id intent es w).intents ≡ w.intents
  unfolding deliver_all
  deliver_all-intents C T id now type event_id intent [] w = refl
  deliver_all-intents C T id now type event_id intent (e ∷ es) w =
      deliver_all-intents C T id now type event_id intent es _
      ∙ create_and_deliver-Keeps C (T e) (id e) now e type event_id intent w

  pub handle_event-intents :
      (C : Codec) (T : WebhookEndpoint → Transport) (id : WebhookEndpoint → String) (now : ℕ)
      (uuid : String) (event : WebhookEvent) (w : World P.client)
      → (handle_event P C T id now uuid event w).intents ≡ w.intents
  unfolding handle_event
  handle_event-intents C T id now uuid event w =
      deliver_all-intents C T id now event.type ("evt_" <> uuid) event.payload (targets P w event) w
