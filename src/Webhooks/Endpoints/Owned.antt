-- ===== src/Webhooks/Endpoints/Owned.antt =====
-- Requests of one consumer for the endpoints of another.
use comos_pay_community_serv.Base.{String, false, none, some, ◌≡◌, ◌⊎◌, refl, fail, ◌>>=◌}
use comos_pay_community_serv.Prisma.Schema.{WebhookEndpoint, no_clash}
use comos_pay_community_serv.Prisma.Client.{IsLawfulClient, endpoint_key}
use comos_pay_community_serv.Platform.{Platform, World, owned_by}
use comos_pay_community_serv.Webhooks.Dispatcher.{Transport, Codec}
use comos_pay_community_serv.Webhooks.Endpoints.{
  UpdateWebhookEndpointDto, QueryDeliveriesDto, endpoint_not_found, get_owned, find_one, update,
  remove, rotate_secret, list_deliveries, redeliver_owned, ping,
}
use comos_pay_community_serv.Prisma.Scoped.{scoped_none}

module _ (P : Platform) (C : Codec) (law : IsLawfulClient P.client) where
  get_owned-foreign :
      (username id : String) (w : World P.client)
      → (P.client.webhook_endpoint.get id w.endpoints ≡ none)
        ⊎ ((e : WebhookEndpoint) × (P.client.webhook_endpoint.get id w.endpoints ≡ some e)
            × (owned_by P.client w username e.consumer_id ≡ false))
      → get_owned P username id w ≡ fail (endpoint_not_found id) w
  unfolding get_owned
  get_owned-foreign username id w h =
      rw
        (scoped_none endpoint_key no_clash P.client.webhook_endpoint law.webhook_endpoint
          (λ e. owned_by P.client w username e.consumer_id) id w.endpoints h)
        refl

  -- Of an endpoint that is not there or is another consumer's, every operation answers 404, and
  -- changes nothing.
  pub foreign_endpoint_refused :
      (T : Transport) (username id random uuid delivery_id : String)
      (dto : UpdateWebhookEndpointDto) (query : QueryDeliveriesDto) (w : World P.client)
      → (P.client.webhook_endpoint.get id w.endpoints ≡ none)
        ⊎ ((e : WebhookEndpoint) × (P.client.webhook_endpoint.get id w.endpoints ≡ some e)
            × (owned_by P.client w username e.consumer_id ≡ false))
      → (find_one P username id w ≡ fail (endpoint_not_found id) w)
        × (update P username id dto w ≡ fail (endpoint_not_found id) w)
        × (remove P username id w ≡ fail (endpoint_not_found id) w)
        × (rotate_secret P username id random w ≡ fail (endpoint_not_found id) w)
        × (list_deliveries P username id query w ≡ fail (endpoint_not_found id) w)
        × (redeliver_owned P C T username id delivery_id w ≡ fail (endpoint_not_found id) w)
        × (ping P C T uuid username id w ≡ fail (endpoint_not_found id) w)
  unfolding find_one update remove rotate_secret list_deliveries redeliver_owned ping
  foreign_endpoint_refused T username id random uuid delivery_id dto query w h =
      let e : get_owned P username id w ≡ fail (endpoint_not_found id) w =
        get_owned-foreign username id w h in
      (
        rw (e, ◌>>=◌) refl,
        rw (e, ◌>>=◌) refl,
        rw (e, ◌>>=◌) refl,
        rw (e, ◌>>=◌) refl,
        rw (e, ◌>>=◌) refl,
        rw (e, ◌>>=◌) refl,
        rw (e, ◌>>=◌) refl,
      )
