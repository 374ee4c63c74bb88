-- ===== src/Lifecycle/Keeps/Handlers.antt =====
-- The handlers of the webhooks, the customers, the products and the analytics write no intent.
use comos_pay_community_serv.Http.Hooks.{WebhookCall, handle_webhook}
use comos_pay_community_serv.Lifecycle.Evolves.{Keeps, Keeps-bind}
use comos_pay_community_serv.Http.Dashboard.{AnalyticsCall}
use comos_pay_community_serv.Http.Answer.{Answer}
use comos_pay_community_serv.Http.Calls.{Call, handle, route_of}
use comos_pay_community_serv.Prisma.Schema.{Customer, Product, WebhookEndpoint}
use comos_pay_community_serv.Http.Catalog.{
  CustomerCall, ProductCall, handle_customer, handle_product,
}
use comos_pay_community_serv.Http.{Draws, Edge}
use comos_pay_community_serv.Gateway.Consumer.{GatewayConsumer}
use comos_pay_community_serv.Lifecycle.Keeps.{
  IsMirror-Keeps, IsReader-Keeps, delete_endpoint-Keeps, insert_endpoint-Keeps, mapped,
  redeliver-Keeps, resolve_consumer-Keeps, update_endpoint-Keeps,
}
use comos_pay_community_serv.Http.ReadOnly.{
  IsReader-or_throw, customer-IsMirror, get_owned-IsReader, product-IsMirror,
}
use comos_pay_community_serv.Base.{
  Bool-cases, M, String, arith, false, inl, inr, refl, ◌&&◌, ◌==◌, ◌>>=◌, ◌≡◌,
}
use comos_pay_community_serv.Platform.{Platform, World, resolve_consumer}
use comos_pay_community_serv.Webhooks.Endpoints.{
  create, delete_endpoint, delivery_not_found, endpoint_patch, find_delivery, get_owned, ping,
  redeliver_owned, rotate_secret, strip, update_endpoint,
}
use comos_pay_community_serv.Customers.{delete_customer, insert_customer, update_customer}
use comos_pay_community_serv.Products.{
  delete_product, insert_product, update_product, clears_required, product_patch,
}
use comos_pay_community_serv.Http.ReadOnly.Handlers.{handle-IsMirror, writes}
use comos_pay_community_serv.Customers
use comos_pay_community_serv.Products
use comos_pay_community_serv.Webhooks.Endpoints

module _ (P : Platform) where
  find_delivery-Keeps :
      (endpoint_id id : String) → Keeps P (Endpoints.find_delivery P endpoint_id id)
  unfolding Endpoints.find_delivery
  find_delivery-Keeps endpoint_id id =
      IsReader-Keeps P (Endpoints.find_delivery P endpoint_id id) λ w.
        IsReader-or_throw
          (P.client.webhook_delivery.find_first (λ d. d.id == id && d.endpoint_id == endpoint_id)
            w.deliveries)
          (Endpoints.delivery_not_found id) w

  insert_customer-Keeps : (c : Customer) → Keeps P (Customers.insert_customer P c)
  unfolding Customers.insert_customer
  insert_customer-Keeps c w = ground arith

  update_customer-Keeps :
      (id : String) (f : Customer → Customer) → Keeps P (Customers.update_customer P id f)
  unfolding Customers.update_customer
  update_customer-Keeps id f w = ground arith

  delete_customer-Keeps : (id : String) → Keeps P (Customers.delete_customer P id)
  unfolding Customers.delete_customer
  delete_customer-Keeps id w = ground arith

  insert_product-Keeps : (p : Product) → Keeps P (Products.insert_product P p)
  unfolding Products.insert_product
  insert_product-Keeps p w = ground arith

  update_product-Keeps :
      (id : String) (f : Product → Product) → Keeps P (Products.update_product P id f)
  unfolding Products.update_product
  update_product-Keeps id f w = ground arith

  delete_product-Keeps : (id : String) → Keeps P (Products.delete_product P id)
  unfolding Products.delete_product
  delete_product-Keeps id w = ground arith

module _ (P : Platform) (E : Edge) (r : Draws) (c : GatewayConsumer) where
  -- A call whose route requires no write scope.
  pub read-Keeps : (call : Call) → writes call ≡ false → Keeps P (handle P E r c call)
  read-Keeps call h = IsMirror-Keeps P c (handle P E r c call) (handle-IsMirror P E r c call h)

module _ (P : Platform) (E : Edge) (r : Draws) (c : GatewayConsumer) where
  -- An endpoint is looked up, and `rest` writes no intent.
  owned-Keeps :
      {A : Type 0} (id : String) (rest : WebhookEndpoint → M (World P.client) A)
      → ((e : WebhookEndpoint) → Keeps P (rest e))
      → Keeps P (Endpoints.get_owned P c.username id >>= rest)
  owned-Keeps id rest =
      Keeps-bind P (Endpoints.get_owned P c.username id) rest (
        IsReader-Keeps P (Endpoints.get_owned P c.username id) (get_owned-IsReader P c.username id))

  pub webhooks-Keeps : (call : WebhookCall) → Keeps P (handle P E r c (Call.webhooks call))
  unfolding handle handle_webhook route_of Endpoints.create Endpoints.update Endpoints.remove
      Endpoints.rotate_secret Endpoints.redeliver_owned Endpoints.ping
  webhooks-Keeps (WebhookCall.post dto) =
      mapped P (Endpoints.create P r.supply r.random c dto) Answer.endpoint_with_secret (
        Keeps-bind P (resolve_consumer P.client r.supply c) _ (resolve_consumer-Keeps P r.supply c)
          λ local. insert_endpoint-Keeps P _)
  webhooks-Keeps WebhookCall.get_all = read-Keeps P E r c (Call.webhooks WebhookCall.get_all) refl
  webhooks-Keeps (WebhookCall.get_one id) =
      read-Keeps P E r c (Call.webhooks (WebhookCall.get_one id)) refl
  webhooks-Keeps (WebhookCall.patch id dto) =
      mapped P (Endpoints.update P c.username id dto) Answer.endpoint (
        owned-Keeps id _ λ e.
          mapped P (Endpoints.update_endpoint P id (Endpoints.endpoint_patch dto)) Endpoints.strip
            (update_endpoint-Keeps P id (Endpoints.endpoint_patch dto)))
  webhooks-Keeps (WebhookCall.delete id) =
      mapped P (Endpoints.remove P c.username id) Answer.deleted (
        owned-Keeps id _
          λ e. mapped P (Endpoints.delete_endpoint P id) (λ gone. id) (delete_endpoint-Keeps P id))
  webhooks-Keeps (WebhookCall.post_rotate_secret id) =
      mapped P (Endpoints.rotate_secret P c.username id r.random) Answer.endpoint_with_secret
        (owned-Keeps id _ λ e. update_endpoint-Keeps P id _)
  webhooks-Keeps (WebhookCall.post_ping id) =
      mapped P (Endpoints.ping P E.codec r.transport r.uuid c.username id) Answer.pinged
        (owned-Keeps id _ λ e w. refl)
  webhooks-Keeps (WebhookCall.get_deliveries id query) =
      read-Keeps P E r c (Call.webhooks (WebhookCall.get_deliveries id query)) refl
  webhooks-Keeps (WebhookCall.post_redeliver id delivery_id) =
      mapped P (Endpoints.redeliver_owned P E.codec r.transport c.username id delivery_id)
        Answer.delivery
        (owned-Keeps id _ λ e.
          Keeps-bind P (Endpoints.find_delivery P id delivery_id) _
            (find_delivery-Keeps P id delivery_id) λ d. redeliver-Keeps P E.codec r.transport d)

module _ (P : Platform) (E : Edge) (r : Draws) (c : GatewayConsumer) where
  customer-Keeps : (id : String) → Keeps P (Customers.find_one P r.supply c id)
  customer-Keeps id =
      IsMirror-Keeps P c (Customers.find_one P r.supply c id) (customer-IsMirror P E r.supply c id)

  product-Keeps : (id : String) → Keeps P (Products.find_one P r.supply c id)
  product-Keeps id =
      IsMirror-Keeps P c (Products.find_one P r.supply c id) (product-IsMirror P E r.supply c id)

  pub customers-Keeps : (call : CustomerCall) → Keeps P (handle P E r c (Call.customers call))
  unfolding handle handle_customer route_of Customers.create Customers.update Customers.remove
  customers-Keeps (CustomerCall.post dto) =
      mapped P (Customers.create P r.supply c dto) Answer.customer (
        Keeps-bind P (resolve_consumer P.client r.supply c) _ (resolve_consumer-Keeps P r.supply c)
          λ local. insert_customer-Keeps P _)
  customers-Keeps CustomerCall.get_all =
      read-Keeps P E r c (Call.customers CustomerCall.get_all) refl
  customers-Keeps (CustomerCall.get_one id) =
      read-Keeps P E r c (Call.customers (CustomerCall.get_one id)) refl
  customers-Keeps (CustomerCall.patch id dto) =
      mapped P (Customers.update P r.supply c id dto) Answer.customer (
        Keeps-bind P (Customers.find_one P r.supply c id) _ (customer-Keeps id)
          λ owned. update_customer-Keeps P id _)
  customers-Keeps (CustomerCall.delete id) =
      mapped P (Customers.remove P r.supply c id) Answer.deleted (
        Keeps-bind P (Customers.find_one P r.supply c id) _ (customer-Keeps id) λ owned.
          mapped P (Customers.delete_customer P id) (λ gone. id) (delete_customer-Keeps P id))

  pub products-Keeps : (call : ProductCall) → Keeps P (handle P E r c (Call.products call))
  unfolding handle handle_product route_of Products.create Products.update Products.remove
  products-Keeps (ProductCall.post dto) =
      mapped P (Products.create P r.supply c dto) Answer.product (
        Keeps-bind P (resolve_consumer P.client r.supply c) _ (resolve_consumer-Keeps P r.supply c)
          λ local. insert_product-Keeps P _)
  products-Keeps ProductCall.get_all = read-Keeps P E r c (Call.products ProductCall.get_all) refl
  products-Keeps (ProductCall.get_one id) =
      read-Keeps P E r c (Call.products (ProductCall.get_one id)) refl
  products-Keeps (ProductCall.patch id dto) =
      mapped P (Products.update P r.supply c id dto) Answer.product (
        Keeps-bind P (Products.find_one P r.supply c id) _ (product-Keeps id) λ owned w.
          elim (Bool-cases (clears_required dto)) [
            | inl nulls ↦ rw nulls refl
            | inr allowed ↦ rw allowed (update_product-Keeps P id (product_patch dto) w)
          ])
  products-Keeps (ProductCall.delete id) =
      mapped P (Products.remove P r.supply c id) Answer.deleted (
        Keeps-bind P (Products.find_one P r.supply c id) _ (product-Keeps id)
          λ owned. mapped P (Products.delete_product P id) (λ gone. id) (delete_product-Keeps P id))

  pub analytics-Keeps : (call : AnalyticsCall) → Keeps P (handle P E r c (Call.analytics call))
  unfolding route_of
  analytics-Keeps AnalyticsCall.get_summary =
      read-Keeps P E r c (Call.analytics AnalyticsCall.get_summary) refl
  analytics-Keeps AnalyticsCall.get_balances =
      read-Keeps P E r c (Call.analytics AnalyticsCall.get_balances) refl
  analytics-Keeps AnalyticsCall.get_logs =
      read-Keeps P E r c (Call.analytics AnalyticsCall.get_logs) refl
  analytics-Keeps AnalyticsCall.get_webhook_logs =
      read-Keeps P E r c (Call.analytics AnalyticsCall.get_webhook_logs) refl
