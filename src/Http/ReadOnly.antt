-- ===== src/Http/ReadOnly.antt =====
-- The operations of the services that only read: what they leave of the world.
pub mod Handlers
use comos_pay_community_serv.Base.{
  ℕ, String, Bool, true, false, Option, none, some, List, [], ◌∷◌, ◌≡◌, ◌⊎◌, inl, inr, refl, sym,
  ap, subst, ◌∙◌, arith, ◌||◌, any, includes, M, Run, done, fail, pure, world, or_throw, Exception,
  unexpected, ◌&&◌, ◌>>=◌, ◌==◌,
}
use comos_pay_community_serv.Prisma.Schema.{Consumer, WebhookEndpoint}
use comos_pay_community_serv.Prisma.Table.{Write, written, missing, conflict}
use comos_pay_community_serv.Gateway.Consumer.{GatewayConsumer}
use comos_pay_community_serv.Gateway.Guards.{required}
use comos_pay_community_serv.Platform.{Platform, World, Supply, resolve_consumer, owned_by}
use comos_pay_community_serv.Intents.Store.{load_owned, with_qr, find_owned, intent_not_found}
use comos_pay_community_serv.Intents.Manage
use comos_pay_community_serv.Webhooks.Endpoints
use comos_pay_community_serv.Webhooks.Endpoints.{get_owned, page_of_deliveries, endpoint_not_found}
use comos_pay_community_serv.Http.Answer.{Answer}
use comos_pay_community_serv.Customers
use comos_pay_community_serv.Products
use comos_pay_community_serv.Analytics.Summary
use comos_pay_community_serv.Analytics.Balances
use comos_pay_community_serv.Analytics.Logs
use comos_pay_community_serv.Http.{Edge, Draws}
use comos_pay_community_serv.Http.Payments.{PaymentIntentCall, handle_payment_intent}
use comos_pay_community_serv.Http.Hooks.{WebhookCall, handle_webhook}
use comos_pay_community_serv.Http.Catalog.{
  CustomerCall, handle_customer, ProductCall, handle_product,
}
use comos_pay_community_serv.Http.Dashboard.{AnalyticsCall, handle_analytics}
use comos_pay_community_serv.Http.Calls.{
  Call, payment_intents, webhooks, customers, products, analytics, route_of, handle,
}

module _ {W : Type 0} where
  abbrev pub IsReader : {A : Type 0} → M W A → Type 0
  IsReader m = (w : W) → world (m w) ≡ w

  pub IsReader-bind :
      {A B : Type 0} (m : M W A) (f : A → M W B)
      → IsReader m
      → ((a : A) → IsReader (f a))
      → IsReader (m >>= f)
  IsReader-bind {A} {B} m f r k w = go (m w) refl
    where
      go : (o : Run W A) → m w ≡ o → world ((m >>= f) w) ≡ w
      go (done a v) e = let same : v ≡ w = ap world (sym e) ∙ r w in rw (e, ◌>>=◌) (k a v ∙ same)
      go (fail x v) e = let same : v ≡ w = ap world (sym e) ∙ r w in rw (e, ◌>>=◌) same

  pub IsReader-or_throw : {A : Type 0} (o : Option A) (e : Exception) → IsReader (or_throw o e)
  IsReader-or_throw none e w = refl
  IsReader-or_throw (some a) e w = refl

module _ (P : Platform) (c : GatewayConsumer) where
  -- The world is as it was, or as resolving the consumer of the request leaves it.
  abbrev pub MirrorsIn : World P.client → World P.client → Type 0
  MirrorsIn w w' = (w' ≡ w) ⊎ ((s : Supply) × (w' ≡ world (resolve_consumer P.client s c w)))

  abbrev pub IsMirror : {A : Type 0} → M (World P.client) A → Type 0
  IsMirror m = (w : World P.client) → MirrorsIn w (world (m w))

  -- Only the table of the consumers may differ.
  pub MirrorsIn-rest :
      (w w' : World P.client) → MirrorsIn w w' → w' ≡ record w { consumers = w'.consumers }
  unfolding resolve_consumer
  MirrorsIn-rest w w' (inl e) =
      e ∙ ap (λ (x : World P.client). record w { consumers = x.consumers }) (sym e)
  MirrorsIn-rest w w' (inr (s, e)) =
      e ∙ kept ∙ ap (λ (x : World P.client). record w { consumers = x.consumers }) (sym e)
    where
      kept :
          world (resolve_consumer P.client s c w)
          ≡ record w { consumers = (world (resolve_consumer P.client s c w)).consumers }
      kept = ground arith

  pub IsReader-IsMirror : {A : Type 0} (m : M (World P.client) A) → IsReader m → IsMirror m
  IsReader-IsMirror m r w = inl (r w)

  pub IsMirror-bind :
      {A B : Type 0} (m : M (World P.client) A) (f : A → M (World P.client) B)
      → IsMirror m
      → ((a : A) → IsReader (f a))
      → IsMirror (m >>= f)
  IsMirror-bind {A} {B} m f r k w = go (m w) refl
    where
      go : (o : Run (World P.client) A) → m w ≡ o → MirrorsIn w (world ((m >>= f) w))
      go (done a v) e =
          let same : MirrorsIn w v = subst (λ x. MirrorsIn w (world x)) e (r w) in
          rw (e, ◌>>=◌) (subst (MirrorsIn w) (sym (k a v)) same)
      go (fail x v) e =
          let same : MirrorsIn w v = subst (λ x. MirrorsIn w (world x)) e (r w) in
          rw (e, ◌>>=◌) same

  pub resolve_consumer-IsMirror : (s : Supply) → IsMirror (resolve_consumer P.client s c)
  resolve_consumer-IsMirror s w = inr (s, refl)

  pub IsMirror-pure :
      {A B : Type 0} (m : M (World P.client) A) (g : A → B)
      → IsMirror m
      → IsMirror (m >>= λ a. pure (g a))
  IsMirror-pure m g r = IsMirror-bind m (λ a. pure (g a)) r (λ a w. refl)

  pub reading :
      {A B : Type 0} (m : M (World P.client) A) (g : A → B)
      → IsReader m
      → IsMirror (m >>= λ a. pure (g a))
  reading m g r = IsMirror-pure m g (IsReader-IsMirror m r)

  pub resolving :
      {A : Type 0} (s : Supply) (f : Consumer → M (World P.client) A)
      → ((local : Consumer) → IsReader (f local))
      → IsMirror (resolve_consumer P.client s c >>= f)
  resolving s f = IsMirror-bind (resolve_consumer P.client s c) f (resolve_consumer-IsMirror s)

module _ (P : Platform) where
  pub load_owned-IsReader : (username id : String) → IsReader (load_owned P username id)
  unfolding load_owned
  load_owned-IsReader username id w =
      IsReader-or_throw
        (P.client.payment_intent.find_first
          (λ r. r.id == id && owned_by P.client w username r.consumer_id) w.intents)
        (intent_not_found id) w

  pub intent-IsReader : (username id : String) → IsReader (Manage.find_one P username id)
  unfolding Manage.find_one with_qr
  intent-IsReader username id =
      IsReader-bind (load_owned P username id) (with_qr P) (load_owned-IsReader username id)
        (λ intent.
          IsReader-bind (or_throw (P.qr intent.uri) (unexpected "QR code generation failed"))
            (λ code. pure (record { intent = intent; qr = code }))
            (IsReader-or_throw (P.qr intent.uri) (unexpected "QR code generation failed"))
            (λ code w. refl))

  pub get_owned-IsReader : (username id : String) → IsReader (get_owned P username id)
  unfolding get_owned
  get_owned-IsReader username id w =
      IsReader-or_throw
        (P.client.webhook_endpoint.find_first
          (λ e. e.id == id && owned_by P.client w username e.consumer_id) w.endpoints)
        (endpoint_not_found id) w

module _ (P : Platform) where
  pub intents-IsReader :
      (username : String) (query : Manage.QueryPaymentIntentsDto)
      → IsReader (Manage.find_all P username query)
  unfolding Manage.find_all
  intents-IsReader username query w = refl

  pub endpoints-IsReader : (username : String) → IsReader (Endpoints.find_all P username)
  unfolding Endpoints.find_all
  endpoints-IsReader username w = refl

  pub endpoint-IsReader : (username id : String) → IsReader (Endpoints.find_one P username id)
  unfolding Endpoints.find_one
  endpoint-IsReader username id =
      IsReader-bind (get_owned P username id) (λ e. pure (Endpoints.strip e))
        (get_owned-IsReader P username id) (λ e w. refl)

  pub deliveries-IsReader :
      (username id : String) (query : Endpoints.QueryDeliveriesDto)
      → IsReader (Endpoints.list_deliveries P username id query)
  unfolding Endpoints.list_deliveries page_of_deliveries
  deliveries-IsReader username id query =
      IsReader-bind (get_owned P username id) (λ e. page_of_deliveries P id query)
        (get_owned-IsReader P username id) (λ e w. refl)

module _ (P : Platform) where
  pub deliveries_log-IsReader :
      (take : ℕ) (es : List WebhookEndpoint) → IsReader (Logs.deliveries_log P take es)
  unfolding Logs.deliveries_log
  deliveries_log-IsReader take [] w = refl
  deliveries_log-IsReader take (e ∷ rest) w = refl

  pub api_logs-IsReader : (take : ℕ) (c : GatewayConsumer) → IsReader (Logs.api_logs P take c)
  unfolding Logs.api_logs
  api_logs-IsReader take c w = refl

module _ (P : Platform) (E : Edge) (s : Supply) (c : GatewayConsumer) where
  pub customers-IsMirror : IsMirror P c (Customers.find_all P E.sums s c)
  unfolding Customers.find_all Customers.list_customers
  customers-IsMirror =
      resolving P c s (λ local. Customers.list_customers P E.sums local.id) (λ local w. refl)

  pub customer-IsMirror : (id : String) → IsMirror P c (Customers.find_one P s c id)
  unfolding Customers.find_one Customers.load_customer
  customer-IsMirror id =
      resolving P c s (λ local. Customers.load_customer P local.id id)
        λ local w.
          IsReader-or_throw
            (P.client.customer.find_first (λ x. x.id == id && x.consumer_id == local.id)
              w.customers)
            Customers.customer_not_found w

  pub products-IsMirror : IsMirror P c (Products.find_all P s c)
  unfolding Products.find_all Products.list_products
  products-IsMirror = resolving P c s (λ local. Products.list_products P local.id) (λ local w. refl)

  pub product-IsMirror : (id : String) → IsMirror P c (Products.find_one P s c id)
  unfolding Products.find_one Products.load_product
  product-IsMirror id =
      resolving P c s (λ local. Products.load_product P local.id id)
        λ local w.
          IsReader-or_throw
            (P.client.product.find_first (λ x. x.id == id && x.consumer_id == local.id) w.products)
            Products.product_not_found w

  pub summary-IsMirror : IsMirror P c (Summary.summary P E.floats E.iso_date s c)
  unfolding Summary.summary Summary.overview
  summary-IsMirror =
      resolving P c s (λ local. Summary.overview P E.floats E.iso_date s.now c local.id)
        (λ local w. refl)

  pub balances-IsMirror : IsMirror P c (Balances.balances E.floats P s c)
  unfolding Balances.balances Balances.list_balances
  balances-IsMirror =
      resolving P c s (λ local. Balances.list_balances E.floats P c local.id) (λ local w. refl)

  pub webhook_logs-IsMirror : (take : ℕ) → IsMirror P c (Logs.webhook_logs P s take c)
  unfolding Logs.webhook_logs Logs.list_webhook_logs
  webhook_logs-IsMirror take =
      resolving P c s (λ local. Logs.list_webhook_logs P take local.id)
        λ local w. deliveries_log-IsReader P take (Summary.endpoints_of P w local.id) w
