-- ===== src/Isolation/Rows.antt =====
-- The writes of the services spare the rows of other consumers, where the row that they change is
-- not one of them.
use comos_pay_community_serv.Isolation.Holds.{Holds-refl, create-Holds, delete-Holds}
use comos_pay_community_serv.Isolation.Spares.{IsAnothers, Spares, IsSparing, Spares-refl}
use comos_pay_community_serv.Base.{
  Bool-cases, Option-cases, String, false, inl, inr, refl, some, true, world, ◌≡◌,
}
use comos_pay_community_serv.Prisma.Schema.{
  Customer, PaymentIntent, Product, WebhookEndpoint, intent_clash, no_clash,
}
use comos_pay_community_serv.Prisma.Client.{
  IsLawfulClient, customer_key, endpoint_key, intent_key, product_key,
}
use comos_pay_community_serv.Platform.{Platform, Supply, World, update_intent, unique_error}
use comos_pay_community_serv.Webhooks.Endpoints.{delete_endpoint, insert_endpoint, update_endpoint}
use comos_pay_community_serv.Customers.{delete_customer, insert_customer, update_customer}
use comos_pay_community_serv.Intents.Manage.{delete_intent, is_paid}
use comos_pay_community_serv.Products.{delete_product, insert_product, update_product}
use comos_pay_community_serv.Intents.Store.{persist}
use comos_pay_community_serv.Intents.Create.Race.{stamped}
use comos_pay_community_serv.Customers
use comos_pay_community_serv.Products
use comos_pay_community_serv.Isolation.Writes.{
  creating-Spares, updating-Spares, deleting-Spares, intents-Spares, endpoints-Spares,
  customers-Spares, products-Spares,
}

module _ (P : Platform) (law : IsLawfulClient P.client) (username : String) where
  pub persist-IsSparing :
      (s : Supply) (draft : PaymentIntent) → IsSparing P username (persist P s draft)
  unfolding persist
  persist-IsSparing s draft w =
      elim (Option-cases (P.client.payment_intent.create (stamped P s draft) w.intents)) [
        | inl e ↦ rw (e, persist) (Spares-refl P username w)
        | inr (t, e) ↦
            rw (e, persist)
              (intents-Spares P law username w t (
                create-Holds intent_key intent_clash P.client.payment_intent law.payment_intent _
                  (stamped P s draft) w.intents t e))
      ]

  pub update_intent-Spares :
      (id : String) (f : PaymentIntent → PaymentIntent) (w : World P.client)
      → ((q : PaymentIntent) → (f q).id ≡ q.id)
      → ((q : PaymentIntent)
          → P.client.payment_intent.get id w.intents ≡ some q
          → IsAnothers P w username q.consumer_id
          → false ≡ true)
      → Spares P username w (world (update_intent P.client id f w))
  unfolding update_intent
  update_intent-Spares id f w =
      updating-Spares intent_key intent_clash P username P.client.payment_intent law.payment_intent
        _ w.intents w (λ t. record w { intents = t }) (intents-Spares P law username w) id f

  pub delete_intent-Spares :
      (id : String) (w : World P.client)
      → ((q : PaymentIntent)
          → P.client.payment_intent.get id w.intents ≡ some q
          → IsAnothers P w username q.consumer_id
          → false ≡ true)
      → Spares P username w (world (delete_intent P id w))
  unfolding delete_intent
  delete_intent-Spares id w apart = elim (Bool-cases (is_paid P w id)) [
    | inl paid ↦ rw (paid, delete_intent) (Spares-refl P username w)
    | inr unpaid ↦
        rw (unpaid, delete_intent)
          (deleting-Spares intent_key intent_clash P username P.client.payment_intent
            law.payment_intent _ w.intents w (λ t. record w { intents = t })
            (intents-Spares P law username w) id (λ r. r) apart)
  ]

  pub insert_endpoint-IsSparing : (r : WebhookEndpoint) → IsSparing P username (insert_endpoint P r)
  unfolding insert_endpoint
  insert_endpoint-IsSparing r w =
      creating-Spares endpoint_key no_clash P username P.client.webhook_endpoint
        law.webhook_endpoint _ w.endpoints w (λ t. record w { endpoints = t })
        (endpoints-Spares P law username w) r unique_error

  pub update_endpoint-Spares :
      (id : String) (f : WebhookEndpoint → WebhookEndpoint) (w : World P.client)
      → ((q : WebhookEndpoint) → (f q).id ≡ q.id)
      → ((q : WebhookEndpoint)
          → P.client.webhook_endpoint.get id w.endpoints ≡ some q
          → IsAnothers P w username q.consumer_id
          → false ≡ true)
      → Spares P username w (world (update_endpoint P id f w))
  unfolding update_endpoint
  update_endpoint-Spares id f w =
      updating-Spares endpoint_key no_clash P username P.client.webhook_endpoint
        law.webhook_endpoint _ w.endpoints w (λ t. record w { endpoints = t })
        (endpoints-Spares P law username w) id f

  pub delete_endpoint-Spares :
      (id : String) (w : World P.client)
      → ((q : WebhookEndpoint)
          → P.client.webhook_endpoint.get id w.endpoints ≡ some q
          → IsAnothers P w username q.consumer_id
          → false ≡ true)
      → Spares P username w (world (delete_endpoint P id w))
  unfolding delete_endpoint
  delete_endpoint-Spares id w apart =
      elim (Option-cases (P.client.webhook_endpoint.delete id w.endpoints)) [
        | inl e ↦ rw (e, delete_endpoint) (Spares-refl P username w)
        | inr ((r, t), e) ↦
            rw (e, delete_endpoint)
              (record {
                consumers = Holds-refl P.client.consumer _ w.consumers w.consumers refl;
                customers = Holds-refl P.client.customer _ w.customers w.customers refl;
                products = Holds-refl P.client.product _ w.products w.products refl;
                intents = Holds-refl P.client.payment_intent _ w.intents w.intents refl;
                endpoints =
                    delete-Holds endpoint_key no_clash P.client.webhook_endpoint
                      law.webhook_endpoint _ id w.endpoints t r e apart;
              })
      ]

module _ (P : Platform) (law : IsLawfulClient P.client) (username : String) where
  pub create_customer-IsSparing :
      (r : Customer) → IsSparing P username (Customers.insert_customer P r)
  unfolding Customers.insert_customer
  create_customer-IsSparing r w =
      creating-Spares customer_key no_clash P username P.client.customer law.customer _ w.customers
        w (λ t. record w { customers = t }) (customers-Spares P law username w) r unique_error

  pub update_customer-Spares :
      (id : String) (f : Customer → Customer) (w : World P.client)
      → ((q : Customer) → (f q).id ≡ q.id)
      → ((q : Customer)
          → P.client.customer.get id w.customers ≡ some q
          → IsAnothers P w username q.consumer_id
          → false ≡ true)
      → Spares P username w (world (Customers.update_customer P id f w))
  unfolding Customers.update_customer
  update_customer-Spares id f w =
      updating-Spares customer_key no_clash P username P.client.customer law.customer _ w.customers
        w (λ t. record w { customers = t }) (customers-Spares P law username w) id f

  pub delete_customer-Spares :
      (id : String) (w : World P.client)
      → ((q : Customer)
          → P.client.customer.get id w.customers ≡ some q
          → IsAnothers P w username q.consumer_id
          → false ≡ true)
      → Spares P username w (world (Customers.delete_customer P id w))
  unfolding Customers.delete_customer
  delete_customer-Spares id w =
      deleting-Spares customer_key no_clash P username P.client.customer law.customer _ w.customers
        w (λ t. record w { customers = t }) (customers-Spares P law username w) id (λ _. tt)

  pub create_product-IsSparing : (r : Product) → IsSparing P username (Products.insert_product P r)
  unfolding Products.insert_product
  create_product-IsSparing r w =
      creating-Spares product_key no_clash P username P.client.product law.product _ w.products w
        (λ t. record w { products = t }) (products-Spares P law username w) r unique_error

  pub update_product-Spares :
      (id : String) (f : Product → Product) (w : World P.client)
      → ((q : Product) → (f q).id ≡ q.id)
      → ((q : Product)
          → P.client.product.get id w.products ≡ some q
          → IsAnothers P w username q.consumer_id
          → false ≡ true)
      → Spares P username w (world (Products.update_product P id f w))
  unfolding Products.update_product
  update_product-Spares id f w =
      updating-Spares product_key no_clash P username P.client.product law.product _ w.products w
        (λ t. record w { products = t }) (products-Spares P law username w) id f

  pub delete_product-Spares :
      (id : String) (w : World P.client)
      → ((q : Product)
          → P.client.product.get id w.products ≡ some q
          → IsAnothers P w username q.consumer_id
          → false ≡ true)
      → Spares P username w (world (Products.delete_product P id w))
  unfolding Products.delete_product
  delete_product-Spares id w =
      deleting-Spares product_key no_clash P username P.client.product law.product _ w.products w
        (λ t. record w { products = t }) (products-Spares P law username w) id (λ _. tt)
