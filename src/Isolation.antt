-- ===== src/Isolation.antt =====
-- Requests of one consumer for the customers and products of another.
pub mod Holds
pub mod Spares
pub mod Writes
pub mod Rows
pub mod Creation
pub mod Settling
pub mod Catalog
pub mod Hooks
pub mod Handlers
pub mod Requests
use comos_pay_community_serv.Base.{
  String, Bool, true, false, ◌&&◌, none, some, ◌≡◌, ◌≢◌, ◌⊎◌, inl, inr, refl, arith, ◌==◌, eq_iff,
  done, fail, ◌>>=◌, Option-cases, and_true, subst, sym, ◌>>◌,
}
use comos_pay_community_serv.Prisma.Schema.{Consumer, Customer, Product, no_clash}
use comos_pay_community_serv.Prisma.Client.{IsLawfulClient, customer_key, product_key}
use comos_pay_community_serv.Gateway.Consumer.{GatewayConsumer}
use comos_pay_community_serv.Platform.{Platform, World, Supply, resolve_consumer}
use comos_pay_community_serv.Customers.{UpdateCustomerDto, customer_not_found, load_customer}
use comos_pay_community_serv.Products.{UpdateProductDto, product_not_found, load_product}
use comos_pay_community_serv.Http.Calls.{customers, products}
use comos_pay_community_serv.Intents.Manage.{find_one, remove, update}
use comos_pay_community_serv.Prisma.Memory.{get}
use comos_pay_community_serv.Prisma.Scoped.{other_owner, scoped_none}
use comos_pay_community_serv.Customers
use comos_pay_community_serv.Products

module _ (P : Platform) (law : IsLawfulClient P.client) where
  load_customer-foreign :
      (consumer_id id : String) (w : World P.client)
      → (P.client.customer.get id w.customers ≡ none)
        ⊎ ((c : Customer) × (P.client.customer.get id w.customers ≡ some c)
            × (c.consumer_id ≢ consumer_id))
      → load_customer P consumer_id id w ≡ fail customer_not_found w
  unfolding load_customer
  load_customer-foreign consumer_id id w h =
      rw
        (scoped_none customer_key no_clash P.client.customer law.customer
          (λ r. r.consumer_id == consumer_id) id w.customers (outside h))
        refl
    where
      outside :
          (P.client.customer.get id w.customers ≡ none)
            ⊎ ((c : Customer) × (P.client.customer.get id w.customers ≡ some c)
                × (c.consumer_id ≢ consumer_id))
          → (P.client.customer.get id w.customers ≡ none)
            ⊎ ((c : Customer) × (P.client.customer.get id w.customers ≡ some c)
                × ((c.consumer_id == consumer_id) ≡ false))
      outside (inl free) = inl free
      outside (inr (c, there, off)) = inr (c, there, other_owner c.consumer_id consumer_id off)

  load_product-foreign :
      (consumer_id id : String) (w : World P.client)
      → (P.client.product.get id w.products ≡ none)
        ⊎ ((p : Product) × (P.client.product.get id w.products ≡ some p)
            × (p.consumer_id ≢ consumer_id))
      → load_product P consumer_id id w ≡ fail product_not_found w
  unfolding load_product
  load_product-foreign consumer_id id w h =
      rw
        (scoped_none product_key no_clash P.client.product law.product
          (λ r. r.consumer_id == consumer_id) id w.products (outside h))
        refl
    where
      outside :
          (P.client.product.get id w.products ≡ none)
            ⊎ ((p : Product) × (P.client.product.get id w.products ≡ some p)
                × (p.consumer_id ≢ consumer_id))
          → (P.client.product.get id w.products ≡ none)
            ⊎ ((p : Product) × (P.client.product.get id w.products ≡ some p)
                × ((p.consumer_id == consumer_id) ≡ false))
      outside (inl free) = inl free
      outside (inr (p, there, off)) = inr (p, there, other_owner p.consumer_id consumer_id off)

  foreign_customer_refused :
      (s : Supply) (consumer : GatewayConsumer) (id : String) (dto : UpdateCustomerDto)
      (local : Consumer) (w w' : World P.client)
      → resolve_consumer P.client s consumer w ≡ done local w'
      → (P.client.customer.get id w'.customers ≡ none)
        ⊎ ((c : Customer) × (P.client.customer.get id w'.customers ≡ some c)
            × (c.consumer_id ≢ local.id))
      → (Customers.find_one P s consumer id w ≡ fail customer_not_found w')
        × (Customers.update P s consumer id dto w ≡ fail customer_not_found w')
        × (Customers.remove P s consumer id w ≡ fail customer_not_found w')
  unfolding Customers.find_one Customers.update Customers.remove
  foreign_customer_refused s consumer id dto local w w' e h =
      let k : load_customer P local.id id w' ≡ fail customer_not_found w' =
        load_customer-foreign local.id id w' h in
      (rw (e, ◌>>=◌) k, rw (e, ◌>>=◌) (rw (k, ◌>>=◌) refl), rw (e, ◌>>=◌) (rw (k, ◌>>=◌) refl))

  foreign_product_refused :
      (s : Supply) (consumer : GatewayConsumer) (id : String) (dto : UpdateProductDto)
      (local : Consumer) (w w' : World P.client)
      → resolve_consumer P.client s consumer w ≡ done local w'
      → (P.client.product.get id w'.products ≡ none)
        ⊎ ((p : Product) × (P.client.product.get id w'.products ≡ some p)
            × (p.consumer_id ≢ local.id))
      → (Products.find_one P s consumer id w ≡ fail product_not_found w')
        × (Products.update P s consumer id dto w ≡ fail product_not_found w')
        × (Products.remove P s consumer id w ≡ fail product_not_found w')
  unfolding Products.find_one Products.update Products.remove
  foreign_product_refused s consumer id dto local w w' e h =
      let k : load_product P local.id id w' ≡ fail product_not_found w' =
        load_product-foreign local.id id w' h in
      (rw (e, ◌>>=◌) k, rw (e, ◌>>=◌) (rw (k, ◌>>=◌) refl), rw (e, ◌>>=◌) (rw (k, ◌>>=◌) refl))

  -- Where the caller's local consumer is resolved, reading, updating or deleting a customer or a
  -- product that is not there or belongs to another consumer fails with 404, and writes nothing but
  -- that consumer.
  pub foreign_catalog_refused :
      (s : Supply) (consumer : GatewayConsumer) (customer_id product_id : String)
      (dto : UpdateCustomerDto) (dto' : UpdateProductDto) (local : Consumer) (w w' : World P.client)
      → resolve_consumer P.client s consumer w ≡ done local w'
      → (P.client.customer.get customer_id w'.customers ≡ none)
        ⊎ ((c : Customer) × (P.client.customer.get customer_id w'.customers ≡ some c)
            × (c.consumer_id ≢ local.id))
      → (P.client.product.get product_id w'.products ≡ none)
        ⊎ ((p : Product) × (P.client.product.get product_id w'.products ≡ some p)
            × (p.consumer_id ≢ local.id))
      → ((Customers.find_one P s consumer customer_id w ≡ fail customer_not_found w')
          × (Customers.update P s consumer customer_id dto w ≡ fail customer_not_found w')
          × (Customers.remove P s consumer customer_id w ≡ fail customer_not_found w'))
        × ((Products.find_one P s consumer product_id w ≡ fail product_not_found w')
            × (Products.update P s consumer product_id dto' w ≡ fail product_not_found w')
            × (Products.remove P s consumer product_id w ≡ fail product_not_found w'))
  foreign_catalog_refused s consumer customer_id product_id dto dto' local w w' e h k = (
    foreign_customer_refused s consumer customer_id dto local w w' e h,
    foreign_product_refused s consumer product_id dto' local w w' e k,
  )
