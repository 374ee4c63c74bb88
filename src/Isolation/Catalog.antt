-- ===== src/Isolation/Catalog.antt =====
-- Each method on customers and products spares the rows of other consumers.
use comos_pay_community_serv.Isolation.Spares.{
  IsAnothers, IsSparing, IsSparing-bind, Spares-refl, bind-Spares, named-apart, reader-IsSparing,
  resolve_consumer-IsSparing,
}
use comos_pay_community_serv.Base.{
  >>=-eq-done, Bool-cases, Option-cases, String, arith, done, eq_iff, false, inl, inr, refl, some,
  subst, sym, true, ◌&&◌, ◌==◌, ◌≡◌,
}
use comos_pay_community_serv.Prisma.Schema.{Customer, Product, no_clash}
use comos_pay_community_serv.Customers.{
  CreateCustomerDto, UpdateCustomerDto, customer_not_found, customer_patch, delete_customer,
  load_customer,
}
use comos_pay_community_serv.Products.{
  CreateProductDto, UpdateProductDto, delete_product, load_product, product_not_found,
  product_patch, clears_required,
}
use comos_pay_community_serv.Gateway.Consumer.{GatewayConsumer}
use comos_pay_community_serv.Prisma.Client.{IsLawfulClient, customer_key, product_key}
use comos_pay_community_serv.Http.ReadOnly.{IsReader, IsReader-or_throw}
use comos_pay_community_serv.Platform.{Platform, Supply, World, resolve_consumer}
use comos_pay_community_serv.Isolation.Rows.{
  create_customer-IsSparing, create_product-IsSparing, delete_customer-Spares,
  delete_product-Spares, update_customer-Spares, update_product-Spares,
}
use comos_pay_community_serv.Platform.Tenants.{resolve_consumer-IsLocal}
use comos_pay_community_serv.Prisma.Scoped.{scoped_some}
use comos_pay_community_serv.Customers
use comos_pay_community_serv.Products

module _ (P : Platform) (law : IsLawfulClient P.client) (s : Supply) (c : GatewayConsumer) where
  load_customer-IsReader :
      (consumer_id id : String) → IsReader (Customers.load_customer P consumer_id id)
  unfolding Customers.load_customer
  load_customer-IsReader consumer_id id w = IsReader-or_throw _ Customers.customer_not_found w

  pub customer-IsSparing : (id : String) → IsSparing P c.username (Customers.find_one P s c id)
  unfolding Customers.find_one
  customer-IsSparing id =
      IsSparing-bind P c.username (resolve_consumer P.client s c) _
        (resolve_consumer-IsSparing P law s c)
        λ local.
          reader-IsSparing P c.username (Customers.load_customer P local.id id)
            (load_customer-IsReader local.id id)

  -- The customer that the caller finds is not another consumer's.
  found_customer-apart :
      (id : String) (w v : World P.client) (r q : Customer)
      → Customers.find_one P s c id w ≡ done r v
      → P.client.customer.get id v.customers ≡ some q
      → IsAnothers P v c.username q.consumer_id
      → false ≡ true
  unfolding Customers.find_one Customers.load_customer
  found_customer-apart id w v r q h g =
      let (local, w1, e, k) = >>=-eq-done (resolve_consumer P.client s c) _ w h in
      let l = resolve_consumer-IsLocal P.client law s c w w1 local e in
      elim (Option-cases (
        P.client.customer.find_first (λ x. x.id == id && x.consumer_id == local.id) w1.customers)) [
          | inl none_found ↦ absurd (ground arith)
          | inr (r', found_one) ↦
              let (there, own) =
                scoped_some customer_key no_clash P.client.customer law.customer
                  (λ x. x.consumer_id == local.id) id w1.customers r' found_one in
              let v_is : w1 ≡ v = ground arith in
              let stands : P.client.customer.get id w1.customers ≡ some q =
                subst (λ (x : World P.client). P.client.customer.get id x.customers ≡ some q)
                  (sym v_is) g in
              let one : r' ≡ q = cc (there, stands) in
              let owner : q.consumer_id ≡ local.id =
                subst (λ (x : Customer). x.consumer_id ≡ local.id) one
                  ((eq_iff r'.consumer_id local.id).0 own) in
              subst (λ x. IsAnothers P x c.username q.consumer_id → false ≡ true) v_is
                (named-apart P c.username w1 local q.consumer_id l.stored l.named owner)
        ]

  pub create_customer-Spares :
      (dto : CreateCustomerDto) → IsSparing P c.username (Customers.create P s c dto)
  unfolding Customers.create
  create_customer-Spares dto =
      IsSparing-bind P c.username (resolve_consumer P.client s c) _
        (resolve_consumer-IsSparing P law s c) λ local. create_customer-IsSparing P law c.username _

  pub edit_customer-IsSparing :
      (id : String) (dto : UpdateCustomerDto)
      → IsSparing P c.username (Customers.update P s c id dto)
  unfolding Customers.update
  edit_customer-IsSparing id dto w =
      bind-Spares P c.username (Customers.find_one P s c id) _ w (customer-IsSparing id w) λ r v e.
        update_customer-Spares P law c.username id (customer_patch dto) v (λ q. refl)
          λ q. found_customer-apart id w v r q e

  pub remove_customer-IsSparing : (id : String) → IsSparing P c.username (Customers.remove P s c id)
  unfolding Customers.remove
  remove_customer-IsSparing id w =
      bind-Spares P c.username (Customers.find_one P s c id) _ w (customer-IsSparing id w) λ r v e.
        bind-Spares P c.username (Customers.delete_customer P id) _ v
          (delete_customer-Spares P law c.username id v λ q. found_customer-apart id w v r q e)
          λ u v' _. Spares-refl P c.username v'

module _ (P : Platform) (law : IsLawfulClient P.client) (s : Supply) (c : GatewayConsumer) where
  load_product-IsReader :
      (consumer_id id : String) → IsReader (Products.load_product P consumer_id id)
  unfolding Products.load_product
  load_product-IsReader consumer_id id w = IsReader-or_throw _ Products.product_not_found w

  pub product-IsSparing : (id : String) → IsSparing P c.username (Products.find_one P s c id)
  unfolding Products.find_one
  product-IsSparing id =
      IsSparing-bind P c.username (resolve_consumer P.client s c) _
        (resolve_consumer-IsSparing P law s c)
        λ local.
          reader-IsSparing P c.username (Products.load_product P local.id id)
            (load_product-IsReader local.id id)

  -- The product that the caller finds is not another consumer's.
  found_product-apart :
      (id : String) (w v : World P.client) (r q : Product)
      → Products.find_one P s c id w ≡ done r v
      → P.client.product.get id v.products ≡ some q
      → IsAnothers P v c.username q.consumer_id
      → false ≡ true
  unfolding Products.find_one Products.load_product
  found_product-apart id w v r q h g =
      let (local, w1, e, k) = >>=-eq-done (resolve_consumer P.client s c) _ w h in
      let l = resolve_consumer-IsLocal P.client law s c w w1 local e in
      elim (Option-cases
        (P.client.product.find_first (λ x. x.id == id && x.consumer_id == local.id) w1.products)) [
          | inl none_found ↦ absurd (ground arith)
          | inr (r', found_one) ↦
              let (there, own) =
                scoped_some product_key no_clash P.client.product law.product
                  (λ x. x.consumer_id == local.id) id w1.products r' found_one in
              let v_is : w1 ≡ v = ground arith in
              let stands : P.client.product.get id w1.products ≡ some q =
                subst (λ (x : World P.client). P.client.product.get id x.products ≡ some q)
                  (sym v_is) g in
              let one : r' ≡ q = cc (there, stands) in
              let owner : q.consumer_id ≡ local.id =
                subst (λ (x : Product). x.consumer_id ≡ local.id) one
                  ((eq_iff r'.consumer_id local.id).0 own) in
              subst (λ x. IsAnothers P x c.username q.consumer_id → false ≡ true) v_is
                (named-apart P c.username w1 local q.consumer_id l.stored l.named owner)
        ]

  pub create_product-Spares :
      (dto : CreateProductDto) → IsSparing P c.username (Products.create P s c dto)
  unfolding Products.create
  create_product-Spares dto =
      IsSparing-bind P c.username (resolve_consumer P.client s c) _
        (resolve_consumer-IsSparing P law s c) λ local. create_product-IsSparing P law c.username _

  pub edit_product-IsSparing :
      (id : String) (dto : UpdateProductDto) → IsSparing P c.username (Products.update P s c id dto)
  unfolding Products.update
  edit_product-IsSparing id dto w =
      bind-Spares P c.username (Products.find_one P s c id) _ w (product-IsSparing id w) λ r v e.
        elim (Bool-cases (clears_required dto)) [
          | inl nulls ↦ rw nulls (Spares-refl P c.username v)
          | inr allowed ↦ rw allowed (
              update_product-Spares P law c.username id (product_patch dto) v (λ q. refl)
                λ q. found_product-apart id w v r q e)
        ]

  pub remove_product-IsSparing : (id : String) → IsSparing P c.username (Products.remove P s c id)
  unfolding Products.remove
  remove_product-IsSparing id w =
      bind-Spares P c.username (Products.find_one P s c id) _ w (product-IsSparing id w) λ r v e.
        bind-Spares P c.username (Products.delete_product P id) _ v
          (delete_product-Spares P law c.username id v λ q. found_product-apart id w v r q e)
          λ u v' _. Spares-refl P c.username v'
