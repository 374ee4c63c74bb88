-- ===== src/Http/Catalog.antt =====
-- src/customers/customers.controller.ts and src/products/products.controller.ts
use comos_pay_community_serv.Base.{String, M, pure, ◌>>=◌}
use comos_pay_community_serv.Gateway.Consumer.{GatewayConsumer}
use comos_pay_community_serv.Gateway.Guards.{Route}
use comos_pay_community_serv.Platform.{Platform, World}
use comos_pay_community_serv.Customers
use comos_pay_community_serv.Customers.{CreateCustomerDto, UpdateCustomerDto}
use comos_pay_community_serv.Products
use comos_pay_community_serv.Products.{CreateProductDto, UpdateProductDto}
use comos_pay_community_serv.Http.{Edge, Draws, requires}
use comos_pay_community_serv.Http.Answer.{Answer}

pub data CustomerCall : Type 0 where
  post : CreateCustomerDto → CustomerCall
  get_all : CustomerCall
  get_one : String → CustomerCall
  patch : String → UpdateCustomerDto → CustomerCall
  delete : String → CustomerCall

pub data ProductCall : Type 0 where
  post : CreateProductDto → ProductCall
  get_all : ProductCall
  get_one : String → ProductCall
  patch : String → UpdateProductDto → ProductCall
  delete : String → ProductCall

unfoldable pub customer_route : CustomerCall → Route
customer_route (CustomerCall.post dto) = requires "customers:write"
customer_route CustomerCall.get_all = requires "customers:read"
customer_route (CustomerCall.get_one id) = requires "customers:read"
customer_route (CustomerCall.patch id dto) = requires "customers:write"
customer_route (CustomerCall.delete id) = requires "customers:write"

unfoldable pub product_route : ProductCall → Route
product_route (ProductCall.post dto) = requires "products:write"
product_route ProductCall.get_all = requires "products:read"
product_route (ProductCall.get_one id) = requires "products:read"
product_route (ProductCall.patch id dto) = requires "products:write"
product_route (ProductCall.delete id) = requires "products:write"

module _ (P : Platform) (E : Edge) where
  unfoldable pub handle_customer :
      Draws → GatewayConsumer → CustomerCall → M (World P.client) (Answer E.floats)
  handle_customer r consumer (CustomerCall.post dto) = do
    c ← Customers.create P r.supply consumer dto
    pure (Answer.customer c)
  handle_customer r consumer CustomerCall.get_all = do
    l ← Customers.find_all P E.sums r.supply consumer
    pure (Answer.customers l)
  handle_customer r consumer (CustomerCall.get_one id) = do
    c ← Customers.find_one P r.supply consumer id
    pure (Answer.customer c)
  handle_customer r consumer (CustomerCall.patch id dto) = do
    c ← Customers.update P r.supply consumer id dto
    pure (Answer.customer c)
  handle_customer r consumer (CustomerCall.delete id) = do
    gone ← Customers.remove P r.supply consumer id
    pure (Answer.deleted gone)

  unfoldable pub handle_product :
      Draws → GatewayConsumer → ProductCall → M (World P.client) (Answer E.floats)
  handle_product r consumer (ProductCall.post dto) = do
    p ← Products.create P r.supply consumer dto
    pure (Answer.product p)
  handle_product r consumer ProductCall.get_all = do
    l ← Products.find_all P r.supply consumer
    pure (Answer.products l)
  handle_product r consumer (ProductCall.get_one id) = do
    p ← Products.find_one P r.supply consumer id
    pure (Answer.product p)
  handle_product r consumer (ProductCall.patch id dto) = do
    p ← Products.update P r.supply consumer id dto
    pure (Answer.product p)
  handle_product r consumer (ProductCall.delete id) = do
    gone ← Products.remove P r.supply consumer id
    pure (Answer.deleted gone)
