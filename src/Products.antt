-- ===== src/Products.antt =====
-- src/products/products.service.ts: the products of a consumer.
use comos_pay_community_serv.Base.{
  ℕ, String, Bool, true, false, ◌&&◌, ◌||◌, Option, none, some, List, ◌==◌, coalesce, length, trim,
  if◌then◌else◌, M, done, fail, pure, throw, unexpected, or_throw, not_found, Exception, ◌>>=◌,
}
use comos_pay_community_serv.Prisma.Schema.{Product}
use comos_pay_community_serv.Prisma.Table.{written, missing, conflict, created_desc, whole}
use comos_pay_community_serv.Gateway.Consumer.{GatewayConsumer}
use comos_pay_community_serv.Platform.{
  Platform, World, Supply, resolve_consumer, not_found_error, unique_error,
}
use comos_pay_community_serv.Intents.Resolve.{is_native_code}

-- src/products/dto/create-product.dto.ts
pub record CreateProductDto : Type 0 where
  pub name : String
  pub description : Option String
  pub amount : Option String
  pub asset_code : Option String
  pub kind : Option String
  pub active : Option Bool
  pub reference : Option String

-- src/products/dto/update-product.dto.ts. `none` is undefined and `some none` is null, which the
-- validator passes of each field.
pub record UpdateProductDto : Type 0 where
  pub name : Option (Option String)
  pub description : Option (Option String)
  pub amount : Option (Option String)
  pub asset_code : Option (Option String)
  pub kind : Option (Option String)
  pub active : Option (Option Bool)
  pub reference : Option (Option String)

pub record ProductList : Type 0 where
  pub items : List Product
  pub total : ℕ

abbrev pub product_not_found : Exception
product_not_found = not_found "Product not found"

unfoldable pub resolve_asset_code : Option String → String
resolve_asset_code none = "native"
resolve_asset_code (some given) =
    let code : String = trim given in if is_native_code code then "native" else code

abbrev pub is_null : {A : Type 0} → Option (Option A) → Bool
is_null none = false
is_null (some none) = true
is_null (some (some a)) = false

-- A null for a column that takes none, which the client refuses before it asks the database.
unfoldable pub clears_required : UpdateProductDto → Bool
clears_required dto = is_null dto.name || is_null dto.kind || is_null dto.active

abbrev pub or_kept : {A : Type 0} → Option (Option A) → A → A
or_kept none a = a
or_kept (some none) a = a
or_kept (some (some b)) a = b

abbrev pub product_patch : UpdateProductDto → Product → Product
product_patch dto p = record p {
  name = or_kept dto.name p.name;
  description = coalesce dto.description p.description;
  amount = coalesce dto.amount p.amount;
  asset = elim dto.asset_code [ none ↦ p.asset | some code ↦ resolve_asset_code code ];
  kind = or_kept dto.kind p.kind;
  active = or_kept dto.active p.active;
  reference = coalesce dto.reference p.reference;
}

module _ (P : Platform) where
  unfoldable pub insert_product : Product → M (World P.client) Product
  insert_product p w = elim (P.client.product.create p w.products) [
    | none ↦ fail unique_error w
    | some t ↦ done p (record w { products = t })
  ]

  unfoldable pub create : Supply → GatewayConsumer → CreateProductDto → M (World P.client) Product
  create s consumer dto = do
    local ← resolve_consumer P.client s consumer
    insert_product (record {
      id = s.id;
      consumer_id = local.id;
      name = dto.name;
      description = dto.description;
      amount = dto.amount;
      asset = resolve_asset_code dto.asset_code;
      kind = coalesce dto.kind "one_time";
      active = coalesce dto.active true;
      reference = dto.reference;
      created_at = s.now;
    })

  unfoldable pub list_products : String → M (World P.client) ProductList
  list_products consumer_id w =
      let items : List Product =
        P.client.product.find_many (λ p. p.consumer_id == consumer_id) (whole created_desc)
          w.products in
      done (record { items = items; total = length items }) w

  unfoldable pub find_all : Supply → GatewayConsumer → M (World P.client) ProductList
  find_all s consumer = do local ← resolve_consumer P.client s consumer; list_products local.id

  unfoldable pub load_product : String → String → M (World P.client) Product
  load_product consumer_id id w =
      or_throw
        (P.client.product.find_first (λ p. p.id == id && p.consumer_id == consumer_id) w.products)
        product_not_found w

  unfoldable pub find_one : Supply → GatewayConsumer → String → M (World P.client) Product
  find_one s consumer id = do local ← resolve_consumer P.client s consumer; load_product local.id id

  unfoldable pub update_product : String → (Product → Product) → M (World P.client) Product
  update_product id change w = elim (P.client.product.update id change w.products) [
    | written p t ↦ done p (record w { products = t })
    | missing ↦ fail not_found_error w
    | conflict ↦ fail unique_error w
  ]

  unfoldable pub update :
      Supply → GatewayConsumer → String → UpdateProductDto → M (World P.client) Product
  update s consumer id dto = do
    owned ← find_one s consumer id
    if clears_required dto
        then throw (unexpected "Argument must not be null.")
        else update_product id (product_patch dto)

  unfoldable pub delete_product : String → M (World P.client) (Unit {0})
  delete_product id w = elim (P.client.product.delete id w.products) [
    | none ↦ fail not_found_error w
    | some (p, t) ↦ done tt (record w { products = t })
  ]

  -- The id of the answer `{ id, deleted: true }`.
  unfoldable pub remove : Supply → GatewayConsumer → String → M (World P.client) String
  remove s consumer id = do owned ← find_one s consumer id; gone ← delete_product id; pure id
