-- ===== src/Tests/Tenants.antt =====
-- The theorems on the isolation of customers and products, at the small platform.
use comos_pay_community_serv.Base.{
  String, none, some, [], ◌∷◌, ◌≡◌, ◌≢◌, inl, inr, refl, arith, eq_iff, done, fail,
}
use comos_pay_community_serv.Prisma.Schema.{Consumer, Customer}
use comos_pay_community_serv.Prisma.Client.{memory_client, memory_client-IsLawfulClient}
use comos_pay_community_serv.Prisma.Memory.{memory_table, get}
use comos_pay_community_serv.Gateway.Consumer.{GatewayConsumer}
use comos_pay_community_serv.Platform.{World, resolve_consumer}
use comos_pay_community_serv.Customers
use comos_pay_community_serv.Products
use comos_pay_community_serv.Customers.{UpdateCustomerDto, customer_not_found}
use comos_pay_community_serv.Products.{UpdateProductDto, product_not_found}
use comos_pay_community_serv.Isolation.{foreign_catalog_refused}
use comos_pay_community_serv.Tests.{platform, shop, world_with, supply, shop_key}

abbrev acme : Customer
acme = record {
  id = "k1";
  consumer_id = "c1";
  name = "Acme";
  alias = none;
  email = none;
  account = none;
  note = none;
  reference = none;
  created_at = 1;
}

abbrev mallory : GatewayConsumer
mallory = record shop_key { username = "mallory" }

abbrev mallory_row : Consumer
mallory_row = record {
  id = "c9";
  apisix_username = "mallory";
  credential_id = some "key";
  created_at = 500;
}

abbrev before : World memory_client
unfolding memory_table
before = record (world_with []) { customers = acme ∷ [] }

abbrev after : World memory_client
unfolding memory_table
after = record (world_with []) { customers = acme ∷ []; consumers = mallory_row ∷ shop ∷ [] }

resolves_mallory : resolve_consumer memory_client supply mallory before ≡ done mallory_row after
unfolding memory_table get resolve_consumer
resolves_mallory = refl

other_consumer : ◌≢◌ {A = String} "c1" "c9"
other_consumer = ground (arith, eq_iff "c1" "c9")

abbrev rename : UpdateCustomerDto
rename = record {
  name = some "Mine";
  alias = none;
  note = none;
  email = none;
  account = none;
  reference = none;
}

abbrev reprice : UpdateProductDto
reprice = record {
  name = none;
  description = none;
  amount = some (some "1");
  asset_code = none;
  kind = none;
  active = none;
  reference = none;
}

foreign_catalog_refused_example :
    ((Customers.find_one platform supply mallory "k1" before ≡ fail customer_not_found after)
      × (Customers.update platform supply mallory "k1" rename before
          ≡ fail customer_not_found after)
      × (Customers.remove platform supply mallory "k1" before ≡ fail customer_not_found after))
    × ((Products.find_one platform supply mallory "p1" before ≡ fail product_not_found after)
        × (Products.update platform supply mallory "p1" reprice before
            ≡ fail product_not_found after)
        × (Products.remove platform supply mallory "p1" before ≡ fail product_not_found after))
unfolding memory_table get
foreign_catalog_refused_example =
    foreign_catalog_refused platform memory_client-IsLawfulClient supply mallory "k1" "p1" rename
      reprice mallory_row before after resolves_mallory (inr (acme, refl, other_consumer))
      (inl refl)
