-- ===== src/Customers.antt =====
-- src/customers/customers.service.ts: the customers that a consumer keeps, and what they paid.
pub mod Totals
use comos_pay_community_serv.Base.{
  ℕ, ◌+◌, String, Bool, true, false, ◌&&◌, Option, none, some, List, [], ◌∷◌, ◌==◌, coalesce,
  length, map, if◌then◌else◌, M, Run, done, fail, pure, or_throw, not_found, Exception, ◌>>=◌,
  is_some, truthy, map_get, map_set,
}
use comos_pay_community_serv.Prisma.Schema.{Customer, PaymentIntent, succeeded, status_eq}
use comos_pay_community_serv.Prisma.Table.{
  written, missing, conflict, created_desc, unordered, whole,
}
use comos_pay_community_serv.Gateway.Consumer.{GatewayConsumer}
use comos_pay_community_serv.Platform.{
  Platform, World, Supply, resolve_consumer, not_found_error, unique_error,
}

-- src/customers/dto/create-customer.dto.ts
pub record CreateCustomerDto : Type 0 where
  pub name : String
  pub alias : Option String
  pub note : Option String
  pub email : Option String
  pub account : Option String
  pub reference : Option String

-- src/customers/dto/update-customer.dto.ts. Of a column that may be set to null, `none` is
-- undefined and `some none` is null.
pub record UpdateCustomerDto : Type 0 where
  pub name : Option String
  pub alias : Option (Option String)
  pub note : Option (Option String)
  pub email : Option (Option String)
  pub account : Option (Option String)
  pub reference : Option (Option String)

-- The sums of JavaScript numbers: `0`, `a + (Number(text) || 0)`, where the text may be null, and
-- `Number(a.toFixed(7)).toString()`.
pub record Sums : Type 1 where
  pub Sum : Type 0
  pub zero : Sum
  pub add : Sum → Option String → Sum
  pub show : Sum → String

pub record Stats (S : Sums) : Type 0 where
  pub payments : ℕ
  pub succeeded_payments : ℕ
  pub total : S.Sum

abbrev pub no_stats : (S : Sums) → Stats S
no_stats S = record { payments = 0; succeeded_payments = 0; total = S.zero }

-- A customer with its statistics.
pub record CustomerView : Type 0 where
  pub customer : Customer
  pub payments : ℕ
  pub succeeded_payments : ℕ
  pub total : String

pub record CustomerList : Type 0 where
  pub items : List CustomerView
  pub total : ℕ

abbrev pub customer_not_found : Exception
customer_not_found = not_found "Customer not found"

module _ (S : Sums) where
  -- The body of the loop over the intents, of which `where` has left those with a source.
  abbrev pub counted : PaymentIntent → Stats S → Stats S
  counted i cur = record {
    payments = cur.payments + 1;
    succeeded_payments =
        if status_eq i.status succeeded then cur.succeeded_payments + 1 else cur.succeeded_payments;
    total = if status_eq i.status succeeded then S.add cur.total i.amount else cur.total;
  }

  unfoldable pub count_intent : List (String × Stats S) → PaymentIntent → List (String × Stats S)
  count_intent stats i = elim i.source [
    | none ↦ stats
    | some account ↦
        map_set account (counted i (coalesce (map_get account stats) (no_stats S))) stats
  ]

  unfoldable pub count_intents :
      List (String × Stats S) → List PaymentIntent → List (String × Stats S)
  count_intents stats [] = stats
  count_intents stats (i ∷ rest) = count_intents (count_intent stats i) rest

  -- `(c.account && stats.get(c.account)) || { … }`
  unfoldable pub stats_of : List (String × Stats S) → Option String → Stats S
  stats_of stats none = no_stats S
  stats_of stats (some account) =
      if truthy (some account) then coalesce (map_get account stats) (no_stats S) else no_stats S

  abbrev pub enriched : List (String × Stats S) → Customer → CustomerView
  enriched stats c = record {
    customer = c;
    payments = (stats_of stats c.account).payments;
    succeeded_payments = (stats_of stats c.account).succeeded_payments;
    total = S.show (stats_of stats c.account).total;
  }

abbrev pub customer_patch : UpdateCustomerDto → Customer → Customer
customer_patch dto c = record c {
  name = coalesce dto.name c.name;
  alias = coalesce dto.alias c.alias;
  note = coalesce dto.note c.note;
  email = coalesce dto.email c.email;
  account = coalesce dto.account c.account;
  reference = coalesce dto.reference c.reference;
}

module _ (P : Platform) where
  unfoldable pub insert_customer : Customer → M (World P.client) Customer
  insert_customer c w = elim (P.client.customer.create c w.customers) [
    | none ↦ fail unique_error w
    | some t ↦ done c (record w { customers = t })
  ]

  unfoldable pub create : Supply → GatewayConsumer → CreateCustomerDto → M (World P.client) Customer
  create s consumer dto = do
    local ← resolve_consumer P.client s consumer
    insert_customer (record {
      id = s.id;
      consumer_id = local.id;
      name = dto.name;
      alias = dto.alias;
      email = dto.email;
      account = dto.account;
      note = dto.note;
      reference = dto.reference;
      created_at = s.now;
    })

  abbrev pub paid_intents : World P.client → String → List PaymentIntent
  paid_intents w consumer_id =
      P.client.payment_intent.find_many (λ i. i.consumer_id == consumer_id && is_some i.source)
        (whole unordered) w.intents

  unfoldable pub list_customers : Sums → String → M (World P.client) CustomerList
  list_customers S consumer_id w =
      let items : List CustomerView =
        map (enriched S (count_intents S [] (paid_intents w consumer_id))) (
          P.client.customer.find_many (λ c. c.consumer_id == consumer_id) (whole created_desc)
            w.customers) in
      done (record { items = items; total = length items }) w

  unfoldable pub find_all : Sums → Supply → GatewayConsumer → M (World P.client) CustomerList
  find_all S s consumer = do local ← resolve_consumer P.client s consumer; list_customers S local.id

  unfoldable pub load_customer : String → String → M (World P.client) Customer
  load_customer consumer_id id w =
      or_throw
        (P.client.customer.find_first (λ c. c.id == id && c.consumer_id == consumer_id) w.customers)
        customer_not_found w

  unfoldable pub find_one : Supply → GatewayConsumer → String → M (World P.client) Customer
  find_one s consumer id = do
    local ← resolve_consumer P.client s consumer
    load_customer local.id id

  unfoldable pub update_customer : String → (Customer → Customer) → M (World P.client) Customer
  update_customer id change w = elim (P.client.customer.update id change w.customers) [
    | written c t ↦ done c (record w { customers = t })
    | missing ↦ fail not_found_error w
    | conflict ↦ fail unique_error w
  ]

  unfoldable pub update :
      Supply → GatewayConsumer → String → UpdateCustomerDto → M (World P.client) Customer
  update s consumer id dto = do
    owned ← find_one s consumer id
    update_customer id (customer_patch dto)

  unfoldable pub delete_customer : String → M (World P.client) (Unit {0})
  delete_customer id w = elim (P.client.customer.delete id w.customers) [
    | none ↦ fail not_found_error w
    | some (c, t) ↦ done tt (record w { customers = t })
  ]

  -- The id of the answer `{ id, deleted: true }`.
  unfoldable pub remove : Supply → GatewayConsumer → String → M (World P.client) String
  remove s consumer id = do owned ← find_one s consumer id; gone ← delete_customer id; pure id
