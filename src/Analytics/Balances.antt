-- ===== src/Analytics/Balances.antt =====
-- `balances` of src/analytics/analytics.service.ts.
pub mod Sorted
pub mod Sums
use comos_pay_community_serv.Base.{
  ℕ, ◌+◌, String, Bool, true, false, ◌||◌, Option, some, List, [], ◌∷◌, map, length, group, M, Run,
  done, fail, ◌>>=◌, if◌then◌else◌,
}
use comos_pay_community_serv.Prisma.Schema.{PaymentIntent, pending, submitted, succeeded, status_eq}
use comos_pay_community_serv.Prisma.Table.{unordered}
use comos_pay_community_serv.Gateway.Consumer.{GatewayConsumer}
use comos_pay_community_serv.Platform.{Platform, World, Supply, resolve_consumer}
use comos_pay_community_serv.Analytics.{Floats, num, money, asset_label, network_of, scoped_intents}

pub record BalanceRow : Type 0 where
  pub asset : String
  pub amount : String
  pub pending : String
  pub count : ℕ

pub record BalanceList : Type 0 where
  pub items : List BalanceRow
  pub total : ℕ

module _ (F : Floats) where
  pub record Balance : Type 0 where
    pub settled : F.Number
    pub pending : F.Number
    pub settled_count : ℕ

module _ (F : Floats) where
  abbrev pub no_balance : Balance F
  no_balance = record { settled = F.of_nat 0; pending = F.of_nat 0; settled_count = 0 }

  -- The body of the loop over the intents.
  abbrev pub add_balance : PaymentIntent → Balance F → Balance F
  add_balance i cur =
      if status_eq i.status succeeded
      then record cur {
        settled = F.add cur.settled (num F i.amount);
        settled_count = cur.settled_count + 1;
      }
      else if status_eq i.status pending || status_eq i.status submitted
      then record cur { pending = F.add cur.pending (num F i.amount) }
      else cur

  abbrev pub balance_label : PaymentIntent → String
  balance_label i = asset_label i.asset

  unfoldable pub balance_map : List PaymentIntent → List (String × Balance F)
  balance_map intents = group balance_label no_balance add_balance [] intents

  abbrev pub balance_row : String × Balance F → BalanceRow
  balance_row e = record {
    asset = e.0;
    amount = money F (e.1).settled;
    pending = money F (e.1).pending;
    count = (e.1).settled_count;
  }

  -- `.sort((a, b) => num(b.amount) - num(a.amount))`, which is stable.
  abbrev pub worth : BalanceRow → F.Number
  worth r = num F (some r.amount)

  unfoldable pub insert_row : BalanceRow → List BalanceRow → List BalanceRow
  insert_row r [] = r ∷ []
  insert_row r (x ∷ rest) =
      let later = insert_row r rest in
      if F.less (worth r) (worth x) then x ∷ later else r ∷ x ∷ rest

  unfoldable pub sort_rows : List BalanceRow → List BalanceRow
  sort_rows [] = []
  sort_rows (r ∷ rest) = insert_row r (sort_rows rest)

  unfoldable pub balances_of : List PaymentIntent → List BalanceRow
  balances_of intents = sort_rows (map balance_row (balance_map intents))

module _ (F : Floats) (P : Platform) where
  unfoldable pub list_balances : GatewayConsumer → String → M (World P.client) BalanceList
  list_balances consumer consumer_id w =
      let items : List BalanceRow =
        balances_of F
          (scoped_intents P w consumer_id (network_of consumer.environment) unordered) in
      done (record { items = items; total = length items }) w

  unfoldable pub balances : Supply → GatewayConsumer → M (World P.client) BalanceList
  balances s consumer = do
    local ← resolve_consumer P.client s consumer
    list_balances consumer local.id
