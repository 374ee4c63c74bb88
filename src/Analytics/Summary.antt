-- ===== src/Analytics/Summary.antt =====
-- `summary` of src/analytics/analytics.service.ts.
pub mod Totals
pub mod PerAsset
use comos_pay_community_serv.Base.{
  ℕ, ◌+◌, String, Bool, true, false, ◌&&◌, ◌||◌, Option, none, some, List, [], ◌∷◌, ◌==◌, nat_eq,
  map, keep, length, take, includes, truthy, group, M, Run, done, fail, ◌>>=◌, if◌then◌else◌,
}
use comos_pay_community_serv.Prisma.Schema.{
  PaymentIntent, PaymentIntentKind, PaymentIntentStatus, pending, submitted, succeeded, failed,
  cancelled, expired, status_eq, WebhookEndpoint, WebhookDelivery, delivery_failed,
  delivery_status_eq,
}
use comos_pay_community_serv.Prisma.Table.{created_desc, unordered, whole}
use comos_pay_community_serv.Gateway.Consumer.{GatewayConsumer}
use comos_pay_community_serv.Platform.{Platform, World, Supply, resolve_consumer}
use comos_pay_community_serv.Analytics.{Floats, num, money, asset_label, network_of, scoped_intents}
use comos_pay_community_serv.Analytics.Series.{Day, series_of}

-- `byStatus`: an object that counts the intents of each status, where a status that is missing
-- counts as 0.
abbrev pub Tally : Type 0
Tally = PaymentIntentStatus → ℕ

abbrev pub counted : Tally → PaymentIntent → Tally
counted t i s = if status_eq i.status s then t s + 1 else t s

unfoldable pub tally : Tally → List PaymentIntent → Tally
tally t [] = t
tally t (i ∷ rest) = tally (counted t i) rest

abbrev pub is_succeeded : PaymentIntent → Bool
is_succeeded i = status_eq i.status succeeded

-- The size of `new Set(sources)`, without the sources that are null or empty.
unfoldable pub distinct_payers : List String → List PaymentIntent → List String
distinct_payers seen [] = seen
distinct_payers seen (i ∷ rest) =
    let skipped = distinct_payers seen rest in
    elim i.source [
      | none ↦ skipped
      | some s ↦
          let added = distinct_payers (s ∷ seen) rest in
          if truthy (some s) then (if includes s seen then skipped else added) else skipped
    ]

pub record RecentRow : Type 0 where
  pub id : String
  pub kind : PaymentIntentKind
  pub status : PaymentIntentStatus
  pub amount : Option String
  pub asset : String
  pub destination : String
  pub created_at : ℕ

unfoldable pub recent_row : PaymentIntent → RecentRow
recent_row i = record {
  id = i.id;
  kind = i.kind;
  status = i.status;
  amount = i.amount;
  asset = asset_label i.asset;
  destination = i.destination;
  created_at = i.created_at;
}

pub record VolumeRow : Type 0 where
  pub asset : String
  pub amount : String
  pub count : ℕ

pub record WebhookHealth : Type 0 where
  pub endpoints : ℕ
  pub deliveries : ℕ
  pub failed_deliveries : ℕ

module _ (F : Floats) where
  pub record StatusTotals : Type 0 where
    pub all : ℕ
    pub succeeded : ℕ
    pub pending : ℕ
    pub submitted : ℕ
    pub failed : ℕ
    pub cancelled : ℕ
    pub expired : ℕ
    pub success_rate : F.Number

  pub record Volume : Type 0 where
    pub amount : F.Number
    pub count : ℕ

module _ (F : Floats) where
  -- `Math.round((succeeded / total) * 1000) / 10`
  unfoldable pub success_rate : ℕ → ℕ → F.Number
  success_rate good total =
      if nat_eq total 0
      then F.of_nat 0
      else F.over (F.round (F.times (F.over (F.of_nat good) (F.of_nat total)) (F.of_nat 1000)))
          (F.of_nat 10)

  unfoldable pub totals_of : List PaymentIntent → StatusTotals F
  unfolding tally
  totals_of intents =
      let by_status : Tally = tally (λ s. 0) intents in
      let good : ℕ = length (keep is_succeeded intents) in
      record {
        all = length intents;
        succeeded = good;
        pending = by_status pending;
        submitted = by_status submitted;
        failed = by_status failed;
        cancelled = by_status cancelled;
        expired = by_status expired;
        success_rate = success_rate good (length intents);
      }

  abbrev pub no_volume : Volume F
  no_volume = record { amount = F.of_nat 0; count = 0 }

  abbrev pub add_volume : PaymentIntent → Volume F → Volume F
  add_volume i cur = record { amount = F.add cur.amount (num F i.amount); count = cur.count + 1 }

  abbrev pub label_of : PaymentIntent → String
  label_of i = asset_label i.asset

  -- `volumeMap`, over the intents that succeeded.
  unfoldable pub volume_map : List PaymentIntent → List (String × Volume F)
  volume_map good = group label_of no_volume add_volume [] good

  abbrev pub volume_row : String × Volume F → VolumeRow
  volume_row e = record { asset = e.0; amount = money F (e.1).amount; count = (e.1).count }

  pub record Overview : Type 0 where
    pub totals : StatusTotals F
    pub volume : List VolumeRow
    pub webhooks : WebhookHealth
    pub customers : ℕ
    pub series : List Day
    pub recent : List RecentRow

module _ (P : Platform) where
  abbrev pub endpoints_of : World P.client → String → List WebhookEndpoint
  endpoints_of w consumer_id =
      P.client.webhook_endpoint.find_many (λ e. e.consumer_id == consumer_id) (whole unordered)
        w.endpoints

  abbrev pub ids_of : List WebhookEndpoint → List String
  ids_of endpoints = map (λ (e : WebhookEndpoint). e.id) endpoints

  unfoldable pub webhook_health : World P.client → String → WebhookHealth
  webhook_health w consumer_id =
      let endpoints : List WebhookEndpoint = endpoints_of w consumer_id in
      let ids : List String = ids_of endpoints in
      record {
        endpoints = length endpoints;
        deliveries =
            if nat_eq (length ids) 0
            then 0
            else P.client.webhook_delivery.count (λ d. includes d.endpoint_id ids) w.deliveries;
        failed_deliveries =
            if nat_eq (length ids) 0
            then 0
            else P.client.webhook_delivery.count
                (λ d. includes d.endpoint_id ids && delivery_status_eq d.status delivery_failed)
                w.deliveries;
      }

module _ (P : Platform) (F : Floats) (iso_date : ℕ → String) where
  unfoldable pub overview : ℕ → GatewayConsumer → String → M (World P.client) (Overview F)
  overview now consumer consumer_id w =
      let intents : List PaymentIntent =
        scoped_intents P w consumer_id (network_of consumer.environment) created_desc in
      let good : List PaymentIntent = keep is_succeeded intents in
      done
        (record {
          totals = totals_of F intents;
          volume = map (volume_row F) (volume_map F good);
          webhooks = webhook_health P w consumer_id;
          customers = length (distinct_payers [] intents);
          series = series_of F iso_date now intents;
          recent = map recent_row (take 6 good);
        })
        w

  unfoldable pub summary : Supply → GatewayConsumer → M (World P.client) (Overview F)
  summary s consumer = do
    local ← resolve_consumer P.client s consumer
    overview s.now consumer local.id
