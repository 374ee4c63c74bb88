-- ===== src/Intents/Manage.antt =====
-- `findAll`, `findOne`, `update` and `remove` of src/payment-intents/payment-intents.service.ts.
pub mod Guarded
pub mod Listed
use comos_pay_community_serv.Base.{
  ℕ, String, ◌<>◌, Bool, true, false, ◌&&◌, Option, none, some, List, ◌==◌, coalesce, if◌then◌else◌,
  M, Run, done, fail, pure, throw, bad_request, ◌>>=◌, ◌>>◌,
}
use comos_pay_community_serv.Prisma.Schema.{
  PaymentIntent, PaymentIntentStatus, succeeded, status_eq, payment_intent_updated,
  payment_intent_deleted, WebhookEventType,
}
use comos_pay_community_serv.Prisma.Table.{Page, created_desc}
use comos_pay_community_serv.Platform.{
  Platform, World, update_intent, emit, owned_by, not_found_error,
}
use comos_pay_community_serv.Intents.Resolve.{status_event}
use comos_pay_community_serv.Intents.Store.{PaymentIntentView, with_qr, load_owned}

-- src/payment-intents/dto/query-payment-intents.dto.ts
pub record QueryPaymentIntentsDto : Type 0 where
  pub status : Option PaymentIntentStatus
  pub take : ℕ
  pub skip : ℕ

-- src/payment-intents/dto/update-payment-intent.dto.ts. Of a column that may be set to null,
-- `none` is undefined and `some none` is null.
pub record UpdatePaymentIntentDto : Type 0 where
  pub status : Option PaymentIntentStatus
  pub tx_hash : Option (Option String)
  pub reference : Option (Option String)

pub record PaymentIntentList : Type 0 where
  pub items : List PaymentIntent
  pub total : ℕ
  pub take : ℕ
  pub skip : ℕ

abbrev pub patched : UpdatePaymentIntentDto → PaymentIntent → PaymentIntent
patched dto r = record r {
  status = coalesce dto.status r.status;
  tx_hash = coalesce dto.tx_hash r.tx_hash;
  reference = coalesce dto.reference r.reference;
}

-- The event that an update is announced by.
unfoldable pub update_event : Option PaymentIntentStatus → WebhookEventType
unfolding status_event
update_event none = payment_intent_updated
update_event (some status) = status_event status

module _ (P : Platform) where
  -- The `where` of `findAll`.
  abbrev pub listed : World P.client → String → Option PaymentIntentStatus → PaymentIntent → Bool
  listed w username none r = owned_by P.client w username r.consumer_id
  listed w username (some status) r =
      owned_by P.client w username r.consumer_id && status_eq r.status status

  unfoldable pub find_all : String → QueryPaymentIntentsDto → M (World P.client) PaymentIntentList
  find_all username query w =
      let page : Page = record {
        order_by = created_desc;
        take = some query.take;
        skip = query.skip;
      } in
      done
        (record {
          items = P.client.payment_intent.find_many (listed w username query.status) page w.intents;
          total = P.client.payment_intent.count (listed w username query.status) w.intents;
          take = query.take;
          skip = query.skip;
        })
        w

  unfoldable pub find_one : String → String → M (World P.client) PaymentIntentView
  find_one username id = do intent ← load_owned P username id; with_qr P intent

  unfoldable pub assert_owned : String → String → M (World P.client) (Unit {0})
  assert_owned username id = do row ← load_owned P username id; pure tt

  unfoldable pub update :
      String → String → UpdatePaymentIntentDto → M (World P.client) PaymentIntentView
  update username id dto = do
    assert_owned username id
    updated ← update_intent P.client id (patched dto)
    emit P.client username (update_event dto.status) updated
    with_qr P updated

  -- `existing?.status === 'SUCCEEDED'`
  abbrev pub is_paid : World P.client → String → Bool
  is_paid w id = elim (P.client.payment_intent.get id w.intents) [
    | none ↦ false
    | some r ↦ status_eq r.status succeeded
  ]

  unfoldable pub delete_intent : String → M (World P.client) PaymentIntent
  delete_intent id w =
      if is_paid w id
      then fail (bad_request "A paid payment intent cannot be deleted.") w
      else elim (P.client.payment_intent.delete id w.intents) [
        | none ↦ fail not_found_error w
        | some (r, t) ↦ done r (record w { intents = t })
      ]

  -- The id of the answer `{ id, deleted: true }`.
  unfoldable pub remove : String → String → M (World P.client) String
  remove username id = do
    assert_owned username id
    deleted ← delete_intent id
    emit P.client username payment_intent_deleted deleted
    pure id
