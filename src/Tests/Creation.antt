-- ===== src/Tests/Creation.antt =====
-- The theorems on the creation and the validation of intents, at the small platform.
use comos_pay_community_serv.Base.{
  true, none, some, [], ◌∷◌, ◌≡◌, ◌⊎◌, refl, arith, done, value, world, String, inl,
}
use comos_pay_community_serv.Prisma.Schema.{
  PaymentIntent, succeeded, payment_intent_created, same_memo,
}
use comos_pay_community_serv.Prisma.Client.{memory_client, memory_client-IsLawfulClient}
use comos_pay_community_serv.Prisma.Memory.{memory_table, get}
use comos_pay_community_serv.Platform.{update_intent, resolve_consumer, World}
use comos_pay_community_serv.Platform.Tenants.{HasUniqueConsumers}
use comos_pay_community_serv.Intents.Memo.Decimal.{drawn_memo}
use comos_pay_community_serv.Intents.Resolve.{ResolvedAsset, resolve_asset}
use comos_pay_community_serv.Stellar.Verifier.{
  verify_by_hash, verify_transaction, memo_matches, verify_payments, payment_matches,
}
use comos_pay_community_serv.Intents.Memo.{resolve_memo, is_numeric, big_int}
use comos_pay_community_serv.Intents.Store.{
  load_owned, find_by_memo, persist, with_qr, PaymentIntentView,
}
use comos_pay_community_serv.Intents.Store.Owned.{IsOwned}
use comos_pay_community_serv.Intents.Settle.{
  validate_intent, conclude, settle_paid, mark_succeeded, ValidationOutcome, validate,
}
use comos_pay_community_serv.Intents.Settle.Validate.{Verdict, validate-Verdict}
use comos_pay_community_serv.Intents.Settle.Marks.{event}
use comos_pay_community_serv.Intents.Create.{
  create_with, prepare, unless_existing, CreatePayPaymentIntentDto, CreateTxPaymentIntentDto, store,
  pay_draft, create_pay,
}
use comos_pay_community_serv.Intents.Create.Race.{stamped, IsStored, store-cases}
use comos_pay_community_serv.Intents.Create.Answer.{HasUniqueIntents}
use comos_pay_community_serv.Intents.Create.Repeats.{Repeats, create_idempotent}
use comos_pay_community_serv.Tests.{platform, order, world_with, empty_world, supply, shop_key}

abbrev draft : PaymentIntent
draft = record order { expires_at = none }

abbrev stored_draft : PaymentIntent
stored_draft = stamped platform supply draft

abbrev after_store : World memory_client
unfolding memory_table
after_store = record (world_with (stored_draft ∷ [])) {
  bus = event "shop" payment_intent_created stored_draft ∷ [];
}

stores_draft :
    store platform supply "shop" draft (world_with [])
    ≡ done (record { intent = stored_draft; qr = draft.uri }) after_store
unfolding memory_table store persist with_qr
stores_draft = refl

store-cases_example :
    ((stored_draft ≡ stamped platform supply draft)
      × IsStored platform supply "shop" draft (world_with []) after_store)
    ⊎ ((after_store ≡ world_with [])
        × (memory_client.payment_intent.get "i1" (world_with []).intents ≡ some stored_draft)
        × (same_memo stored_draft draft ≡ true))
store-cases_example =
    store-cases platform memory_client-IsLawfulClient supply "shop" draft (world_with [])
      after_store (record { intent = stored_draft; qr = draft.uri }) stores_draft

abbrev after_validation : World memory_client
after_validation = world (validate platform supply "shop" "i1" "paid" (world_with (order ∷ [])))

abbrev settled_order : PaymentIntent
settled_order = record order { status = succeeded; tx_hash = some "paid"; source = some "PAYER" }

abbrev outcome : ValidationOutcome
outcome = record {
  valid = true;
  status = succeeded;
  reason = none;
  payment_intent = some (record { intent = settled_order; qr = order.uri });
}

validates :
    validate platform supply "shop" "i1" "paid" (world_with (order ∷ []))
    ≡ done outcome after_validation
unfolding memory_table get validate load_owned validate_intent verify_by_hash verify_transaction
    memo_matches verify_payments payment_matches conclude settle_paid mark_succeeded update_intent
    with_qr
validates = refl

validate-Verdict_example :
    (intent : PaymentIntent) × IsOwned platform (world_with (order ∷ [])) "shop" "i1" intent
    × Verdict platform "shop" intent "paid" outcome (world_with (order ∷ [])) after_validation
validate-Verdict_example =
    validate-Verdict platform memory_client-IsLawfulClient supply "shop" "i1" "paid" outcome
      (world_with (order ∷ [])) after_validation validates

abbrev pay_dto : CreatePayPaymentIntentDto
pay_dto = record {
  destination = "SHOP";
  amount = some "5";
  asset_code = none;
  asset_issuer = none;
  memo = some "7";
  msg = none;
  callback = none;
}

abbrev tx_dto : CreateTxPaymentIntentDto
tx_dto = record {
  source = "PAYER";
  destination = "SHOP";
  amount = "9";
  asset_code = none;
  asset_issuer = none;
  memo = some "7";
  msg = none;
  callback = none;
}

abbrev native : ResolvedAsset
native = record { code = "native"; issuer = none }

resolves_native : resolve_asset platform none none ≡ value native
unfolding resolve_asset
resolves_native = refl

no_consumers : HasUniqueConsumers memory_client empty_world
unfolding memory_table get
no_consumers i j q r a b t = absurd (ground arith)

no_intents : HasUniqueIntents platform empty_world
unfolding memory_table get
no_intents i j q r a b t = absurd (ground arith)

abbrev after_creation : World memory_client
after_creation = world (create_pay platform supply shop_key pay_dto empty_world)

abbrev created : PaymentIntent
created = record (pay_draft platform supply shop_key pay_dto "c9" native "7") {
  expires_at = some 60500;
}

abbrev view : PaymentIntentView
view = record { intent = created; qr = created.uri }

creates : create_pay platform supply shop_key pay_dto empty_world ≡ done view after_creation
unfolding memory_table get create_pay create_with prepare resolve_consumer resolve_asset
    resolve_memo is_numeric big_int unless_existing find_by_memo store persist with_qr pay_draft
creates = refl

create_idempotent_example :
    Repeats platform memory_client-IsLawfulClient supply shop_key pay_dto tx_dto view after_creation
create_idempotent_example =
    create_idempotent platform memory_client-IsLawfulClient supply supply shop_key shop_key pay_dto
      pay_dto tx_dto tx_dto empty_world after_creation view "7" native native no_consumers
      no_intents (inl creates) refl refl refl refl refl resolves_native resolves_native

drawn_memo_example :
    (m : String) × (resolve_memo none 12 ≡ value m)
    × (big_int m ≡ 12)
    × (resolve_memo (some m) 5 ≡ value m)
drawn_memo_example = drawn_memo 12 5 (omega arith)
