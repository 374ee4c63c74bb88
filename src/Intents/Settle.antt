-- ===== src/Intents/Settle.antt =====
-- `markSucceeded`, `markFailed`, `markExpired`, `upsertCustomerFromPayment` and `validate` of
-- src/payment-intents/payment-intents.service.ts.
pub mod Marks
pub mod Validate
use Prim.Native.String
use comos_pay_community_serv.Base.{
  ℕ, suc, zero, ◌-◌, String, ◌<>◌, Bool, true, false, not, ◌&&◌, ◌||◌, Option, none, some, List, [],
  ◌∷◌, ◌++◌, ◌==◌, option_eq, truthy, coalesce, or_else, is_some, if◌then◌else◌, M, Run, done, fail,
  pure, throw, lift, best_effort, ◌>>=◌, ◌>>◌,
}
use comos_pay_community_serv.Prisma.Schema.{
  PaymentIntent, PaymentIntentStatus, succeeded, failed, expired, status_eq, Customer,
  payment_intent_succeeded, payment_intent_failed, payment_intent_updated,
}
use comos_pay_community_serv.Stellar.Verifier.{VerificationResult, failed_on_chain, verify_by_hash}
use comos_pay_community_serv.Platform.{Platform, World, Supply, update_intent, emit, unique_error}
use comos_pay_community_serv.Intents.Store.{PaymentIntentView, with_qr, load_owned}

pub record ValidationOutcome : Type 0 where
  pub valid : Bool
  pub status : PaymentIntentStatus
  pub reason : Option String
  pub payment_intent : Option PaymentIntentView

-- `text.slice(0, n)` and `text.slice(-n)`, by characters.
abbrev pub first_chars : ℕ → String → String
first_chars zero text = ""
first_chars (suc n) String.[] = ""
first_chars (suc n) (String.◌∷◌ c text) = String.◌∷◌ c (first_chars n text)

abbrev pub count_chars : String → ℕ
count_chars String.[] = 0
count_chars (String.◌∷◌ c text) = suc (count_chars text)

abbrev drop_chars : ℕ → String → String
drop_chars zero text = text
drop_chars (suc n) String.[] = ""
drop_chars (suc n) (String.◌∷◌ c text) = drop_chars n text

abbrev pub last_chars : ℕ → String → String
last_chars n text = drop_chars (count_chars text - n) text

-- The automatic customer of a payer.
abbrev pub auto_customer : Supply → PaymentIntent → String → Customer
auto_customer s intent account = record {
  id = s.customer_id;
  consumer_id = intent.consumer_id;
  name = first_chars 6 account <> ("…" <> last_chars 4 account);
  alias = none;
  email = none;
  account = some account;
  note = none;
  reference = some "auto";
  created_at = s.now;
}

module _ (P : Platform) where
  unfoldable pub create_customer : Supply → PaymentIntent → String → M (World P.client) (Unit {0})
  create_customer s intent account w =
      elim (P.client.customer.create (auto_customer s intent account) w.customers) [
        | none ↦ fail unique_error w
        | some t ↦ done tt (record w { customers = t })
      ]

  unfoldable pub customer_for :
      Supply → PaymentIntent → Option String → M (World P.client) (Unit {0})
  unfolding create_customer
  customer_for s intent none w = done tt w
  customer_for s intent (some account) w =
      if account == ""
      then done tt w
      else elim (P.client.customer.find_first
          (λ c. c.consumer_id == intent.consumer_id && option_eq c.account (some account))
          w.customers) [ some existing ↦ done tt w | none ↦ create_customer s intent account w ]

  unfoldable pub upsert_customer_from_payment :
      Supply → PaymentIntent → Option String → M (World P.client) (Unit {0})
  unfolding customer_for
  upsert_customer_from_payment s intent payer = customer_for s intent (or_else payer intent.source)

  -- `{ status: 'SUCCEEDED', txHash, ...setSource }`, where the payer fills an empty source.
  abbrev pub settle_source : Option String → Bool → Option String → Option String
  settle_source payer filled source = if truthy payer && not filled then payer else source

  abbrev pub settled : String → Option String → Bool → PaymentIntent → PaymentIntent
  settled hash payer filled r = record r {
    status = succeeded;
    tx_hash = some hash;
    source = settle_source payer filled r.source;
  }

  -- `current?.source` is truthy.
  abbrev pub has_source : World P.client → String → Bool
  has_source w id = elim (P.client.payment_intent.get id w.intents) [
    | none ↦ false
    | some r ↦ truthy r.source
  ]

  unfoldable pub mark_succeeded :
      Supply → String → String → String → Option String → M (World P.client) PaymentIntent
  mark_succeeded s id username hash payer w =
      (do
        updated ← update_intent P.client id (settled hash payer (has_source w id))
        emit P.client username payment_intent_succeeded updated
        best_effort (upsert_customer_from_payment s updated payer)
        pure updated)
        w

  unfoldable pub mark_failed : String → String → Option String → M (World P.client) PaymentIntent
  mark_failed id username hash = do
    updated ←
        update_intent P.client id
          (λ r. record r { status = failed; tx_hash = if truthy hash then hash else r.tx_hash })
    emit P.client username payment_intent_failed updated
    pure updated

  unfoldable pub mark_expired : String → String → M (World P.client) PaymentIntent
  mark_expired id username = do
    updated ← update_intent P.client id (λ r. record r { status = expired })
    emit P.client username payment_intent_updated updated
    pure updated

  -- The two branches of `validate` that settle the intent.
  unfoldable pub settle_paid :
      Supply → String → String → String → Option String → M (World P.client) ValidationOutcome
  settle_paid s id username hash payer = do
    updated ← mark_succeeded s id username hash payer
    view ← with_qr P updated
    pure (record { valid = true; status = succeeded; reason = none; payment_intent = some view })

  unfoldable pub settle_failed :
      String → String → String → Option String → M (World P.client) ValidationOutcome
  settle_failed id username hash reason = do
    updated ← mark_failed id username (some hash)
    view ← with_qr P updated
    pure (record { valid = false; status = failed; reason = reason; payment_intent = some view })

  -- What `validate` does with the verifier's answer.
  unfoldable pub conclude :
      Supply
      → String
      → PaymentIntent
      → String
      → VerificationResult
      → M (World P.client) ValidationOutcome
  conclude s username intent hash result =
      if result.valid
      then settle_paid s intent.id username (coalesce result.tx_hash hash) result.payer
      else if option_eq result.reason (some failed_on_chain)
      then settle_failed intent.id username hash result.reason
      else pure (record {
        valid = false;
        status = intent.status;
        reason = result.reason;
        payment_intent = none;
      })

  -- `validate` of an intent that is loaded.
  unfoldable pub validate_intent :
      Supply → String → PaymentIntent → String → M (World P.client) ValidationOutcome
  validate_intent s username intent hash =
      if status_eq intent.status succeeded
      then (do
        view ← with_qr P intent
        pure (record {
          valid = true;
          status = succeeded;
          reason = none;
          payment_intent = some view;
        }))
      else (do
        result ← lift (verify_by_hash P.horizon P.numbers intent hash)
        conclude s username intent hash result)

  unfoldable pub validate : Supply → String → String → String → M (World P.client) ValidationOutcome
  validate s username id hash = do
    intent ← load_owned P username id
    validate_intent s username intent hash
