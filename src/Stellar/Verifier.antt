-- ===== src/Stellar/Verifier.antt =====
-- src/payment-intents/stellar-verifier.service.ts.
pub mod Settles
pub mod Sound
pub mod Scan
use comos_pay_community_serv.Base.{
  ℕ, String, ◌<>◌, Bool, true, false, not, ◌&&◌, ◌||◌, Option, none, some, List, [], ◌∷◌, ◌==◌,
  find, coalesce, if◌then◌else◌, Exception, unexpected, Outcome, value, raised, option_eq,
}
use comos_pay_community_serv.Prisma.Schema.{PaymentIntent, same_value}
use comos_pay_community_serv.Stellar.Horizon.{
  Reply, found, absent, broken, TransactionRecord, OperationRecord, Horizon, Numbers,
}

pub record VerificationResult : Type 0 where
  pub valid : Bool
  pub tx_hash : Option String
  pub reason : Option String
  pub payer : Option String

abbrev pub invalid : String → VerificationResult
invalid reason = record { valid = false; tx_hash = none; reason = some reason; payer = none }

abbrev pub confirmed : String → String → VerificationResult
confirmed hash payer = record {
  valid = true;
  tx_hash = some hash;
  reason = none;
  payer = some payer;
}

abbrev pub failed_on_chain : String
failed_on_chain = "Transaction failed on-chain"

abbrev pub no_payment : String
no_payment = "No native payment in this transaction matches the destination/amount"

abbrev pub mismatch : PaymentIntent → String
mismatch intent = "Memo mismatch (expected id memo \"" <> (intent.memo <> "\")")

-- `null` is a match; otherwise the reason.
unfoldable pub memo_matches : PaymentIntent → Option String → Option String → Option String
memo_matches intent memo_type memo =
    if not (option_eq memo_type (some "id")) || not (coalesce memo "" == intent.memo)
    then some (mismatch intent)
    else none

-- `intent.amount != null && Number(p.amount) !== Number(intent.amount)`, negated.
abbrev pub amount_ok : Numbers → Option String → String → Bool
amount_ok N none paid = true
amount_ok N (some amount) paid = N.same (N.number paid) (N.number amount)

abbrev pub asset_ok : PaymentIntent → OperationRecord → Bool
asset_ok intent p =
    if intent.asset == "native"
    then p.asset_type == "native"
    else same_value p.asset_code (some intent.asset)
      && same_value p.asset_issuer intent.asset_issuer

unfoldable pub payment_matches : Numbers → PaymentIntent → OperationRecord → Bool
payment_matches N intent p =
    if not (p.type == "payment")
    then false
    else if not (p.to == intent.destination)
    then false
    else if not (asset_ok intent p)
    then false
    else if not (amount_ok N intent.amount p.amount)
    then false
    else true

-- The tests of the scan on the transaction that owns a matching payment.
abbrev pub confirms : PaymentIntent → TransactionRecord → Bool
confirms intent t = elim (memo_matches intent t.memo_type t.memo) [
  | some _ ↦ false
  | none ↦ t.successful
]

module _ (H : Horizon) (N : Numbers) where
  unfoldable pub verify_payments : PaymentIntent → String → Outcome VerificationResult
  verify_payments intent hash = elim (H.payments_for_transaction intent.network hash) [
    | found records ↦ elim (find (payment_matches N intent) records) [
      | none ↦ value (invalid no_payment)
      | some p ↦ value (confirmed hash p.from)
    ]
    | absent ↦ raised (unexpected "Not Found")
    | broken e ↦ raised (unexpected e)
  ]

  unfoldable pub verify_transaction :
      PaymentIntent → String → TransactionRecord → Outcome VerificationResult
  verify_transaction intent hash t =
      if not t.successful
      then value (invalid failed_on_chain)
      else elim (memo_matches intent t.memo_type t.memo) [
        | some reason ↦ value (invalid reason)
        | none ↦ verify_payments intent hash
      ]

  unfoldable pub verify_by_hash : PaymentIntent → String → Outcome VerificationResult
  verify_by_hash intent hash = elim (H.transaction intent.network hash) [
    | found t ↦ verify_transaction intent hash t
    | absent ↦ value (invalid "Transaction not found on-chain")
    | broken e ↦ raised (unexpected e)
  ]

  -- The loop of `findMatchingPayment`.
  unfoldable pub scan : PaymentIntent → List OperationRecord → Outcome VerificationResult
  scan intent [] = value (invalid "No matching payment found yet")
  scan intent (p ∷ records) =
      let rest = scan intent records in
      if not (payment_matches N intent p)
      then rest
      else elim (H.transaction intent.network p.transaction_hash) [
        | found t ↦ if confirms intent t then value (confirmed p.transaction_hash p.from) else rest
        | absent ↦ raised (unexpected "Not Found")
        | broken e ↦ raised (unexpected e)
      ]

  unfoldable pub find_matching_payment : PaymentIntent → ℕ → Outcome VerificationResult
  find_matching_payment intent limit =
      elim (H.payments_for_account intent.network intent.destination limit) [
        | found records ↦ scan intent records
        | absent ↦ value (invalid "Destination account not found")
        | broken e ↦ raised (unexpected e)
      ]
