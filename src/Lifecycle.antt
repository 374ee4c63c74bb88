-- ===== src/Lifecycle.antt =====
-- The life of one payment intent, as a state machine without the code: what an event of the
-- service may make of the row under an id, where Horizon knows the chain.
pub mod Evolves
pub mod Keeps
pub mod Creation
pub mod Writing
pub mod Events
pub mod Refines
pub mod Runs
use comos_pay_community_serv.Base.{
  String, Bool, true, false, Option, none, some, ◌≡◌, ◌≢◌, ◌⊎◌, refl, coalesce, truthy,
}
use comos_pay_community_serv.Prisma.Schema.{
  PaymentIntent, PaymentIntentStatus, pending, submitted, succeeded, failed, expired,
}
use comos_pay_community_serv.Stellar.Horizon.{Horizon, Numbers, TransactionRecord, found}
use comos_pay_community_serv.Stellar.Verifier.Settles.{IsListed}
use comos_pay_community_serv.Intents.Manage.{UpdatePaymentIntentDto}

-- What an intent is created as.
pub record IsNew (q : PaymentIntent) : Type 0 where
  pub status : q.status ≡ pending
  pub tx_hash : q.tx_hash ≡ none
  pub reference : q.reference ≡ none

module _ (H : Horizon) (N : Numbers) where
  -- What may become of an intent that stays. `edit` is the body of the PATCH, when there is one.
  pub data Changes (edit : Option UpdatePaymentIntentDto) (q q' : PaymentIntent) : Type 0 where
    unchanged : q' ≡ q → Changes edit q q'
    -- A transaction settles the intent on the chain. A source that stood is kept.
    settles :
        (hash payer : String) (source : Option String)
        → q.status ≢ succeeded
        → IsListed H N q hash payer
        → ((truthy q.source ≡ false) ⊎ (source ≡ q.source))
        → q' ≡ record q { status = succeeded; tx_hash = some hash; source = source }
        → Changes edit q q'
    -- A transaction failed on the chain.
    fails :
        (hash : String) (t : TransactionRecord) (shown : Option String)
        → q.status ≢ succeeded
        → H.transaction q.network hash ≡ found t
        → t.successful ≡ false
        → q' ≡ record q { status = failed; tx_hash = shown }
        → Changes edit q q'
    expires :
        (q.status ≡ pending) ⊎ (q.status ≡ submitted)
        → q' ≡ record q { status = expired }
        → Changes edit q q'
    edited :
        (dto : UpdatePaymentIntentDto)
        → edit ≡ some dto
        → q' ≡ record q {
          status = coalesce dto.status q.status;
          tx_hash = coalesce dto.tx_hash q.tx_hash;
          reference = coalesce dto.reference q.reference;
        }
        → Changes edit q q'

  -- The row before an event and after it.
  unfoldable pub Life :
      Option UpdatePaymentIntentDto → Option PaymentIntent → Option PaymentIntent → Type 0
  Life edit none none = Unit
  Life edit none (some q) = IsNew q
  Life edit (some q) none = q.status ≢ succeeded
  Life edit (some q) (some q') = Changes edit q q'

  pub Life-refl : (edit : Option UpdatePaymentIntentDto) (o : Option PaymentIntent) → Life edit o o
  unfolding Life
  Life-refl edit none = tt
  Life-refl edit (some q) = Changes.unchanged refl
