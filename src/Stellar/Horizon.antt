-- ===== src/Stellar/Horizon.antt =====
-- What the service reads from a Horizon server through the Stellar SDK, and the numbers of
-- JavaScript as the verifier compares them. Neither is in this repository: both are parameters.
use comos_pay_community_serv.Base.{ℕ, String, Bool, Option, List, ◌≡◌, ◌⊎◌, inl, inr, refl}
use comos_pay_community_serv.Prisma.Schema.{StellarNetwork}

-- A call returns a value, throws an error whose response has status 404, or throws another error.
pub data Reply (A : Type 0) : Type 0 where
  found : A → Reply A
  absent : Reply A
  broken : String → Reply A

pub Reply-cases :
    {A : Type 0} (r : Reply A)
    → ((a : A) × (r ≡ found a)) ⊎ ((r ≡ absent) ⊎ ((e : String) × (r ≡ broken e)))
Reply-cases (found a) = inl (a, refl)
Reply-cases absent = inr (inl refl)
Reply-cases (broken e) = inr (inr (e, refl))

-- `Horizon.ServerApi.TransactionRecord`, as far as it is read.
pub record TransactionRecord : Type 0 where
  pub successful : Bool
  pub memo_type : Option String
  pub memo : Option String

-- `Horizon.ServerApi.PaymentOperationRecord`; for another `type` the fields are not read.
pub record OperationRecord : Type 0 where
  pub type : String
  pub to : String
  pub from : String
  pub asset_type : String
  pub asset_code : Option String
  pub asset_issuer : Option String
  pub amount : String
  pub transaction_hash : String

pub record Horizon : Type 0 where
  -- `transactions().transaction(hash).call()`
  pub transaction : StellarNetwork → String → Reply TransactionRecord
  -- `payments().forTransaction(hash).call()`
  pub payments_for_transaction : StellarNetwork → String → Reply (List OperationRecord)
  -- `payments().forAccount(account).order('desc').limit(n).call()`
  pub payments_for_account : StellarNetwork → String → ℕ → Reply (List OperationRecord)

-- `Number(text)` and `===` on its results.
pub record Numbers : Type 1 where
  pub Number : Type 0
  pub number : String → Number
  pub same : Number → Number → Bool
