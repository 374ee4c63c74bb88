-- ===== src/Stellar/Verifier/Settles.antt =====
-- What it means that an on-chain payment fulfils an intent, stated without the verifier's code.
use Prim.Native.Char.{code}
use text.Mathlib.TextLemmas.{cons-append}
use comos_pay_community_serv.Base.{
  ℕ, String, ◌<>◌, true, Option, none, some, List, Memᴰ, ◌≡◌, ◌≢◌, ◌↔◌, ◌⊎◌, inl, inr, refl, ap,
  sym, arith, ◌==◌, eq_iff, coalesce, Bool-cases, eq_refl, option_eq_iff, ◌∙◌,
}
use comos_pay_community_serv.Prisma.Schema.{PaymentIntent, same_value}
use comos_pay_community_serv.Stellar.Horizon.{
  found, TransactionRecord, OperationRecord, Horizon, Numbers,
}
use comos_pay_community_serv.Stellar.Verifier.{
  memo_matches, mismatch, payment_matches, asset_ok, amount_ok,
}

-- The operation pays the intent's destination, in its asset, its amount if it fixes one.
pub record Pays (N : Numbers) (intent : PaymentIntent) (p : OperationRecord) : Type 0 where
  pub type : p.type ≡ "payment"
  pub to : p.to ≡ intent.destination
  pub asset :
      ((intent.asset ≡ "native") × (p.asset_type ≡ "native"))
      ⊎ ((issuer : String) × (intent.asset ≢ "native")
          × (p.asset_code ≡ some intent.asset)
          × (p.asset_issuer ≡ some issuer)
          × (intent.asset_issuer ≡ some issuer))
  pub amount :
      (intent.amount ≡ none)
      ⊎ ((fixed : String) × (intent.amount ≡ some fixed)
          × (N.same (N.number p.amount) (N.number fixed) ≡ true))

-- The transaction carries the intent's memo as an id memo.
pub record Carries (intent : PaymentIntent) (t : TransactionRecord) : Type 0 where
  pub memo_type : t.memo_type ≡ some "id"
  pub memo : coalesce t.memo "" ≡ intent.memo

-- The transaction `hash` settles the intent by one of `records`, paid by the account `payer`.
pub record IsSettled (H : Horizon) (N : Numbers) (intent : PaymentIntent)
    (records : List OperationRecord) (hash payer : String) : Type 0 where
  pub transaction : TransactionRecord
  pub on_chain : H.transaction intent.network hash ≡ found transaction
  pub successful : transaction.successful ≡ true
  pub carries : Carries intent transaction
  pub payment : OperationRecord
  pub listed : Memᴰ payment records
  pub pays : Pays N intent payment
  pub from : payment.from ≡ payer

-- The payment that settles is one that Horizon lists: under the transaction itself, or among the
-- newest to the destination, where it names the transaction.
pub data IsListed (H : Horizon) (N : Numbers) (intent : PaymentIntent) (hash payer : String)
    : Type 0 where
  of_transaction :
      (records : List OperationRecord)
      → H.payments_for_transaction intent.network hash ≡ found records
      → IsSettled H N intent records hash payer
      → IsListed H N intent hash payer
  of_account :
      (limit : ℕ) (records : List OperationRecord)
      → H.payments_for_account intent.network intent.destination limit ≡ found records
      → (s : IsSettled H N intent records hash payer) → s.payment.transaction_hash ≡ hash
      → IsListed H N intent hash payer

-- The two halves of `Pays` that a nullable column takes part in.
abbrev PaysAsset : PaymentIntent → OperationRecord → Type 0
PaysAsset intent p =
    ((intent.asset ≡ "native") × (p.asset_type ≡ "native"))
    ⊎ ((issuer : String) × (intent.asset ≢ "native")
        × (p.asset_code ≡ some intent.asset)
        × (p.asset_issuer ≡ some issuer)
        × (intent.asset_issuer ≡ some issuer))

abbrev PaysAmount : Numbers → Option String → String → Type 0
PaysAmount N amount paid =
    (amount ≡ none)
    ⊎ ((fixed : String) × (amount ≡ some fixed) × (N.same (N.number paid) (N.number fixed) ≡ true))

same_value-some :
    (a b : Option String) → same_value a b ≡ true → (s : String) × (a ≡ some s) × (b ≡ some s)
same_value-some none b h = cc
same_value-some (some a) none h = cc
same_value-some (some a) (some b) h = (a, refl, ap some (sym ((eq_iff a b).0 h)))

asset_ok_iff :
    (intent : PaymentIntent) (p : OperationRecord) → (asset_ok intent p ≡ true) ↔ PaysAsset intent p
asset_ok_iff intent p = (to, from)
  where
    to : asset_ok intent p ≡ true → PaysAsset intent p
    to h = elim (Bool-cases (intent.asset == "native")) [
      | inl e ↦
          inl ((eq_iff intent.asset "native").0 e, (eq_iff p.asset_type "native").0 (ground arith))
      | inr e ↦
          let (code, same, own) = same_value-some p.asset_code (some intent.asset) (ground arith) in
          let (issuer, theirs, ours) =
            same_value-some p.asset_issuer intent.asset_issuer (ground arith) in
          inr (
            issuer,
            (λ n. ground (arith, eq_iff intent.asset "native")),
            ground arith,
            theirs,
            ours,
          )
    ]

    from : PaysAsset intent p → asset_ok intent p ≡ true
    from (inl (native, paid)) =
        ground (arith, eq_iff intent.asset "native", eq_iff p.asset_type "native")
    from (inr (issuer, other, code, theirs, ours)) =
        ground (arith, eq_iff intent.asset "native", eq_refl intent.asset, eq_refl issuer)

amount_ok_iff :
    (N : Numbers) (amount : Option String) (paid : String)
    → (amount_ok N amount paid ≡ true) ↔ PaysAmount N amount paid
amount_ok_iff N none paid = (λ h. inl refl, λ h. refl)
amount_ok_iff N (some fixed) paid = (λ h. inr (fixed, refl, h), from)
  where
    from : PaysAmount N (some fixed) paid → amount_ok N (some fixed) paid ≡ true
    from (inl e) = cc
    from (inr (amount, e, same)) = ground arith

pub memo_matches_iff :
    (intent : PaymentIntent) (t : TransactionRecord)
    → (memo_matches intent t.memo_type t.memo ≡ none) ↔ Carries intent t
unfolding memo_matches
memo_matches_iff intent t =
    ground (arith, eq_iff (coalesce t.memo "") intent.memo, option_eq_iff t.memo_type (some "id"))

first_code : String → ℕ
first_code String.[] = 0
first_code (String.◌∷◌ c s) = code c

pub mismatch_other : (intent : PaymentIntent) → mismatch intent ≢ "Transaction failed on-chain"
unfolding first_code
mismatch_other intent h = omega (
  arith,
  ap first_code
      (sym h ∙ cons-append "M" "emo mismatch (expected id memo \"" (intent.memo <> "\")")),
)

-- The verifier's test on an operation is exactly `Pays`.
pub payment_matches_iff :
    (N : Numbers) (intent : PaymentIntent) (p : OperationRecord)
    → (payment_matches N intent p ≡ true) ↔ Pays N intent p
unfolding payment_matches
payment_matches_iff N intent p = (to, from)
  where
    to : payment_matches N intent p ≡ true → Pays N intent p
    to h = record {
      type = ground (arith, eq_iff p.type "payment");
      to = ground (arith, eq_iff p.to intent.destination);
      asset = (asset_ok_iff intent p).0 (ground arith);
      amount = (amount_ok_iff N intent.amount p.amount).0 (ground arith);
    }

    from : Pays N intent p → payment_matches N intent p ≡ true
    from h = ground (
      arith,
      eq_iff p.type "payment",
      eq_iff p.to intent.destination,
      (asset_ok_iff intent p).1 h.asset,
      (amount_ok_iff N intent.amount p.amount).1 h.amount,
    )
