-- ===== src/Stellar/Verifier/Sound.antt =====
-- The verdicts of `verifyByHash` against what is on the chain.
use comos_pay_community_serv.Base.{
  String, true, false, none, some, List, Memᴰ, ◌≡◌, ◌≢◌, ◌↔◌, ◌⊎◌, inl, inr, refl, arith, find,
  find-some, find-none, Bool-cases, Option-cases, value, eq_iff,
}
use comos_pay_community_serv.Prisma.Schema.{PaymentIntent}
use comos_pay_community_serv.Stellar.Horizon.{
  found, Reply-cases, TransactionRecord, OperationRecord, Horizon, Numbers,
}
use comos_pay_community_serv.Stellar.Verifier.{
  VerificationResult, invalid, confirmed, failed_on_chain, memo_matches, payment_matches,
  verify_payments, verify_transaction, verify_by_hash, mismatch, no_payment,
}
use comos_pay_community_serv.Stellar.Verifier.Settles.{
  Pays, IsSettled, payment_matches_iff, memo_matches_iff, mismatch_other,
}

module _ (H : Horizon) (N : Numbers) (intent : PaymentIntent) where
  verify_payments_valid :
      (hash : String) (r : VerificationResult)
      → verify_payments H N intent hash ≡ value r
      → r.valid ≡ true
      → (records : List OperationRecord) × (p : OperationRecord) × (H.payments_for_transaction
            intent.network hash
          ≡ found records)
        × Memᴰ p records
        × Pays N intent p
        × (r ≡ confirmed hash p.from)
  unfolding verify_payments
  verify_payments_valid hash r h v =
      elim (Reply-cases (H.payments_for_transaction intent.network hash)) [
        | inl (records, e) ↦ elim (Option-cases (find (payment_matches N intent) records)) [
          | inl miss ↦ absurd (ground arith)
          | inr (p, hit) ↦
              let (m, t) = find-some (payment_matches N intent) records hit in
              (records, p, e, m, (payment_matches_iff N intent p).0 t, ground arith)
        ]
        | inr (inl e) ↦ absurd (ground arith)
        | inr (inr (x, e)) ↦ absurd (ground arith)
      ]

  -- What `verifyByHash` confirms is settled on the chain: the transaction succeeded and carries the
  -- memo of the intent, and one of its own payments pays the destination in the asset, and the
  -- amount where one is fixed. The result names the transaction and its payer.
  pub verify_by_hash_sound :
      (hash : String) (r : VerificationResult)
      → verify_by_hash H N intent hash ≡ value r
      → r.valid ≡ true
      → (records : List OperationRecord) × (payer : String) × (H.payments_for_transaction
            intent.network hash
          ≡ found records)
        × IsSettled H N intent records hash payer
        × (r ≡ confirmed hash payer)
  unfolding verify_by_hash verify_transaction
  verify_by_hash_sound hash r h v = elim (Reply-cases (H.transaction intent.network hash)) [
    | inl (t, e) ↦
        let there : verify_payments H N intent hash ≡ value r = ground arith in
        let silent : memo_matches intent t.memo_type t.memo ≡ none = ground arith in
        let (records, p, paid, m, pays, same) = verify_payments_valid hash r there v in
        (
          records,
          p.from,
          paid,
          record {
            transaction = t;
            on_chain = e;
            successful = ground arith;
            carries = (memo_matches_iff intent t).0 silent;
            payment = p;
            listed = m;
            pays = pays;
            from = refl;
          },
          same,
        )
    | inr (inl e) ↦ absurd (ground arith)
    | inr (inr (x, e)) ↦ absurd (ground arith)
  ]

  -- A transaction of which a payment settles the intent is confirmed.
  pub verify_by_hash_complete :
      (hash payer : String) (records : List OperationRecord)
      → H.payments_for_transaction intent.network hash ≡ found records
      → IsSettled H N intent records hash payer
      → (q : String) × (verify_by_hash H N intent hash ≡ value (confirmed hash q))
  unfolding verify_by_hash verify_transaction verify_payments
  verify_by_hash_complete hash payer records paid s =
      elim (Option-cases (find (payment_matches N intent) records)) [
        | inl miss ↦ absurd (
            ground (
              arith,
              find-none (payment_matches N intent) records miss s.listed,
              (payment_matches_iff N intent s.payment).1 s.pays,
            ))
        | inr (p, hit) ↦ (
          p.from,
          ground (
            arith,
            (memo_matches_iff intent s.transaction).1 s.carries,
            s.on_chain,
            s.successful,
          ),
        )
      ]

  other_reason : failed_on_chain ≢ no_payment
  other_reason = ground (arith, eq_iff failed_on_chain no_payment)

  verify_payments_reason :
      (hash : String) (r : VerificationResult)
      → verify_payments H N intent hash ≡ value r
      → (r.reason ≡ none) ⊎ (r.reason ≡ some no_payment)
  unfolding verify_payments
  verify_payments_reason hash r h = ground arith

  memo_reason :
      (t : TransactionRecord) (reason : String)
      → memo_matches intent t.memo_type t.memo ≡ some reason
      → reason ≡ mismatch intent
  unfolding memo_matches
  memo_reason t reason h = ground arith

  verify_transaction_failed :
      (hash : String) (t : TransactionRecord) (r : VerificationResult)
      → verify_transaction H N intent hash t ≡ value r
      → r.reason ≡ some failed_on_chain
      → t.successful ≡ false
  unfolding verify_transaction
  verify_transaction_failed hash t r h w = elim (Bool-cases t.successful) [
    | inl good ↦ elim (Option-cases (memo_matches intent t.memo_type t.memo)) [
      | inl e ↦ absurd (ground (arith, verify_payments_reason hash r (ground arith), other_reason))
      | inr (x, e) ↦ absurd (ground (arith, memo_reason t x e, mismatch_other intent))
    ]
    | inr bad ↦ bad
  ]

  -- `verifyByHash` reports a failure on the chain exactly when the transaction is there and failed.
  pub verify_by_hash_failed_iff :
      (hash : String)
      → ((r : VerificationResult) × (verify_by_hash H N intent hash ≡ value r)
          × (r.reason ≡ some failed_on_chain))
        ↔ ((t : TransactionRecord) × (H.transaction intent.network hash ≡ found t)
            × (t.successful ≡ false))
  unfolding verify_by_hash verify_transaction
  verify_by_hash_failed_iff hash = (to, λ (t, e, f). (invalid failed_on_chain, ground arith, refl))
    where
      to :
          ((r : VerificationResult) × (verify_by_hash H N intent hash ≡ value r)
            × (r.reason ≡ some failed_on_chain))
          → (t : TransactionRecord) × (H.transaction intent.network hash ≡ found t)
            × (t.successful ≡ false)
      to (r, h, w) = elim (Reply-cases (H.transaction intent.network hash)) [
        | inl (t, e) ↦ (t, e, verify_transaction_failed hash t r (ground arith) w)
        | inr (inl e) ↦
            absurd (ground (arith, eq_iff failed_on_chain "Transaction not found on-chain"))
        | inr (inr (x, e)) ↦ absurd (ground arith)
      ]
