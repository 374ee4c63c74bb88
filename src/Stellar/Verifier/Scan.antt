-- ===== src/Stellar/Verifier/Scan.antt =====
-- The scan of `findMatchingPayment` against the payments listed.
use comos_pay_community_serv.Base.{
  ℕ, String, true, List, [], ◌∷◌, Memᴰ, ◌≡◌, inl, inr, refl, arith, Bool-cases, value, All, subst,
}
use comos_pay_community_serv.Prisma.Schema.{PaymentIntent}
use comos_pay_community_serv.Stellar.Horizon.{
  found, Reply-cases, TransactionRecord, OperationRecord, Horizon, Numbers,
}
use comos_pay_community_serv.Stellar.Verifier.{
  VerificationResult, confirmed, payment_matches, confirms, scan, find_matching_payment,
}
use comos_pay_community_serv.Stellar.Verifier.Settles.{
  Pays, IsSettled, payment_matches_iff, memo_matches_iff,
}

module _ (H : Horizon) (N : Numbers) (intent : PaymentIntent) where
  IsSettled-cons :
      {p : OperationRecord} {records : List OperationRecord} {hash payer : String}
      → IsSettled H N intent records hash payer
      → IsSettled H N intent (p ∷ records) hash payer
  IsSettled-cons s = record {
    transaction = s.transaction;
    on_chain = s.on_chain;
    successful = s.successful;
    carries = s.carries;
    payment = s.payment;
    listed = Memᴰ.tail s.listed;
    pays = s.pays;
    from = s.from;
  }

  confirms-IsSettled :
      (p : OperationRecord) (records : List OperationRecord) (t : TransactionRecord)
      → payment_matches N intent p ≡ true
      → H.transaction intent.network p.transaction_hash ≡ found t
      → confirms intent t ≡ true
      → IsSettled H N intent (p ∷ records) p.transaction_hash p.from
  confirms-IsSettled p records t m e c = record {
    transaction = t;
    on_chain = e;
    successful = ground arith;
    carries = (memo_matches_iff intent t).0 (ground arith);
    payment = p;
    listed = Memᴰ.head refl;
    pays = (payment_matches_iff N intent p).0 m;
    from = refl;
  }

  scan_sound :
      (records : List OperationRecord) (r : VerificationResult)
      → scan H N intent records ≡ value r
      → r.valid ≡ true
      → (hash payer : String) × (s : IsSettled H N intent records hash payer)
        × (s.payment.transaction_hash ≡ hash)
        × (r ≡ confirmed hash payer)
  unfolding scan confirms-IsSettled IsSettled-cons
  scan_sound [] r h v = absurd (ground arith)
  scan_sound (p ∷ records) r h v = elim (Bool-cases (payment_matches N intent p)) [
    | inr off ↦
        let (hash, payer, s, own, e) = scan_sound records r (ground arith) v in
        (hash, payer, IsSettled-cons s, own, e)
    | inl hit ↦ elim (Reply-cases (H.transaction intent.network p.transaction_hash)) [
      | inl (t, found_t) ↦ elim (Bool-cases (confirms intent t)) [
        | inl good ↦ (
          p.transaction_hash,
          p.from,
          confirms-IsSettled p records t hit found_t good,
          refl,
          ground arith,
        )
        | inr bad ↦
            let (hash, payer, s, own, e) = scan_sound records r (ground arith) v in
            (hash, payer, IsSettled-cons s, own, e)
      ]
      | inr (inl e) ↦ absurd (ground arith)
      | inr (inr (x, e)) ↦ absurd (ground arith)
    ]
  ]

  -- What the scan confirms is settled on the chain by one of the newest payments to the destination
  -- that Horizon lists: the result names that payment's own transaction and its payer.
  pub find_matching_payment_sound :
      (limit : ℕ) (r : VerificationResult)
      → find_matching_payment H N intent limit ≡ value r
      → r.valid ≡ true
      → (records : List OperationRecord) × (hash payer : String) × (H.payments_for_account
            intent.network intent.destination limit
          ≡ found records)
        × (s : IsSettled H N intent records hash payer) × (s.payment.transaction_hash ≡ hash)
        × (r ≡ confirmed hash payer)
  unfolding find_matching_payment
  find_matching_payment_sound limit r h v =
      elim (Reply-cases (H.payments_for_account intent.network intent.destination limit)) [
        | inl (records, e) ↦
            let (hash, payer, s, own, same) = scan_sound records r (ground arith) v in
            (records, hash, payer, e, s, own, same)
        | inr (inl e) ↦ absurd (ground arith)
        | inr (inr (x, e)) ↦ absurd (ground arith)
      ]

  -- A listed payment and its transaction settle the intent.
  Settling : OperationRecord → Type 0
  Settling p =
      (t : TransactionRecord) × (payment_matches N intent p ≡ true)
      × (H.transaction intent.network p.transaction_hash ≡ found t)
      × (confirms intent t ≡ true)

  -- The transaction of every listed payment that matches can be read.
  abbrev pub IsReadable : OperationRecord → Type 0
  IsReadable p =
      Pays N intent p
      → (t : TransactionRecord) × (H.transaction intent.network p.transaction_hash ≡ found t)

  scan_complete :
      (records : List OperationRecord) (p : OperationRecord)
      → All IsReadable records
      → Memᴰ p records
      → Settling p
      → (hash payer : String) × (scan H N intent records ≡ value (confirmed hash payer))
  unfolding scan Settling
  scan_complete [] p readable m s = elim m [ ]
  scan_complete (q ∷ records) p readable (Memᴰ.head e) s =
      let (t, hit, there, good) = subst Settling e s in (q.transaction_hash, q.from, ground arith)
  scan_complete (q ∷ records) p (here, readable) (Memᴰ.tail m) s =
      let (hash, payer, e) = scan_complete records p readable m s in
      elim (Bool-cases (payment_matches N intent q)) [
        | inr off ↦ (hash, payer, ground arith)
        | inl hit ↦
            let (t, there) = here ((payment_matches_iff N intent q).0 hit) in
            elim (Bool-cases (confirms intent t)) [
              | inl good ↦ (q.transaction_hash, q.from, ground arith)
              | inr bad ↦ (hash, payer, ground arith)
            ]
      ]

  -- Where the transaction of each listed payment that pays the intent can be read, and one of the
  -- listed payments settles the intent by its own transaction, the scan confirms a transaction.
  pub find_matching_payment_complete :
      (limit : ℕ) (hash payer : String) (records : List OperationRecord)
      → H.payments_for_account intent.network intent.destination limit ≡ found records
      → All IsReadable records
      → (s : IsSettled H N intent records hash payer) → s.payment.transaction_hash ≡ hash
      → (h q : String) × (find_matching_payment H N intent limit ≡ value (confirmed h q))
  unfolding find_matching_payment Settling
  find_matching_payment_complete limit hash payer records e readable s own =
      let (h, q, same) = scan_complete records s.payment readable s.listed (
        s.transaction,
        (payment_matches_iff N intent s.payment).1 s.pays,
        rw own s.on_chain,
        ground (arith, (memo_matches_iff intent s.transaction).1 s.carries, s.successful),
      ) in
      (h, q, ground arith)
