-- ===== src/Intents/Settle/Validate.antt =====
-- What the manual validation of an intent may do to it.
use comos_pay_community_serv.Base.{
  String, Bool, true, false, Option, some, List, [], ◌∷◌, ◌≡◌, ◌≢◌, inl, inr, refl, arith,
  option_eq, option_eq_iff, done, lift, ◌>>=◌, Bool-cases, Option-cases, value, raised, Outcome,
  subst, sym,
}
use comos_pay_community_serv.Prisma.Schema.{
  PaymentIntent, succeeded, failed, status_eq, status_eq-true, status_eq-false,
  payment_intent_succeeded, payment_intent_failed,
}
use comos_pay_community_serv.Prisma.Client.{IsLawfulClient}
use comos_pay_community_serv.Stellar.Horizon.{found, TransactionRecord, OperationRecord}
use comos_pay_community_serv.Stellar.Verifier.{VerificationResult, failed_on_chain, verify_by_hash}
use comos_pay_community_serv.Stellar.Verifier.Settles.{IsSettled}
use comos_pay_community_serv.Stellar.Verifier.Sound.{
  verify_by_hash_sound, verify_by_hash_failed_iff,
}
use comos_pay_community_serv.Platform.{Platform, World, Supply}
use comos_pay_community_serv.Intents.Store.{with_qr}
use comos_pay_community_serv.Intents.Store.Owned.{IsOwned, load_owned-cases}
use comos_pay_community_serv.Intents.Settle.{
  ValidationOutcome, settled, has_source, conclude, validate, settle_paid, settle_failed,
  validate_intent,
}
use comos_pay_community_serv.Intents.Settle.Marks.{
  Replaces, event, mark_succeeded-Marked, mark_failed-Marked,
}

module _ (P : Platform) where
  -- How a validation of `intent` by the transaction `hash` may end, from `w` in `w'`.
  pub data Verdict (username : String) (intent : PaymentIntent) (hash : String)
      (out : ValidationOutcome) (w w' : World P.client) : Type 0 where
    -- A paid intent stays as it is.
    already_paid :
        intent.status ≡ succeeded
        → w' ≡ w
        → out.valid ≡ true
        → out.status ≡ succeeded
        → Verdict username intent hash out w w'
    -- The transaction settles the intent on the chain, by one of its own payments.
    settles :
        (records : List OperationRecord) (payer : String) (filled : Bool)
        → intent.status ≢ succeeded
        → P.horizon.payments_for_transaction intent.network hash ≡ found records
        → IsSettled P.horizon P.numbers intent records hash payer
        → Replaces P.client intent.id intent
            (settled P hash (some payer) filled intent)
            (event username payment_intent_succeeded (settled P hash (some payer) filled intent)
              ∷ [])
            w
            w'
        → out.valid ≡ true
        → out.status ≡ succeeded
        → Verdict username intent hash out w w'
    -- The transaction failed on the chain.
    fails :
        (t : TransactionRecord) (new : PaymentIntent)
        → intent.status ≢ succeeded
        → P.horizon.transaction intent.network hash ≡ found t
        → t.successful ≡ false
        → new.status ≡ failed
        → Replaces P.client intent.id intent new
            (event username payment_intent_failed new ∷ [])
            w
            w'
        → out.valid ≡ false
        → out.status ≡ failed
        → Verdict username intent hash out w w'
    -- Any other mismatch leaves everything untouched.
    rejects :
        intent.status ≢ succeeded
        → w' ≡ w
        → out.valid ≡ false
        → out.status ≡ intent.status
        → Verdict username intent hash out w w'

module _ (P : Platform) (law : IsLawfulClient P.client) where
  settle_paid-Replaces :
      (s : Supply) (id username hash : String) (payer : Option String) (out : ValidationOutcome)
      (w w' : World P.client)
      → settle_paid P s id username hash payer w ≡ done out w'
      → let new = settled P hash payer (has_source P w id) in
        (old : PaymentIntent) × Replaces P.client id old
          (new old)
          (event username payment_intent_succeeded (new old) ∷ [])
          w
          w'
        × (out.valid ≡ true)
        × (out.status ≡ succeeded)
  unfolding settle_paid with_qr
  settle_paid-Replaces s id username hash payer out w w' h =
      elim (mark_succeeded-Marked P law s id username hash payer w) [
        | inl (x, e) ↦ absurd (ground arith)
        | inr (old, v, e, k) ↦
            elim (Option-cases (P.qr (settled P hash payer (has_source P w id) old).uri)) [
              | inl q ↦ absurd (ground arith)
              | inr (code, q) ↦ (
                old,
                subst (Replaces P.client id old _ _ w) (ground arith) k,
                ground arith,
                ground arith,
              )
            ]
      ]

  settle_failed-Replaces :
      (id username hash : String) (reason : Option String) (out : ValidationOutcome)
      (w w' : World P.client)
      → settle_failed P id username hash reason w ≡ done out w'
      → (old new : PaymentIntent) × Replaces P.client id old new
          (event username payment_intent_failed new ∷ [])
          w
          w'
        × (new.status ≡ failed)
        × (out.valid ≡ false)
        × (out.status ≡ failed)
  unfolding settle_failed with_qr
  settle_failed-Replaces id username hash reason out w w' h =
      elim (mark_failed-Marked P law id username (some hash) w) [
        | inl (x, e) ↦ absurd (ground arith)
        | inr (old, v, e, k) ↦ elim (Option-cases (P.qr old.uri)) [
          | inl q ↦ absurd (ground arith)
          | inr (code, q) ↦ (
            old,
            _,
            subst (Replaces P.client id old _ _ w) (ground arith) k,
            refl,
            ground arith,
            ground arith,
          )
        ]
      ]

  conclude-Verdict :
      (s : Supply) (username hash : String) (intent : PaymentIntent) (r : VerificationResult)
      (out : ValidationOutcome) (w w' : World P.client)
      → P.client.payment_intent.get intent.id w.intents ≡ some intent
      → intent.status ≢ succeeded
      → verify_by_hash P.horizon P.numbers intent hash ≡ value r
      → conclude P s username intent hash r w ≡ done out w'
      → Verdict P username intent hash out w w'
  unfolding conclude
  conclude-Verdict s username hash intent r out w w' there unpaid v h = elim (Bool-cases r.valid) [
    | inl good ↦
        let (records, payer, paid, on_chain, same) =
          verify_by_hash_sound P.horizon P.numbers intent hash r v good in
        let (old, k, t, u) =
          settle_paid-Replaces s intent.id username hash (some payer) out w w'
            (subst (λ q. conclude P s username intent hash q w ≡ done out w') same h) in
        let e : old ≡ intent = cc (k.before, there) in
        settles records payer (has_source P w intent.id) unpaid paid on_chain
          (subst
            (λ q.
              let new = settled P hash (some payer) (has_source P w intent.id) q in
              Replaces P.client intent.id q new (event username payment_intent_succeeded new ∷ []) w
                w')
            e k)
          t u
    | inr bad ↦ elim (Bool-cases (option_eq r.reason (some failed_on_chain))) [
      | inl broken ↦
          let (t, e, f) =
            (verify_by_hash_failed_iff P.horizon P.numbers intent hash).0
              (r, v, (option_eq_iff r.reason (some failed_on_chain)).0 broken) in
          let (old, new, k, st, x, y) =
            settle_failed-Replaces intent.id username hash r.reason out w w' (ground arith) in
          let same : old ≡ intent = cc (k.before, there) in
          fails t new unpaid e f st
            (subst
              (λ q.
                Replaces P.client intent.id q new (event username payment_intent_failed new ∷ []) w
                  w')
              same k)
            x y
      | inr other ↦ rejects unpaid (ground arith) (ground arith) (ground arith)
    ]
  ]

  unpaid-Verdict :
      (s : Supply) (username hash : String) (intent : PaymentIntent) (out : ValidationOutcome)
      (w w' : World P.client) (o : Outcome VerificationResult)
      → P.client.payment_intent.get intent.id w.intents ≡ some intent
      → intent.status ≢ succeeded
      → verify_by_hash P.horizon P.numbers intent hash ≡ o
      → (lift o >>= conclude P s username intent hash) w ≡ done out w'
      → Verdict P username intent hash out w w'
  unpaid-Verdict s username hash intent out w w' (value r) here unpaid v k =
      conclude-Verdict s username hash intent r out w w' here unpaid v k
  unpaid-Verdict s username hash intent out w w' (raised x) here unpaid v k = absurd (ground arith)

  validate_intent-Verdict :
      (s : Supply) (username hash : String) (intent : PaymentIntent) (out : ValidationOutcome)
      (w w' : World P.client)
      → P.client.payment_intent.get intent.id w.intents ≡ some intent
      → validate_intent P s username intent hash w ≡ done out w'
      → Verdict P username intent hash out w w'
  unfolding validate_intent with_qr
  validate_intent-Verdict s username hash intent out w w' here h =
      elim (Bool-cases (status_eq intent.status succeeded)) [
        | inl paid ↦
            already_paid (status_eq-true intent.status succeeded paid) (ground arith) (ground arith)
              (ground arith)
        | inr unpaid ↦
            unpaid-Verdict s username hash intent out w w' _ here
              (status_eq-false intent.status succeeded unpaid) refl
              (rw (unpaid, validate_intent) at h)
      ]

  -- A validation that returns is of an intent of the caller, and ends in one of four ways: the
  -- intent was paid before and nothing changes; the transaction settles it on the chain by one of
  -- its own payments, and it becomes SUCCEEDED; the transaction failed on the chain, and it becomes FAILED; or nothing
  -- changes. Where it is written, no other intent changes and one event is emitted.
  pub validate-Verdict :
      (s : Supply) (username id hash : String) (out : ValidationOutcome) (w w' : World P.client)
      → validate P s username id hash w ≡ done out w'
      → (intent : PaymentIntent) × IsOwned P w username id intent
        × Verdict P username intent hash out w w'
  unfolding validate
  validate-Verdict s username id hash out w w' h = elim (load_owned-cases P law username id w) [
    | inr (foreign, e) ↦ absurd (ground arith)
    | inl (intent, (there, own), e) ↦
        let key : intent.id ≡ id = law.payment_intent.key-get id w.intents intent there in
        let here : P.client.payment_intent.get intent.id w.intents ≡ some intent =
          subst (λ k. P.client.payment_intent.get k w.intents ≡ some intent) (sym key) there in
        (
          intent,
          (there, own),
          validate_intent-Verdict s username hash intent out w w' here (rw (e, ◌>>=◌) at h),
        )
  ]
