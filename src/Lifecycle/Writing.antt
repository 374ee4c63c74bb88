-- ===== src/Lifecycle/Writing.antt =====
-- Validating, updating and removing an intent are steps of the state machine.
use comos_pay_community_serv.Lifecycle.{Changes, Life, Life-refl}
use comos_pay_community_serv.Lifecycle.Evolves.{
  Keeps, Keeps-bind, Lives, Evolves, Evolves-after, Evolves-before, Lives-Replaces, Lives-before,
  Lives-kept, Marked-Lives,
}
use comos_pay_community_serv.Intents.Manage.{
  update, remove, UpdatePaymentIntentDto, assert_owned, delete_intent, is_paid, patched,
  update_event,
}
use comos_pay_community_serv.Base.{
  Bool-cases, Option, Option-cases, Outcome, String, [], arith, eq_iff, false, inl, inr, lift, none,
  option_eq, pure, raised, refl, some, subst, sym, true, truthy, value, world, ◌==◌, ◌>>=◌, ◌>>◌,
  ◌≡◌, ◌≢◌, ◌⊎◌, option_eq_iff,
}
use comos_pay_community_serv.Prisma.Client.{IsLawfulClient}
use comos_pay_community_serv.Lifecycle.Keeps.{IsReader-Keeps, mapped}
use comos_pay_community_serv.Prisma.Schema.{
  PaymentIntent, WebhookEventType, payment_intent_deleted, status_eq, status_eq-false, succeeded,
}
use comos_pay_community_serv.Platform.{Platform, Supply, World, emit, update_intent}
use comos_pay_community_serv.Stellar.Verifier.{VerificationResult, failed_on_chain, verify_by_hash}
use comos_pay_community_serv.Intents.Settle.{
  conclude, has_source, mark_failed, mark_succeeded, settle_failed, settle_paid, settle_source,
  validate, validate_intent,
}
use comos_pay_community_serv.Intents.Store.{load_owned, with_qr}
use comos_pay_community_serv.Http.ReadOnly.{load_owned-IsReader}
use comos_pay_community_serv.Intents.Store.Owned.{load_owned-cases}
use comos_pay_community_serv.Intents.Settle.Marks.{
  mark_failed-Marked, mark_succeeded-Marked, update_intent-Replaces_or_fails,
}
use comos_pay_community_serv.Lifecycle.Creation.{with_qr-Keeps}
use comos_pay_community_serv.Stellar.Verifier.Settles.{IsListed, of_transaction}
use comos_pay_community_serv.Stellar.Horizon.{TransactionRecord, found}
use comos_pay_community_serv.Stellar.Verifier.Sound.{
  verify_by_hash_failed_iff, verify_by_hash_sound,
}

module _ (P : Platform) (law : IsLawfulClient P.client) where
  assert_owned-Keeps : (username id : String) → Keeps P (assert_owned P username id)
  unfolding assert_owned
  assert_owned-Keeps username id =
      mapped P (load_owned P username id) (λ row. tt)
        (IsReader-Keeps P (load_owned P username id) (load_owned-IsReader P username id))

  announced-Keeps :
      (username : String) (type : WebhookEventType) (intent : PaymentIntent)
      → Keeps P (emit P.client username type intent >> with_qr P intent)
  announced-Keeps username type intent =
      Keeps-bind P (emit P.client username type intent) (λ _. with_qr P intent) (λ w. refl)
        (λ _. with_qr-Keeps P intent)

  edit-Evolves :
      (id : String) (dto : UpdatePaymentIntentDto)
      → Evolves P (some dto) (update_intent P.client id (patched dto))
  edit-Evolves id dto w =
      elim (update_intent-Replaces_or_fails P.client law id (patched dto) w (λ q. refl)) [
        | inl (x, e) ↦ rw (e) (Lives-kept P (some dto) w.intents w.intents refl)
        | inr (old, v, e, h) ↦ rw (e) (
            Lives-Replaces P (some dto) id old (patched dto old) [] w v h
              (Changes.edited dto refl refl))
      ]

  pub update-Evolves :
      (username id : String) (dto : UpdatePaymentIntentDto)
      → Evolves P (some dto) (update P username id dto)
  unfolding update
  update-Evolves username id dto =
      Evolves-after P (some dto) (assert_owned P username id) _ (assert_owned-Keeps username id)
        λ _.
          Evolves-before P (some dto) (update_intent P.client id (patched dto)) _
            (edit-Evolves id dto) (announced-Keeps username (update_event dto.status))

  delete_intent-Evolves : (id : String) → Evolves P none (delete_intent P id)
  unfolding delete_intent Life
  delete_intent-Evolves id w = elim (Bool-cases (is_paid P w id)) [
    | inl paid ↦ rw (paid, delete_intent) (Lives-kept P none w.intents w.intents refl)
    | inr unpaid ↦ elim (Option-cases (P.client.payment_intent.delete id w.intents)) [
      | inl e ↦ rw (unpaid, e, delete_intent) (Lives-kept P none w.intents w.intents refl)
      | inr ((r, t), e) ↦ rw (unpaid, e, delete_intent) (gone r t unpaid e)
    ]
  ]
    where
      gone :
          (r : PaymentIntent) (t : P.client.payment_intent.State)
          → is_paid P w id ≡ false
          → P.client.payment_intent.delete id w.intents ≡ some (r, t)
          → Lives P none w.intents t
      gone r t unpaid e j = elim (Bool-cases (id == j)) [
        | inl mine ↦
            let before : P.client.payment_intent.get j w.intents ≡ some r =
              subst (λ i. P.client.payment_intent.get i w.intents ≡ some r) ((eq_iff id j).0 mine)
                (law.payment_intent.delete_some id w.intents t r e) in
            let after : P.client.payment_intent.get j t ≡ none =
              ground (arith, law.payment_intent.get-delete id w.intents t r j e) in
            let open_ : r.status ≢ succeeded =
              status_eq-false r.status succeeded
                (ground (arith, law.payment_intent.delete_some id w.intents t r e)) in
            rw (before, after) open_
        | inr other ↦
            let same : P.client.payment_intent.get j t ≡ P.client.payment_intent.get j w.intents =
              ground (arith, law.payment_intent.get-delete id w.intents t r j e) in
            rw (same) (Life-refl P.horizon P.numbers none (P.client.payment_intent.get j w.intents))
      ]

  pub remove-Evolves : (username id : String) → Evolves P none (remove P username id)
  unfolding remove
  remove-Evolves username id =
      Evolves-after P none (assert_owned P username id) _ (assert_owned-Keeps username id) λ _.
        Evolves-before P none (delete_intent P id) _ (delete_intent-Evolves id) λ deleted.
          Keeps-bind P (emit P.client username payment_intent_deleted deleted) (λ _. pure id)
            (λ w. refl) (λ _ w. refl)

  kept_source :
      (w : World P.client) (id : String) (payer : Option String) (q : PaymentIntent)
      → P.client.payment_intent.get id w.intents ≡ some q
      → (truthy q.source ≡ false) ⊎ (settle_source P payer (has_source P w id) q.source ≡ q.source)
  kept_source w id payer q there = elim (Bool-cases (truthy q.source)) [
    | inr e ↦ inl e
    | inl e ↦ let filled : has_source P w id ≡ true = rw (there, has_source) e in inr (ground arith)
  ]

  -- The two marks of a validation, of an intent that is not paid.
  settle_paid-Lives :
      (s : Supply) (username hash payer : String) (intent : PaymentIntent) (w : World P.client)
      → P.client.payment_intent.get intent.id w.intents ≡ some intent
      → intent.status ≢ succeeded
      → IsListed P.horizon P.numbers intent hash payer
      → Lives P none w.intents
          (world (settle_paid P s intent.id username hash (some payer) w)).intents
  unfolding settle_paid
  settle_paid-Lives s username hash payer intent w there unpaid on_chain =
      Lives-before P none (mark_succeeded P s intent.id username hash (some payer)) _ w
        (Marked-Lives P none intent.id _ username _ w _
          (mark_succeeded-Marked P law s intent.id username hash (some payer) w)
          λ old before.
            let same : intent ≡ old = cc (there, before) in
            Changes.settles hash payer
              (settle_source P (some payer) (has_source P w intent.id) old.source)
              (subst (λ (x : PaymentIntent). x.status ≢ succeeded) same unpaid)
              (subst (λ x. IsListed P.horizon P.numbers x hash payer) same on_chain)
              (kept_source w intent.id (some payer) old before) refl)
        λ updated. mapped P (with_qr P updated) _ (with_qr-Keeps P updated)

  settle_failed-Lives :
      (username hash : String) (reason : Option String) (t : TransactionRecord)
      (intent : PaymentIntent) (w : World P.client)
      → P.client.payment_intent.get intent.id w.intents ≡ some intent
      → intent.status ≢ succeeded
      → P.horizon.transaction intent.network hash ≡ found t
      → t.successful ≡ false
      → Lives P none w.intents (world (settle_failed P intent.id username hash reason w)).intents
  unfolding settle_failed
  settle_failed-Lives username hash reason t intent w there unpaid on_chain off =
      Lives-before P none (mark_failed P intent.id username (some hash)) _ w
        (Marked-Lives P none intent.id _ username _ w _
          (mark_failed-Marked P law intent.id username (some hash) w)
          λ old before.
            let same : intent ≡ old = cc (there, before) in
            Changes.fails hash t _ (subst (λ (x : PaymentIntent). x.status ≢ succeeded) same unpaid)
              (subst (λ (x : PaymentIntent). P.horizon.transaction x.network hash ≡ found t) same
                on_chain)
              off refl)
        λ updated. mapped P (with_qr P updated) _ (with_qr-Keeps P updated)

  conclude-Lives :
      (s : Supply) (username hash : String) (intent : PaymentIntent) (r : VerificationResult)
      (w : World P.client)
      → P.client.payment_intent.get intent.id w.intents ≡ some intent
      → intent.status ≢ succeeded
      → verify_by_hash P.horizon P.numbers intent hash ≡ value r
      → Lives P none w.intents (world (conclude P s username intent hash r w)).intents
  unfolding conclude
  conclude-Lives s username hash intent r w there unpaid v = elim (Bool-cases r.valid) [
    | inl good ↦
        let (records, payer, paid, on_chain, same) =
          verify_by_hash_sound P.horizon P.numbers intent hash r v good in
        subst (λ q. Lives P none w.intents (world (conclude P s username intent hash q w)).intents)
          (sym same)
          (settle_paid-Lives s username hash payer intent w there unpaid
            (of_transaction records paid on_chain))
    | inr bad ↦ elim (Bool-cases (option_eq r.reason (some failed_on_chain))) [
      | inl off_chain ↦
          let (t, e, f) =
            (verify_by_hash_failed_iff P.horizon P.numbers intent hash).0
              (r, v, (option_eq_iff r.reason (some failed_on_chain)).0 off_chain) in
          rw (bad, off_chain, conclude)
            (settle_failed-Lives username hash r.reason t intent w there unpaid e f)
      | inr other ↦ rw (bad, other, conclude) (Lives-kept P none w.intents w.intents refl)
    ]
  ]

  validate_intent-Lives :
      (s : Supply) (username hash : String) (intent : PaymentIntent) (w : World P.client)
      → P.client.payment_intent.get intent.id w.intents ≡ some intent
      → Lives P none w.intents (world (validate_intent P s username intent hash w)).intents
  unfolding validate_intent
  validate_intent-Lives s username hash intent w there =
      elim (Bool-cases (status_eq intent.status succeeded)) [
        | inl paid ↦
            rw (paid, validate_intent)
              (Lives-kept P none w.intents _
                (mapped P (with_qr P intent) _ (with_qr-Keeps P intent) w))
        | inr unpaid ↦
            rw (unpaid, validate_intent)
              (verified (verify_by_hash P.horizon P.numbers intent hash) refl
                (status_eq-false intent.status succeeded unpaid))
      ]
    where
      verified :
          (o : Outcome VerificationResult)
          → verify_by_hash P.horizon P.numbers intent hash ≡ o
          → intent.status ≢ succeeded
          → Lives P none w.intents
              (world ((lift o >>= conclude P s username intent hash) w)).intents
      verified (value r) v unpaid = conclude-Lives s username hash intent r w there unpaid v
      verified (raised e) v unpaid = Lives-kept P none w.intents w.intents refl

  pub validate-Evolves :
      (s : Supply) (username id hash : String) → Evolves P none (validate P s username id hash)
  unfolding validate
  validate-Evolves s username id hash w = elim (load_owned-cases P law username id w) [
    | inr (foreign, e) ↦ rw (e, validate, ◌>>=◌) (Lives-kept P none w.intents w.intents refl)
    | inl (intent, (there, own), e) ↦
        let key : intent.id ≡ id = law.payment_intent.key-get id w.intents intent there in
        rw (e, validate, ◌>>=◌)
          (validate_intent-Lives s username hash intent w
            (subst (λ k. P.client.payment_intent.get k w.intents ≡ some intent) (sym key) there))
  ]
