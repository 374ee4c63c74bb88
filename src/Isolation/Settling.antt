-- ===== src/Isolation/Settling.antt =====
-- Validating, updating and removing an intent of the caller spares the rows of other consumers.
use comos_pay_community_serv.Isolation.Spares.{
  IsAnothers, Spares, IsSparing, IsSparing-bind, IsSparing-pure, Spares-refl, bind-Spares,
  owned-apart, reader-IsSparing,
}
use comos_pay_community_serv.Intents.Manage.{
  update, remove, UpdatePaymentIntentDto, assert_owned, delete_intent, patched, update_event,
}
use comos_pay_community_serv.Base.{
  >>=-eq-done, Bool-cases, Option, Option-cases, Outcome, String, arith, best_effort, coalesce,
  done, false, if◌then◌else◌, inl, inr, lift, none, option_eq, or_else, raised, refl, some, subst,
  sym, true, truthy, value, world, ◌&&◌, ◌==◌, ◌>>=◌, ◌≡◌, pure,
}
use comos_pay_community_serv.Prisma.Client.{IsLawfulClient, customer_key}
use comos_pay_community_serv.Prisma.Schema.{
  PaymentIntent, failed, no_clash, payment_intent_deleted, payment_intent_failed,
  payment_intent_succeeded, status_eq, succeeded,
}
use comos_pay_community_serv.Platform.{Platform, Supply, World, emit, owned_by, update_intent}
use comos_pay_community_serv.Stellar.Verifier.{VerificationResult, failed_on_chain, verify_by_hash}
use comos_pay_community_serv.Isolation.Creation.{
  announced-IsSparing, emit-IsSparing, viewed-IsSparing,
}
use comos_pay_community_serv.Intents.Settle.{
  auto_customer, conclude, create_customer, customer_for, has_source, mark_failed, mark_succeeded,
  settle_failed, settle_paid, settled, upsert_customer_from_payment, validate, validate_intent,
}
use comos_pay_community_serv.Isolation.Holds.{create-Holds}
use comos_pay_community_serv.Isolation.Writes.{customers-Spares}
use comos_pay_community_serv.Isolation.Rows.{delete_intent-Spares, update_intent-Spares}
use comos_pay_community_serv.Intents.Store.{load_owned, with_qr}
use comos_pay_community_serv.Http.ReadOnly.{load_owned-IsReader}
use comos_pay_community_serv.Intents.Store.Owned.{load_owned-cases}

module _ (P : Platform) (law : IsLawfulClient P.client) (username : String) where
  -- No other consumer owns the intent that stands under the id.
  abbrev IsMine : World P.client → String → Type 0
  IsMine w id =
      (q : PaymentIntent)
      → P.client.payment_intent.get id w.intents ≡ some q
      → IsAnothers P w username q.consumer_id
      → false ≡ true

  load_owned-IsMine :
      (id : String) (w v : World P.client) (intent : PaymentIntent)
      → load_owned P username id w ≡ done intent v
      → (intent.id ≡ id) × IsMine v id
  load_owned-IsMine id w v intent h = elim (load_owned-cases P law username id w) [
    | inr (foreign, e) ↦ absurd (ground arith)
    | inl (r, (there, own), e) ↦
        let row : r ≡ intent = cc (e, h) in
        let same : w ≡ v = cc (e, h) in
        (
          subst (λ (x : PaymentIntent). x.id ≡ id) row
              (law.payment_intent.key-get id w.intents r there),
          subst (λ x. IsMine x id) same
              λ q g f.
                let one : r ≡ q = cc (there, g) in
                owned-apart P username w q.consumer_id
                  (subst (λ (x : PaymentIntent). owned_by P.client w username x.consumer_id ≡ true)
                    one own)
                  f,
        )
  ]

  load_owned-IsSparing : (id : String) → IsSparing P username (load_owned P username id)
  load_owned-IsSparing id =
      reader-IsSparing P username (load_owned P username id) (load_owned-IsReader P username id)

  customer_for-IsSparing :
      (s : Supply) (intent : PaymentIntent) (account : Option String)
      → IsSparing P username (customer_for P s intent account)
  unfolding customer_for create_customer
  customer_for-IsSparing s intent none w = Spares-refl P username w
  customer_for-IsSparing s intent (some account) w = elim (Bool-cases (account == "")) [
    | inl e ↦ rw (e, customer_for) (Spares-refl P username w)
    | inr e ↦
        elim (Option-cases (
          P.client.customer.find_first
            (λ c. c.consumer_id == intent.consumer_id && option_eq c.account (some account))
            w.customers)) [
              | inr (c, k) ↦ rw (e, k, customer_for) (Spares-refl P username w)
              | inl k ↦ rw (e, k, customer_for) (created_customer s intent account w)
            ]
  ]
    where
      created_customer :
          (s : Supply) (intent : PaymentIntent) (account : String) (w : World P.client)
          → Spares P username w (world (create_customer P s intent account w))
      created_customer s intent account w =
          elim (Option-cases
            (P.client.customer.create (auto_customer s intent account) w.customers)) [
              | inl e ↦ rw (e, create_customer) (Spares-refl P username w)
              | inr (t, e) ↦
                  rw (e, create_customer)
                    (customers-Spares P law username w t (
                      create-Holds customer_key no_clash P.client.customer law.customer _
                        (auto_customer s intent account) w.customers t e))
            ]

  mark_succeeded-Spares :
      (s : Supply) (id name hash : String) (payer : Option String) (w : World P.client)
      → IsMine w id
      → Spares P username w (world (mark_succeeded P s id name hash payer w))
  unfolding mark_succeeded upsert_customer_from_payment
  mark_succeeded-Spares s id name hash payer w mine =
      bind-Spares P username (update_intent P.client id (settled P hash payer (has_source P w id)))
        _ w
        (update_intent-Spares P law username id (settled P hash payer (has_source P w id)) w
          (λ q. refl) mine)
        λ r v e.
          IsSparing-bind P username (emit P.client name payment_intent_succeeded r)
            (λ _. best_effort (customer_for P s r (or_else payer r.source)) >>= λ _. pure r)
            (emit-IsSparing P username name payment_intent_succeeded r)
            (λ _.
              IsSparing-pure P username (best_effort (customer_for P s r (or_else payer r.source)))
                (λ _. r) (customer_for-IsSparing s r (or_else payer r.source)))
            v

  mark_failed-Spares :
      (id name : String) (hash : Option String) (w : World P.client)
      → IsMine w id
      → Spares P username w (world (mark_failed P id name hash w))
  unfolding mark_failed
  mark_failed-Spares id name hash w mine =
      bind-Spares P username (update_intent P.client id _) _ w
        (update_intent-Spares P law username id
          (λ r. record r { status = failed; tx_hash = if truthy hash then hash else r.tx_hash }) w
          (λ q. refl) mine)
        λ r v e.
          IsSparing-pure P username (emit P.client name payment_intent_failed r) (λ _. r)
            (emit-IsSparing P username name payment_intent_failed r) v

  conclude-Spares :
      (s : Supply) (intent : PaymentIntent) (hash : String) (r : VerificationResult)
      (w : World P.client)
      → IsMine w intent.id
      → Spares P username w (world (conclude P s username intent hash r w))
  unfolding conclude settle_paid settle_failed
  conclude-Spares s intent hash r w mine = elim (Bool-cases r.valid) [
    | inl good ↦
        rw (good, conclude)
          (bind-Spares P username
            (mark_succeeded P s intent.id username (coalesce r.tx_hash hash) r.payer) _ w
            (mark_succeeded-Spares s intent.id username (coalesce r.tx_hash hash) r.payer w mine)
            λ q v e. IsSparing-pure P username (with_qr P q) _ (viewed-IsSparing P username q) v)
    | inr bad ↦ elim (Bool-cases (option_eq r.reason (some failed_on_chain))) [
      | inl off_chain ↦
          rw (bad, off_chain, conclude)
            (bind-Spares P username (mark_failed P intent.id username (some hash)) _ w
              (mark_failed-Spares intent.id username (some hash) w mine)
              λ q v e. IsSparing-pure P username (with_qr P q) _ (viewed-IsSparing P username q) v)
      | inr other ↦ rw (bad, other, conclude) (Spares-refl P username w)
    ]
  ]

  validate_intent-Spares :
      (s : Supply) (intent : PaymentIntent) (hash : String) (w : World P.client)
      → IsMine w intent.id
      → Spares P username w (world (validate_intent P s username intent hash w))
  unfolding validate_intent
  validate_intent-Spares s intent hash w mine =
      elim (Bool-cases (status_eq intent.status succeeded)) [
        | inl paid ↦
            rw (paid, validate_intent)
              (IsSparing-pure P username (with_qr P intent) _ (viewed-IsSparing P username intent)
                w)
        | inr unpaid ↦
            rw (unpaid, validate_intent) (verified (verify_by_hash P.horizon P.numbers intent hash))
      ]
    where
      verified :
          (o : Outcome VerificationResult)
          → Spares P username w (world ((lift o >>= conclude P s username intent hash) w))
      verified (value r) = conclude-Spares s intent hash r w mine
      verified (raised e) = Spares-refl P username w

  pub validate-IsSparing :
      (s : Supply) (id hash : String) → IsSparing P username (validate P s username id hash)
  unfolding validate
  validate-IsSparing s id hash w =
      bind-Spares P username (load_owned P username id) _ w (load_owned-IsSparing id w)
        λ intent v e.
          let (same, mine) = load_owned-IsMine id w v intent e in
          validate_intent-Spares s intent hash v (subst (IsMine v) (sym same) mine)

  assert_owned-IsMine :
      (id : String) (w v : World P.client) (u : Unit {0})
      → assert_owned P username id w ≡ done u v
      → IsMine v id
  unfolding assert_owned
  assert_owned-IsMine id w v u h =
      let (intent, v', e, k) = >>=-eq-done (load_owned P username id) _ w h in
      let same : v' ≡ v = cc k in
      subst (λ x. IsMine x id) same (load_owned-IsMine id w v' intent e).1

  assert_owned-IsSparing : (id : String) → IsSparing P username (assert_owned P username id)
  unfolding assert_owned
  assert_owned-IsSparing id =
      IsSparing-pure P username (load_owned P username id) _ (load_owned-IsSparing id)

  pub update-IsSparing :
      (id : String) (dto : UpdatePaymentIntentDto) → IsSparing P username (update P username id dto)
  unfolding update
  update-IsSparing id dto w =
      bind-Spares P username (assert_owned P username id) _ w (assert_owned-IsSparing id w) λ u v e.
        bind-Spares P username (update_intent P.client id (patched dto)) _ v
          (update_intent-Spares P law username id (patched dto) v (λ q. refl)
            (assert_owned-IsMine id w v u e))
          λ r v' _. announced-IsSparing P username username (update_event dto.status) r v'

  pub remove-IsSparing : (id : String) → IsSparing P username (remove P username id)
  unfolding remove
  remove-IsSparing id w =
      bind-Spares P username (assert_owned P username id) _ w (assert_owned-IsSparing id w) λ u v e.
        bind-Spares P username (delete_intent P id) _ v
          (delete_intent-Spares P law username id v (assert_owned-IsMine id w v u e))
          λ r v' _.
            IsSparing-pure P username (emit P.client username payment_intent_deleted r) (λ _. id)
              (emit-IsSparing P username username payment_intent_deleted r) v'
