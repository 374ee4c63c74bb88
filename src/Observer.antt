-- ===== src/Observer.antt =====
-- src/payment-intents/stellar-observer.service.ts: one reconciliation cycle.
pub mod Moves
pub mod Expiry
pub mod Reconcile
pub mod Cycle
pub mod Overlap
use comos_pay_community_serv.Base.{
  ℕ, String, Bool, true, false, ◌&&◌, ◌||◌, Option, none, some, List, [], ◌∷◌, ltb, truthy,
  coalesce, if◌then◌else◌, M, Run, done, fail, pure, lift, best_effort, ◌>>=◌, ◌>>◌, Outcome, value,
  raised, unexpected, world,
}
use comos_pay_community_serv.Prisma.Schema.{
  PaymentIntent, PaymentIntentStatus, pending, submitted, status_eq,
}
use comos_pay_community_serv.Prisma.Table.{Page, unordered, created_asc}
use comos_pay_community_serv.Stellar.Verifier.{
  VerificationResult, verify_by_hash, find_matching_payment,
}
use comos_pay_community_serv.Platform.{Platform, World, Supply}
use comos_pay_community_serv.Intents.Settle.{mark_succeeded, mark_expired}

-- The `where` of the intents to expire, and of those to reconcile.
abbrev pub is_overdue : ℕ → PaymentIntent → Bool
is_overdue now r =
    (status_eq r.status pending || status_eq r.status submitted)
    && elim r.expires_at [ none ↦ false | some t ↦ ltb t now ]

abbrev pub is_pending : PaymentIntent → Bool
is_pending r = status_eq r.status pending

module _ (P : Platform) where
  -- `include: { consumer: true }`. A row without its consumer fails the query.
  unfoldable pub join :
      World P.client → List PaymentIntent → Outcome (List (PaymentIntent × String))
  join w [] = value []
  join w (r ∷ rows) = elim (P.client.consumer.get r.consumer_id w.consumers) [
    | none ↦ raised (unexpected "Inconsistent query result")
    | some c ↦ elim (join w rows) [
      | raised e ↦ raised e
      | value joined ↦ value ((r, c.apisix_username) ∷ joined)
    ]
  ]

  unfoldable pub find_joined :
      (PaymentIntent → Bool) → Page → M (World P.client) (List (PaymentIntent × String))
  find_joined p page w = lift (join w (P.client.payment_intent.find_many p page w.intents)) w

  -- `for (const intent of rows) await step(intent).catch(log)`
  unfoldable pub each :
      (PaymentIntent × String → M (World P.client) (Unit {0}))
      → List (PaymentIntent × String)
      → M (World P.client) (Unit {0})
  each step [] w = done tt w
  each step (row ∷ rows) w = each step rows (world (step row w))

  abbrev pub expire : PaymentIntent × String → M (World P.client) (Unit {0})
  expire (intent, username) = do row ← mark_expired P intent.id username; pure tt

  -- The path by the reported hash, or else the scan with its default limit.
  unfoldable pub verify : PaymentIntent → Outcome VerificationResult
  verify intent =
      if truthy intent.tx_hash
      then verify_by_hash P.horizon P.numbers intent (coalesce intent.tx_hash "")
      else find_matching_payment P.horizon P.numbers intent 50

  unfoldable pub settle :
      (String → Supply)
      → PaymentIntent
      → String
      → VerificationResult
      → M (World P.client) (Unit {0})
  settle supply intent username result =
      if result.valid && truthy result.tx_hash
      then (do
        row ←
            mark_succeeded P (supply intent.id) intent.id username (coalesce result.tx_hash "")
              result.payer
        pure tt)
      else pure tt

  unfoldable pub reconcile :
      (String → Supply) → PaymentIntent × String → M (World P.client) (Unit {0})
  reconcile supply (intent, username) = do
    result ← lift (verify intent)
    settle supply intent username result

  unfoldable pub expire_phase : ℕ → M (World P.client) (Unit {0})
  expire_phase now = do
    overdue ←
        find_joined (is_overdue now)
          (record { order_by = unordered; take = some P.config.batch_size; skip = 0 })
    each expire overdue

  unfoldable pub reconcile_phase : (String → Supply) → M (World P.client) (Unit {0})
  reconcile_phase supply = do
    waiting ←
        find_joined is_pending
          (record { order_by = created_asc; take = some P.config.batch_size; skip = 0 })
    each (reconcile supply) waiting

  -- The body of `tick`, whose errors are logged. `supply` gives what is generated while the
  -- intent of an id is settled.
  unfoldable pub cycle : ℕ → (String → Supply) → M (World P.client) (Unit {0})
  cycle now supply = best_effort (do expire_phase now; reconcile_phase supply)
