-- ===== src/Observer/Reconcile.antt =====
-- The second phase of a cycle, `reconcilePending`: it moves paid intents to SUCCEEDED.
use comos_pay_community_serv.Base.{
  String, true, Option, some, ◌≡◌, ◌⊎◌, inl, inr, refl, ap, sym, subst, arith, truthy, coalesce,
  world, Outcome, value, raised, lift, ◌>>=◌, Bool-cases, false,
}
use comos_pay_community_serv.Prisma.Schema.{
  PaymentIntent, pending, succeeded, status_eq-true, payment_intent_succeeded,
}
use comos_pay_community_serv.Prisma.Client.{IsLawfulClient}
use comos_pay_community_serv.Stellar.Verifier.{VerificationResult, confirmed}
use comos_pay_community_serv.Stellar.Verifier.Settles.{IsListed, of_transaction, of_account}
use comos_pay_community_serv.Stellar.Verifier.Sound.{verify_by_hash_sound}
use comos_pay_community_serv.Stellar.Verifier.Scan.{find_matching_payment_sound}
use comos_pay_community_serv.Platform.{Platform, World, Supply}
use comos_pay_community_serv.Intents.Settle.{settled, has_source, settle_source, mark_succeeded}
use comos_pay_community_serv.Intents.Settle.Marks.{mark_succeeded-Marked}
use comos_pay_community_serv.Observer.{is_pending, reconcile, reconcile_phase, verify, settle}
use comos_pay_community_serv.Observer.Moves.{Moves, Marked-Moves, phase-Moves, world-then_pure}

module _ (P : Platform) where
  -- The intent was pending and the transaction `hash` settles it; a source that stood is kept.
  pub record Settled (q q' : PaymentIntent) : Type 0 where
    pub was_pending : q.status ≡ pending
    pub hash : String
    pub payer : String
    pub is_settled : IsListed P.horizon P.numbers q hash payer
    pub payer_source : Option String
    pub keeps_source : (truthy q.source ≡ false) ⊎ (payer_source ≡ q.source)
    pub new : q' ≡ record q { status = succeeded; tx_hash = some hash; source = payer_source }

  abbrev pub Settles : PaymentIntent → PaymentIntent → Type 0
  Settles q q' = (q' ≡ q) ⊎ Settled q q'

  verify_sound :
      (q : PaymentIntent) (r : VerificationResult)
      → verify P q ≡ value r
      → r.valid ≡ true
      → (hash payer : String) × IsListed P.horizon P.numbers q hash payer
        × (r ≡ confirmed hash payer)
  unfolding verify
  verify_sound q r h v = elim (Bool-cases (truthy q.tx_hash)) [
    | inl e ↦
        let (records, payer, there, s, same) =
          verify_by_hash_sound P.horizon P.numbers q (coalesce q.tx_hash "") r (ground arith) v in
        (coalesce q.tx_hash "", payer, of_transaction records there s, same)
    | inr e ↦
        let (records, hash, payer, there, s, own, same) =
          find_matching_payment_sound P.horizon P.numbers q 50 r (ground arith) v in
        (hash, payer, of_account 50 records there s own, same)
  ]

module _ (P : Platform) where
  -- Marking a paid intent settles it, and marking it again settles it still.
  settled-Settles :
      (r old : PaymentIntent) (v : World P.client) (hash payer : String)
      → r.status ≡ pending
      → IsListed P.horizon P.numbers r hash payer
      → P.client.payment_intent.get r.id v.intents ≡ some old
      → Settles P r old
      → Settles P r (settled P hash (some payer) (has_source P v r.id) old)
  settled-Settles r old v hash payer e s there k = inr (record {
    was_pending = e;
    hash = hash;
    payer = payer;
    is_settled = s;
    payer_source = settle_source P (some payer) (has_source P v r.id) old.source;
    keeps_source = kept k (Bool-cases (truthy r.source));
    new = new k;
  })
    where
      stays :
          truthy r.source ≡ true
          → (source : Option String) → (truthy r.source ≡ false) ⊎ (source ≡ r.source)
          → source ≡ r.source
      stays t source (inl off) = absurd (ground arith)
      stays t source (inr same) = same

      keeps :
          Settles P r old
          → truthy r.source ≡ true
          → settle_source P (some payer) (has_source P v r.id) old.source ≡ r.source
      keeps (inl same) t =
          let k : old.source ≡ r.source = ap (λ (q : PaymentIntent). q.source) same in ground arith
      keeps (inr d) t =
          let k : old.source ≡ d.payer_source = ap (λ (q : PaymentIntent). q.source) d.new in
          let k' : d.payer_source ≡ r.source = stays t d.payer_source d.keeps_source in ground arith

      kept :
          Settles P r old
          → (truthy r.source ≡ true) ⊎ (truthy r.source ≡ false)
          → (truthy r.source ≡ false)
            ⊎ (settle_source P (some payer) (has_source P v r.id) old.source ≡ r.source)
      kept k (inl t) = inr (keeps k t)
      kept k (inr off) = inl off

      new :
          Settles P r old
          → settled P hash (some payer) (has_source P v r.id) old ≡ record r {
            status = succeeded;
            tx_hash = some hash;
            source = settle_source P (some payer) (has_source P v r.id) old.source;
          }
      new (inl same) =
          ap {A = PaymentIntent}
            (λ q. record q {
              status = succeeded;
              tx_hash = some hash;
              source = settle_source P (some payer) (has_source P v r.id) old.source;
            })
            same
      new (inr d) =
          ap {A = PaymentIntent}
            (λ q. record q {
              status = succeeded;
              tx_hash = some hash;
              source = settle_source P (some payer) (has_source P v r.id) old.source;
            })
            d.new

module _ (P : Platform) (law : IsLawfulClient P.client) where
  settle-confirmed-Moves :
      (supply : String → Supply) (w v : World P.client) (r : PaymentIntent)
      (username hash payer : String)
      → P.client.payment_intent.get r.id w.intents ≡ some r
      → r.status ≡ pending
      → IsListed P.horizon P.numbers r hash payer
      → Moves P (Settles P) w v
      → Moves P (Settles P) w (world (settle P supply r username (confirmed hash payer) v))
  unfolding settle
  settle-confirmed-Moves supply w v r username hash payer e t s m =
      elim (Bool-cases (truthy (some hash))) [
        | inr off ↦ rw off m
        | inl on ↦
            let marked : Moves P (Settles P) w
                (world (mark_succeeded P (supply r.id) r.id username hash (some payer) v)) =
              Marked-Moves P law (Settles P) r.id r
                (settled P hash (some payer) (has_source P v r.id)) username
                payment_intent_succeeded w v _
                (mark_succeeded-Marked P law (supply r.id) r.id username hash (some payer) v) m e
                (λ old there k. settled-Settles P r old v hash payer t s there k) in
            rw on (
              subst (Moves P (Settles P) w)
                (sym (
                  world-then_pure (mark_succeeded P (supply r.id) r.id username hash (some payer))
                    v))
                marked)
      ]

  settle-Moves :
      (supply : String → Supply) (w v : World P.client) (r : PaymentIntent) (username : String)
      (result : VerificationResult)
      → P.client.payment_intent.get r.id w.intents ≡ some r
      → r.status ≡ pending
      → verify P r ≡ value result
      → Moves P (Settles P) w v
      → Moves P (Settles P) w (world (settle P supply r username result v))
  unfolding settle
  settle-Moves supply w v r username result e t h m = elim (Bool-cases result.valid) [
    | inr off ↦ rw off m
    | inl good ↦
        let (hash, payer, s, same) = verify_sound P r result h good in
        subst (λ x. Moves P (Settles P) w (world (settle P supply r username x v))) (sym same)
          (settle-confirmed-Moves supply w v r username hash payer e t s m)
  ]

  reconcile-Moves :
      (supply : String → Supply) (w v : World P.client) (r : PaymentIntent) (username : String)
      → P.client.payment_intent.get r.id w.intents ≡ some r
      → is_pending r ≡ true
      → Moves P (Settles P) w v
      → Moves P (Settles P) w (world (reconcile P supply (r, username) v))
  unfolding reconcile
  reconcile-Moves supply w v r username e t m = go (verify P r) refl
    where
      go :
          (o : Outcome VerificationResult)
          → verify P r ≡ o
          → Moves P (Settles P) w (world (reconcile P supply (r, username) v))
      go (raised x) h = rw (h, ◌>>=◌, lift) m
      go (value result) h =
          rw (h, ◌>>=◌, lift)
            (settle-Moves supply w v r username result e (status_eq-true r.status pending t) h m)

  pub reconcile_phase-Moves :
      (supply : String → Supply) (w : World P.client)
      → Moves P (Settles P) w (world (reconcile_phase P supply w))
  unfolding reconcile_phase
  reconcile_phase-Moves supply w =
      phase-Moves P law (Settles P) (λ q. inl refl) is_pending _ (reconcile P supply) w
        (λ r username v e t m. reconcile-Moves supply w v r username e t m)
