-- ===== src/Lifecycle/Runs.antt =====
-- What holds of an intent through any sequence of events.
use comos_pay_community_serv.Lifecycle.{Changes, Life}
use comos_pay_community_serv.Intents.Manage.{patched, UpdatePaymentIntentDto}
use comos_pay_community_serv.Lifecycle.Events.{SystemEvent, edit_of, after}
use comos_pay_community_serv.Lifecycle.Refines.{after-Life}
use comos_pay_community_serv.Base.{
  All, Bool, List, Option, Option-cases, String, [], ap, arith, coalesce, false, inl, inr, is_some,
  none, refl, some, subst, sym, ◌++◌, ◌∙◌, ◌∷◌, ◌≡◌, ◌≢◌, ◌⊎◌,
}
use comos_pay_community_serv.Http.{Edge}
use comos_pay_community_serv.Prisma.Client.{IsLawfulClient}
use comos_pay_community_serv.Prisma.Schema.{PaymentIntent, PaymentIntentStatus, succeeded}
use comos_pay_community_serv.Platform.{Platform, World}
use comos_pay_community_serv.Stellar.Horizon.{Horizon, Numbers}

module _ (P : Platform) (E : Edge) where
  -- The events happen one after the other.
  unfoldable pub run : List SystemEvent → World P.client → World P.client
  run [] w = w
  run (e ∷ es) w = run es (after P E e w)

-- The PATCH sets the status.
abbrev pub sets_status : Option UpdatePaymentIntentDto → Bool
sets_status none = false
sets_status (some dto) = is_some dto.status

-- But for the hash and the note of the integrator.
abbrev pub StaysPaid : PaymentIntent → PaymentIntent → Type 0
StaysPaid q q' = q' ≡ record q { tx_hash = q'.tx_hash; reference = q'.reference }

-- What the payer was asked for: everything but the status, the transaction, the payer and the note.
abbrev pub HasTermsOf : PaymentIntent → PaymentIntent → Type 0
HasTermsOf q q' = q' ≡ record q {
  status = q'.status;
  source = q'.source;
  tx_hash = q'.tx_hash;
  reference = q'.reference;
}

patched-StaysPaid :
    (dto : UpdatePaymentIntentDto) (q : PaymentIntent)
    → is_some dto.status ≡ false
    → StaysPaid q (patched dto q)
patched-StaysPaid dto q h = elim (Option-cases dto.status) [
  | inr (s, e) ↦ absurd (ground arith)
  | inl e ↦
      ap {A = Option PaymentIntentStatus}
        (λ o. record q {
          status = coalesce o q.status;
          tx_hash = coalesce dto.tx_hash q.tx_hash;
          reference = coalesce dto.reference q.reference;
        })
        e
]

module _ (H : Horizon) (N : Numbers) where
  Changes-HasTermsOf :
      (edit : Option UpdatePaymentIntentDto) (q q' : PaymentIntent)
      → Changes H N edit q q'
      → HasTermsOf q q'
  Changes-HasTermsOf edit q q' (Changes.unchanged e) = subst (HasTermsOf q) (sym e) refl
  Changes-HasTermsOf edit q q' (Changes.settles hash payer source n k o e) =
      subst (HasTermsOf q) (sym e) refl
  Changes-HasTermsOf edit q q' (Changes.fails hash t shown n k f e) =
      subst (HasTermsOf q) (sym e) refl
  Changes-HasTermsOf edit q q' (Changes.expires o e) = subst (HasTermsOf q) (sym e) refl
  Changes-HasTermsOf edit q q' (Changes.edited dto k e) = subst (HasTermsOf q) (sym e) refl

  Changes-StaysPaid :
      (edit : Option UpdatePaymentIntentDto) (q q' : PaymentIntent)
      → Changes H N edit q q'
      → q.status ≡ succeeded
      → sets_status edit ≡ false
      → StaysPaid q q'
  Changes-StaysPaid edit q q' (Changes.unchanged e) paid h = subst (StaysPaid q) (sym e) refl
  Changes-StaysPaid edit q q' (Changes.settles hash payer source n k o e) paid h = absurd (n paid)
  Changes-StaysPaid edit q q' (Changes.fails hash t shown n k f e) paid h = absurd (n paid)
  Changes-StaysPaid edit q q' (Changes.expires (inl o) e) paid h = absurd (ground arith)
  Changes-StaysPaid edit q q' (Changes.expires (inr o) e) paid h = absurd (ground arith)
  Changes-StaysPaid edit q q' (Changes.edited dto k e) paid h =
      subst (StaysPaid q) (sym e) (patched-StaysPaid dto q (subst (λ o. sets_status o ≡ false) k h))

module _ (P : Platform) (E : Edge) (law : IsLawfulClient P.client) where
  -- What an event makes of an intent that stands: it stays, or was not paid and is gone.
  lives_on :
      (e : SystemEvent) (w : World P.client) (id : String) (q : PaymentIntent)
      → P.client.payment_intent.get id w.intents ≡ some q
      → ((q' : PaymentIntent) × (P.client.payment_intent.get id (after P E e w).intents ≡ some q')
          × Changes P.horizon P.numbers (edit_of e) q q')
        ⊎ ((P.client.payment_intent.get id (after P E e w).intents ≡ none) × (q.status ≢ succeeded))
  unfolding Life
  lives_on e w id q g = go (P.client.payment_intent.get id (after P E e w).intents) refl (
      subst
        (λ o.
          Life P.horizon P.numbers (edit_of e) o
            (P.client.payment_intent.get id (after P E e w).intents))
        g (after-Life P E law e w id))
    where
      go :
          (o : Option PaymentIntent)
          → P.client.payment_intent.get id (after P E e w).intents ≡ o
          → Life P.horizon P.numbers
              (edit_of e)
              (some q)
              (P.client.payment_intent.get id (after P E e w).intents)
          → ((q' : PaymentIntent) × (P.client.payment_intent.get id (after P E e w).intents
                ≡ some q')
              × Changes P.horizon P.numbers (edit_of e) q q')
            ⊎ ((P.client.payment_intent.get id (after P E e w).intents ≡ none)
                × (q.status ≢ succeeded))
      go none k l = inr (k, subst (Life P.horizon P.numbers (edit_of e) (some q)) k l)
      go (some q') k l = inl (q', k, subst (Life P.horizon P.numbers (edit_of e) (some q)) k l)

  -- A SUCCEEDED intent is never lost: after any sequence of events of which no PATCH sets a status
  -- it stands under its id, SUCCEEDED, and as it was but for the hash and the reference.
  pub run-StaysPaid :
      (es : List SystemEvent) (w : World P.client) (id : String) (q : PaymentIntent)
      → P.client.payment_intent.get id w.intents ≡ some q
      → q.status ≡ succeeded
      → All (λ e. sets_status (edit_of e) ≡ false) es
      → (q' : PaymentIntent) × (P.client.payment_intent.get id (run P E es w).intents ≡ some q')
        × (q'.status ≡ succeeded)
        × StaysPaid q q'
  unfolding run
  run-StaysPaid [] w id q g paid h = (q, g, paid, refl)
  run-StaysPaid (e ∷ es) w id q g paid (h, hs) = elim (lives_on e w id q g) [
    | inr (gone, n) ↦ absurd (n paid)
    | inl (q1, g1, c) ↦
        let k1 : StaysPaid q q1 = Changes-StaysPaid P.horizon P.numbers (edit_of e) q q1 c paid h in
        let paid1 : q1.status ≡ succeeded = ap (λ (x : PaymentIntent). x.status) k1 ∙ paid in
        let (q2, g2, paid2, k2) = run-StaysPaid es (after P E e w) id q1 g1 paid1 hs in
        (
          q2,
          g2,
          paid2,
          k2
              ∙ ap
                  (λ (x : PaymentIntent). record x {
                    tx_hash = q2.tx_hash;
                    reference = q2.reference;
                  })
                  k1,
        )
  ]

  -- The terms of an intent never change: after any sequence of events the intent stands under its
  -- id with the consumer, kind, destination, amount, asset, memo, network, message, callback,
  -- transaction, link, lifetime and date that it had, or it was removed after some of them.
  pub run-HasTermsOf :
      (es : List SystemEvent) (w : World P.client) (id : String) (q : PaymentIntent)
      → P.client.payment_intent.get id w.intents ≡ some q
      → ((q' : PaymentIntent) × (P.client.payment_intent.get id (run P E es w).intents ≡ some q')
          × HasTermsOf q q')
        ⊎ ((first rest : List SystemEvent) × (es ≡ first ++ rest)
            × (P.client.payment_intent.get id (run P E first w).intents ≡ none))
  unfolding run
  run-HasTermsOf [] w id q g = inl (q, g, refl)
  run-HasTermsOf (e ∷ es) w id q g = elim (lives_on e w id q g) [
    | inr (gone, n) ↦ inr (e ∷ [], es, refl, gone)
    | inl (q1, g1, c) ↦ elim (run-HasTermsOf es (after P E e w) id q1 g1) [
      | inr (first, rest, same, gone) ↦ inr (e ∷ first, rest, ap (λ l. e ∷ l) same, gone)
      | inl (q2, g2, k2) ↦ inl (
        q2,
        g2,
        k2
            ∙ ap
                (λ (x : PaymentIntent). record x {
                  status = q2.status;
                  source = q2.source;
                  tx_hash = q2.tx_hash;
                  reference = q2.reference;
                })
                (Changes-HasTermsOf P.horizon P.numbers (edit_of e) q q1 c),
      )
    ]
  ]
