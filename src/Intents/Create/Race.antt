-- ===== src/Intents/Create/Race.antt =====
-- The end of a creation against any state of the table: what the unique constraint on the
-- consumer and the memo decides, whichever request came first.
use comos_pay_community_serv.Base.{
  ◌+◌, ◌*◌, String, true, false, some, [], ◌∷◌, ◌++◌, ◌≡◌, ◌⊎◌, inl, inr, refl, arith, ◌==◌,
  if◌then◌else◌, done, coalesce, Option-cases, subst,
}
use comos_pay_community_serv.Prisma.Schema.{PaymentIntent, same_memo, payment_intent_created}
use comos_pay_community_serv.Prisma.Client.{IsLawfulClient}
use comos_pay_community_serv.Platform.{Platform, World, Supply}
use comos_pay_community_serv.Intents.Store.{
  PaymentIntentView, with_qr, has_memo, find_by_memo, persist,
}
use comos_pay_community_serv.Intents.Settle.Marks.{event}
use comos_pay_community_serv.Intents.Create.{store}

module _ (P : Platform) where
  -- The draft with its lifetime.
  abbrev pub stamped : Supply → PaymentIntent → PaymentIntent
  stamped s draft = record draft {
    expires_at = some (coalesce draft.expires_at (s.now + P.config.ttl_seconds * 1000));
  }

  -- The draft became a row, under a memo that no intent of the consumer had, and was announced.
  pub record IsStored (s : Supply) (username : String) (draft : PaymentIntent)
      (w w' : World P.client) : Type 0 where
    pub rows :
        (j : String)
        → P.client.payment_intent.get j w'.intents ≡ (
            if draft.id == j
            then some (stamped s draft)
            else P.client.payment_intent.get j w.intents)
    pub free :
        (j : String) (q : PaymentIntent)
        → P.client.payment_intent.get j w.intents ≡ some q
        → same_memo draft q ≡ false
    pub consumers : w'.consumers ≡ w.consumers
    pub bus : w'.bus ≡ w.bus ++ event username payment_intent_created (stamped s draft) ∷ []

module _ (P : Platform) (law : IsLawfulClient P.client) where
  -- `store` at any world, also one that another request has changed since the memo was looked up.
  -- If it returns, either the draft was stored and announced, and no intent of the consumer had
  -- its memo; or the world is unchanged and the view is of the stored intent with that memo.
  pub store-cases :
      (s : Supply) (username : String) (draft : PaymentIntent) (w w' : World P.client)
      (v : PaymentIntentView)
      → store P s username draft w ≡ done v w'
      → ((v.intent ≡ stamped P s draft) × IsStored P s username draft w w')
        ⊎ ((w' ≡ w)
            × (P.client.payment_intent.get v.intent.id w.intents ≡ some v.intent)
            × (same_memo v.intent draft ≡ true))
  unfolding store persist find_by_memo with_qr
  store-cases s username draft w w' v h =
      elim (Option-cases (P.client.payment_intent.create (stamped P s draft) w.intents)) [
        | inr (t, e) ↦ elim (Option-cases (P.qr draft.uri)) [
          | inl q ↦ absurd (ground arith)
          | inr (code, q) ↦
              inl (ground arith, subst (IsStored P s username draft w) (ground arith) (kept t e))
        ]
        | inl e ↦
            elim (Option-cases (
              P.client.payment_intent.find_first (has_memo P draft.consumer_id draft.memo)
                w.intents)) [
                  | inl f ↦ absurd (ground arith)
                  | inr (r, f) ↦
                      let (there, hit) =
                        law.payment_intent.find_first_some (has_memo P draft.consumer_id draft.memo)
                          w.intents r f in
                      elim (Option-cases (P.qr r.uri)) [
                        | inl q ↦ absurd (ground arith)
                        | inr (code, q) ↦
                            let same : r ≡ v.intent = ground arith in
                            inr (
                              ground arith,
                              subst (λ x. P.client.payment_intent.get x.id w.intents ≡ some x) same
                                  there,
                              subst (λ x. same_memo x draft ≡ true) same hit,
                            )
                      ]
                ]
      ]
    where
      kept :
          (t : P.client.payment_intent.State)
          → P.client.payment_intent.create (stamped P s draft) w.intents ≡ some t
          → IsStored P s username draft w (record w {
            intents = t;
            bus = w.bus ++ event username payment_intent_created (stamped P s draft) ∷ [];
          })
      kept t e = record {
        rows = λ j. law.payment_intent.get-create (stamped P s draft) w.intents t j e;
        free = λ j q g.
            ground (arith, law.payment_intent.create_new (stamped P s draft) w.intents t j q e g);
        consumers = refl;
        bus = refl;
      }

  -- The code of the view is that of the intent in it.
  pub store-qr :
      (s : Supply) (username : String) (draft : PaymentIntent) (w w' : World P.client)
      (v : PaymentIntentView)
      → store P s username draft w ≡ done v w'
      → P.qr v.intent.uri ≡ some v.qr
  unfolding store persist find_by_memo with_qr
  store-qr s username draft w w' v h =
      elim (Option-cases (P.client.payment_intent.create (stamped P s draft) w.intents)) [
        | inr (t, e) ↦ elim (Option-cases (P.qr draft.uri)) [
          | inl q ↦ absurd (ground arith)
          | inr (code, q) ↦ ground arith
        ]
        | inl e ↦
            elim (Option-cases (
              P.client.payment_intent.find_first (has_memo P draft.consumer_id draft.memo)
                w.intents)) [
                  | inl f ↦ absurd (ground arith)
                  | inr (r, f) ↦ elim (Option-cases (P.qr r.uri)) [
                    | inl q ↦ absurd (ground arith)
                    | inr (code, q) ↦ ground arith
                  ]
                ]
      ]
