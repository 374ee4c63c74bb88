-- ===== src/Lifecycle/Evolves.antt =====
-- Methods under which each intent lives as the state machine allows, and how they compose.
use comos_pay_community_serv.Base.{
  String, Option, some, List, ◌≡◌, inl, inr, refl, sym, subst, ◌∙◌, arith, ◌==◌, eq_iff, Bool-cases,
  M, Run, done, fail, world, ◌>>=◌,
}
use comos_pay_community_serv.Prisma.Schema.{PaymentIntent, WebhookEventType}
use comos_pay_community_serv.Platform.{Platform, World, WebhookEvent}
use comos_pay_community_serv.Intents.Manage.{UpdatePaymentIntentDto}
use comos_pay_community_serv.Intents.Settle.Marks.{Replaces, Marked}
use comos_pay_community_serv.Lifecycle.{Changes, Life, Life-refl}

module _ (P : Platform) where
  -- The method writes no intent.
  abbrev pub Keeps : {A : Type 0} → M (World P.client) A → Type 0
  Keeps m = (w : World P.client) → (world (m w)).intents ≡ w.intents

  -- Every row of the table lives on.
  abbrev pub Lives :
      Option UpdatePaymentIntentDto
      → P.client.payment_intent.State
      → P.client.payment_intent.State
      → Type 0
  Lives edit s t =
      (j : String)
      → Life P.horizon P.numbers edit (P.client.payment_intent.get j s)
          (P.client.payment_intent.get j t)

  abbrev pub Evolves : {A : Type 0} → Option UpdatePaymentIntentDto → M (World P.client) A → Type 0
  Evolves edit m = (w : World P.client) → Lives edit w.intents (world (m w)).intents

  pub Keeps-bind :
      {A B : Type 0} (m : M (World P.client) A) (f : A → M (World P.client) B)
      → Keeps m
      → ((a : A) → Keeps (f a))
      → Keeps (m >>= f)
  Keeps-bind {A} {B} m f k k' w = go (m w) refl
    where
      go : (o : Run (World P.client) A) → m w ≡ o → (world ((m >>= f) w)).intents ≡ w.intents
      go (done a v) e =
          let kept : v.intents ≡ w.intents =
            subst (λ (x : Run (World P.client) A). (world x).intents ≡ w.intents) e (k w) in
          rw (e, ◌>>=◌) (k' a v ∙ kept)
      go (fail x v) e =
          let kept : v.intents ≡ w.intents =
            subst (λ (x : Run (World P.client) A). (world x).intents ≡ w.intents) e (k w) in
          rw (e, ◌>>=◌) kept

  pub Lives-kept :
      (edit : Option UpdatePaymentIntentDto) (s t : P.client.payment_intent.State)
      → t ≡ s
      → Lives edit s t
  Lives-kept edit s t e =
      subst (Lives edit s) (sym e)
        (λ j. Life-refl P.horizon P.numbers edit (P.client.payment_intent.get j s))

  pub Keeps-Evolves :
      {A : Type 0} (edit : Option UpdatePaymentIntentDto) (m : M (World P.client) A)
      → Keeps m
      → Evolves edit m
  Keeps-Evolves edit m k w = Lives-kept edit w.intents (world (m w)).intents (k w)

  -- A method that evolves may follow one that writes no intent.
  pub Evolves-after :
      {A B : Type 0} (edit : Option UpdatePaymentIntentDto) (m : M (World P.client) A)
      (f : A → M (World P.client) B)
      → Keeps m
      → ((a : A) → Evolves edit (f a))
      → Evolves edit (m >>= f)
  Evolves-after {A} {B} edit m f k k' w = go (m w) refl
    where
      go :
          (o : Run (World P.client) A)
          → m w ≡ o
          → Lives edit w.intents (world ((m >>= f) w)).intents
      go (done a v) e =
          let kept : v.intents ≡ w.intents =
            subst (λ (x : Run (World P.client) A). (world x).intents ≡ w.intents) e (k w) in
          rw (e, ◌>>=◌) (subst (λ s. Lives edit s (world (f a v)).intents) kept (k' a v))
      go (fail x v) e =
          let kept : v.intents ≡ w.intents =
            subst (λ (x : Run (World P.client) A). (world x).intents ≡ w.intents) e (k w) in
          rw (e, ◌>>=◌) (Lives-kept edit w.intents v.intents kept)

  -- It may be followed by one.
  pub Lives-before :
      {A B : Type 0} (edit : Option UpdatePaymentIntentDto) (m : M (World P.client) A)
      (f : A → M (World P.client) B) (w : World P.client)
      → Lives edit w.intents (world (m w)).intents
      → ((a : A) → Keeps (f a))
      → Lives edit w.intents (world ((m >>= f) w)).intents
  Lives-before {A} {B} edit m f w k k' = go (m w) refl
    where
      go :
          (o : Run (World P.client) A)
          → m w ≡ o
          → Lives edit w.intents (world ((m >>= f) w)).intents
      go (done a v) e =
          let lived : Lives edit w.intents v.intents =
            subst (λ (x : Run (World P.client) A). Lives edit w.intents (world x).intents) e k in
          rw (e, ◌>>=◌) (subst (Lives edit w.intents) (sym (k' a v)) lived)
      go (fail x v) e =
          rw (e, ◌>>=◌)
            (subst (λ (x : Run (World P.client) A). Lives edit w.intents (world x).intents) e k)

  pub Evolves-before :
      {A B : Type 0} (edit : Option UpdatePaymentIntentDto) (m : M (World P.client) A)
      (f : A → M (World P.client) B)
      → Evolves edit m
      → ((a : A) → Keeps (f a))
      → Evolves edit (m >>= f)
  Evolves-before edit m f k k' w = Lives-before edit m f w (k w) k'

  -- One replacement is a step of the row that it replaces.
  pub Lives-Replaces :
      (edit : Option UpdatePaymentIntentDto) (id : String) (old new : PaymentIntent)
      (es : List WebhookEvent) (w w' : World P.client)
      → Replaces P.client id old new es w w'
      → Changes P.horizon P.numbers edit old new
      → Lives edit w.intents w'.intents
  unfolding Life
  Lives-Replaces edit id old new es w w' h c j = elim (Bool-cases (id == j)) [
    | inl e ↦
        let before : P.client.payment_intent.get j w.intents ≡ some old =
          subst (λ i. P.client.payment_intent.get i w.intents ≡ some old) ((eq_iff id j).0 e)
            h.before in
        let after : P.client.payment_intent.get j w'.intents ≡ some new =
          ground (arith, h.after j) in
        rw (before, after) c
    | inr e ↦
        let after : P.client.payment_intent.get j w'.intents
            ≡ P.client.payment_intent.get j w.intents =
          ground (arith, h.after j) in
        rw (after) (Life-refl P.horizon P.numbers edit (P.client.payment_intent.get j w.intents))
  ]

  -- A mark is a step of the row that it marks.
  pub Marked-Lives :
      (edit : Option UpdatePaymentIntentDto) (id : String) (f : PaymentIntent → PaymentIntent)
      (username : String) (type : WebhookEventType) (w : World P.client)
      (run : Run (World P.client) PaymentIntent)
      → Marked P.client id f username type w run
      → ((old : PaymentIntent)
          → P.client.payment_intent.get id w.intents ≡ some old
          → Changes P.horizon P.numbers edit old (f old))
      → Lives edit w.intents (world run).intents
  Marked-Lives edit id f username type w run (inl (e, h)) c =
      subst (λ (x : Run (World P.client) PaymentIntent). Lives edit w.intents (world x).intents)
        (sym h) (Lives-kept edit w.intents w.intents refl)
  Marked-Lives edit id f username type w run (inr (old, v, h, k)) c =
      subst (λ (x : Run (World P.client) PaymentIntent). Lives edit w.intents (world x).intents)
        (sym h) (Lives-Replaces edit id old (f old) _ w v k (c old k.before))
