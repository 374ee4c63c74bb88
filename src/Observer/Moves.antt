-- ===== src/Observer/Moves.antt =====
-- How a loop over intents may move the rows of the table: a relation between each row before and
-- the row of the same id after.
use comos_pay_community_serv.Base.{
  String, Bool, true, none, some, List, [], ◌∷◌, ◌≡◌, inl, inr, refl, sym, arith, ◌==◌, eq_iff, M,
  Run, done, fail, world, All, All-map, Bool-cases, Option-cases, subst, value, raised, Outcome,
  ◌>>=◌, lift, pure,
}
use comos_pay_community_serv.Prisma.Schema.{PaymentIntent, Consumer, WebhookEventType}
use comos_pay_community_serv.Prisma.Client.{IsLawfulClient}
use comos_pay_community_serv.Prisma.Table.{Page}
use comos_pay_community_serv.Intents.Settle.Marks.{Marked}
use comos_pay_community_serv.Platform.{Platform, World, WebhookEvent}
use comos_pay_community_serv.Intents.Settle.Marks.{Replaces}
use comos_pay_community_serv.Observer.{join, each, find_joined}

module _ (P : Platform) (R : PaymentIntent → PaymentIntent → Type 0) where
  -- Every row of `w` stands in `w'` under its id, moved by `R`, and no row is new.
  pub record Moves (w w' : World P.client) : Type 0 where
    pub rows :
        (j : String) (q : PaymentIntent)
        → P.client.payment_intent.get j w.intents ≡ some q
        → (q' : PaymentIntent) × (P.client.payment_intent.get j w'.intents ≡ some q') × R q q'
    pub absent :
        (j : String)
        → P.client.payment_intent.get j w.intents ≡ none
        → P.client.payment_intent.get j w'.intents ≡ none

module _ (P : Platform) (R : PaymentIntent → PaymentIntent → Type 0) where
  pub Moves-refl : ((q : PaymentIntent) → R q q) → (w : World P.client) → Moves P R w w
  Moves-refl r w = record { rows = λ j q g. (q, g, r q); absent = λ j g. g }

  -- One more replacement, of a row that `r` was before, keeps the relation.
  pub Moves-Replaces :
      (id : String) (r old new : PaymentIntent) (es : List WebhookEvent) (w0 w v : World P.client)
      → Moves P R w0 w
      → P.client.payment_intent.get id w0.intents ≡ some r
      → Replaces P.client id old new es w v
      → (R r old → R r new)
      → Moves P R w0 v
  Moves-Replaces id r old new es w0 w v m there k onward = record {
    rows = λ j q g. elim (Bool-cases (id == j)) [
      | inl e ↦
          let same : id ≡ j = (eq_iff id j).0 e in
          let is_r : r ≡ q =
            cc (
              there,
              subst (λ i. P.client.payment_intent.get i w0.intents ≡ some q) (sym same) g,
            ) in
          let (q', g', moved) = m.rows id r there in
          let is_old : q' ≡ old = cc (g', k.before) in
          (
            new,
            ground (arith, k.after j),
            subst (λ x. R x new) is_r (onward (subst (R r) is_old moved)),
          )
      | inr e ↦ let (q', g', moved) = m.rows j q g in (q', ground (arith, k.after j), moved)
    ];
    absent = λ j g. elim (Bool-cases (id == j)) [
      | inl e ↦ absurd (
          ground (
            arith,
            subst (λ i. P.client.payment_intent.get i w0.intents ≡ none) (sym ((eq_iff id j).0 e))
                g,
          ))
      | inr e ↦ ground (arith, k.after j, m.absent j g)
    ];
  }

module _ (P : Platform) where
  -- The invariant rule of the loop.
  pub each_inv {ℓ} :
      (I : World P.client → Type ℓ) (step : PaymentIntent × String → M (World P.client) (Unit {0}))
      (rows : List (PaymentIntent × String)) (w : World P.client)
      → All (λ row. (v : World P.client) → I v → I (world (step row v))) rows
      → I w
      → I (world (each P step rows w))
  unfolding each
  each_inv I step [] w keeps h = h
  each_inv I step (row ∷ rows) w (now, keeps) h =
      each_inv I step rows (world (step row w)) keeps (now w h)

  join-step :
      (w : World P.client) (x : PaymentIntent) (xs : List PaymentIntent)
      (rows : List (PaymentIntent × String))
      → join P w (x ∷ xs) ≡ value rows
      → (username : String) × (joined : List (PaymentIntent × String)) × (join P w xs
          ≡ value joined)
        × (rows ≡ (x, username) ∷ joined)
  unfolding join
  join-step w x xs rows e = elim (Option-cases (P.client.consumer.get x.consumer_id w.consumers)) [
    | inl none_found ↦ absurd (ground arith)
    | inr (c, found) ↦ go c found (join P w xs) refl
  ]
    where
      go :
          (c : Consumer)
          → P.client.consumer.get x.consumer_id w.consumers ≡ some c
          → (o : Outcome (List (PaymentIntent × String))) → join P w xs ≡ o
          → (username : String) × (joined : List (PaymentIntent × String)) × (join P w xs
              ≡ value joined)
            × (rows ≡ (x, username) ∷ joined)
      go c found (value joined) k = (c.apisix_username, joined, k, ground arith)
      go c found (raised x) k = absurd (ground arith)

  pub join-All :
      (Q : PaymentIntent → Type 0) (w : World P.client) (xs : List PaymentIntent)
      (rows : List (PaymentIntent × String))
      → join P w xs ≡ value rows
      → All Q xs
      → All (λ row. Q row.0) rows
  unfolding join
  join-All Q w [] [] e h = tt
  join-All Q w [] (row ∷ rows) e h = absurd (ground arith)
  join-All Q w (x ∷ xs) rows e (h, hs) =
      let (username, joined, k, same) = join-step w x xs rows e in
      subst (All (λ row. Q row.0)) (sym same) (h, join-All Q w xs joined k hs)

module _ (P : Platform) (law : IsLawfulClient P.client)
    (R : PaymentIntent → PaymentIntent → Type 0) where
  -- A mark moves the rows where it moves the one it writes.
  pub Marked-Moves :
      (id : String) (r : PaymentIntent) (f : PaymentIntent → PaymentIntent) (username : String)
      (type : WebhookEventType) (w0 v : World P.client) (run : Run (World P.client) PaymentIntent)
      → Marked P.client id f username type v run
      → Moves P R w0 v
      → P.client.payment_intent.get id w0.intents ≡ some r
      → ((old : PaymentIntent)
          → P.client.payment_intent.get id v.intents ≡ some old
          → R r old
          → R r (f old))
      → Moves P R w0 (world run)
  Marked-Moves id r f username type w0 v run (inl (e, h)) m there onward =
      subst (λ x. Moves P R w0 (world x)) (sym h) m
  Marked-Moves id r f username type w0 v run (inr (old, v', h, k)) m there onward =
      subst (λ x. Moves P R w0 (world x)) (sym h)
        (Moves-Replaces P R id r old (f old) _ w0 v v' m there k (onward old k.before))

  -- A loop over the rows that a query reads moves the rows where each step does.
  pub phase-Moves :
      ((q : PaymentIntent) → R q q)
      → (p : PaymentIntent → Bool) (page : Page)
        (step : PaymentIntent × String → M (World P.client) (Unit {0})) (w : World P.client)
      → ((r : PaymentIntent) (username : String) (v : World P.client)
          → P.client.payment_intent.get r.id w.intents ≡ some r
          → p r ≡ true
          → Moves P R w v
          → Moves P R w (world (step (r, username) v)))
      → Moves P R w (world ((find_joined P p page >>= each P step) w))
  unfolding find_joined
  phase-Moves r p page step w moves =
      go (join P w (P.client.payment_intent.find_many p page w.intents)) refl
    where
      go :
          (o : Outcome (List (PaymentIntent × String)))
          → join P w (P.client.payment_intent.find_many p page w.intents) ≡ o
          → Moves P R w (world ((find_joined P p page >>= each P step) w))
      go (raised e) h = rw (h, ◌>>=◌, lift) (Moves-refl P R r w)
      go (value rows) h =
          rw (h, ◌>>=◌, lift)
            (each_inv P (Moves P R w) step rows w
              (All-map (λ row k v m. moves row.0 row.1 v k.0 k.1 m) rows
                (join-All P
                  (λ q. (P.client.payment_intent.get q.id w.intents ≡ some q) × (p q ≡ true)) w
                  (P.client.payment_intent.find_many p page w.intents) rows h
                  (law.payment_intent.find_many_sound p page w.intents)))
              (Moves-refl P R r w))

pub world-then_pure :
    {W A : Type 0} (m : M W A) (w : W) → world ((m >>= λ _. pure tt) w) ≡ world (m w)
world-then_pure {W} {A} m w = go (m w) refl
  where
    go : (r : Run W A) → m w ≡ r → world ((m >>= λ _. pure tt) w) ≡ world (m w)
    go (done a v) e = rw (e, ◌>>=◌) refl
    go (fail x v) e = rw (e, ◌>>=◌) refl
