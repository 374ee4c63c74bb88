-- ===== src/Platform/Tenants.antt =====
-- `resolveConsumer` of the services: one local consumer for each gateway username.
use comos_pay_community_serv.Base.{
  String, Bool, some, ◌≡◌, inl, inr, refl, sym, ap, ◌∙◌, arith, ◌==◌, eq_iff, eq_refl, done,
  Option-cases, subst,
}
use comos_pay_community_serv.Prisma.Schema.{Consumer, consumer_clash}
use comos_pay_community_serv.Prisma.Table.{Write, written, missing, conflict, created}
use comos_pay_community_serv.Prisma.Client.{PrismaClient, IsLawfulClient, consumer_key}
use comos_pay_community_serv.Gateway.Consumer.{GatewayConsumer}
use comos_pay_community_serv.Platform.{World, Supply, resolve_consumer}
use comos_pay_community_serv.Platform.Uniqueness.{IsUnique, upsert-IsUnique}

consumer_clash_comm : (a b : Consumer) → consumer_clash a b ≡ consumer_clash b a
consumer_clash_comm a b =
    ground (
      arith,
      eq_iff a.apisix_username b.apisix_username,
      eq_iff b.apisix_username a.apisix_username,
    )

module _ (D : PrismaClient) where
  abbrev pub HasUniqueConsumers : World D → Type 0
  HasUniqueConsumers w = IsUnique consumer_key consumer_clash D.consumer w.consumers

  -- The local consumer of a username, and what else of the world may have changed: nothing.
  pub record IsLocal (username : String) (local : Consumer) (w w' : World D) : Type 0 where
    pub stored : D.consumer.get local.id w'.consumers ≡ some local
    pub named : local.apisix_username ≡ username
    pub rest : w' ≡ record w { consumers = w'.consumers }
    pub unique : HasUniqueConsumers w → HasUniqueConsumers w'

  abbrev pub fresh_row : Supply → GatewayConsumer → Consumer
  fresh_row s c = record {
    id = s.consumer_id;
    apisix_username = c.username;
    credential_id = c.credential_id;
    created_at = s.now;
  }

  abbrev pub renewed : GatewayConsumer → Consumer → Consumer
  renewed c r = record r { credential_id = c.credential_id }

  abbrev pub has_name : GatewayConsumer → Consumer → Bool
  has_name c r = r.apisix_username == c.username

module _ (D : PrismaClient) (law : IsLawfulClient D) where
  upsert-stored :
      (s : Supply) (c : GatewayConsumer) (t t' : D.consumer.State) (r : Consumer)
      → D.consumer.upsert (has_name D c) (fresh_row D s c) (renewed D c) t ≡ written r t'
      → (D.consumer.get r.id t' ≡ some r) × (r.apisix_username ≡ c.username)
  upsert-stored s c t t' r h = elim (Option-cases (D.consumer.find_first (has_name D c) t)) [
    | inl e ↦
        let k : created (fresh_row D s c) (D.consumer.create (fresh_row D s c) t) ≡ written r t' =
          sym (law.consumer.upsert_none (has_name D c) (fresh_row D s c) (renewed D c) t e) ∙ h in
        elim (Option-cases (D.consumer.create (fresh_row D s c) t)) [
          | inl no_row ↦ absurd (ground arith)
          | inr (u, made) ↦
              let same : fresh_row D s c ≡ r = ground arith in
              let now : D.consumer.get s.consumer_id u ≡ some (fresh_row D s c) = ground (
                arith,
                law.consumer.get-create (fresh_row D s c) t u s.consumer_id made,
                eq_refl s.consumer_id,
              ) in
              (
                subst (λ q. D.consumer.get q.id t' ≡ some q) same
                    (subst (λ x. D.consumer.get s.consumer_id x ≡ some (fresh_row D s c))
                      (ground arith) now),
                ap (λ (q : Consumer). q.apisix_username) (sym same),
              )
        ]
    | inr (q, e) ↦
        let k : D.consumer.update q.id (renewed D c) t ≡ written r t' =
          sym (law.consumer.upsert_some (has_name D c) (fresh_row D s c) (renewed D c) t q e) ∙ h in
        let (_, named) = law.consumer.find_first_some (has_name D c) t q e in
        let (old, there, new) = law.consumer.update_written q.id (renewed D c) t t' r k in
        let (there_q, _) = law.consumer.find_first_some (has_name D c) t q e in
        let same : old ≡ q = cc (there, there_q) in
        let id_same : r.id ≡ q.id =
          ap (λ (x : Consumer). x.id) new ∙ ap (λ (x : Consumer). x.id) same in
        let now : D.consumer.get q.id t' ≡ some r = ground (
          arith,
          law.consumer.get-update q.id (renewed D c) t t' r q.id (λ _. refl) k,
          eq_refl q.id,
        ) in
        (
          subst (λ i. D.consumer.get i t' ≡ some r) (sym id_same) now,
          ap (λ (x : Consumer). x.apisix_username) new
              ∙ ap (λ (x : Consumer). x.apisix_username) same
              ∙ (eq_iff q.apisix_username c.username).0 named,
        )
  ]

  pub resolve_consumer-IsLocal :
      (s : Supply) (c : GatewayConsumer) (w w' : World D) (local : Consumer)
      → resolve_consumer D s c w ≡ done local w'
      → IsLocal D c.username local w w'
  unfolding resolve_consumer
  resolve_consumer-IsLocal s c w w' local h =
      go (D.consumer.upsert (has_name D c) (fresh_row D s c) (renewed D c) w.consumers) refl
    where
      go :
          (o : Write Consumer D.consumer.State)
          → D.consumer.upsert (has_name D c) (fresh_row D s c) (renewed D c) w.consumers ≡ o
          → IsLocal D c.username local w w'
      go (written r t) e =
          let k : done r (record w { consumers = t }) ≡ done local w' =
            rw (e, resolve_consumer) at h in
          let row : r ≡ local = cc k in
          let (stored, named) = upsert-stored s c w.consumers t r e in
          subst (λ q. IsLocal D c.username q w w') row
            (subst (IsLocal D c.username r w) (cc k) (record {
              stored = stored;
              named = named;
              rest = refl;
              unique =
                  upsert-IsUnique consumer_key consumer_clash D.consumer law.consumer
                    consumer_clash_comm (has_name D c) (fresh_row D s c) (renewed D c) w.consumers t
                    r (λ _. refl) e;
            }))
      go missing e = absurd (ground arith)
      go conflict e = absurd (ground arith)

  -- A username that has a local consumer keeps it: the upsert returns the row of the same id.
  pub resolve_consumer-again :
      (s : Supply) (c : GatewayConsumer) (w : World D) (i : String) (c0 : Consumer)
      → HasUniqueConsumers D w
      → D.consumer.get i w.consumers ≡ some c0
      → c0.apisix_username ≡ c.username
      → (local : Consumer) × (w' : World D) × (resolve_consumer D s c w ≡ done local w')
        × (local.id ≡ i)
  unfolding resolve_consumer
  resolve_consumer-again s c w i c0 u there named =
      elim (Option-cases (D.consumer.find_first (has_name D c) w.consumers)) [
        | inl e ↦ absurd (
            ground (
              arith,
              law.consumer.find_first_none (has_name D c) w.consumers i c0 e there,
              eq_iff c0.apisix_username c.username,
            ))
        | inr (r, e) ↦
            let (row, hit) = law.consumer.find_first_some (has_name D c) w.consumers r e in
            let same : r.id ≡ i = u r.id i r c0 row there (
              ground (
                arith,
                eq_iff r.apisix_username c.username,
                eq_iff r.apisix_username c0.apisix_username,
              )) in
            go r same row
              (law.consumer.upsert_some (has_name D c) (fresh_row D s c) (renewed D c) w.consumers r
                e)
              (D.consumer.update r.id (renewed D c) w.consumers) refl
      ]
    where
      go :
          (r : Consumer)
          → r.id ≡ i
          → D.consumer.get r.id w.consumers ≡ some r
          → D.consumer.upsert (has_name D c) (fresh_row D s c) (renewed D c) w.consumers
            ≡ D.consumer.update r.id (renewed D c) w.consumers
          → (o : Write Consumer D.consumer.State)
          → D.consumer.update r.id (renewed D c) w.consumers ≡ o
          → (local : Consumer) × (w' : World D) × (resolve_consumer D s c w ≡ done local w')
            × (local.id ≡ i)
      go r same row up (written q t) e =
          let (old, there_old, new) =
            law.consumer.update_written r.id (renewed D c) w.consumers t q e in
          let one : old ≡ r = cc (there_old, row) in
          (
            q,
            record w { consumers = t },
            rw (up ∙ e, resolve_consumer),
            ap (λ (x : Consumer). x.id) new ∙ ap (λ (x : Consumer). x.id) one ∙ same,
          )
      go r same row up missing e =
          absurd (ground (arith, law.consumer.update_missing r.id (renewed D c) w.consumers e))
      go r same row up conflict e =
          let (r0, q, there_r, there_q, other, clash) =
            law.consumer.update_refused r.id (renewed D c) w.consumers e in
          absurd (other (sym (u r.id q.id r0 q there_r there_q clash)))
