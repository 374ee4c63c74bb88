-- ===== src/Platform/Mirror.antt =====
-- What `resolveConsumer` of the services does to the rows of the consumers.
use comos_pay_community_serv.Base.{
  String, Option, none, some, ◌≡◌, ◌⊎◌, ◌==◌, inl, inr, refl, sym, ap, subst, ◌∙◌, arith, eq_iff,
  world, Bool-cases, Option-cases,
}
use comos_pay_community_serv.Prisma.Schema.{Consumer}
use comos_pay_community_serv.Prisma.Table.{Write, written, missing, conflict, created}
use comos_pay_community_serv.Prisma.Client.{PrismaClient, IsLawfulClient}
use comos_pay_community_serv.Gateway.Consumer.{GatewayConsumer}
use comos_pay_community_serv.Platform.{World, Supply, resolve_consumer}
use comos_pay_community_serv.Platform.Tenants.{fresh_row, renewed, has_name}

-- The row became the mirror of the consumer: it is new and has the username, or it had the username
-- and only the credential is renewed.
abbrev pub IsMirrored : GatewayConsumer → Option Consumer → Option Consumer → Type 0
IsMirrored c before after =
    (row : Consumer) × (after ≡ some row)
    × (row.apisix_username ≡ c.username)
    × ((before ≡ none)
        ⊎ ((old : Consumer) × (before ≡ some old)
            × (row ≡ record old { credential_id = c.credential_id })))

-- Each row is as it was, or is the mirror of the consumer.
abbrev pub IsMirroredIn :
    (D : PrismaClient) → GatewayConsumer → D.consumer.State → D.consumer.State → Type 0
IsMirroredIn D c t t' =
    (j : String)
    → (D.consumer.get j t' ≡ D.consumer.get j t)
      ⊎ IsMirrored c (D.consumer.get j t) (D.consumer.get j t')

module _ (D : PrismaClient) (law : IsLawfulClient D) where
  create-IsMirroredIn :
      (s : Supply) (c : GatewayConsumer) (t t' : D.consumer.State)
      → D.consumer.create (fresh_row D s c) t ≡ some t'
      → IsMirroredIn D c t t'
  create-IsMirroredIn s c t t' made j = elim (Bool-cases (s.consumer_id == j)) [
    | inr off ↦ inl (ground (arith, law.consumer.get-create (fresh_row D s c) t t' j made))
    | inl on ↦ inr (
      fresh_row D s c,
      ground (arith, law.consumer.get-create (fresh_row D s c) t t' j made),
      refl,
      elim (Option-cases (D.consumer.get j t)) [
        | inl free ↦ inl free
        | inr (q, there) ↦
            let (other, _) = law.consumer.create_new (fresh_row D s c) t t' j q made there in
            absurd (other ((eq_iff s.consumer_id j).0 on))
      ],
    )
  ]

  update-IsMirroredIn :
      (c : GatewayConsumer) (t t' : D.consumer.State) (q r : Consumer)
      → D.consumer.find_first (has_name D c) t ≡ some q
      → D.consumer.update q.id (renewed D c) t ≡ written r t'
      → IsMirroredIn D c t t'
  update-IsMirroredIn c t t' q r hit e j = elim (Bool-cases (q.id == j)) [
    | inr off ↦
        inl (ground (arith, law.consumer.get-update q.id (renewed D c) t t' r j (λ _. refl) e))
    | inl on ↦
        let (old, there, new) = law.consumer.update_written q.id (renewed D c) t t' r e in
        let (stored, named) = law.consumer.find_first_some (has_name D c) t q hit in
        let same : old ≡ q = cc (there, stored) in
        inr (
          r,
          ground (arith, law.consumer.get-update q.id (renewed D c) t t' r j (λ _. refl) e),
          ap (λ (x : Consumer). x.apisix_username) new
              ∙ ap (λ (x : Consumer). x.apisix_username) same
              ∙ (eq_iff q.apisix_username c.username).0 named,
          inr (old, subst (λ i. D.consumer.get i t ≡ some old) ((eq_iff q.id j).0 on) there, new),
        )
  ]

  pub resolve_consumer-IsMirroredIn :
      (s : Supply) (c : GatewayConsumer) (w : World D)
      → IsMirroredIn D c w.consumers (world (resolve_consumer D s c w)).consumers
  unfolding resolve_consumer
  resolve_consumer-IsMirroredIn s c w =
      go (D.consumer.upsert (has_name D c) (fresh_row D s c) (renewed D c) w.consumers) refl
    where
      stored :
          (r : Consumer) (t : D.consumer.State)
          → D.consumer.upsert (has_name D c) (fresh_row D s c) (renewed D c) w.consumers
            ≡ written r t
          → IsMirroredIn D c w.consumers t
      stored r t e = elim (Option-cases (D.consumer.find_first (has_name D c) w.consumers)) [
        | inr (q, hit) ↦ update-IsMirroredIn c w.consumers t q r hit (
            sym (
              law.consumer.upsert_some (has_name D c) (fresh_row D s c) (renewed D c) w.consumers q
                hit)
            ∙ e)
        | inl miss ↦
            let k : created (fresh_row D s c) (D.consumer.create (fresh_row D s c) w.consumers)
                ≡ written r t =
              sym (
                law.consumer.upsert_none (has_name D c) (fresh_row D s c) (renewed D c) w.consumers
                  miss)
              ∙ e in
            elim (Option-cases (D.consumer.create (fresh_row D s c) w.consumers)) [
              | inl refused ↦ absurd (ground arith)
              | inr (u, made) ↦ create-IsMirroredIn s c w.consumers t (ground arith)
            ]
      ]

      go :
          (o : Write Consumer D.consumer.State)
          → D.consumer.upsert (has_name D c) (fresh_row D s c) (renewed D c) w.consumers ≡ o
          → IsMirroredIn D c w.consumers (world (resolve_consumer D s c w)).consumers
      go (written r t) e = rw (e, resolve_consumer) (stored r t e)
      go missing e = rw (e, resolve_consumer) (λ j. inl refl)
      go conflict e = rw (e, resolve_consumer) (λ j. inl refl)
