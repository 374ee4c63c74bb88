-- ===== src/Webhooks/Endpoints/Rotation.antt =====
-- `rotateSecret` of src/webhooks/webhooks.service.ts.
use comos_pay_community_serv.Base.{
  String, true, ◌==◌, some, ◌≡◌, refl, arith, done, ◌>>=◌, subst, if◌then◌else◌,
}
use comos_pay_community_serv.Prisma.Schema.{WebhookEndpoint}
use comos_pay_community_serv.Prisma.Client.{IsLawfulClient}
use comos_pay_community_serv.Prisma.Table.{Write, written, missing, conflict}
use comos_pay_community_serv.Platform.{Platform, World, owned_by}
use comos_pay_community_serv.Webhooks.Endpoints.{generate_secret, update_endpoint, rotate_secret}
use comos_pay_community_serv.Webhooks.Endpoints.Listed.{get_owned-owned}

module _ (P : Platform) (law : IsLawfulClient P.client) where
  -- Endpoints have no unique column besides the key, so an update of one that is there succeeds.
  update_endpoint-there :
      (id : String) (f : WebhookEndpoint → WebhookEndpoint) (w : World P.client)
      (old : WebhookEndpoint)
      → P.client.webhook_endpoint.get id w.endpoints ≡ some old
      → (t : P.client.webhook_endpoint.State) × (P.client.webhook_endpoint.update id f w.endpoints
          ≡ written (f old) t)
        × (update_endpoint P id f w ≡ done (f old) (record w { endpoints = t }))
  unfolding update_endpoint
  update_endpoint-there id f w old there =
      go (P.client.webhook_endpoint.update id f w.endpoints) refl
    where
      go :
          (o : Write WebhookEndpoint P.client.webhook_endpoint.State)
          → P.client.webhook_endpoint.update id f w.endpoints ≡ o
          → (t : P.client.webhook_endpoint.State) × (P.client.webhook_endpoint.update id f
                w.endpoints
              ≡ written (f old) t)
            × (update_endpoint P id f w ≡ done (f old) (record w { endpoints = t }))
      go (written r t) k =
          let (q, stored, new) = law.webhook_endpoint.update_written id f w.endpoints t r k in
          let same : r ≡ f old = ground (arith, stored, there, new) in
          (
            t,
            subst (λ x. P.client.webhook_endpoint.update id f w.endpoints ≡ written x t) same k,
            subst (λ x. update_endpoint P id f w ≡ done x (record w { endpoints = t })) same
                (rw (k, update_endpoint) refl),
          )
      go missing k =
          absurd (ground (arith, law.webhook_endpoint.update_missing id f w.endpoints k, there))
      go conflict k =
          let (r, q, a, b, c, clash) = law.webhook_endpoint.update_refused id f w.endpoints k in
          absurd (ground (arith, clash))

  -- The owner of an endpoint rotates its secret: the call returns the endpoint with the secret that
  -- the random bytes make and its other columns as they were, and leaves every other endpoint and
  -- every other table.
  pub rotate_secret-Replaces :
      (username id random : String) (w : World P.client) (old : WebhookEndpoint)
      → P.client.webhook_endpoint.get id w.endpoints ≡ some old
      → owned_by P.client w username old.consumer_id ≡ true
      → (w' : World P.client) × (rotate_secret P username id random w
          ≡ done (record old { secret = generate_secret random }) w')
        × ((j : String)
            → P.client.webhook_endpoint.get j w'.endpoints ≡ (
                if id == j
                then some (record old { secret = generate_secret random })
                else P.client.webhook_endpoint.get j w.endpoints))
        × (w' ≡ record w { endpoints = w'.endpoints })
  unfolding rotate_secret
  rotate_secret-Replaces username id random w old there own =
      let renewed : WebhookEndpoint → WebhookEndpoint =
        λ q. record q { secret = generate_secret random } in
      let (r, k) = get_owned-owned P law username id w old there own in
      let (t, u, e) = update_endpoint-there id renewed w old there in
      (
        record w { endpoints = t },
        rw (k, ◌>>=◌) e,
        λ j. law.webhook_endpoint.get-update id renewed w.endpoints t (renewed old) j (λ q. refl) u,
        refl,
      )
