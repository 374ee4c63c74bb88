-- ===== src/Http/Server/Least.antt =====
-- What a request may change, by the scopes of its key.
use comos_pay_community_serv.Base.{
  ℕ, String, true, false, Option, none, some, Memᴰ, ◌≡◌, ◌≢◌, ◌⊎◌, ◌==◌, eq_iff, refl, sym, ap,
  subst, ◌∙◌, inl, inr, arith, any-true, includes, All, All-mem, Run, done, fail, world, Outcome,
  value, raised, Bool-cases, Option-cases,
}
use comos_pay_community_serv.Gateway.Consumer.{GatewayConsumer, admin}
use comos_pay_community_serv.Gateway.Context.{attach}
use comos_pay_community_serv.Gateway.Guards.{is_public, required, enter}
use comos_pay_community_serv.Gateway.Guards.Admits.{
  IsGranted, enter-IsGranted, includes_mem, mem-includes,
}
use comos_pay_community_serv.Prisma.Schema.{RequestLog}
use comos_pay_community_serv.Prisma.Client.{IsLawfulClient}
use comos_pay_community_serv.Platform.{Platform, World}
use comos_pay_community_serv.Platform.Mirror.{IsMirroredIn, resolve_consumer-IsMirroredIn}
use comos_pay_community_serv.Http.{Edge, Draws}
use comos_pay_community_serv.Http.Answer.{Answer}
use comos_pay_community_serv.Http.AccessLog.{RequestInfo, persist, is_skipped, log_row}
use comos_pay_community_serv.Http.Calls.{
  Call, payment_intents, webhooks, customers, products, analytics, route_of, handle,
}
use comos_pay_community_serv.Http.ReadOnly.{MirrorsIn, MirrorsIn-rest}
use comos_pay_community_serv.Http.ReadOnly.Handlers.{write_scopes, writes, handle-IsMirror}
use comos_pay_community_serv.Http.Server.{finish, serve}

pub guarded : (call : Call) → is_public (route_of call) ≡ false
unfolding route_of
guarded (payment_intents call) = ground arith
guarded (webhooks call) = ground arith
guarded (customers call) = ground arith
guarded (products call) = ground arith
guarded (analytics call) = ground arith

-- The key holds no scope of a route that writes.
abbrev pub HoldsNoWriteScope : GatewayConsumer → Type 0
HoldsNoWriteScope c = All (λ s. includes s c.permissions ≡ false) write_scopes

writes-false :
    (call : Call) (c : GatewayConsumer)
    → IsGranted (required (route_of call)) c
    → c.role ≢ some admin
    → HoldsNoWriteScope c
    → writes call ≡ false
writes-false call c (inl e) plain held = absurd (plain e)
writes-false call c (inr granted) plain held = elim (Bool-cases (writes call)) [
  | inr e ↦ e
  | inl e ↦
      let (scope, m, listed) =
        any-true (λ scope. includes scope write_scopes) (required (route_of call)) e in
      let has : includes scope c.permissions ≡ true =
        mem-includes scope c.permissions
          (All-mem (λ s. Memᴰ s c.permissions) (required (route_of call)) granted m) in
      let lacks : includes scope c.permissions ≡ false =
        All-mem (λ s. includes s c.permissions ≡ false) write_scopes held
          (includes_mem scope write_scopes listed) in
      absurd (cc (has, lacks))
]

module _ (P : Platform) where
  -- At most one row of the access log is new, under the id that is drawn for it.
  abbrev pub IsAppended : String → P.client.request_log.State → P.client.request_log.State → Type 0
  IsAppended id t t' =
      (j : String)
      → (P.client.request_log.get j t' ≡ P.client.request_log.get j t)
        ⊎ ((id ≡ j) × (P.client.request_log.get j t ≡ none))

  -- Only the mirror of the consumer and the access log may differ.
  pub record Untouched (c : GatewayConsumer) (log_id : String) (w w' : World P.client)
      : Type 0 where
    pub rest : w' ≡ record w { consumers = w'.consumers; logs = w'.logs }
    pub consumers : IsMirroredIn P.client c w.consumers w'.consumers
    pub logs : IsAppended log_id w.logs w'.logs

module _ (P : Platform) (E : Edge) (law : IsLawfulClient P.client) where
  MirrorsIn-consumers :
      (c : GatewayConsumer) (w v : World P.client)
      → MirrorsIn P c w v
      → IsMirroredIn P.client c w.consumers v.consumers
  MirrorsIn-consumers c w v (inl e) =
      λ j. inl (ap (λ (x : World P.client). P.client.consumer.get j x.consumers) e)
  MirrorsIn-consumers c w v (inr (s, e)) =
      subst (λ (x : World P.client). IsMirroredIn P.client c w.consumers x.consumers) (sym e)
        (resolve_consumer-IsMirroredIn P.client law s c w)

  MirrorsIn-Untouched :
      (c : GatewayConsumer) (id : String) (w v : World P.client)
      → MirrorsIn P c w v
      → Untouched P c id w v
  MirrorsIn-Untouched c id w v h =
      let rest : v ≡ record w { consumers = v.consumers } = MirrorsIn-rest P c w v h in
      let logs : v.logs ≡ w.logs = ap (λ (x : World P.client). x.logs) rest in
      record {
        rest = rest ∙ ap (λ l. record w { consumers = v.consumers; logs = l }) (sym logs);
        consumers = MirrorsIn-consumers c w v h;
        logs = λ j. inl (ap (P.client.request_log.get j) logs);
      }

  persist-Untouched :
      (c : GatewayConsumer) (id : String) (now : ℕ) (q : RequestInfo) (status duration : ℕ)
      (username : Option String) (w v : World P.client)
      → Untouched P c id w v
      → w.logs ≡ v.logs
      → Untouched P c id w (persist P id now q status duration username v)
  unfolding persist
  persist-Untouched c id now q status duration username w v h same =
      elim (Bool-cases (is_skipped q)) [
        | inl skipped ↦ rw (skipped, persist) h
        | inr noted ↦
            elim (Option-cases
              (P.client.request_log.create (log_row id now q status duration username) v.logs)) [
                | inl e ↦ rw (noted, e, persist) h
                | inr (t, e) ↦
                    rw (noted, e, persist)
                      (record {
                        rest = ap (λ (x : World P.client). record x { logs = t }) h.rest;
                        consumers = h.consumers;
                        logs = appended t e;
                      })
              ]
      ]
    where
      row : RequestLog
      row = log_row id now q status duration username

      appended :
          (t : P.client.request_log.State)
          → P.client.request_log.create row v.logs ≡ some t
          → IsAppended P id w.logs t
      appended t e =
          subst (λ l. IsAppended P id l t) (sym same)
            (λ j. elim (Bool-cases (id == j)) [
              | inr off ↦ inl (ground (arith, law.request_log.get-create row v.logs t j e))
              | inl on ↦ elim (Option-cases (P.client.request_log.get j v.logs)) [
                | inl free ↦ inr ((eq_iff id j).0 on, free)
                | inr (old, there) ↦
                    let (other, _) = law.request_log.create_new row v.logs t j old e there in
                    absurd (other ((eq_iff id j).0 on))
              ]
            ])

  finish-Untouched :
      (c : GatewayConsumer) (r : Draws) (q : RequestInfo) (username : Option String)
      (w : World P.client) (run : Run (World P.client) (Answer E.floats))
      → MirrorsIn P c w (world run)
      → Untouched P c r.log_id w (finish P E r q username run).0
  unfolding finish
  finish-Untouched c r q username w (done a v) h =
      persist-Untouched c r.log_id (r.supply).now q (r.code_at_end none) r.duration_ms username w v
        (MirrorsIn-Untouched c r.log_id w v h)
        (sym (ap (λ (x : World P.client). x.logs) (MirrorsIn-rest P c w v h)))
  finish-Untouched c r q username w (fail e v) h =
      persist-Untouched c r.log_id (r.supply).now q (r.code_at_end (some e)) r.duration_ms username
        w v (MirrorsIn-Untouched c r.log_id w v h)
        (sym (ap (λ (x : World P.client). x.logs) (MirrorsIn-rest P c w v h)))

  -- A request whose key is not an admin's and holds no write scope changes nothing but the mirror
  -- of its consumer and the access log, whichever call it makes and whatever becomes of it: no
  -- intent, endpoint, delivery, customer or product, and no event. Each row of the consumers is as
  -- it was, or is new and has the consumer's username, or had it and only its credential is renewed;
  -- and at most one row of the access log is new, under the id drawn for it, the others as they were.
  pub serve-Untouched :
      (r : Draws) (q : RequestInfo) (call : Call) (w : World P.client) (c : GatewayConsumer)
      → attach E.parse_json E.names q.headers ≡ some c
      → c.role ≢ some admin
      → HoldsNoWriteScope c
      → Untouched P c r.log_id w (serve P E r q call w).0
  unfolding serve
  serve-Untouched r q call w c attached plain held =
      go (enter E.buffer E.gateway_secret E.names E.parse_json (route_of call) q.headers) refl
    where
      go :
          (o : Outcome GatewayConsumer)
          → enter E.buffer E.gateway_secret E.names E.parse_json (route_of call) q.headers ≡ o
          → Untouched P c r.log_id w (serve P E r q call w).0
      go (raised e) k = rw (k, serve) (MirrorsIn-Untouched c r.log_id w w (inl refl))
      go (value d) k =
          let (there, granted) =
            enter-IsGranted E.buffer E.gateway_secret E.names E.parse_json (route_of call) q.headers
              d (guarded call) k in
          let same : c ≡ d = cc (attached, there) in
          let reads : writes call ≡ false =
            writes-false call c (subst (IsGranted (required (route_of call))) (sym same) granted)
              plain held in
          rw (k, serve)
            (finish-Untouched c r q (some d.username) w (handle P E r d call w) (
              subst (λ x. MirrorsIn P x w (world (handle P E r d call w))) (sym same)
                (handle-IsMirror P E r d call reads w)))
