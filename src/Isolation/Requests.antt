-- ===== src/Isolation/Requests.antt =====
-- Whole requests spare the rows of other consumers.
use comos_pay_community_serv.Isolation.Spares.{Spares, Spares-refl, Spares-trans, untouched}
use comos_pay_community_serv.Http.Answer.{Answer}
use comos_pay_community_serv.Http.AccessLog.{persist, RequestInfo, is_skipped, log_row}
use comos_pay_community_serv.Http.Server.{finish, serve}
use comos_pay_community_serv.Base.{
  Bool-cases, Option, Option-cases, Outcome, Run, String, done, fail, inl, inr, none, raised, refl,
  some, subst, value, world, ℕ, ◌≡◌,
}
use comos_pay_community_serv.Http.Calls.{Call, handle, route_of}
use comos_pay_community_serv.Http.{Draws, Edge}
use comos_pay_community_serv.Gateway.Consumer.{GatewayConsumer}
use comos_pay_community_serv.Prisma.Client.{IsLawfulClient}
use comos_pay_community_serv.Platform.{Platform, World}
use comos_pay_community_serv.Gateway.Context.{attach}
use comos_pay_community_serv.Gateway.Guards.{enter}
use comos_pay_community_serv.Gateway.Guards.Admits.{enter-IsGranted}
use comos_pay_community_serv.Http.Server.Least.{guarded}
use comos_pay_community_serv.Isolation.Handlers.{handle-IsSparing}

module _ (P : Platform) (E : Edge) (law : IsLawfulClient P.client) where
  persist-Spares :
      (name id : String) (now : ℕ) (q : RequestInfo) (status duration : ℕ)
      (username : Option String) (w : World P.client)
      → Spares P name w (persist P id now q status duration username w)
  unfolding persist
  persist-Spares name id now q status duration username w = elim (Bool-cases (is_skipped q)) [
    | inl skipped ↦ rw (skipped, persist) (Spares-refl P name w)
    | inr noted ↦
        elim (Option-cases
          (P.client.request_log.create (log_row id now q status duration username) w.logs)) [
            | inl e ↦ rw (noted, e, persist) (Spares-refl P name w)
            | inr (t, e) ↦ rw (noted, e, persist) (untouched P name w _ refl refl refl refl refl)
          ]
  ]

  finish-Spares :
      (name : String) (r : Draws) (q : RequestInfo) (username : Option String) (w : World P.client)
      (run : Run (World P.client) (Answer E.floats))
      → Spares P name w (world run)
      → Spares P name w (finish P E r q username run).0
  unfolding finish
  finish-Spares name r q username w (done a v) h =
      Spares-trans P name w v _ h (
        persist-Spares name r.log_id (r.supply).now q (r.code_at_end none) r.duration_ms username v)
  finish-Spares name r q username w (fail e v) h = Spares-trans P name w v _ h (
      persist-Spares name r.log_id (r.supply).now q (r.code_at_end (some e)) r.duration_ms username
        v)

  -- The tenants are apart: a request of a consumer, whichever call it makes and whatever becomes of
  -- it, leaves the row of every consumer with another username as it is, and every customer,
  -- product, intent and endpoint of such a consumer.
  pub serve-Spares :
      (r : Draws) (q : RequestInfo) (call : Call) (w : World P.client) (c : GatewayConsumer)
      → attach E.parse_json E.names q.headers ≡ some c
      → Spares P c.username w (serve P E r q call w).0
  unfolding serve
  serve-Spares r q call w c attached =
      go (enter E.buffer E.gateway_secret E.names E.parse_json (route_of call) q.headers) refl
    where
      go :
          (o : Outcome GatewayConsumer)
          → enter E.buffer E.gateway_secret E.names E.parse_json (route_of call) q.headers ≡ o
          → Spares P c.username w (serve P E r q call w).0
      go (raised e) k = rw (k, serve) (Spares-refl P c.username w)
      go (value d) k =
          let (there, _) =
            enter-IsGranted E.buffer E.gateway_secret E.names E.parse_json (route_of call) q.headers
              d (guarded call) k in
          let same : d ≡ c = cc (attached, there) in
          rw (k, serve)
            (finish-Spares c.username r q (some d.username) w (handle P E r d call w) (
              subst (λ (x : GatewayConsumer). Spares P x.username w (world (handle P E r d call w)))
                same (handle-IsSparing P E law r d call w)))
