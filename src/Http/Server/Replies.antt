-- ===== src/Http/Server/Replies.antt =====
-- What a request is answered with.
use comos_pay_community_serv.Base.{
  ℕ, String, false, Option, none, some, List, ◌≡◌, ◌≢◌, refl, subst, ◌⊎◌, arith, Run, done, fail,
  Exception, http, unexpected, Outcome, value, raised,
}
use comos_pay_community_serv.Gateway.Consumer.{GatewayConsumer}
use comos_pay_community_serv.Gateway.Context.{Headers, attach}
use comos_pay_community_serv.Gateway.Guards.{
  Route, is_public, required, enter, has_valid_secret, apisix_guard, check_scopes,
  permissions_guard,
}
use comos_pay_community_serv.Http.Server.Least.{guarded}
use comos_pay_community_serv.Platform.{Platform, World}
use comos_pay_community_serv.Http.{Edge, Draws}
use comos_pay_community_serv.Http.Answer.{Answer}
use comos_pay_community_serv.Http.Errors.{ErrorBody, one, catch_thrown}
use comos_pay_community_serv.Http.AccessLog.{RequestInfo}
use comos_pay_community_serv.Http.Calls.{Call, route_of, handle}
use comos_pay_community_serv.Http.Server.{Response, success, failure, finish, serve, respond_error}

module _ (P : Platform) (E : Edge) where
  -- The answer to a run of a handler, in words of its own: what it returns; or the status and the
  -- message of an HttpException; or a 500 that tells nothing of another error.
  pub data Replies (q : RequestInfo) (now : ℕ) (run : Run (World P.client) (Answer E.floats))
      (reply : Response E) : Type 0 where
    returns :
        (a : Answer E.floats) (v : World P.client)
        → run ≡ done a v
        → reply ≡ success a
        → Replies q now run reply
    refuses :
        (status : ℕ) (m : String) (v : World P.client)
        → run ≡ fail (http status m) v
        → reply
          ≡ failure (record {
            status_code = status;
            error = E.reason status;
            message = one m;
            path = q.url;
            timestamp = now;
          })
        → Replies q now run reply
    hides :
        (m : String) (v : World P.client)
        → run ≡ fail (unexpected m) v
        → reply
          ≡ failure (record {
            status_code = 500;
            error = "Internal Server Error";
            message = one "Internal server error";
            path = q.url;
            timestamp = now;
          })
        → Replies q now run reply

  finish-Replies :
      (r : Draws) (q : RequestInfo) (username : Option String)
      (run : Run (World P.client) (Answer E.floats))
      → Replies q (r.supply).now run (finish P E r q username run).1
  unfolding finish respond_error catch_thrown
  finish-Replies r q username (done a v) = Replies.returns a v refl refl
  finish-Replies r q username (fail (http status m) v) = Replies.refuses status m v refl refl
  finish-Replies r q username (fail (unexpected m) v) = Replies.hides m v refl refl

  -- A request that passes the guards is answered with what its handler returns, with the status and
  -- the message of an HttpException that it throws, or with a 500 whose body does not depend on the
  -- error.
  pub serve-Replies :
      (r : Draws) (q : RequestInfo) (call : Call) (w : World P.client) (c : GatewayConsumer)
      → enter E.buffer E.gateway_secret E.names E.parse_json (route_of call) q.headers ≡ value c
      → Replies q (r.supply).now (handle P E r c call w) (serve P E r q call w).1
  unfolding serve
  serve-Replies r q call w c h =
      rw (h, serve) (finish-Replies r q (some c.username) (handle P E r c call w))

  -- A refusal by the guards of a route that is not public.
  abbrev pub status_of : Exception → ℕ
  status_of (http status m) = status
  status_of (unexpected m) = 500

  abbrev pub IsRefusal : Exception → Type 0
  IsRefusal e = (status_of e ≡ 401) ⊎ (status_of e ≡ 403) ⊎ (status_of e ≡ 503)

  check_scopes-IsRefusal :
      (scopes : List String) (c : GatewayConsumer) (e : Exception)
      → check_scopes scopes c ≡ raised e
      → IsRefusal e
  unfolding check_scopes
  check_scopes-IsRefusal scopes c e h = ground arith

  apisix_guard-IsRefusal :
      (route : Route) (headers : Headers) (c : Option GatewayConsumer) (e : Exception)
      → apisix_guard E.buffer E.gateway_secret E.names route headers c ≡ raised e
      → IsRefusal e
  unfolding apisix_guard has_valid_secret
  apisix_guard-IsRefusal route headers c e h = ground arith

  permissions_guard-IsRefusal :
      (route : Route) (c : Option GatewayConsumer) (e : Exception)
      → permissions_guard route c ≡ raised e
      → IsRefusal e
  unfolding permissions_guard
  permissions_guard-IsRefusal route none e h = ground arith
  permissions_guard-IsRefusal route (some c) e h =
      ground (arith, check_scopes-IsRefusal (required route) c e)

  apisix_guard-none :
      (route : Route) (headers : Headers)
      → is_public route ≡ false
      → apisix_guard E.buffer E.gateway_secret E.names route headers none ≢ value tt
  unfolding apisix_guard has_valid_secret
  apisix_guard-none route headers closed h = ground arith

  enter-IsRefusal :
      (route : Route) (headers : Headers) (e : Exception)
      → is_public route ≡ false
      → enter E.buffer E.gateway_secret E.names E.parse_json route headers ≡ raised e
      → IsRefusal e
  unfolding enter
  enter-IsRefusal route headers e closed h =
      first (attach E.parse_json E.names headers) refl
        (apisix_guard E.buffer E.gateway_secret E.names route headers
          (attach E.parse_json E.names headers))
        refl
    where
      second :
          (c : Option GatewayConsumer)
          → attach E.parse_json E.names headers ≡ c
          → apisix_guard E.buffer E.gateway_secret E.names route headers c ≡ value tt
          → (p : Outcome (Unit {0})) → permissions_guard route c ≡ p
          → IsRefusal e
      second c a g (raised x) p =
          let same : x ≡ e = ground arith in
          subst IsRefusal same (permissions_guard-IsRefusal route c x p)
      second none a g (value tt) p = absurd (apisix_guard-none route headers closed g)
      second (some c) a g (value tt) p = absurd (ground arith)

      first :
          (c : Option GatewayConsumer)
          → attach E.parse_json E.names headers ≡ c
          → (o : Outcome (Unit {0}))
          → apisix_guard E.buffer E.gateway_secret E.names route headers c ≡ o
          → IsRefusal e
      first c a (raised x) g =
          let same : x ≡ e = ground arith in
          subst IsRefusal same (apisix_guard-IsRefusal route headers c x g)
      first c a (value tt) g = second c a g (permissions_guard route c) refl

  -- A request that the guards refuse runs no handler: the world is as before, no row of the access
  -- log is written, and the answer is a failure with the status 401, 403 or 503.
  pub serve_refused :
      (r : Draws) (q : RequestInfo) (call : Call) (w : World P.client) (e : Exception)
      → enter E.buffer E.gateway_secret E.names E.parse_json (route_of call) q.headers ≡ raised e
      → (b : ErrorBody) × (serve P E r q call w ≡ (w, failure b))
        × ((b.status_code ≡ 401) ⊎ (b.status_code ≡ 403) ⊎ (b.status_code ≡ 503))
  unfolding serve respond_error catch_thrown
  serve_refused r q call w e h = (
    respond_error P E r q e,
    rw (h, serve) refl,
    answered e (enter-IsRefusal (route_of call) q.headers e (guarded call) h),
  )
    where
      answered :
          (x : Exception)
          → IsRefusal x
          → ((respond_error P E r q x).status_code ≡ 401)
            ⊎ ((respond_error P E r q x).status_code ≡ 403)
            ⊎ ((respond_error P E r q x).status_code ≡ 503)
      answered (http status m) k = k
      answered (unexpected m) k = k
