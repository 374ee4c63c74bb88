-- ===== src/Http/Server/Logged.antt =====
-- What the access log keeps of a request.
use Prim.Native.Char.{code}
use text.Mathlib.TextLemmas.{cons-append, nil-append}
use comos_pay_community_serv.Base.{
  ℕ, String, true, false, Option, none, some, ◌≡◌, refl, ap, sym, ◌∙◌, ◌<>◌, subst, inl, inr, arith,
  Run, done, fail, world, Bool-cases, Option-cases, nat_eq, ◌==◌, if◌then◌else◌, eq_iff,
}
use comos_pay_community_serv.Prisma.Client.{IsLawfulClient}
use comos_pay_community_serv.Prisma.Schema.{RequestLog}
use comos_pay_community_serv.Platform.{Platform, World}
use comos_pay_community_serv.Http.{Edge, Draws}
use comos_pay_community_serv.Http.Answer.{Answer}
use comos_pay_community_serv.Http.AccessLog.{
  RequestInfo, persist, is_skipped, log_row, before_question,
}
use comos_pay_community_serv.Http.Server.{finish}

-- `?` is the character that starts the query of a URL.
abbrev pub HasNoQuery : String → Type 0
HasNoQuery String.[] = Unit
HasNoQuery (String.◌∷◌ c s) = (nat_eq (code c) b'?' ≡ false) × HasNoQuery s

-- The text is empty, or the query of a URL.
abbrev pub IsQuery : String → Type 0
IsQuery String.[] = Unit
IsQuery (String.◌∷◌ c s) = nat_eq (code c) b'?' ≡ true

-- The path is the URL without its query.
abbrev pub IsPathOf : String → String → Type 0
IsPathOf url path = HasNoQuery path × (query : String) × (url ≡ path <> query) × IsQuery query

before_question-IsPathOf : (url : String) → IsPathOf url (before_question url)
unfolding before_question
before_question-IsPathOf String.[] = (tt, "", refl, tt)
before_question-IsPathOf (String.◌∷◌ c s) = elim (Bool-cases (nat_eq (code c) b'?')) [
  | inl e ↦ rw e (tt, String.◌∷◌ c s, sym (nil-append (String.◌∷◌ c s)), e)
  | inr e ↦
      let (plain, query, same, starts) = before_question-IsPathOf s in
      rw e (
        (e, plain),
        query,
        ap (String.◌∷◌ c) same ∙ sym (cons-append c (before_question s) query),
        starts,
      )
]

module _ (P : Platform) where
  -- The access log has one more row, and nothing else has changed.
  abbrev pub IsLogged :
      Draws → RequestInfo → Option String → World P.client → World P.client → Type 0
  IsLogged r q username v w =
      (row : RequestLog) × (row.consumer ≡ username)
      × (row.method ≡ q.method)
      × IsPathOf q.url row.path
      × ((j : String)
          → P.client.request_log.get j w.logs
            ≡ (if r.log_id == j then some row else P.client.request_log.get j v.logs))
      × (w ≡ record v { logs = w.logs })

module _ (P : Platform) (E : Edge) (law : IsLawfulClient P.client) where
  persist-IsLogged :
      (r : Draws) (q : RequestInfo) (username : Option String) (status : ℕ) (v : World P.client)
      → is_skipped q ≡ false
      → P.client.request_log.get r.log_id v.logs ≡ none
      → IsLogged P r q username v
          (persist P r.log_id (r.supply).now q status r.duration_ms username v)
  unfolding persist before_question
  persist-IsLogged r q username status v noted new =
      elim (Option-cases (P.client.request_log.create row v.logs)) [
        | inl refused ↦
            let (old, there, clashes) = law.request_log.create_refused row v.logs refused in
            absurd (
              ground (
                arith,
                clashes,
                subst (λ k. P.client.request_log.get k v.logs ≡ some old)
                    ((eq_iff old.id r.log_id).0 (ground arith)) there,
              ))
        | inr (t, made) ↦
            rw (noted, made, persist)
              (
                row,
                refl,
                refl,
                before_question-IsPathOf q.url,
                λ j. law.request_log.get-create row v.logs t j made,
                refl,
              )
      ]
    where
      row : RequestLog
      row = log_row r.log_id (r.supply).now q status r.duration_ms username

  -- Once its handler is done, a request that is not skipped, and whose row has a new id, has one
  -- more row in the access log, under that id. It names the consumer and the method, and its path is
  -- the URL up to its first question mark, or the whole URL where it has none. The other rows and
  -- all else are as the handler left them.
  pub finish-IsLogged :
      (r : Draws) (q : RequestInfo) (username : Option String)
      (run : Run (World P.client) (Answer E.floats))
      → is_skipped q ≡ false
      → P.client.request_log.get r.log_id (world run).logs ≡ none
      → IsLogged P r q username (world run) (finish P E r q username run).0
  unfolding finish
  finish-IsLogged r q username (done a v) noted new =
      persist-IsLogged r q username (r.code_at_end none) v noted new
  finish-IsLogged r q username (fail e v) noted new =
      persist-IsLogged r q username (r.code_at_end (some e)) v noted new
