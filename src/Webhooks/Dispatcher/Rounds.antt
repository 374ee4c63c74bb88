-- ===== src/Webhooks/Dispatcher/Rounds.antt =====
-- The rounds of the dispatcher's retry loop, one by one, and how a run of them may end.
use comos_pay_community_serv.Base.{
  ℕ, zero, suc, ◌+◌, ◌*◌, ◌<◌, String, ◌<>◌, Bool, true, false, Option, none, some, List, [], ◌∷◌,
  ◌≡◌, refl, arith, All,
}
use comos_pay_community_serv.Prisma.Schema.{
  WebhookEndpoint, WebhookDelivery, delivery_succeeded, delivery_failed,
}
use comos_pay_community_serv.Platform.{Platform}
use comos_pay_community_serv.Webhooks.Dispatcher.{
  Post, Answer, answered, errored, Transport, Codec, Attempted, signed_post, rounds, is_ok,
  with_post, with_pause,
}
use comos_pay_community_serv.Intents.Memo.{to_decimal}

-- The answer is a response of success.
abbrev pub succeeds : Answer → Bool
succeeds (answered status) = is_ok status
succeeds (errored reason) = false

-- What the delivery records of an answer that is no success.
abbrev pub code_of : Answer → Option ℕ
code_of (answered status) = some status
code_of (errored reason) = none

abbrev pub message_of : Answer → Option String
message_of (answered status) = some ("Non-2xx response: " <> to_decimal status)
message_of (errored reason) = some reason

pub with_pause_suc :
    (left pause k : ℕ) (a : Attempted)
    → k < left
    → with_pause left pause a ≡ record a { pauses = pause ∷ a.pauses }
with_pause_suc zero pause k a h = absurd (ground arith)
with_pause_suc (suc left) pause k a h = refl

module _ (P : Platform) (C : Codec) (T : Transport) (endpoint : WebhookEndpoint)
    (delivery : WebhookDelivery) where
  -- The answer of round `i`.
  abbrev pub answer : ℕ → Answer
  answer i = T.fetch i (signed_post P C endpoint delivery (T.clock i))

  -- The posts of `n` rounds from round `i`, their answers, and the first `n` pauses from there:
  -- the pause after round `i` is `i + 1` times the unit.
  abbrev pub posts_from : ℕ → ℕ → List Post
  posts_from zero i = []
  posts_from (suc n) i = signed_post P C endpoint delivery (T.clock i) ∷ posts_from n (suc i)

  abbrev pub answers_from : ℕ → ℕ → List Answer
  answers_from zero i = []
  answers_from (suc n) i = answer i ∷ answers_from n (suc i)

  abbrev pub pauses_from : ℕ → ℕ → List ℕ
  pauses_from zero i = []
  pauses_from (suc n) i = P.config.backoff_ms * (i + 1) ∷ pauses_from n (suc i)

  -- The pauses of `n` rounds, with none after the last.
  abbrev pub pauses_between : ℕ → ℕ → List ℕ
  pauses_between zero i = []
  pauses_between (suc n) i = pauses_from n i

  abbrev pub last_code : ℕ → ℕ → Option ℕ → Option ℕ
  last_code zero i code = code
  last_code (suc n) i code = code_of (answer (i + n))

  abbrev pub last_message : ℕ → ℕ → Option String → Option String
  last_message zero i message = message
  last_message (suc n) i message = message_of (answer (i + n))

  pub round_succeeds :
      (left i tries status : ℕ) (code : Option ℕ) (message : Option String)
      → answer i ≡ answered status
      → is_ok status ≡ true
      → rounds P C T endpoint delivery (suc left) i tries code message ≡ record {
        result = delivery_succeeded;
        tries = tries + 1;
        code = some status;
        message = none;
        posts = posts_from 1 i;
        pauses = [];
      }
  unfolding rounds
  round_succeeds left i tries status code message e s = rw (e, rounds) (rw (s, rounds) refl)

  pub round_fails :
      (left i tries : ℕ) (code : Option ℕ) (message : Option String) (a : Answer)
      → answer i ≡ a
      → succeeds a ≡ false
      → rounds P C T endpoint delivery (suc left) i tries code message
        ≡ with_post (signed_post P C endpoint delivery (T.clock i)) (
            with_pause left
              (P.config.backoff_ms * (i + 1))
              (rounds P C T endpoint delivery left (suc i) (tries + 1) (code_of a) (message_of a)))
  unfolding rounds
  round_fails left i tries code message (answered status) e s = rw (e, rounds) (rw (s, rounds) refl)
  round_fails left i tries code message (errored reason) e s = rw (e, rounds) refl

  -- The rounds end with the first success, after `k` failures, ...
  pub record EndsWell (left i tries : ℕ) (a : Attempted) : Type 0 where
    pub k : ℕ
    pub within : k < left
    pub status : ℕ
    pub response : answer (i + k) ≡ answered status
    pub is_success : is_ok status ≡ true
    pub earlier : All (λ x. succeeds x ≡ false) (answers_from k i)
    pub outcome : a ≡ record {
      result = delivery_succeeded;
      tries = tries + suc k;
      code = some status;
      message = none;
      posts = posts_from (suc k) i;
      pauses = pauses_from k i;
    }

  -- ... or all of them fail, and the last answer is recorded.
  pub record RunsOut (left i tries : ℕ) (code : Option ℕ) (message : Option String) (a : Attempted)
      : Type 0 where
    pub all_fail : All (λ x. succeeds x ≡ false) (answers_from left i)
    pub outcome : a ≡ record {
      result = delivery_failed;
      tries = tries + left;
      code = last_code left i code;
      message = last_message left i message;
      posts = posts_from left i;
      pauses = pauses_between left i;
    }
