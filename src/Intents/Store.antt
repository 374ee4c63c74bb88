-- ===== src/Intents/Store.antt =====
-- How src/payment-intents/payment-intents.service.ts finds and stores intents.
pub mod Owned
use comos_pay_community_serv.Base.{
  ℕ, ◌+◌, ◌*◌, String, Bool, true, false, ◌&&◌, Option, none, some, ◌==◌, coalesce, M, done, fail,
  pure, or_throw, ◌>>=◌, unexpected, Exception, not_found, ◌<>◌,
}
use comos_pay_community_serv.Prisma.Schema.{PaymentIntent}
use comos_pay_community_serv.Platform.{Platform, World, Supply, owned_by}

-- A stored intent with its QR code.
pub record PaymentIntentView : Type 0 where
  pub intent : PaymentIntent
  pub qr : String

abbrev pub intent_not_found : String → Exception
intent_not_found id = not_found ("Payment intent " <> (id <> " not found"))

module _ (P : Platform) where
  -- The error of `withQr` is thrown after the writes of its caller.
  unfoldable pub with_qr : PaymentIntent → M (World P.client) PaymentIntentView
  with_qr intent = do
    code ← or_throw (P.qr intent.uri) (unexpected "QR code generation failed")
    pure (record { intent = intent; qr = code })

  abbrev pub has_memo : String → String → PaymentIntent → Bool
  has_memo consumer_id memo r = r.consumer_id == consumer_id && r.memo == memo

  unfoldable pub find_by_memo : String → String → M (World P.client) (Option PaymentIntent)
  find_by_memo consumer_id memo w =
      done (P.client.payment_intent.find_first (has_memo consumer_id memo) w.intents) w

  -- `findFirst({ where: { id, consumer: { apisixUsername } } })`
  unfoldable pub find_owned : String → String → M (World P.client) (Option PaymentIntent)
  find_owned username id w =
      done
        (P.client.payment_intent.find_first
          (λ r. r.id == id && owned_by P.client w username r.consumer_id) w.intents)
        w

  -- The intent, or a 404.
  unfoldable pub load_owned : String → String → M (World P.client) PaymentIntent
  unfolding find_owned
  load_owned username id = do owned ← find_owned username id; or_throw owned (intent_not_found id)

  -- `null` on a unique violation.
  unfoldable pub persist : Supply → PaymentIntent → M (World P.client) (Option PaymentIntent)
  persist s draft w =
      let intent : PaymentIntent = record draft {
        expires_at = some (coalesce draft.expires_at (s.now + P.config.ttl_seconds * 1000));
      } in
      elim (P.client.payment_intent.create intent w.intents) [
        | none ↦ done none w
        | some t ↦ done (some intent) (record w { intents = t })
      ]
