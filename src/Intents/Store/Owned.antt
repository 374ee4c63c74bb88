-- ===== src/Intents/Store/Owned.antt =====
-- What a scoped lookup establishes.
use comos_pay_community_serv.Base.{
  String, Bool, true, false, ◌&&◌, some, ◌≡◌, ◌⊎◌, inl, inr, arith, ◌==◌, eq_iff, done, fail,
  Option-cases,
}
use comos_pay_community_serv.Prisma.Schema.{PaymentIntent, intent_clash}
use comos_pay_community_serv.Prisma.Client.{IsLawfulClient, intent_key}
use comos_pay_community_serv.Platform.{Platform, World, owned_by}
use comos_pay_community_serv.Intents.Store.{intent_not_found, load_owned}
use comos_pay_community_serv.Prisma.Scoped.{scoped_some}

module _ (P : Platform) where
  -- The intent stands under `id`, and its consumer has the username.
  abbrev pub IsOwned : World P.client → String → String → PaymentIntent → Type 0
  IsOwned w username id intent =
      (P.client.payment_intent.get id w.intents ≡ some intent)
      × (owned_by P.client w username intent.consumer_id ≡ true)

  -- No intent that stands under `id` is the consumer's.
  abbrev pub IsForeign : World P.client → String → String → Type 0
  IsForeign w username id =
      (r : PaymentIntent)
      → P.client.payment_intent.get id w.intents ≡ some r
      → owned_by P.client w username r.consumer_id ≡ false

module _ (P : Platform) (law : IsLawfulClient P.client) where
  pub load_owned-cases :
      (username id : String) (w : World P.client)
      → ((intent : PaymentIntent) × IsOwned P w username id intent
          × (load_owned P username id w ≡ done intent w))
        ⊎ (IsForeign P w username id × (load_owned P username id w ≡ fail (intent_not_found id) w))
  unfolding load_owned
  load_owned-cases username id w =
      elim (Option-cases (P.client.payment_intent.find_first mine w.intents)) [
        | inl e ↦ inr (
          (λ r there. ground (
            arith,
            law.payment_intent.find_first_none mine w.intents id r e there,
            law.payment_intent.key-get id w.intents r there,
            eq_iff r.id id,
          )),
          rw e,
        )
        | inr (r, e) ↦
            let here =
              scoped_some intent_key intent_clash P.client.payment_intent law.payment_intent
                (λ x. owned_by P.client w username x.consumer_id) id w.intents r e in
            inl (r, here, rw e)
      ]
    where
      mine : PaymentIntent → Bool
      mine r = r.id == id && owned_by P.client w username r.consumer_id
