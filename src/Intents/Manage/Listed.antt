-- ===== src/Intents/Manage/Listed.antt =====
-- The list that `findAll` of src/payment-intents/payment-intents.service.ts answers with.
use comos_pay_community_serv.Base.{
  ◌-◌, min, String, true, Option, none, some, ◌≡◌, refl, arith, done, length, All, All-map, List,
  Memᴰ,
}
use comos_pay_community_serv.Prisma.Schema.{
  PaymentIntent, PaymentIntentStatus, status_eq, status_eq-true,
}
use comos_pay_community_serv.Prisma.Client.{IsLawfulClient, intent_key}
use comos_pay_community_serv.Prisma.Table.{Page, created_desc, whole, unordered, IsOnce}
use comos_pay_community_serv.Platform.{Platform, World, owned_by}
use comos_pay_community_serv.Intents.Store.Owned.{IsOwned}
use comos_pay_community_serv.Intents.Manage.{
  QueryPaymentIntentsDto, PaymentIntentList, listed, find_all,
}

-- The status that a query asks for, if it asks for one.
abbrev pub HasStatus : Option PaymentIntentStatus → PaymentIntent → Type 0
HasStatus asked r = (s : PaymentIntentStatus) → asked ≡ some s → r.status ≡ s

status_eq_refl : (s : PaymentIntentStatus) → status_eq s s ≡ true
status_eq_refl s = ground arith

module _ (P : Platform) (law : IsLawfulClient P.client) where
  listed-true :
      (w : World P.client) (username : String) (asked : Option PaymentIntentStatus)
      (r : PaymentIntent)
      → listed P w username asked r ≡ true
      → (owned_by P.client w username r.consumer_id ≡ true) × HasStatus asked r
  listed-true w username none r h = (h, λ s e. absurd (ground arith))
  listed-true w username (some status) r h =
      (ground (arith, h), λ s e. status_eq-true r.status s (ground (arith, h, e)))

  true-listed :
      (w : World P.client) (username : String) (asked : Option PaymentIntentStatus)
      (r : PaymentIntent)
      → owned_by P.client w username r.consumer_id ≡ true
      → HasStatus asked r
      → listed P w username asked r ≡ true
  true-listed w username none r own h = own
  true-listed w username (some status) r own h =
      ground (arith, own, status_eq_refl status, h status refl)

  -- The intents of the caller that match the query: each that stands in the table, once, and no
  -- other.
  abbrev pub AreMatching :
      World P.client → String → Option PaymentIntentStatus → List PaymentIntent → Type 0
  AreMatching w username asked rows =
      IsOnce intent_key rows
      × All (λ r. IsOwned P w username r.id r × HasStatus asked r) rows
      × ((id : String) (r : PaymentIntent)
          → IsOwned P w username id r
          → HasStatus asked r
          → Memᴰ r rows)

  -- The list is read without a change of the world. `total` is the number of the
  -- intents that stand in the table, are the caller's and have the status that the query asks for,
  -- if it asks for one: the length of a list that holds each of them once and no other. Each intent
  -- on the answer is such an intent, none is there twice, and the answer holds as many as are left
  -- of `total` after `skip`, up to `take`.
  pub find_all_lem :
      (username : String) (query : QueryPaymentIntentsDto) (w : World P.client)
      → (l : PaymentIntentList) × (find_all P username query w ≡ done l w)
        × ((rows : List PaymentIntent) × AreMatching w username query.status rows
            × (l.total ≡ length rows))
        × All (λ r. IsOwned P w username r.id r × HasStatus query.status r) l.items
        × IsOnce intent_key l.items
        × (length l.items ≡ min query.take (l.total - query.skip))
  unfolding find_all
  find_all_lem username query w =
      let page : Page = record {
        order_by = created_desc;
        take = some query.take;
        skip = query.skip;
      } in
      (
        _,
        refl,
        (
          P.client.payment_intent.find_many (listed P w username query.status) (whole unordered)
              w.intents,
          (
            law.payment_intent.find_many_once (listed P w username query.status) (whole unordered)
                w.intents,
            All-map
                (λ r (there, t).
                  let k = listed-true w username query.status r t in ((there, k.0), k.1))
                _
                (law.payment_intent.find_many_sound (listed P w username query.status)
                  (whole unordered) w.intents),
            λ id r (there, own) h.
                law.payment_intent.find_many_complete (listed P w username query.status) unordered
                  w.intents id r there (true-listed w username query.status r own h),
          ),
          omega (
            arith,
            law.payment_intent.length-find_many (listed P w username query.status) (whole unordered)
                w.intents,
          ),
        ),
        All-map
            (λ r (there, t). let k = listed-true w username query.status r t in ((there, k.0), k.1))
            _
            (law.payment_intent.find_many_sound (listed P w username query.status) page w.intents),
        law.payment_intent.find_many_once (listed P w username query.status) page w.intents,
        law.payment_intent.length-find_many (listed P w username query.status) page w.intents,
      )
