-- ===== src/Tests/Requests.antt =====
-- The theorems on the requests and on the observer, at the small platform.
use comos_pay_community_serv.Base.{
  ℕ, String, false, none, some, List, [], ◌∷◌, ◌++◌, ◌≡◌, ◌≢◌, ◌⊎◌, ◌<◌, refl, arith, ◌==◌,
  if◌then◌else◌, fail, done, bad_request, subst, world, coalesce, ◌-◌, min, length, All,
}
use comos_pay_community_serv.Prisma.Schema.{
  PaymentIntent, pending, succeeded, expired, payment_intent_deleted, payment_intent_updated,
}
use comos_pay_community_serv.Prisma.Client.{intent_key, memory_client, memory_client-IsLawfulClient}
use comos_pay_community_serv.Prisma.Table.{IsOnce}
use comos_pay_community_serv.Prisma.Memory.{memory_table, get}
use comos_pay_community_serv.Platform.{World, owned_by, update_intent}
use comos_pay_community_serv.Intents.Store.{load_owned, with_qr, intent_not_found}
use comos_pay_community_serv.Intents.Store.Owned.{IsOwned, IsForeign}
use comos_pay_community_serv.Intents.Settle.{validate}
use comos_pay_community_serv.Intents.Settle.Marks.{Replaces, event}
use comos_pay_community_serv.Intents.Manage.{
  QueryPaymentIntentsDto, PaymentIntentList, find_all, assert_owned, UpdatePaymentIntentDto,
  patched, update_event, find_one, update, remove,
}
use comos_pay_community_serv.Intents.Manage.Listed.{HasStatus, AreMatching, find_all_lem}
use comos_pay_community_serv.Intents.Manage.Guarded.{
  foreign_refused, update-Replaces, remove-cases, reopened_is_deletable,
}
use comos_pay_community_serv.Observer.Overlap.{
  Reaches, Event, tick, idle, IsExclusive, Reaches-IsExclusive,
}
use comos_pay_community_serv.Observer.{cycle}
use comos_pay_community_serv.Observer.Cycle.{Step, cycle-Step, submitted_never_settles}
use comos_pay_community_serv.Tests.{platform, order, paid_order, reported_order, world_with, supply}

cycle-Step_example :
    (q' : PaymentIntent) × (memory_client.payment_intent.get "i1"
        (world (cycle platform 500 (λ id. supply) (world_with (order ∷ [])))).intents
      ≡ some q')
    × Step platform 500 order q'
unfolding memory_table get
cycle-Step_example =
    cycle-Step platform memory_client-IsLawfulClient 500 (λ id. supply) (world_with (order ∷ []))
      "i1" order refl

submitted_never_settles_example :
    (q' : PaymentIntent) × (memory_client.payment_intent.get "i1"
        (world (cycle platform 500 (λ id. supply) (world_with (reported_order ∷ [])))).intents
      ≡ some q')
    × ((q' ≡ reported_order)
        ⊎ ((t : ℕ) × (some 1000 ≡ some t)
            × (t < 500)
            × (q' ≡ record reported_order { status = expired })))
unfolding memory_table get
submitted_never_settles_example =
    submitted_never_settles platform memory_client-IsLawfulClient 500 (λ id. supply)
      (world_with (reported_order ∷ [])) "i1" reported_order refl refl

owns_order : IsOwned platform (world_with (order ∷ [])) "shop" "i1" order
unfolding memory_table get
owns_order = (refl, refl)

owns_paid_order : IsOwned platform (world_with (paid_order ∷ [])) "shop" "i1" paid_order
unfolding memory_table get
owns_paid_order = (refl, refl)

remove-cases_example :
    ((paid_order.status ≡ succeeded)
      × (remove platform "shop" "i1" (world_with (paid_order ∷ []))
          ≡ fail
              (bad_request "A paid payment intent cannot be deleted.")
              (world_with (paid_order ∷ []))))
    ⊎ ((paid_order.status ≢ succeeded)
        × (w' : World memory_client) × (remove platform "shop" "i1" (world_with (paid_order ∷ []))
            ≡ done "i1" w')
        × ((j : String)
            → memory_client.payment_intent.get j w'.intents ≡ (
                if "i1" == j
                then none
                else memory_client.payment_intent.get j (world_with (paid_order ∷ [])).intents))
        × (w'.bus
            ≡ (world_with (paid_order ∷ [])).bus
              ++ event "shop" payment_intent_deleted paid_order ∷ []))
remove-cases_example =
    remove-cases platform memory_client-IsLawfulClient "shop" "i1" (world_with (paid_order ∷ []))
      paid_order owns_paid_order

abbrev reopen : UpdatePaymentIntentDto
reopen = record { status = some pending; tx_hash = none; reference = none }

abbrev reopened : PaymentIntent
reopened = patched reopen paid_order

abbrev after_reopen : World memory_client
unfolding memory_table
after_reopen = record (world_with (reopened ∷ paid_order ∷ [])) {
  bus = event "shop" (update_event (some pending)) reopened ∷ [];
}

reopens :
    update platform "shop" "i1" reopen (world_with (paid_order ∷ []))
    ≡ done (record { intent = reopened; qr = paid_order.uri }) after_reopen
unfolding memory_table get update assert_owned load_owned update_intent with_qr
reopens = refl

update-Replaces_example :
    (old new : PaymentIntent) × IsOwned platform (world_with (paid_order ∷ [])) "shop" "i1" old
    × (new ≡ record old {
      status = pending;
      tx_hash = coalesce reopen.tx_hash old.tx_hash;
      reference = coalesce reopen.reference old.reference;
    })
    × (reopened ≡ new)
    × Replaces memory_client "i1" old new
        (event "shop" payment_intent_updated new ∷ [])
        (world_with (paid_order ∷ []))
        after_reopen
update-Replaces_example =
    update-Replaces platform memory_client-IsLawfulClient "shop" "i1" reopen
      (world_with (paid_order ∷ [])) after_reopen
      (record { intent = reopened; qr = paid_order.uri }) reopens

pending_is_open : pending ≢ succeeded
pending_is_open = ground arith

reopened_is_deletable_example :
    (w'' : World memory_client) × (remove platform "shop" "i1" after_reopen ≡ done "i1" w'')
    × (memory_client.payment_intent.get "i1" w''.intents ≡ none)
reopened_is_deletable_example =
    reopened_is_deletable platform memory_client-IsLawfulClient "shop" "i1" pending
      (world_with (paid_order ∷ [])) after_reopen
      (record { intent = reopened; qr = paid_order.uri }) paid_order pending_is_open owns_paid_order
      refl reopens

mallory-IsForeign : IsForeign platform (world_with (order ∷ [])) "mallory" "i1"
unfolding memory_table get
mallory-IsForeign r there =
    let same : order ≡ r = cc there in
    subst (λ q. owned_by memory_client (world_with (order ∷ [])) "mallory" q.consumer_id ≡ false)
      same refl

foreign_refused_example :
    (find_one platform "mallory" "i1" (world_with (order ∷ []))
      ≡ fail (intent_not_found "i1") (world_with (order ∷ [])))
    × (update platform "mallory" "i1" reopen (world_with (order ∷ []))
        ≡ fail (intent_not_found "i1") (world_with (order ∷ [])))
    × (validate platform supply "mallory" "i1" "paid" (world_with (order ∷ []))
        ≡ fail (intent_not_found "i1") (world_with (order ∷ [])))
    × (remove platform "mallory" "i1" (world_with (order ∷ []))
        ≡ fail (intent_not_found "i1") (world_with (order ∷ [])))
foreign_refused_example =
    foreign_refused platform memory_client-IsLawfulClient supply "mallory" "i1" "paid" reopen
      (world_with (order ∷ [])) mallory-IsForeign

Reaches-IsExclusive_example : IsExclusive (tick (tick idle))
Reaches-IsExclusive_example =
    Reaches-IsExclusive (tick (tick idle))
      (Reaches.next (Reaches.next Reaches.start Event.ticks) Event.ticks)

abbrev paid_query : QueryPaymentIntentsDto
paid_query = record { status = some succeeded; take = 1; skip = 0 }

find_all_lem_example :
    (l : PaymentIntentList) × (find_all platform "shop" paid_query (world_with (paid_order ∷ []))
      ≡ done l (world_with (paid_order ∷ [])))
    × ((rows : List PaymentIntent) × AreMatching platform memory_client-IsLawfulClient
          (world_with (paid_order ∷ []))
          "shop"
          (some succeeded)
          rows
        × (l.total ≡ length rows))
    × All
        (λ r.
          IsOwned platform (world_with (paid_order ∷ [])) "shop" r.id r
          × HasStatus (some succeeded) r)
        l.items
    × IsOnce intent_key l.items
    × (length l.items ≡ min 1 (l.total - 0))
find_all_lem_example =
    find_all_lem platform memory_client-IsLawfulClient "shop" paid_query
      (world_with (paid_order ∷ []))

abbrev paid_list : PaymentIntentList
paid_list = record { items = paid_order ∷ []; total = 1; take = 1; skip = 0 }

lists_paid_order :
    find_all platform "shop" paid_query (world_with (paid_order ∷ []))
    ≡ done paid_list (world_with (paid_order ∷ []))
unfolding memory_table find_all
lists_paid_order = refl
