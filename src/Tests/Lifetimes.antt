-- ===== src/Tests/Lifetimes.antt =====
-- The theorems on the life of an intent, for an order that is removed, watched and dispatched.
use comos_pay_community_serv.Lifecycle.{Life}
use comos_pay_community_serv.Tests.{platform, order, paid_order, world_with, supply}
use comos_pay_community_serv.Tests.Gatekeeping.{edge, draws, info, remove_one}
use comos_pay_community_serv.Base.{All, List, [], false, none, refl, some, ◌++◌, ◌∷◌, ◌≡◌, ◌⊎◌}
use comos_pay_community_serv.Lifecycle.Runs.{
  HasTermsOf, StaysPaid, run, run-HasTermsOf, run-StaysPaid, sets_status,
}
use comos_pay_community_serv.Prisma.Schema.{PaymentIntent, succeeded}
use comos_pay_community_serv.Lifecycle.Events.{after, edit_of, edit_of_call, SystemEvent}
use comos_pay_community_serv.Lifecycle.Refines.{after-Life}
use comos_pay_community_serv.Prisma.Memory.{get, memory_table}
use comos_pay_community_serv.Prisma.Client.{memory_client, memory_client-IsLawfulClient}

-- The observer runs after the lifetime of the order is over.
abbrev late_tick : SystemEvent
late_tick = SystemEvent.tick 2000 (λ id. supply)

abbrev remove_then_tick : List SystemEvent
remove_then_tick = SystemEvent.request draws info remove_one ∷ late_tick ∷ []

edit_nothing : All (λ e. sets_status (edit_of e) ≡ false) remove_then_tick
unfolding edit_of edit_of_call
edit_nothing = (refl, (refl, tt))

paid_stands :
    memory_client.payment_intent.get "i1" (world_with (paid_order ∷ [])).intents ≡ some paid_order
unfolding memory_table get
paid_stands = refl

order_stands : memory_client.payment_intent.get "i1" (world_with (order ∷ [])).intents ≡ some order
unfolding memory_table get
order_stands = refl

after-Life_example :
    Life platform.horizon platform.numbers
      (edit_of late_tick)
      (memory_client.payment_intent.get "i1" (world_with (order ∷ [])).intents)
      (memory_client.payment_intent.get "i1"
        (after platform edge late_tick (world_with (order ∷ []))).intents)
after-Life_example =
    after-Life platform edge memory_client-IsLawfulClient late_tick (world_with (order ∷ [])) "i1"

run-StaysPaid_example :
    (q : PaymentIntent) × (memory_client.payment_intent.get "i1"
        (run platform edge remove_then_tick (world_with (paid_order ∷ []))).intents
      ≡ some q)
    × (q.status ≡ succeeded)
    × StaysPaid paid_order q
run-StaysPaid_example =
    run-StaysPaid platform edge memory_client-IsLawfulClient remove_then_tick
      (world_with (paid_order ∷ [])) "i1" paid_order paid_stands refl edit_nothing

run-HasTermsOf_example :
    ((q : PaymentIntent) × (memory_client.payment_intent.get "i1"
          (run platform edge remove_then_tick (world_with (order ∷ []))).intents
        ≡ some q)
      × HasTermsOf order q)
    ⊎ ((first rest : List SystemEvent) × (remove_then_tick ≡ first ++ rest)
        × (memory_client.payment_intent.get "i1"
              (run platform edge first (world_with (order ∷ []))).intents
            ≡ none))
run-HasTermsOf_example =
    run-HasTermsOf platform edge memory_client-IsLawfulClient remove_then_tick
      (world_with (order ∷ [])) "i1" order order_stands
