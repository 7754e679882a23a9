-- ===== src/Network/Tests/Protocol.antt =====
-- The theorems on the traffic of two parachains at concrete histories.
use xcm_auto_bank.Bank.{Ledger, Queues, chain, service_chain, funds, encode}
use xcm_auto_bank.Base.{ℕ, ◌≡◌, refl, ap, ◌∙◌, ◌⊎◌, inl, inr, true, some, List, [], ◌∷◌, arith}
use xcm_auto_bank.Base.Member.{IsIn}
use xcm_auto_bank.Base.Map.{lookup, insert}
use xcm_auto_bank.Common.{Order, OrderBase, XcmpMessage, convert, convert_base, accepted}
use xcm_auto_bank.Network.Ending.{StillHeld, Closure}
use xcm_auto_bank.Network.Outcome.{open_until_ended}
use xcm_auto_bank.Network.Protocol.{Chains, Step, Reach}
use xcm_auto_bank.Network.Requests.{Placement, served_placed}
use xcm_auto_bank.Network.Tests.{agree}
use xcm_auto_bank.Outbox.{Packet, IsOutbox, to_sibling}
use xcm_auto_bank.Service.Closing.{done_foreign}
use xcm_auto_bank.Service.{done, received, order_received, check_order, reserve_order, book_order}
use xcm_auto_bank.Service as Serving
use xcm_auto_bank.Service.Messages.{handle-Requests}
use xcm_auto_bank.Service.Steps as Served
use xcm_auto_bank.Xchange.{order, register}
use xcm_auto_bank.Xchange as Exchange
use xcm_auto_bank.Xchange.Steps as Exchanged

-- The client asks for a device that accepts at once.
abbrev request : OrderBase ℕ
request = record { until = 150; payload = 1; fee = 20; device = 1 }

abbrev pub pending : Queues → List Packet
pending q = q

pub outbox : IsOutbox chain.send_xcm pending
outbox = record { sends = λ q p. inr refl }

abbrev pub State : Type 0
State = Chains Ledger Queues Ledger Queues ℕ

-- The exchange pallet stands on the parachain 8, the service pallet on the parachain 7.
abbrev Between : State → State → Type 0
Between z y = Reach chain service_chain 8 pending pending z y

abbrev blank : State
blank = record {
  exchange = record {
    devices = [];
    orders = [];
    now = 100;
    ledger = funds;
    queues = [];
    events = [];
  };
  service = record {
    devices = [];
    orders = [];
    now = 100;
    ledger = funds;
    queues = [];
    events = [];
  };
}

-- The device 1 registers with both, and the client 2 orders from it.
abbrev offered : State
offered = record blank { exchange = (register chain (some 1) 7 5 10 true blank.exchange).1 }

abbrev offering : State
offering = record offered {
  service = (Serving.register service_chain (some 1) 5 10 true blank.service).1;
}

abbrev pub placed : State
placed = record offering { exchange = (order chain (some 2) request offered.exchange).1 }

abbrev pub asked : List ℕ
asked = encode (XcmpMessage.new_order 2 request)

abbrev pub arrived : State
arrived = record placed {
  service =
      (Serving.handle_xcmp_messages service_chain ((8, 99, asked) ∷ []) 500 offering.service).1;
}

until_placed : Between blank placed
until_placed =
    Reach.next
      (Reach.next
        (Reach.next Reach.start (Step.exchanges (Exchanged.Step.registers (some 1) 7 5 10 true) tt))
        (Step.serves (Served.Step.registers (some 1) 5 10 true) tt))
      (Step.exchanges (Exchanged.Step.orders (some 2) request) tt)

-- The request waits.
pub waits : placed.exchange.queues ≡ to_sibling 7 asked ∷ []
unfolding order register insert convert_base convert
waits = refl

asked_waits : (bytes : List ℕ) → bytes ≡ asked → IsIn (to_sibling 7 bytes) placed.exchange.queues
asked_waits bytes e = rw (waits, e) (inl refl)

only :
    (para t sent_at : ℕ) (bs bytes : List ℕ)
    → IsIn {A = ℕ × ℕ × List ℕ} (para, sent_at, bytes) ((para, t, bs) ∷ [])
    → bytes ≡ bs
only para t sent_at bs bytes (inl e) = cc
only para t sent_at bs bytes (inr h) = absurd h

until_arrived : Between blank arrived
until_arrived = Reach.next until_placed (
    Step.serves (Served.Step.receives ((8, 99, asked) ∷ []) 500)
      λ sent_at bytes i. asked_waits bytes (only 8 99 sent_at asked bytes i))

abbrev taken : Order ℕ
taken = record { until = 150; payload = 1; fee = 20; client = 2; paraid = 8 }

abbrev pub acceptance : List ℕ
acceptance = encode (XcmpMessage.order_accept 2 1)

abbrev serving : Serving.Store Ledger Queues ℕ
serving = record {
  devices = (1, record { penalty = 5; wcd = 10; state = accepted }) ∷ [];
  orders = (1, taken) ∷ [];
  now = 100;
  ledger = funds;
  queues = to_sibling 8 acceptance ∷ [];
  events = Serving.Event.new_device 1 ∷ Serving.Event.new_order 1 ∷ Serving.Event.accept 1 ∷ [];
}

received-serving :
    (order_received service_chain (received request 2 8) 1 offering.service).1 ≡ serving
unfolding order_received check_order reserve_order book_order Serving.order_accept Serving.register
    insert
received-serving = refl

pub arrived-serving : arrived.service ≡ serving
arrived-serving =
    ap (λ r. r.1)
      (handle-Requests service_chain ((8, 99, asked) ∷ []) [] ((8, 2, request) ∷ []) 500 500
        offering.service (refl, refl, tt) refl)
    ∙ received-serving

served_placed_example :
    (o : OrderBase ℕ) × (taken ≡ received o 2 8)
    × (o.device ≡ 1)
    × Placement chain service_chain 8 pending pending blank arrived 2 o
served_placed_example =
    served_placed chain service_chain 8 pending pending blank outbox agree (λ e. ground arith) refl
      arrived refl refl until_arrived 1 taken (rw arrived-serving refl) refl

-- The device completes the order, and the answer is delivered.
abbrev answer : List ℕ
answer = encode (XcmpMessage.order_done 2 1 true)

abbrev completed : State
completed = record arrived { service = (done service_chain (some 1) true arrived.service).1 }

abbrev settled : State
settled = record completed {
  exchange = (Exchange.handle_xcmp_messages chain ((7, 99, answer) ∷ []) 500 completed.exchange).1;
}

answers_wait : completed.service.queues ≡ to_sibling 8 acceptance ∷ to_sibling 8 answer ∷ []
answers_wait =
    ap (λ u. (done service_chain (some 1) true u).1.queues) arrived-serving
    ∙ ap (λ r. r.1.queues)
        (done_foreign service_chain serving taken
          (record { penalty = 5; wcd = 10; state = accepted }) (some 1) 1 true
          (record { signed = refl; has_order = refl; registered = refl; is_accepted = refl }) refl)

answer_waits :
    (bytes : List ℕ) → bytes ≡ answer → IsIn (to_sibling 8 bytes) completed.service.queues
answer_waits bytes e = rw (answers_wait, e) (inr (inl refl))

until_settled : Between placed settled
until_settled =
    Reach.next
      (Reach.next
        (Reach.next Reach.start (
          Step.serves (Served.Step.receives ((8, 99, asked) ∷ []) 500)
            λ sent_at bytes i. asked_waits bytes (only 8 99 sent_at asked bytes i)))
        (Step.serves (Served.Step.completes (some 1) true) tt))
      (Step.exchanges (Exchanged.Step.receives ((7, 99, answer) ∷ []) 500)
        λ sent_at bytes i. answer_waits bytes (only 7 99 sent_at answer bytes i))

abbrev booked : Order ℕ
booked = record { until = 150; payload = 1; fee = 20; client = 2; paraid = 0 }

is_booked : lookup 1 placed.exchange.orders ≡ some booked
unfolding order register insert convert_base convert
is_booked = refl

open_until_ended_example :
    StillHeld 1 booked settled
    ⊎ Closure chain service_chain 8 pending pending 1 booked blank placed settled
open_until_ended_example =
    open_until_ended chain service_chain 8 pending pending 1 booked outbox agree blank placed
      settled refl refl refl until_placed is_booked until_settled
