-- ===== src/Network/Tests.antt =====
-- The theorems on orders across parachains at concrete inputs.
mod Protocol
mod Relay
use xcm_auto_bank.Base.{ℕ, ◌≡◌, refl, ap, inl, true, some, List, [], ◌∷◌, arith}
use xcm_auto_bank.Base.Action.{ok}
use xcm_auto_bank.Base.Map.{lookup, remove}
use xcm_auto_bank.Bank.{Ledger, Queues, put, bank, bank-IsReservable, chain, service_chain, funds}
use xcm_auto_bank.Common.{ready, busy, accepted, Order, OrderBase}
use xcm_auto_bank.Frame.{parachain}
use xcm_auto_bank.Money.{Pays}
use xcm_auto_bank.Network.{Agree, order_arrives, done_settles}
use xcm_auto_bank.Network.Declining.{decline_refunds}
use xcm_auto_bank.Pallet.{transact}
use xcm_auto_bank.Service as Serving
use xcm_auto_bank.Service.{received, order_received, done, accept}
use xcm_auto_bank.Xchange as Exchange
use xcm_auto_bank.Xchange.{order, on_done, on_reject, order_reject}
use xcm_auto_bank.Xchange.Escrow.{IsCovered}
use xcm_auto_bank.Xchange.Invariant.{IsWf}
use xcm_auto_bank.Xchange.Placing.{placed, order_ok_iff}
use xcm_auto_bank.Xchange.Settlement.{closed, switched, on_done_ok_iff}

agree : Agree chain service_chain
agree = record { requests = λ m. ground arith; answers = λ m. ground arith }

-- The device 1 stands on the parachain 7, the client 2 on the parachain 8.
abbrev printer : Exchange.DeviceProfile
printer = record { penalty = 5; wcd = 10; para_id = 7; state = ready }

abbrev request : OrderBase ℕ
request = record { until = 150; payload = 0; fee = 20; device = 1 }

abbrev idle : Exchange.Store Ledger Queues ℕ
idle = record {
  devices = (1, printer) ∷ [];
  orders = [];
  now = 100;
  ledger = funds;
  queues = [];
  events = [];
}

abbrev pledged : Ledger
pledged = record { free = put funds.free 1 95; reserved = put funds.reserved 1 5 }

abbrev paid : Ledger
paid = record { free = put pledged.free 2 80; reserved = put pledged.reserved 2 20 }

order-placed :
    order chain (some 2) request idle ≡ (ok tt, placed chain (some 2) request idle 2 printer paid)
order-placed =
    (order_ok_iff chain (some 2) request idle (placed chain (some 2) request idle 2 printer paid)).1
      (
        2,
        printer,
        pledged,
        paid,
        record {
          signed = refl;
          in_time = ground arith;
          no_order = refl;
          registered = refl;
          is_ready = refl;
          has_room = ground arith;
          can_pay = refl;
          pledged = refl;
          paid = refl;
        },
        refl,
      )

abbrev served : Serving.Store Ledger Queues ℕ
served = record {
  devices = (1, record { penalty = 5; wcd = 10; state = accepted }) ∷ [];
  orders = (1, record { until = 150; payload = 0; fee = 20; client = 2; paraid = 8 }) ∷ [];
  now = 100;
  ledger = funds;
  queues = [];
  events = [];
}

order_arrives_example :
    (who : ℕ) × (dev : Exchange.DeviceProfile) × (bytes : List ℕ) × (chain.ensure_signed (some 2)
      ≡ ok who)
    × (lookup 1 idle.devices ≡ some dev)
    × ((placed chain (some 2) request idle 2 printer paid).queues
        ≡ (chain.send_xcm []
            (record { parents = 1; interior = parachain dev.para_id })
            (transact bytes)).1)
    × (Serving.handle_xcmp_messages service_chain ((8, 99, bytes) ∷ []) 500 served
        ≡ (500, (order_received service_chain (received request who 8) 1 served).1))
order_arrives_example =
    order_arrives chain service_chain agree (some 2) request idle
      (placed chain (some 2) request idle 2 printer paid) 8 99 500 served order-placed

-- The device has the order on both parachains.
abbrev working : Exchange.DeviceProfile
working = record printer { state = busy }

abbrev booked : Order ℕ
booked = record { until = 150; payload = 0; fee = 20; client = 2; paraid = 0 }

abbrev waiting : Exchange.Store Ledger Queues ℕ
waiting = record idle { devices = (1, working) ∷ []; orders = (1, booked) ∷ []; ledger = paid }

waiting-IsWf : IsWf waiting
waiting-IsWf = record {
  devices_map = (refl, tt);
  orders_map = (refl, tt);
  held = λ d. ground arith;
}

waiting-IsCovered : IsCovered chain waiting
waiting-IsCovered a = ground arith

abbrev fee_moved : Ledger
fee_moved = record { free = put paid.free 1 115; reserved = put paid.reserved 2 0 }

abbrev settled : Ledger
settled = record { free = put fee_moved.free 1 120; reserved = put fee_moved.reserved 1 0 }

on_done-closed : on_done chain 2 1 true waiting ≡ (
  ok tt,
  closed chain waiting 1 (switched chain working true) settled (Exchange.Event.done 2 1),
)
on_done-closed =
    (on_done_ok_iff chain waiting 2 1 true
        (closed chain waiting 1 (switched chain working true) settled (Exchange.Event.done 2 1))).1
      (
        booked,
        working,
        fee_moved,
        settled,
        record {
          has_order = refl;
          registered = refl;
          fee_paid = refl;
          penalty_moved = inl (ground arith, refl);
        },
        refl,
      )

done_settles_example :
    (bytes : List ℕ) × ((done service_chain (some 1) true served).1.queues
      ≡ (service_chain.send_xcm []
          (record { parents = 1; interior = parachain 8 })
          (transact bytes)).1)
    × Pays bank paid
        (Exchange.handle_xcmp_messages chain ((7, 99, bytes) ∷ []) 500 waiting).1.ledger
        2
        1
        20
        5
        0
        25
done_settles_example =
    done_settles chain service_chain agree bank-IsReservable waiting served booked
      (record { until = 150; payload = 0; fee = 20; client = 2; paraid = 8 }) working
      (record { penalty = 5; wcd = 10; state = accepted }) (some 1) 1 7 99 500 true
      (record { signed = refl; has_order = refl; registered = refl; is_accepted = refl }) refl
      waiting-IsWf waiting-IsCovered refl refl refl refl (ap (λ r. r.0) on_done-closed)

-- The device has not decided yet.
abbrev undecided : Serving.Store Ledger Queues ℕ
undecided = record served { devices = (1, record { penalty = 5; wcd = 10; state = busy }) ∷ [] }

decline_refunds_example :
    let v = (accept service_chain (some 1) true true undecided).1 in
    (bytes : List ℕ) × (v.queues
      ≡ (service_chain.send_xcm []
          (record { parents = 1; interior = parachain 8 })
          (transact bytes)).1)
    × (v.orders ≡ remove 1 undecided.orders)
    × (v.ledger ≡ undecided.ledger)
    × Pays bank paid
        (Exchange.handle_xcmp_messages chain ((7, 99, bytes) ∷ []) 500 waiting).1.ledger
        2
        1
        20
        5
        20
        5
unfolding on_reject order_reject
decline_refunds_example =
    decline_refunds chain service_chain agree bank-IsReservable waiting undecided booked
      (record { until = 150; payload = 0; fee = 20; client = 2; paraid = 8 }) working
      (record { penalty = 5; wcd = 10; state = busy }) (some 1) 1 7 99 500 true
      (record { signed = refl; has_order = refl; registered = refl; is_serving = inl refl }) refl
      waiting-IsWf waiting-IsCovered refl refl refl refl refl
