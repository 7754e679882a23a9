-- ===== src/Service/Tests/Exact.antt =====
-- The exact conditions of the service pallet at concrete inputs.
use xcm_auto_bank.Base.{ℕ, ◌≡◌, refl, inr, inl, true, some, [], ◌∷◌, arith}
use xcm_auto_bank.Base.Action.{ok}
use xcm_auto_bank.Bank.{Ledger, Queues, put, service_chain, funds}
use xcm_auto_bank.Common.{busy, accepted}
use xcm_auto_bank.Service.{DeviceProfile, Event, Store, order_received, done}
use xcm_auto_bank.Service.Closing.{switched, finished}
use xcm_auto_bank.Service.Completing.{done_ok_iff}
use xcm_auto_bank.Service.Exact.{order_received_ok_iff}
use xcm_auto_bank.Service.Receiving.{booked}
use xcm_auto_bank.Service.Tests.{printer, local, idle}

-- The device 1 has reserved 5, and then the client 2 its 20.
abbrev pledged : Ledger
pledged = record { free = put funds.free 1 95; reserved = put funds.reserved 1 5 }

abbrev paid : Ledger
paid = record { free = put pledged.free 2 80; reserved = put pledged.reserved 2 20 }

order_received_ok_iff_example :
    order_received service_chain local 1 idle
    ≡ (ok tt, booked service_chain local 1 idle printer busy paid)
order_received_ok_iff_example =
    (order_received_ok_iff service_chain local 1 idle
        (booked service_chain local 1 idle printer busy paid)).1
      (
        printer,
        busy,
        paid,
        record {
          in_time = ground arith;
          no_order = refl;
          registered = refl;
          is_ready = refl;
          has_room = ground arith;
          answered = refl;
        },
        inr (pledged, refl, refl, refl, refl),
        refl,
      )

-- The device has accepted the order.
abbrev serving : DeviceProfile
serving = record printer { state = accepted }

abbrev agreed : Store Ledger Queues ℕ
agreed = record idle { devices = (1, serving) ∷ []; orders = (1, local) ∷ []; ledger = paid }

abbrev fee_moved : Ledger
fee_moved = record { free = put paid.free 1 115; reserved = put paid.reserved 2 0 }

abbrev settled : Ledger
settled = record { free = put fee_moved.free 1 120; reserved = put fee_moved.reserved 1 0 }

done_ok_iff_example : done service_chain (some 1) true agreed ≡ (
  ok tt,
  finished service_chain agreed local serving 1
      (switched service_chain agreed local serving true)
      settled
      []
      (Event.done 1),
)
done_ok_iff_example =
    (done_ok_iff service_chain (some 1) true agreed (
        finished service_chain agreed local serving 1
          (switched service_chain agreed local serving true) settled [] (Event.done 1))).1
      (
        1,
        local,
        serving,
        record { signed = refl; has_order = refl; registered = refl; is_accepted = refl },
        inr (fee_moved, settled, refl, refl, inl (ground arith, refl), refl),
      )
