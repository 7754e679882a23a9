-- ===== src/Service/Tests.antt =====
-- Runs of the service pallet, and the theorems on it at concrete inputs.
mod Histories
mod Refunds
mod Exact
use xcm_auto_bank.Base.{ℕ, ◌≡◌, ◌⊎◌, refl, inl, true, false, some, List, [], ◌∷◌, ◌++◌, arith}
use xcm_auto_bank.Base.Action.{ok, err}
use xcm_auto_bank.Base.Map.{insert, remove}
use xcm_auto_bank.Bank.{
  Ledger, Queues, BankError, put, bank, bank-IsReservable, service_chain, funds, dead_account,
}
use xcm_auto_bank.Common.{DeviceState, ready, busy, accepted, Order, OrderBase, XcmpMessage}
use xcm_auto_bank.Money.{Pays}
use xcm_auto_bank.Pallet.{Failure, module_error, other}
use xcm_auto_bank.Service.{
  DeviceProfile, Event, Error, Store, order_received, check_order, reserve_order, book_order, order,
  order_done, accept, done, register, handle_xcmp_messages,
}
use xcm_auto_bank.Service.Calls.{Reserves, order_received_atomic, order_received_ok, accept_ok_iff}
use xcm_auto_bank.Service.Closing.{switched, finished, answered, done_foreign, done-Pays}
use xcm_auto_bank.Service.Completing.{IsUnpaid, done_failed}
use xcm_auto_bank.Service.Invariant.{IsSound, IsWf}
use xcm_auto_bank.Service.Locked.{Serves, Step-Serves}
use xcm_auto_bank.Service.Receiving.{Receivable, booked}
use xcm_auto_bank.Service.Steps.{Step, Reach, Reach-genesis-IsServing}

-- The device 1, a request of 20 for it, and the order that it is for a client of this parachain
-- and of the parachain 8.
abbrev pub printer : DeviceProfile
printer = record { penalty = 5; wcd = 10; state = ready }

abbrev pub request : OrderBase ℕ
request = record { until = 150; payload = 0; fee = 20; device = 1 }

abbrev pub local : Order ℕ
local = record { until = 150; payload = 0; fee = 20; client = 2; paraid = 7 }

abbrev foreign : Order ℕ
foreign = record local { paraid = 8 }

abbrev pub idle : Store Ledger Queues ℕ
idle = record {
  devices = (1, printer) ∷ [];
  orders = [];
  now = 100;
  ledger = funds;
  queues = [];
  events = [];
}

order_received_atomic_example :
    (order_received service_chain (record local { fee = 1000 }) 1 idle).1 ≡ idle
unfolding order_received check_order reserve_order book_order
order_received_atomic_example =
    order_received_atomic service_chain bank-IsReservable (record local { fee = 1000 }) 1 idle
      (module_error Error.device_low_bail) refl refl

-- The device has the order of the client 2, whose fee and whose penalty are reserved.
abbrev pub working : DeviceProfile
working = record printer { state = busy }

abbrev paid : Ledger
paid = record { free = funds.free; reserved = put (put funds.reserved 1 5) 2 20 }

abbrev pub waiting : Store Ledger Queues ℕ
waiting = record {
  devices = (1, working) ∷ [];
  orders = (1, local) ∷ [];
  now = 100;
  ledger = paid;
  queues = [];
  events = [];
}

-- The device has accepted the order.
abbrev serving : DeviceProfile
serving = record printer { state = accepted }

abbrev agreed : Store Ledger Queues ℕ
agreed = record waiting { devices = (1, serving) ∷ [] }

done-Pays_example :
    Pays bank paid (done service_chain (some 1) true agreed).1.ledger 2 1 20 5 0 25
    × ((done service_chain (some 1) true agreed).1.orders ≡ remove 1 agreed.orders)
    × ((done service_chain (some 1) true agreed).1.devices ≡ insert 1 printer agreed.devices)
unfolding done order_done
done-Pays_example =
    done-Pays service_chain agreed local serving (some 1) 1 true
      (record { signed = refl; has_order = refl; registered = refl; is_accepted = refl })
      bank-IsReservable refl refl (ground arith) (ground arith) refl

-- The device 95 has no balance.
abbrev haunted : Store Ledger Queues ℕ
haunted = record agreed { devices = (95, serving) ∷ []; orders = (95, local) ∷ [] }

abbrev unpayable : Failure Error BankError
unpayable = other dead_account

done_failed_example :
    ((done service_chain (some 95) true haunted).1 ≡ haunted)
    ⊎ ((f : BankError) × (unpayable ≡ other f) × IsUnpaid service_chain (some 95) true haunted f)
unfolding done order_done
done_failed_example = done_failed service_chain (some 95) true haunted unpayable refl

-- A batch of two requests from the parachains 8 and 9.
abbrev pub batch : List (ℕ × ℕ × List ℕ)
batch = (8, 99, 0 ∷ 2 ∷ 150 ∷ 0 ∷ 20 ∷ 1 ∷ []) ∷ (9, 99, 0 ∷ 3 ∷ 150 ∷ 0 ∷ 20 ∷ 1 ∷ []) ∷ []

pub service_chain-IsSound : IsSound service_chain
service_chain-IsSound d o state h = ground arith

Step-Serves_example :
    Serves service_chain 1 local 5 10 (handle_xcmp_messages service_chain batch 500 waiting).1
Step-Serves_example =
    Step-Serves service_chain 1 local 5 10 (Step.receives batch 500) (refl, inl refl, refl, refl)
      (λ e. e)
