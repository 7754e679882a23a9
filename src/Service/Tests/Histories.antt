-- ===== src/Service/Tests/Histories.antt =====
-- Histories of the service pallet at concrete inputs.
use xcm_auto_bank.Base.{ℕ, ◌≡◌, refl, true, some, []}
use xcm_auto_bank.Bank.{Ledger, Queues, service_chain}
use xcm_auto_bank.Service.{Store, order, register, handle_xcmp_messages}
use xcm_auto_bank.Service.Lifecycle.{Moves, away}
use xcm_auto_bank.Service.Refinement.{view}
use xcm_auto_bank.Service.Simulation.{Reach-genesis-Moves}
use xcm_auto_bank.Service.Steps.{Step, Reach}
use xcm_auto_bank.Service.Tests.{request, idle, batch, service_chain-IsSound}

-- From empty storage: the device is registered and ordered from, and both messages arrive.
abbrev empty : Store Ledger Queues ℕ
empty = record idle { devices = [] }

abbrev opened : Store Ledger Queues ℕ
opened = (register service_chain (some 1) 5 10 true empty).1

abbrev ordered : Store Ledger Queues ℕ
ordered = (order service_chain (some 2) request opened).1

abbrev served : Store Ledger Queues ℕ
served = (handle_xcmp_messages service_chain batch 500 ordered).1

service : Reach service_chain empty served
service =
    Reach.next
      (Reach.next (Reach.next Reach.here (Step.registers (some 1) 5 10 true))
        (Step.orders (some 2) request))
      (Step.receives batch 500)

Reach-genesis-Moves_example :
    (view service_chain 1 empty ≡ away)
    × Moves (view service_chain 1 ordered) (view service_chain 1 served)
Reach-genesis-Moves_example =
    Reach-genesis-Moves service_chain service_chain-IsSound 1 empty ordered served refl refl
      (Reach.next (Reach.next Reach.here (Step.registers (some 1) 5 10 true))
        (Step.orders (some 2) request))
      (Step.receives batch 500)
