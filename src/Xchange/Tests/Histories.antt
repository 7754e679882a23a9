-- ===== src/Xchange/Tests/Histories.antt =====
-- Orders that their device rejects, or that pass their deadline, and histories of the exchange
-- pallet at concrete inputs.
use xcm_auto_bank.Base.{ℕ, ◌≡◌, refl, true, some, [], arith}
use xcm_auto_bank.Base.Action.{ok}
use xcm_auto_bank.Bank.{Ledger, Queues, bank-IsReservable, chain}
use xcm_auto_bank.Xchange.{Store, order, register, on_reject, handle_xcmp_messages}
use xcm_auto_bank.Xchange.Escrow.{IsCovered}
use xcm_auto_bank.Xchange.Invariant.{IsWf}
use xcm_auto_bank.Xchange.Orderly.{Orderly, Run, Run-IsCovered}
use xcm_auto_bank.Xchange.Restoring.{Restored, on_reject-order-Restored}
use xcm_auto_bank.Xchange.Steps.{Step, Reach, Reach-genesis-IsWf}
use xcm_auto_bank.Xchange.Tests.{request, idle}
use xcm_auto_bank.Xchange.Tests.Ending.{batch}

-- The rejection arrives 20 later.
on_reject-order-Restored_example :
    let r = on_reject chain 2 1 true (record (order chain (some 2) request idle).1 { now = 120 }) in
    (r.0 ≡ ok tt) × Restored chain idle r.1 1
unfolding order
on_reject-order-Restored_example =
    on_reject-order-Restored chain bank-IsReservable (some 2) request idle 2 120 true refl refl
      (ground arith)

-- From empty storage: the device is registered, ordered from, and done; and the same in a history
-- that is orderly.
abbrev empty : Store Ledger Queues ℕ
empty = record idle { devices = [] }

abbrev opened : Store Ledger Queues ℕ
opened = (register chain (some 1) 7 5 10 true empty).1

abbrev ordered : Store Ledger Queues ℕ
ordered = (order chain (some 2) request opened).1

Reach-genesis-IsWf_example : IsWf (handle_xcmp_messages chain batch 500 ordered).1
Reach-genesis-IsWf_example =
    Reach-genesis-IsWf chain empty (handle_xcmp_messages chain batch 500 ordered).1 refl refl (
      Reach.next
        (Reach.next (Reach.next Reach.here (Step.registers (some 1) 7 5 10 true))
          (Step.orders (some 2) request))
        (Step.receives batch 500))

Run-IsCovered_example : IsCovered chain ordered
Run-IsCovered_example = Run-IsCovered chain bank-IsReservable empty ordered refl refl (
    Run.next (Run.next Run.here (Orderly.registers (some 1) 7 5 10 true))
      (Orderly.orders (some 2) request))
