-- ===== src/Xchange/Tests.antt =====
-- Runs of the exchange pallet, and the theorems on it at concrete inputs.
mod Ending
mod Histories
use xcm_auto_bank.Base.{
  ℕ, ◌+◌, ◌<◌, ◌≡◌, ◌⊎◌, refl, inl, inr, true, false, none, some, List, [], ◌∷◌, ◌++◌, map, arith,
}
use xcm_auto_bank.Base.Action.{ok, err}
use xcm_auto_bank.Base.Map.{lookup}
use xcm_auto_bank.Bank.{
  Ledger, Queues, BankError, put, bank, bank-IsReservable, chain, funds, insufficient_balance,
  dead_account,
}
use xcm_auto_bank.Common.{ready, busy, Order, OrderBase, XcmpMessage}
use xcm_auto_bank.Money.{Pays}
use xcm_auto_bank.Pallet.{Failure, other}
use xcm_auto_bank.Xchange.{
  DeviceProfile, Event, Error, Store, order, order_reject, cancel, register, on_reject, on_done,
  handle_xcmp_messages, overdue, prohibited,
}
use xcm_auto_bank.Xchange.Placing.{placed, order_ok_iff, order_overflows}
use xcm_auto_bank.Xchange.Refusing.{IsStranded, order_failed}
use xcm_auto_bank.Xchange.Escrow.{IsCovered}
use xcm_auto_bank.Xchange.Invariant.{IsWf}
use xcm_auto_bank.Xchange.Messages.{handle_all, handle_decoded, on_done_wrong_client}
use xcm_auto_bank.Xchange.Orderly.{Orderly, Run, Run-IsCovered}
use xcm_auto_bank.Xchange.Payment.{on_done-Pays, cancel-Pays, on_reject-Pays}
use xcm_auto_bank.Xchange.Steps.{Step, Reach, Reach-genesis-IsWf}
use xcm_auto_bank.Xchange.Settlement.{closed, switched, on_done_ok_iff}

-- The device 1 of the parachain 7, and a request of 20 for it.
abbrev pub printer : DeviceProfile
printer = record { penalty = 5; wcd = 10; para_id = 7; state = ready }

abbrev pub request : OrderBase ℕ
request = record { until = 150; payload = 0; fee = 20; device = 1 }

abbrev pub idle : Store Ledger Queues ℕ
idle = record {
  devices = (1, printer) ∷ [];
  orders = [];
  now = 100;
  ledger = funds;
  queues = [];
  events = [];
}

abbrev pledged : Ledger
pledged = record { free = put funds.free 1 95; reserved = put funds.reserved 1 5 }

abbrev pub paid : Ledger
paid = record { free = put pledged.free 2 80; reserved = put pledged.reserved 2 20 }

order_ok_iff_example :
    order chain (some 2) request idle ≡ (ok tt, placed chain (some 2) request idle 2 printer paid)
order_ok_iff_example =
    (order_ok_iff chain (some 2) request idle (placed chain (some 2) request idle 2 printer paid)).1
      (
        2,
        printer,
        pledged,
        paid,
        record {
          signed = refl;
          in_time = ground arith;
          no_order = refl;
          registered = refl;
          is_ready = refl;
          has_room = ground arith;
          can_pay = refl;
          pledged = refl;
          paid = refl;
        },
        refl,
      )

-- A device that needs nearly 2 ^ 64.
abbrev slow : DeviceProfile
slow = record printer { wcd = 18446744073709551566 }

abbrev asked : Store Ledger Queues ℕ
asked = record idle { devices = (1, slow) ∷ [] }

order_overflows_example :
    (order chain (some 2) request asked ≡ (ok tt, placed chain (some 2) request asked 2 slow paid))
    × (150 < 100 + 18446744073709551566)
order_overflows_example =
    order_overflows chain (some 2) request asked 2 slow pledged paid
      (record {
        signed = refl;
        in_time = ground arith;
        no_order = refl;
        registered = refl;
        is_ready = refl;
        can_pay = refl;
        pledged = refl;
        paid = refl;
      })
      (omega arith) (omega arith) (omega arith)

abbrev late : Store Ledger Queues ℕ
late = record idle { now = 150 }

-- A fee that nobody can pay.
abbrev dear : OrderBase ℕ
dear = record request { fee = 1000 }

-- The device orders from itself all that it has.
abbrev whole : OrderBase ℕ
whole = record request { fee = 100 }

abbrev unaffordable : Failure Error BankError
unaffordable = other insufficient_balance

order_failed_example :
    ((order chain (some 1) whole idle).1 ≡ idle)
    ⊎ ((f : BankError) × (unaffordable ≡ other f) × IsStranded chain (some 1) whole idle f)
unfolding order
order_failed_example = order_failed chain (some 1) whole idle bank-IsReservable unaffordable refl
