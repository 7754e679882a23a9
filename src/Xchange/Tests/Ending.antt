-- ===== src/Xchange/Tests/Ending.antt =====
-- Orders that end, batches and histories of the exchange pallet at concrete inputs.
use xcm_auto_bank.Base.{ℕ, ◌≡◌, ◌⊎◌, refl, inl, true, none, some, List, [], ◌∷◌, arith}
use xcm_auto_bank.Base.Action.{ok}
use xcm_auto_bank.Base.Map.{lookup}
use xcm_auto_bank.Bank.{
  Ledger, Queues, BankError, put, bank, bank-IsReservable, chain, funds, dead_account,
}
use xcm_auto_bank.Common.{busy, Order}
use xcm_auto_bank.Pallet.{Failure, other}
use xcm_auto_bank.Xchange.{DeviceProfile, Error, Event, Store, cancel, order_reject, on_done}
use xcm_auto_bank.Xchange.Cancel.{cancel_ok_iff, cancel_failed, IsUnpaid}
use xcm_auto_bank.Xchange.Escrow.{IsCovered}
use xcm_auto_bank.Xchange.Invariant.{IsWf}
use xcm_auto_bank.Xchange.Messages.{on_done_wrong_client}
use xcm_auto_bank.Xchange.Settlement.{closed, switched, on_done_ok_iff}
use xcm_auto_bank.Xchange.Tests.{printer, paid}

-- The device has the order of the client 2.
abbrev working : DeviceProfile
working = record printer { state = busy }

abbrev pub booked : Order ℕ
booked = record { until = 150; payload = 0; fee = 20; client = 2; paraid = 0 }

abbrev waiting : Store Ledger Queues ℕ
waiting = record {
  devices = (1, working) ∷ [];
  orders = (1, booked) ∷ [];
  now = 100;
  ledger = paid;
  queues = [];
  events = [];
}

waiting-IsWf : IsWf waiting
waiting-IsWf = record {
  devices_map = (refl, tt);
  orders_map = (refl, tt);
  held = λ d. ground arith;
}

waiting-IsCovered : IsCovered chain waiting
waiting-IsCovered a = ground arith

-- The fee has been moved, and then the penalty released.
abbrev fee_moved : Ledger
fee_moved = record { free = put paid.free 1 115; reserved = put paid.reserved 2 0 }

abbrev settled : Ledger
settled = record { free = put fee_moved.free 1 120; reserved = put fee_moved.reserved 1 0 }

on_done_ok_iff_example :
    on_done chain 2 1 true waiting
    ≡ (ok tt, closed chain waiting 1 (switched chain working true) settled (Event.done 2 1))
on_done_ok_iff_example =
    (on_done_ok_iff chain waiting 2 1 true
        (closed chain waiting 1 (switched chain working true) settled (Event.done 2 1))).1
      (
        booked,
        working,
        fee_moved,
        settled,
        record {
          has_order = refl;
          registered = refl;
          fee_paid = refl;
          penalty_moved = inl (ground arith, refl);
        },
        refl,
      )

-- The deadline has come.
abbrev overrun : Store Ledger Queues ℕ
overrun = record waiting { now = 200 }

overrun-IsWf : IsWf overrun
overrun-IsWf = record {
  devices_map = (refl, tt);
  orders_map = (refl, tt);
  held = λ d. ground arith;
}

overrun-IsCovered : IsCovered chain overrun
overrun-IsCovered a = ground arith

-- The fee has been released, and then the penalty paid to the client.
abbrev fee_released : Ledger
fee_released = record { free = put paid.free 2 100; reserved = put paid.reserved 2 0 }

abbrev refunded : Ledger
refunded = record { free = put fee_released.free 2 105; reserved = put fee_released.reserved 1 0 }

cancel_ok_iff_example :
    cancel chain (some 2) 1 overrun
    ≡ (ok tt, closed chain overrun 1 working refunded (Event.reject 2 1))
cancel_ok_iff_example =
    (cancel_ok_iff chain (some 2) 1 overrun
        (closed chain overrun 1 working refunded (Event.reject 2 1))).1
      (
        2,
        booked,
        working,
        refunded,
        record {
          signed = refl;
          has_order = refl;
          is_due = ground arith;
          is_owner = refl;
          registered = refl;
          penalty_paid = refl;
        },
        refl,
      )

-- An order of the account 95, which does not exist.
abbrev haunted : Store Ledger Queues ℕ
haunted = record overrun {
  orders = (1, record booked { client = 95 }) ∷ [];
  ledger = record { free = funds.free; reserved = put funds.reserved 1 5 };
}

abbrev unpayable : Failure Error BankError
unpayable = other dead_account

cancel_failed_example :
    ((cancel chain (some 95) 1 haunted).1 ≡ haunted)
    ⊎ ((f : BankError) × (unpayable ≡ other f) × IsUnpaid chain (some 95) 1 haunted f)
unfolding cancel order_reject
cancel_failed_example = cancel_failed chain (some 95) 1 haunted unpayable refl

-- A batch of two messages.
abbrev pub batch : List (ℕ × ℕ × List ℕ)
batch = (7, 99, 1 ∷ 2 ∷ 1 ∷ []) ∷ (7, 99, 3 ∷ 2 ∷ 1 ∷ 1 ∷ []) ∷ []

-- An acceptance alone leaves the order open.
abbrev accepting : List (ℕ × ℕ × List ℕ)
accepting = (7, 99, 1 ∷ 2 ∷ 1 ∷ []) ∷ []

-- The message names the account 3.
on_done_wrong_client_example :
    (lookup 1 (on_done chain 3 1 true waiting).1.orders ≡ none)
    × (bank.reserved_balance (on_done chain 3 1 true waiting).1.ledger 2
        ≡ bank.reserved_balance paid 2)
unfolding on_done
on_done_wrong_client_example =
    on_done_wrong_client chain bank-IsReservable waiting booked working 3 1 true refl refl refl refl
      refl
