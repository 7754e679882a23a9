-- ===== src/Service/Tests/Refunds.antt =====
-- A declined and a cancelled order of this parachain.
use xcm_auto_bank.Bank.{Ledger, Queues, put, bank, bank-IsReservable, service_chain}
use xcm_auto_bank.Base.{ℕ, ◌≡◌, refl, inl, true, some, arith}
use xcm_auto_bank.Base.Action.{ok}
use xcm_auto_bank.Money.{Pays}
use xcm_auto_bank.Service.{Store, accept, cancel, order_reject}
use xcm_auto_bank.Service.Escrow.{IsCovered}
use xcm_auto_bank.Service.Invariant.{IsWf}
use xcm_auto_bank.Service.Refunds.{decline-Pays, overdue_cancel-Pays}
use xcm_auto_bank.Service.Settling.{Ended}
use xcm_auto_bank.Service.Tests.{printer, working, local, waiting}

waiting-IsWf : IsWf waiting
waiting-IsWf = record {
  devices_map = (refl, tt);
  orders_map = (refl, tt);
  held = λ d. ground arith;
}

waiting-IsCovered : IsCovered service_chain waiting
waiting-IsCovered a = ground arith

decline-Pays_example :
    Pays bank waiting.ledger
      (accept service_chain (some 1) true true waiting).1.ledger
      2
      1
      20
      5
      20
      5
    × Ended service_chain waiting 1 printer (accept service_chain (some 1) true true waiting).1
unfolding accept order_reject
decline-Pays_example =
    decline-Pays service_chain bank-IsReservable waiting waiting-IsWf waiting-IsCovered local
      working 1 refl refl refl refl (some 1) true
      (record { signed = refl; has_order = refl; registered = refl; is_serving = inl refl }) refl

-- The deadline has come.
abbrev belated : Store Ledger Queues ℕ
belated = record waiting { now = 150 }

belated-IsWf : IsWf belated
belated-IsWf = record {
  devices_map = (refl, tt);
  orders_map = (refl, tt);
  held = λ d. ground arith;
}

belated-IsCovered : IsCovered service_chain belated
belated-IsCovered a = ground arith

-- The client 2 has its fee of 20 back and the penalty of 5.
abbrev refunded : Ledger
refunded = record {
  free = put (put waiting.ledger.free 2 120) 2 125;
  reserved = put (put waiting.ledger.reserved 2 0) 1 0;
}

overdue_cancel-Pays_example :
    ((cancel service_chain (some 2) 1 belated).0 ≡ ok tt)
    × Pays bank belated.ledger (cancel service_chain (some 2) 1 belated).1.ledger 2 1 20 5 25 0
    × Ended service_chain belated 1 working (cancel service_chain (some 2) 1 belated).1
overdue_cancel-Pays_example =
    overdue_cancel-Pays service_chain bank-IsReservable belated belated-IsWf belated-IsCovered local
      working 1 refl refl refl refl (some 2) refunded (omega arith) refl refl
