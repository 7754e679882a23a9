-- ===== src/Runtime/Tests/Histories.antt =====
-- The theorems on the histories of the runtime at concrete ones.
use xcm_auto_bank.Bank.{
  Ledger, Queues, BankError, bank, bank-IsReservable, bank_pays, funds, signer, encode, decode,
}
use xcm_auto_bank.Base.{
  ℕ, ◌≡◌, ◌≢◌, refl, ◌⊎◌, true, false, Bool, Option, none, some, [], ◌∷◌, ◌++◌, arith, ◌==◌,
  if◌then◌else◌,
}
use xcm_auto_bank.Base.Action.{ok}
use xcm_auto_bank.Base.Map.{lookup, insert}
use xcm_auto_bank.Common.{Order, OrderBase, accepted, convert_base}
use xcm_auto_bank.Runtime.Dispatch.{Libraries, RuntimeCall, XchangeCall, ServiceCall, dispatch}
use xcm_auto_bank.Runtime.Histories.{Step, Reach}
use xcm_auto_bank.Frame.{here, parachain, plurality}
use xcm_auto_bank.Runtime.Routing.{Routers, IsDocumented, delivered, unreachable, failed}
use xcm_auto_bank.Runtime.Overdue.{late, cancel_always_possible}
use xcm_auto_bank.Runtime.Own.{serves_own_accepted}
use xcm_auto_bank.Runtime.Solvency.{Run, owed, IsCovered, Run-genesis-covers}
use xcm_auto_bank.Runtime.State.{RuntimeState}
use xcm_auto_bank.Runtime.Waiting.{StillOpen, Cancellation, open_until_cancelled}
use xcm_auto_bank.Service.{DeviceProfile}
use xcm_auto_bank.Service as Serving
use xcm_auto_bank.Xchange as Exchange

-- UMP takes what is for the parent, and the queue keeps everything.
abbrev pub routers : Routers Queues
routers = record {
  parent_as_ump = λ q to message. elim to.interior [
    | here ↦ (delivered, q ++ (to, message) ∷ [])
    | parachain para ↦ (unreachable, q)
    | plurality id ↦ (unreachable, q)
  ];
  xcmp_queue = λ q to message. (delivered, q ++ (to, message) ∷ []);
  pair = λ a b q to message. elim (a q to message).0 [
    | unreachable ↦ b (a q to message).1 to message
    | delivered ↦ a q to message
    | failed ↦ a q to message
  ];
}

pub routers-IsDocumented : IsDocumented routers
routers-IsDocumented = record {
  ump_parent_only = λ q para message. refl;
  pair_second = λ a b q q' to message e. ground arith;
}

-- The parachain 7 with the balances of the bank.
abbrev pub libraries : Libraries Ledger Queues BankError (Option ℕ)
libraries = record {
  balances = bank;
  ensure_signed = signer;
  routers = routers;
  encode = encode;
  decode = decode;
  encode_bytes = λ bytes. bytes;
  parachain_id = 7;
}

abbrev genesis : RuntimeState Ledger Queues
genesis = record {
  something = none;
  xchange_devices = [];
  xchange_orders = [];
  service_devices = [];
  service_orders = [];
  now = 100;
  ledger = funds;
  queues = [];
  events = [];
}

-- The account 1 is a device of both pallets, and the account 2 orders from it in both.
abbrev registers_abroad : RuntimeCall
registers_abroad = RuntimeCall.xchange_pallet (XchangeCall.register 8 5 10 true)

abbrev registers_here : RuntimeCall
registers_here = RuntimeCall.xchange_service (ServiceCall.register 7 10 true)

abbrev pub request : OrderBase ℕ
request = record { until = 150; payload = 0; fee = 20; device = 1 }

abbrev pub orders_abroad : RuntimeCall
orders_abroad = RuntimeCall.xchange_pallet (XchangeCall.order request)

abbrev orders_here : RuntimeCall
orders_here = RuntimeCall.xchange_service (ServiceCall.order request)

abbrev called : RuntimeCall → ℕ → RuntimeState Ledger Queues → RuntimeState Ledger Queues
called c who s = (dispatch libraries c (some who) s).1

abbrev pub offering : RuntimeState Ledger Queues
offering = called registers_here 1 (called registers_abroad 1 genesis)

abbrev ordering : RuntimeState Ledger Queues
ordering = called orders_here 2 (called orders_abroad 2 offering)

abbrev booked : Order ℕ
booked = record { until = 150; payload = 0; fee = 20; client = 2; paraid = 0 }

abbrev received : Order ℕ
received = record { until = 150; payload = 0; fee = 20; client = 2; paraid = 7 }

-- The device 1 has pledged 5 and 7.
ordered :
    (lookup 1 ordering.xchange_orders ≡ some booked)
    × (lookup 1 ordering.service_orders ≡ some received)
    × (owed libraries ordering 1 ≡ 12)
unfolding dispatch Exchange.order Exchange.register Serving.order Serving.order_received
    Serving.check_order Serving.reserve_order Serving.book_order Serving.order_accept
    Serving.register convert_base insert
ordered = (refl, refl, refl)

Run-genesis-covers_example : IsCovered libraries ordering
Run-genesis-covers_example =
    Run-genesis-covers libraries bank-IsReservable genesis ordering refl refl refl refl (
      Run.next
        (Run.next
          (Run.next
            (Run.next Run.here (Step.dispatches (some 1) registers_abroad)
              (λ e. absurd (ground arith)))
            (Step.dispatches (some 1) registers_here) (λ e. absurd (ground arith)))
          (Step.dispatches (some 2) orders_abroad) (λ e. absurd (ground arith)))
        (Step.dispatches (some 2) orders_here) (λ e. absurd (ground arith)))

history : Reach libraries genesis ordering
history =
    Reach.next
      (Reach.next
        (Reach.next (Reach.next Reach.here (Step.dispatches (some 1) registers_abroad))
          (Step.dispatches (some 1) registers_here))
        (Step.dispatches (some 2) orders_abroad))
      (Step.dispatches (some 2) orders_here)

open_until_cancelled_example :
    StillOpen libraries 1 booked ordering ⊎ Cancellation libraries 1 booked ordering ordering
open_until_cancelled_example =
    open_until_cancelled libraries 1 booked genesis ordering ordering refl refl history ordered.0
      Reach.here

serves_own_accepted_example :
    (7 ≡ libraries.parachain_id)
    × ((dev : DeviceProfile) × (lookup 1 ordering.service_devices ≡ some dev)
        × (dev.state ≡ accepted))
    × ((origin : Option ℕ) (onoff : Bool)
        → (dispatch libraries
            (RuntimeCall.xchange_service (ServiceCall.accept false onoff))
            origin
            ordering).0
          ≢ ok tt)
serves_own_accepted_example =
    serves_own_accepted libraries genesis ordering refl refl history 1 received ordered.1

cancel_always_possible_example :
    let r =
      dispatch libraries
        (RuntimeCall.xchange_pallet (XchangeCall.cancel 1))
        (some 2)
        (late libraries booked ordering) in
    Reach libraries ordering r.1
    × (r.0 ≡ ok tt)
    × ((d : ℕ)
        → lookup d r.1.xchange_orders ≡ (if d == 1 then none else lookup d ordering.xchange_orders))
    × (r.1.service_orders ≡ ordering.service_orders)
    × (r.1.service_devices ≡ ordering.service_devices)
unfolding dispatch Exchange.order Exchange.register Serving.order Serving.order_received
    Serving.check_order Serving.reserve_order Serving.book_order Serving.order_accept
    Serving.register convert_base insert
cancel_always_possible_example =
    cancel_always_possible libraries genesis ordering (some 2) 1 booked refl refl history ordered.0
      refl (λ fee device penalty. bank_pays ordering.ledger 2 fee device penalty (ground arith))
