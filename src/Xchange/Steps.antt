-- ===== src/Xchange/Steps.antt =====
-- The life of the exchange pallet's storage: its calls, its messages, reaped accounts, and what
-- the rest of the chain does between them (pallets/xchange/src/lib.rs).
use xcm_auto_bank.Base.{ℕ, ◌≤◌, ◌≡◌, refl, Bool, List, []}
use xcm_auto_bank.Common.{OrderBase}
use xcm_auto_bank.Frame.{Config}
use xcm_auto_bank.Xchange.{
  Store, Event, test, order, cancel, register, on_killed_account, handle_xcmp_messages,
}
use xcm_auto_bank.Xchange.Invariant.{
  IsWf, IsWf-genesis, order-IsWf, cancel-IsWf, register-IsWf, on_killed_account-IsWf,
  handle_xcmp_messages-IsWf,
}

module _ {L Q F O P : Type 0} (T : Config L Q F O P) where
  -- `test` only sends.
  pub test_same :
      (origin : O) (s : Store L Q P)
      → (test T origin s).1 ≡ record s { queues = (test T origin s).1.queues }
  unfolding test
  test_same origin s = refl

  -- A call counts with whatever it wrote, also where it returned an error.
  pub data Step (s : Store L Q P) : Store L Q P → Type 0 where
    tests : (origin : O) → Step s (test T origin s).1
    orders : (origin : O) (o : OrderBase P) → Step s (order T origin o s).1
    cancels : (origin : O) (device : ℕ) → Step s (cancel T origin device s).1
    registers :
        (origin : O) (paraid penalty wcd : ℕ) (onoff : Bool)
        → Step s (register T origin paraid penalty wcd onoff s).1
    receives :
        (batch : List (ℕ × ℕ × List ℕ)) (max_weight : ℕ)
        → Step s (handle_xcmp_messages T batch max_weight s).1
    reaps : (who : ℕ) → Step s (on_killed_account T who s)
    -- time passes, other pallets use the currency and the queues, and a block begins with no event
    elsewhere :
        (now : ℕ) (ledger : L) (queues : Q) (events : List Event)
        → s.now ≤ now
        → Step s (record s { now = now; ledger = ledger; queues = queues; events = events })

  pub data Reach (s : Store L Q P) : Store L Q P → Type 0 where
    here : Reach s s
    next : {t u : Store L Q P} → Reach s t → Step t u → Reach s u

  -- Only the two maps matter.
  pub IsWf-elsewhere :
      {s : Store L Q P} (now : ℕ) (ledger : L) (queues : Q) (events : List Event)
      → IsWf s
      → IsWf (record s { now = now; ledger = ledger; queues = queues; events = events })
  IsWf-elsewhere now ledger queues events w = record {
    devices_map = w.devices_map;
    orders_map = w.orders_map;
    held = w.held;
  }

  pub Step-IsWf : {s t : Store L Q P} → Step s t → IsWf s → IsWf t
  Step-IsWf {s} (tests origin) w =
      rw (test_same origin s) (IsWf-elsewhere s.now s.ledger _ s.events w)
  Step-IsWf {s} (orders origin o) w = order-IsWf T s origin o w
  Step-IsWf {s} (cancels origin device) w = cancel-IsWf T s origin device w
  Step-IsWf {s} (registers origin paraid penalty wcd onoff) w =
      register-IsWf T s origin paraid penalty wcd onoff w
  Step-IsWf {s} (receives batch max_weight) w = handle_xcmp_messages-IsWf T batch max_weight s w
  Step-IsWf {s} (reaps who) w = on_killed_account-IsWf T s who w
  Step-IsWf (elsewhere now ledger queues events later) w = IsWf-elsewhere now ledger queues events w

  pub Reach-IsWf : {s t : Store L Q P} → Reach s t → IsWf s → IsWf t
  Reach-IsWf here w = w
  Reach-IsWf (next r st) w = Step-IsWf st (Reach-IsWf r w)

  -- From empty storage on, whatever is called, received or reaped, in any order and whether it
  -- succeeds or fails: every device that has an order is registered, and is busy or abandoned.
  pub Reach-genesis-IsWf : (s t : Store L Q P) → s.devices ≡ [] → s.orders ≡ [] → Reach s t → IsWf t
  Reach-genesis-IsWf s t no_devices no_orders r = Reach-IsWf r (IsWf-genesis s no_devices no_orders)
