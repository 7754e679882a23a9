-- ===== src/Xchange/Orderly.antt =====
-- Histories in which the other parachains play fair and no transfer fails
-- (pallets/xchange/src/lib.rs).
use xcm_auto_bank.Base.{ℕ, ◌≤◌, ◌≡◌, Bool, some, List, [], arith}
use xcm_auto_bank.Base.Action.{ok}
use xcm_auto_bank.Base.Map.{lookup}
use xcm_auto_bank.Common.{Order, OrderBase}
use xcm_auto_bank.Frame.{Config, IsReservable}
use xcm_auto_bank.Xchange.{
  Store, Event, test, order, cancel, register, on_reject, on_done, on_killed_account,
}
use xcm_auto_bank.Xchange.Escrow.{
  IsCovered, IsBacked, order-IsBacked, register-IsBacked, on_killed_account-IsBacked,
  on_done-IsBacked, on_reject-IsBacked, cancel-IsBacked,
}
use xcm_auto_bank.Xchange.Invariant.{
  IsWf, IsWf-genesis, order-IsWf, cancel-IsWf, register-IsWf, on_reject-IsWf, on_done-IsWf,
  on_killed_account-IsWf,
}
use xcm_auto_bank.Xchange.Steps.{test_same, IsWf-elsewhere}

module _ {L Q F O P : Type 0} (T : Config L Q F O P) where
  -- An `order` counts also where it fails, the calls that end an order where they return `Ok`, and
  -- a message names the order's client. Outside the pallet no reserve is taken from.
  pub data Orderly (s : Store L Q P) : Store L Q P → Type 0 where
    tests : (origin : O) → Orderly s (test T origin s).1
    orders : (origin : O) (o : OrderBase P) → Orderly s (order T origin o s).1
    cancels :
        (origin : O) (device : ℕ)
        → (cancel T origin device s).0 ≡ ok tt
        → Orderly s (cancel T origin device s).1
    registers :
        (origin : O) (paraid penalty wcd : ℕ) (onoff : Bool)
        → Orderly s (register T origin paraid penalty wcd onoff s).1
    rejects :
        (who device : ℕ) (onoff : Bool)
        → ((o : Order P) → lookup device s.orders ≡ some o → o.client ≡ who)
        → (on_reject T who device onoff s).0 ≡ ok tt
        → Orderly s (on_reject T who device onoff s).1
    completes :
        (who device : ℕ) (onoff : Bool)
        → ((o : Order P) → lookup device s.orders ≡ some o → o.client ≡ who)
        → (on_done T who device onoff s).0 ≡ ok tt
        → Orderly s (on_done T who device onoff s).1
    reaps : (who : ℕ) → Orderly s (on_killed_account T who s)
    elsewhere :
        (now : ℕ) (ledger : L) (queues : Q) (events : List Event)
        → s.now ≤ now
        → ((a : ℕ) → T.currency.reserved_balance s.ledger a ≤ T.currency.reserved_balance ledger a)
        → Orderly s (record s { now = now; ledger = ledger; queues = queues; events = events })

  pub data Run (s : Store L Q P) : Store L Q P → Type 0 where
    here : Run s s
    next : {t u : Store L Q P} → Run s t → Orderly t u → Run s u

  module _ (laws : IsReservable T.currency) where
    pub Orderly-IsWf : {s t : Store L Q P} → Orderly s t → IsWf s → IsWf t
    Orderly-IsWf {s} (tests origin) w =
        rw (test_same T origin s) (IsWf-elsewhere T s.now s.ledger _ s.events w)
    Orderly-IsWf {s} (orders origin o) w = order-IsWf T s origin o w
    Orderly-IsWf {s} (cancels origin device _) w = cancel-IsWf T s origin device w
    Orderly-IsWf {s} (registers origin paraid penalty wcd onoff) w =
        register-IsWf T s origin paraid penalty wcd onoff w
    Orderly-IsWf {s} (rejects who device onoff _ _) w = on_reject-IsWf T s who device onoff w
    Orderly-IsWf {s} (completes who device onoff _ _) w = on_done-IsWf T s who device onoff w
    Orderly-IsWf {s} (reaps who) w = on_killed_account-IsWf T s who w
    Orderly-IsWf (elsewhere now ledger queues events _ _) w =
        IsWf-elsewhere T now ledger queues events w

    pub Orderly-IsBacked :
        (extra : ℕ → ℕ) {s t : Store L Q P}
        → Orderly s t
        → IsWf s
        → IsBacked T extra s
        → IsBacked T extra t
    Orderly-IsBacked extra {s} (tests origin) w c = rw (test_same T origin s) c
    Orderly-IsBacked extra {s} (orders origin o) w c = order-IsBacked T extra laws s w origin o c
    Orderly-IsBacked extra {s} (cancels origin device h) w c =
        cancel-IsBacked T extra laws s w origin device h c
    Orderly-IsBacked extra {s} (registers origin paraid penalty wcd onoff) w c =
        register-IsBacked T extra laws s w origin paraid penalty wcd onoff c
    Orderly-IsBacked extra {s} (rejects who device onoff client h) w c =
        on_reject-IsBacked T extra laws s w who device onoff client h c
    Orderly-IsBacked extra {s} (completes who device onoff client h) w c =
        on_done-IsBacked T extra laws s w who device onoff client h c
    Orderly-IsBacked extra {s} (reaps who) w c = on_killed_account-IsBacked T extra laws s w who c
    Orderly-IsBacked extra (elsewhere now ledger queues events _ more) w c =
        λ a. omega (arith, c a, more a)

    Run-invariant :
        {s t : Store L Q P}
        → Run s t
        → IsWf s × IsBacked T (λ _. 0) s
        → IsWf t × IsBacked T (λ _. 0) t
    Run-invariant here h = h
    Run-invariant (next r st) h =
        let (w, c) = Run-invariant r h in (Orderly-IsWf st w, Orderly-IsBacked (λ _. 0) st w c)

    -- If the currency does as documented: after any orderly history that began with empty storage,
    -- every account has reserved at least the fees of its open orders together with the penalty of
    -- the order on it as a device.
    pub Run-IsCovered :
        (s t : Store L Q P) → s.devices ≡ [] → s.orders ≡ [] → Run s t → IsCovered T t
    Run-IsCovered s t no_devices no_orders r =
        let start : IsWf s × IsBacked T (λ _. 0) s =
          (IsWf-genesis s no_devices no_orders, λ a. rw no_orders (omega arith)) in
        λ a. omega (arith, (Run-invariant r start).1 a)
