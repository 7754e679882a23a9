-- ===== src/Service/Steps.antt =====
-- The life of the service pallet's storage: its calls, its messages, reaped accounts, and what the
-- rest of the chain does between them (pallets/xchange-service/src/lib.rs).
use xcm_auto_bank.Base.{ℕ, ◌≤◌, ◌≡◌, Bool, true, false, Option, some, List, [], inl, inr, arith}
use xcm_auto_bank.Base.Action.{Result-cases}
use xcm_auto_bank.Base.Map.{lookup, remove, remove-IsMap, lookup-remove}
use xcm_auto_bank.Common.{OrderBase, Order}
use xcm_auto_bank.Pallet.{try}
use xcm_auto_bank.Service.{
  ServiceConfig, DeviceProfile, Event, Store, order_received, order, order_reject, cancel, accept,
  done, register, set_state, on_killed_account, handle_xcmp_messages,
}
use xcm_auto_bank.Service.Cases.{cancel_cases, accept_cases, decline_cases, done_cases}
use xcm_auto_bank.Service.Messages.{handle_xcmp_messages_inv}
use xcm_auto_bank.Service.Invariant.{
  IsWf, IsWf-genesis, IsSound, order_received-Held, order_received-maps, order_reject-Held,
  order_reject-maps, order_done-Held, order_done-maps, order_accept-Held, order_accept-maps,
  register-Held, register-maps, set_state-Held, set_state-maps, on_killed_account-Held,
  on_killed_account-maps,
}

module _ {L Q F O P : Type 0} (T : ServiceConfig L Q F O P) where
  module _ (s : Store L Q P) where
    pub order_received-IsWf :
        IsSound T → (o : Order P) (device : ℕ) → IsWf s → IsWf (order_received T o device s).1
    order_received-IsWf sound o device w = record {
      devices_map = (order_received-maps T s o device w).1;
      orders_map = (order_received-maps T s o device w).0;
      held = λ d. order_received-Held T s sound o device d (w.held d);
    }

    pub order-IsWf :
        IsSound T → (origin : O) (o : OrderBase P) → IsWf s → IsWf (order T origin o s).1
    unfolding order
    order-IsWf sound origin o w = elim (Result-cases (T.ensure_signed origin)) [
      | inr (f, i) ↦ rw (i, try) w
      | inl (who, i) ↦ rw (i, try) (order_received-IsWf sound _ o.device w)
    ]

    order_reject-IsWf :
        (found : Option (Order P)) (now device : ℕ) (dev : DeviceProfile) (onoff : Bool)
        → IsWf s
        → IsWf (order_reject T found now device dev onoff s).1
    order_reject-IsWf found now device dev onoff w = record {
      devices_map = (order_reject-maps T s found now device dev onoff w).1;
      orders_map = (order_reject-maps T s found now device dev onoff w).0;
      held = λ d. order_reject-Held T s found now device dev onoff d (w.held d);
    }

    pub cancel-IsWf : (origin : O) (device : ℕ) → IsWf s → IsWf (cancel T origin device s).1
    cancel-IsWf origin device w =
        cancel_cases T (λ r. IsWf r.1) origin device s (λ e. w)
          λ who o dev _ _ _ _ _. order_reject-IsWf (some o) s.now device dev false w

    pub accept-IsWf :
        (origin : O) (rejects onoff : Bool) → IsWf s → IsWf (accept T origin rejects onoff s).1
    accept-IsWf origin true onoff w =
        decline_cases T (λ r. IsWf r.1) origin onoff s (λ e. w)
          λ id dev _ _ _. order_reject-IsWf (lookup id s.orders) s.now id _ onoff w
    accept-IsWf origin false onoff w =
        accept_cases T (λ r. IsWf r.1) origin onoff s (λ e. w)
          λ id o dev _ _ _ _ _. record {
            devices_map = (order_accept-maps T s o id dev w).1;
            orders_map = (order_accept-maps T s o id dev w).0;
            held = λ d. order_accept-Held T s o id dev d (w.held d);
          }

    pub done-IsWf : (origin : O) (onoff : Bool) → IsWf s → IsWf (done T origin onoff s).1
    done-IsWf origin onoff w =
        done_cases T (λ r. IsWf r.1) origin onoff s (λ e. w)
          λ id o dev _ k _ _.
            let t = record s { orders = remove id s.orders } in
            let maps =
              order_done-maps T t o s.now id dev onoff
                (remove-IsMap id s.orders w.orders_map, w.devices_map) in
            record {
              devices_map = maps.1;
              orders_map = maps.0;
              held = λ d.
                  order_done-Held T t o s.now id dev onoff d
                    (ground (arith, lookup-remove id id s.orders))
                    (ground (arith, lookup-remove d id s.orders, w.held d));
            }

    pub register-IsWf :
        (origin : O) (penalty wcd : ℕ) (onoff : Bool)
        → IsWf s
        → IsWf (register T origin penalty wcd onoff s).1
    register-IsWf origin penalty wcd onoff w = record {
      devices_map = (register-maps T s origin penalty wcd onoff w).1;
      orders_map = (register-maps T s origin penalty wcd onoff w).0;
      held = λ d. register-Held T s origin penalty wcd onoff d (w.held d);
    }

    pub set_state-IsWf : (origin : O) (onoff : Bool) → IsWf s → IsWf (set_state T origin onoff s).1
    set_state-IsWf origin onoff w = record {
      devices_map = (set_state-maps T s origin onoff w).1;
      orders_map = (set_state-maps T s origin onoff w).0;
      held = λ d. set_state-Held T s origin onoff d (w.held d);
    }

    pub on_killed_account-IsWf : (who : ℕ) → IsWf s → IsWf (on_killed_account T who s)
    on_killed_account-IsWf who w = record {
      devices_map = (on_killed_account-maps T s who w).1;
      orders_map = (on_killed_account-maps T s who w).0;
      held = λ d. on_killed_account-Held T s who d (w.held d);
    }

  pub handle_xcmp_messages-IsWf :
      IsSound T
      → (batch : List (ℕ × ℕ × List ℕ)) (max_weight : ℕ) (s : Store L Q P) → IsWf s
      → IsWf (handle_xcmp_messages T batch max_weight s).1
  handle_xcmp_messages-IsWf sound batch max_weight s w =
      handle_xcmp_messages_inv T IsWf (λ o device t. order_received-IsWf t sound o device) batch
        max_weight s w

  -- A call counts with whatever it wrote, also where it returned an error.
  pub data Step (s : Store L Q P) : Store L Q P → Type 0 where
    orders : (origin : O) (o : OrderBase P) → Step s (order T origin o s).1
    cancels : (origin : O) (device : ℕ) → Step s (cancel T origin device s).1
    accepts : (origin : O) (rejects onoff : Bool) → Step s (accept T origin rejects onoff s).1
    completes : (origin : O) (onoff : Bool) → Step s (done T origin onoff s).1
    registers :
        (origin : O) (penalty wcd : ℕ) (onoff : Bool)
        → Step s (register T origin penalty wcd onoff s).1
    switches : (origin : O) (onoff : Bool) → Step s (set_state T origin onoff s).1
    receives :
        (batch : List (ℕ × ℕ × List ℕ)) (max_weight : ℕ)
        → Step s (handle_xcmp_messages T batch max_weight s).1
    reaps : (who : ℕ) → Step s (on_killed_account T who s)
    -- time passes, other pallets use the currency and the queues, and a block begins with no event
    elsewhere :
        (now : ℕ) (ledger : L) (queues : Q) (events : List Event)
        → s.now ≤ now
        → Step s (record s { now = now; ledger = ledger; queues = queues; events = events })

  pub data Reach (s : Store L Q P) : Store L Q P → Type 0 where
    here : Reach s s
    next : {t u : Store L Q P} → Reach s t → Step t u → Reach s u

  module _ (sound : IsSound T) where
    pub Step-IsWf : {s t : Store L Q P} → Step s t → IsWf s → IsWf t
    Step-IsWf {s} (orders origin o) w = order-IsWf s sound origin o w
    Step-IsWf {s} (cancels origin device) w = cancel-IsWf s origin device w
    Step-IsWf {s} (accepts origin rejects onoff) w = accept-IsWf s origin rejects onoff w
    Step-IsWf {s} (completes origin onoff) w = done-IsWf s origin onoff w
    Step-IsWf {s} (registers origin penalty wcd onoff) w =
        register-IsWf s origin penalty wcd onoff w
    Step-IsWf {s} (switches origin onoff) w = set_state-IsWf s origin onoff w
    Step-IsWf {s} (receives batch max_weight) w =
        handle_xcmp_messages-IsWf sound batch max_weight s w
    Step-IsWf {s} (reaps who) w = on_killed_account-IsWf s who w
    Step-IsWf (elsewhere now ledger queues events later) w = record {
      devices_map = w.devices_map;
      orders_map = w.orders_map;
      held = w.held;
    }

    pub Reach-IsWf : {s t : Store L Q P} → Reach s t → IsWf s → IsWf t
    Reach-IsWf here w = w
    Reach-IsWf (next r st) w = Step-IsWf st (Reach-IsWf r w)

    -- If `OnReceived` answers only with `Busy` or `Accepted`: from empty storage on, whatever is
    -- called, received or reaped, in any order and whether it succeeds or fails, every device that
    -- has an order is registered, and is busy or has accepted it.
    pub Reach-genesis-IsServing :
        (s t : Store L Q P) → s.devices ≡ [] → s.orders ≡ [] → Reach s t → IsWf t
    Reach-genesis-IsServing s t no_devices no_orders r =
        Reach-IsWf r (IsWf-genesis s no_devices no_orders)
