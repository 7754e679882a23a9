-- ===== src/Xchange/Invariant.antt =====
-- The invariant of the exchange pallet's storage, which every call, message and reaped account
-- keeps, whether it succeeds or fails (pallets/xchange/src/lib.rs).
use xcm_auto_bank.Base.{
  ℕ, ⊤, ◌≡◌, ◌⊎◌, Bool, Option, none, some, List, [], ◌∷◌, inl, inr, arith, Option-cases,
}
use xcm_auto_bank.Base.Map.{lookup, IsMap, insert-IsMap, remove-IsMap, lookup-insert, lookup-remove}
use xcm_auto_bank.Common.{busy, timewait, Order, OrderBase, XcmpMessage}
use xcm_auto_bank.Frame.{Config}
use xcm_auto_bank.Xchange.Cases.{cancel_cases, on_reject_cases}
use xcm_auto_bank.Xchange.{
  DeviceProfile, Store, order, order_reject, cancel, register, on_accept, on_reject, on_done,
  on_killed_account, on_message, handle_xcmp_messages,
}

-- A device that has an order is registered, and is busy or abandoned.
abbrev pub Held : {P : Type 0} → Option (Order P) → Option DeviceProfile → Type 0
Held none _ = ⊤
Held (some _) none = ⊥
Held (some _) (some dev) = (dev.state ≡ busy) ⊎ (dev.state ≡ timewait)

pub record IsWf {L Q P : Type 0} (s : Store L Q P) : Type 0 where
  pub devices_map : IsMap s.devices
  pub orders_map : IsMap s.orders
  pub held : (d : ℕ) → Held (lookup d s.orders) (lookup d s.devices)

pub IsWf-genesis : {L Q P : Type 0} (s : Store L Q P) → s.devices ≡ [] → s.orders ≡ [] → IsWf s
IsWf-genesis s no_devices no_orders = record {
  devices_map = rw no_devices tt;
  orders_map = rw no_orders tt;
  held = λ d. rw no_orders tt;
}

module _ {L Q F O P : Type 0} (T : Config L Q F O P) where
  module _ (s : Store L Q P) where
    order-Held :
        (origin : O) (o : OrderBase P) (d : ℕ)
        → Held (lookup d s.orders) (lookup d s.devices)
        → let s' = (order T origin o s).1 in Held (lookup d s'.orders) (lookup d s'.devices)
    unfolding order
    order-Held origin o d h = grind (arith, lookup-insert)

    order-maps :
        (origin : O) (o : OrderBase P)
        → IsWf s
        → let s' = (order T origin o s).1 in IsMap s'.orders × IsMap s'.devices
    unfolding order
    order-maps origin o w = grind (arith, insert-IsMap, w.orders_map, w.devices_map)

    register-Held :
        (origin : O) (paraid penalty wcd : ℕ) (onoff : Bool) (d : ℕ)
        → Held (lookup d s.orders) (lookup d s.devices)
        → let s' = (register T origin paraid penalty wcd onoff s).1 in
          Held (lookup d s'.orders) (lookup d s'.devices)
    unfolding register
    register-Held origin paraid penalty wcd onoff d h = grind (arith, lookup-insert)

    register-maps :
        (origin : O) (paraid penalty wcd : ℕ) (onoff : Bool)
        → IsWf s
        → let s' = (register T origin paraid penalty wcd onoff s).1 in
          IsMap s'.orders × IsMap s'.devices
    unfolding register
    register-maps origin paraid penalty wcd onoff w =
        grind (arith, insert-IsMap, w.orders_map, w.devices_map)

    order_reject-Held :
        (who : ℕ) (o : Order P) (now device : ℕ) (dev : DeviceProfile) (d : ℕ)
        → Held (lookup d s.orders) (lookup d s.devices)
        → let s' = (order_reject T who o now device dev s).1 in
          Held (lookup d s'.orders) (lookup d s'.devices)
    unfolding order_reject
    order_reject-Held who o now device dev d h = grind (arith, lookup-insert, lookup-remove)

    order_reject-maps :
        (who : ℕ) (o : Order P) (now device : ℕ) (dev : DeviceProfile)
        → IsWf s
        → let s' = (order_reject T who o now device dev s).1 in IsMap s'.orders × IsMap s'.devices
    unfolding order_reject
    order_reject-maps who o now device dev w =
        grind (arith, insert-IsMap, remove-IsMap, w.orders_map, w.devices_map)

    on_done-Held :
        (who device : ℕ) (onoff : Bool) (d : ℕ)
        → Held (lookup d s.orders) (lookup d s.devices)
        → let s' = (on_done T who device onoff s).1 in
          Held (lookup d s'.orders) (lookup d s'.devices)
    unfolding on_done
    on_done-Held who device onoff d h = grind (arith, lookup-insert, lookup-remove)

    on_done-maps :
        (who device : ℕ) (onoff : Bool)
        → IsWf s
        → let s' = (on_done T who device onoff s).1 in IsMap s'.orders × IsMap s'.devices
    unfolding on_done
    on_done-maps who device onoff w =
        grind (arith, insert-IsMap, remove-IsMap, w.orders_map, w.devices_map)

    on_killed_account-Held :
        (who d : ℕ)
        → Held (lookup d s.orders) (lookup d s.devices)
        → let s' = on_killed_account T who s in Held (lookup d s'.orders) (lookup d s'.devices)
    unfolding on_killed_account
    on_killed_account-Held who d h = grind (arith, lookup-insert, lookup-remove)

    on_killed_account-maps :
        (who : ℕ)
        → IsWf s
        → let s' = on_killed_account T who s in IsMap s'.orders × IsMap s'.devices
    unfolding on_killed_account
    on_killed_account-maps who w =
        grind (arith, insert-IsMap, remove-IsMap, w.orders_map, w.devices_map)

    pub order-IsWf : (origin : O) (o : OrderBase P) → IsWf s → IsWf (order T origin o s).1
    order-IsWf origin o w = record {
      devices_map = (order-maps origin o w).1;
      orders_map = (order-maps origin o w).0;
      held = λ d. order-Held origin o d (w.held d);
    }

    pub register-IsWf :
        (origin : O) (paraid penalty wcd : ℕ) (onoff : Bool)
        → IsWf s
        → IsWf (register T origin paraid penalty wcd onoff s).1
    register-IsWf origin paraid penalty wcd onoff w = record {
      devices_map = (register-maps origin paraid penalty wcd onoff w).1;
      orders_map = (register-maps origin paraid penalty wcd onoff w).0;
      held = λ d. register-Held origin paraid penalty wcd onoff d (w.held d);
    }

    order_reject-IsWf :
        (who : ℕ) (o : Order P) (now device : ℕ) (dev : DeviceProfile)
        → IsWf s
        → IsWf (order_reject T who o now device dev s).1
    order_reject-IsWf who o now device dev w = record {
      devices_map = (order_reject-maps who o now device dev w).1;
      orders_map = (order_reject-maps who o now device dev w).0;
      held = λ d. order_reject-Held who o now device dev d (w.held d);
    }

    pub cancel-IsWf : (origin : O) (device : ℕ) → IsWf s → IsWf (cancel T origin device s).1
    cancel-IsWf origin device w =
        cancel_cases T (λ r. IsWf r.1) origin device s (λ e. w)
          λ who o dev _ _ _ _ _. order_reject-IsWf who o s.now device dev w

    pub on_reject-IsWf :
        (who device : ℕ) (onoff : Bool) → IsWf s → IsWf (on_reject T who device onoff s).1
    on_reject-IsWf who device onoff w =
        on_reject_cases T (λ r. IsWf r.1) who device onoff s (λ e. w)
          λ o dev _ _. order_reject-IsWf who o s.now device _ w

    pub on_done-IsWf :
        (who device : ℕ) (onoff : Bool) → IsWf s → IsWf (on_done T who device onoff s).1
    on_done-IsWf who device onoff w = record {
      devices_map = (on_done-maps who device onoff w).1;
      orders_map = (on_done-maps who device onoff w).0;
      held = λ d. on_done-Held who device onoff d (w.held d);
    }

    pub on_killed_account-IsWf : (who : ℕ) → IsWf s → IsWf (on_killed_account T who s)
    on_killed_account-IsWf who w = record {
      devices_map = (on_killed_account-maps who w).1;
      orders_map = (on_killed_account-maps who w).0;
      held = λ d. on_killed_account-Held who d (w.held d);
    }

    pub on_message-IsWf : (m : XcmpMessage P) → IsWf s → IsWf (on_message T m s)
    unfolding on_message on_accept
    on_message-IsWf (XcmpMessage.order_accept client device) w = record {
      devices_map = w.devices_map;
      orders_map = w.orders_map;
      held = w.held;
    }
    on_message-IsWf (XcmpMessage.order_reject client device onoff) w =
        on_reject-IsWf client device onoff w
    on_message-IsWf (XcmpMessage.order_done client device onoff) w =
        on_done-IsWf client device onoff w
    on_message-IsWf (XcmpMessage.new_order _ _) w = w

  pub handle_xcmp_messages-IsWf :
      (batch : List (ℕ × ℕ × List ℕ)) (max_weight : ℕ) (s : Store L Q P)
      → IsWf s
      → IsWf (handle_xcmp_messages T batch max_weight s).1
  unfolding handle_xcmp_messages
  handle_xcmp_messages-IsWf [] max_weight s w = w
  handle_xcmp_messages-IsWf ((sender, sent_at, bytes) ∷ rest) max_weight s w =
      elim (Option-cases (T.decode bytes)) [
        | inl e ↦ rw (e, handle_xcmp_messages) w
        | inr (m, e) ↦
            rw (e, handle_xcmp_messages)
              (handle_xcmp_messages-IsWf rest max_weight (on_message T m s) (on_message-IsWf s m w))
      ]
