-- ===== src/Service/Invariant.antt =====
-- The invariant of the service pallet's storage, which every call, message and reaped account
-- keeps, whether it succeeds or fails (pallets/xchange-service/src/lib.rs).
use xcm_auto_bank.Base.{ℕ, ⊤, ◌≡◌, ◌⊎◌, Bool, Option, none, some, [], arith, if◌then◌else◌}
use xcm_auto_bank.Base.Map.{lookup, IsMap, insert-IsMap, remove-IsMap, lookup-insert, lookup-remove}
use xcm_auto_bank.Common.{DeviceState, state_eq, busy, accepted, Order}
use xcm_auto_bank.Service.Receiving.{Receivable, booked, order_received_cases}
use xcm_auto_bank.Service.{
  ServiceConfig, DeviceProfile, Store, order_accept, order_received, order_reject, order_done,
  register, set_state, on_killed_account,
}

abbrev pub IsServing : DeviceState → Type 0
IsServing state = (state ≡ busy) ⊎ (state ≡ accepted)

-- A device that has an order is registered, and is busy or has accepted it.
abbrev pub Held : {P : Type 0} → Option (Order P) → Option DeviceProfile → Type 0
Held none _ = ⊤
Held (some _) none = ⊥
Held (some _) (some dev) = IsServing dev.state

pub record IsWf {L Q P : Type 0} (s : Store L Q P) : Type 0 where
  pub devices_map : IsMap s.devices
  pub orders_map : IsMap s.orders
  pub held : (d : ℕ) → Held (lookup d s.orders) (lookup d s.devices)

pub IsWf-genesis : {L Q P : Type 0} (s : Store L Q P) → s.devices ≡ [] → s.orders ≡ [] → IsWf s
IsWf-genesis s no_devices no_orders = record {
  devices_map = rw no_devices tt;
  orders_map = rw no_orders tt;
  held = λ d. rw no_orders tt;
}

module _ {L Q F O P : Type 0} (T : ServiceConfig L Q F O P) where
  -- What the `debug_assert!` of `order_received` asks of `OnReceived`.
  abbrev pub IsSound : Type 0
  IsSound =
      (d : ℕ) (o : Order P) (state : DeviceState) → T.on_received d o ≡ some state → IsServing state

  module _ (s : Store L Q P) where
    pub order_received-Held :
        IsSound
        → (o : Order P) (device d : ℕ) → Held (lookup d s.orders) (lookup d s.devices)
        → let s' = (order_received T o device s).1 in
          Held (lookup d s'.orders) (lookup d s'.devices)
    order_received-Held sound o device d h =
        order_received_cases T o device s (λ r. Held (lookup d r.1.orders) (lookup d r.1.devices))
          (λ e. h) (λ known state l₁ f c e k p q. h)
          (λ known state c e. books known state s.ledger c)
          (λ known state l₁ l₂ c e p q. books known state l₂ c)
      where
        books :
            (known : DeviceProfile) (state : DeviceState) (l : L)
            → Receivable T o device s known state
            → let t = booked T o device s known state l in
              Held (lookup d t.orders) (lookup d t.devices)
        books known state l c = ground (
          arith,
          sound device o state c.answered,
          lookup-insert d device o s.orders,
          lookup-insert d device
              (record known { state = if state_eq state accepted then accepted else state })
              s.devices,
        )

    pub order_received-maps :
        (o : Order P) (device : ℕ)
        → IsWf s
        → let s' = (order_received T o device s).1 in IsMap s'.orders × IsMap s'.devices
    order_received-maps o device w =
        order_received_cases T o device s (λ r. IsMap r.1.orders × IsMap r.1.devices)
          (λ e. (w.orders_map, w.devices_map))
          (λ known state l₁ f c e k p q. (w.orders_map, w.devices_map))
          (λ known state c e. (
            insert-IsMap device o s.orders w.orders_map,
            insert-IsMap device _ s.devices w.devices_map,
          ))
          (λ known state l₁ l₂ c e p q. (
            insert-IsMap device o s.orders w.orders_map,
            insert-IsMap device _ s.devices w.devices_map,
          ))

    pub order_reject-Held :
        (found : Option (Order P)) (now device : ℕ) (dev : DeviceProfile) (onoff : Bool) (d : ℕ)
        → Held (lookup d s.orders) (lookup d s.devices)
        → let s' = (order_reject T found now device dev onoff s).1 in
          Held (lookup d s'.orders) (lookup d s'.devices)
    unfolding order_reject
    order_reject-Held found now device dev onoff d h = grind (arith, lookup-insert, lookup-remove)

    pub order_reject-maps :
        (found : Option (Order P)) (now device : ℕ) (dev : DeviceProfile) (onoff : Bool)
        → IsWf s
        → let s' = (order_reject T found now device dev onoff s).1 in
          IsMap s'.orders × IsMap s'.devices
    unfolding order_reject
    order_reject-maps found now device dev onoff w =
        grind (arith, insert-IsMap, remove-IsMap, w.orders_map, w.devices_map)

    pub order_done-Held :
        (o : Order P) (now device : ℕ) (dev : DeviceProfile) (onoff : Bool) (d : ℕ)
        → lookup device s.orders ≡ none
        → Held (lookup d s.orders) (lookup d s.devices)
        → let s' = (order_done T o now device dev onoff s).1 in
          Held (lookup d s'.orders) (lookup d s'.devices)
    unfolding order_done
    order_done-Held o now device dev onoff d k h = grind (arith, lookup-insert)

    pub order_done-maps :
        (o : Order P) (now device : ℕ) (dev : DeviceProfile) (onoff : Bool)
        → IsMap s.orders × IsMap s.devices
        → let s' = (order_done T o now device dev onoff s).1 in IsMap s'.orders × IsMap s'.devices
    unfolding order_done
    order_done-maps o now device dev onoff m = grind (arith, insert-IsMap, m.0, m.1)

    pub order_accept-Held :
        (o : Order P) (device : ℕ) (dev : DeviceProfile) (d : ℕ)
        → Held (lookup d s.orders) (lookup d s.devices)
        → let s' = (order_accept T o device dev s).1 in
          Held (lookup d s'.orders) (lookup d s'.devices)
    unfolding order_accept
    order_accept-Held o device dev d h = grind (arith, lookup-insert)

    pub order_accept-maps :
        (o : Order P) (device : ℕ) (dev : DeviceProfile)
        → IsWf s
        → let s' = (order_accept T o device dev s).1 in IsMap s'.orders × IsMap s'.devices
    unfolding order_accept
    order_accept-maps o device dev w = grind (arith, insert-IsMap, w.orders_map, w.devices_map)

    pub register-Held :
        (origin : O) (penalty wcd : ℕ) (onoff : Bool) (d : ℕ)
        → Held (lookup d s.orders) (lookup d s.devices)
        → let s' = (register T origin penalty wcd onoff s).1 in
          Held (lookup d s'.orders) (lookup d s'.devices)
    unfolding register
    register-Held origin penalty wcd onoff d h = grind (arith, lookup-insert)

    pub register-maps :
        (origin : O) (penalty wcd : ℕ) (onoff : Bool)
        → IsWf s
        → let s' = (register T origin penalty wcd onoff s).1 in IsMap s'.orders × IsMap s'.devices
    unfolding register
    register-maps origin penalty wcd onoff w =
        grind (arith, insert-IsMap, w.orders_map, w.devices_map)

    pub set_state-Held :
        (origin : O) (onoff : Bool) (d : ℕ)
        → Held (lookup d s.orders) (lookup d s.devices)
        → let s' = (set_state T origin onoff s).1 in Held (lookup d s'.orders) (lookup d s'.devices)
    unfolding set_state
    set_state-Held origin onoff d h = grind (arith, lookup-insert)

    pub set_state-maps :
        (origin : O) (onoff : Bool)
        → IsWf s
        → let s' = (set_state T origin onoff s).1 in IsMap s'.orders × IsMap s'.devices
    unfolding set_state
    set_state-maps origin onoff w = grind (arith, insert-IsMap, w.orders_map, w.devices_map)

    pub on_killed_account-Held :
        (who d : ℕ)
        → Held (lookup d s.orders) (lookup d s.devices)
        → let s' = on_killed_account T who s in Held (lookup d s'.orders) (lookup d s'.devices)
    unfolding on_killed_account
    on_killed_account-Held who d h = grind (arith, lookup-remove)

    pub on_killed_account-maps :
        (who : ℕ)
        → IsWf s
        → let s' = on_killed_account T who s in IsMap s'.orders × IsMap s'.devices
    unfolding on_killed_account
    on_killed_account-maps who w = grind (arith, remove-IsMap, w.orders_map, w.devices_map)
