-- ===== src/Service/Refinement.antt =====
-- What the calls of the service pallet are to the machine of `Lifecycle`
-- (pallets/xchange-service/src/lib.rs).
use xcm_auto_bank.Base.{ℕ, ◌≡◌, ◌⊎◌, inl, inr, Bool, Option, some, arith}
use xcm_auto_bank.Base.Map.{lookup, insert, remove, lookup-insert, lookup-remove}
use xcm_auto_bank.Common.{busy, Order}
use xcm_auto_bank.Service.{
  ServiceConfig, DeviceProfile, Store, order_reject, order_done, order_accept, register, set_state,
  on_killed_account,
}
use xcm_auto_bank.Service.Invariant.{Held}
use xcm_auto_bank.Service.Lifecycle.{Phase, phase, IsIdle, Moves}

-- A device that stays as it is makes a move.
pub rests :
    {P : Type 0} (o : Option (Order P)) (dev : Option DeviceProfile)
    → Moves (phase o dev) (phase o dev)
rests o dev = ground arith

module _ {L Q F O P : Type 0} (T : ServiceConfig L Q F O P) (d : ℕ) where
  abbrev pub view : Store L Q P → Phase P
  view s = phase (lookup d s.orders) (lookup d s.devices)

  abbrev HasDevice : Store L Q P → Type 0
  HasDevice s = Held (lookup d s.orders) (lookup d s.devices)

  module _ (s : Store L Q P) where
    pub register-Moves :
        (origin : O) (penalty wcd : ℕ) (onoff : Bool)
        → Moves (view s) (view (register T origin penalty wcd onoff s).1)
    unfolding register
    register-Moves origin penalty wcd onoff = grind (arith, lookup-insert)

    pub set_state-Moves :
        (origin : O) (onoff : Bool)
        → HasDevice s
        → Moves (view s) (view (set_state T origin onoff s).1)
    unfolding set_state
    set_state-Moves origin onoff h = grind (arith, lookup-insert)

    pub on_killed_account-Moves :
        (who : ℕ) → HasDevice s → Moves (view s) (view (on_killed_account T who s))
    unfolding on_killed_account
    on_killed_account-Moves who h = grind (arith, lookup-remove)

    pub order_accept-Moves :
        (o : Order P) (id : ℕ) (dev : DeviceProfile)
        → lookup id s.orders ≡ some o
        → lookup id s.devices ≡ some dev
        → dev.state ≡ busy
        → Moves (view s) (view (order_accept T o id dev s).1)
    unfolding order_accept
    order_accept-Moves o id dev k e b = grind (arith, lookup-insert)

    -- Ending an order writes both maps or neither.
    order_reject_maps :
        (found : Option (Order P)) (now device : ℕ) (dev : DeviceProfile) (onoff : Bool)
        → let t = (order_reject T found now device dev onoff s).1 in
          ((t.orders ≡ s.orders) × (t.devices ≡ s.devices))
          ⊎ ((t.orders ≡ remove device s.orders) × (t.devices ≡ insert device dev s.devices))
    unfolding order_reject
    order_reject_maps found now device dev onoff = ground arith

    -- The device of an order that ends is free, or in the state that it had.
    ended-Moves :
        (device : ℕ) (known dev : DeviceProfile)
        → HasDevice s
        → lookup device s.devices ≡ some known
        → (dev.state ≡ known.state) ⊎ IsIdle dev.state
        → Moves
            (view s)
            (phase (lookup d (remove device s.orders)) (lookup d (insert device dev s.devices)))
    ended-Moves device known dev h e i =
        ground (arith, lookup-insert d device dev s.devices, lookup-remove d device s.orders)

    pub order_reject-Moves :
        (found : Option (Order P)) (now device : ℕ) (known dev : DeviceProfile) (onoff : Bool)
        → HasDevice s
        → lookup device s.devices ≡ some known
        → (dev.state ≡ known.state) ⊎ IsIdle dev.state
        → Moves (view s) (view (order_reject T found now device dev onoff s).1)
    order_reject-Moves found now device known dev onoff h e i =
        elim (order_reject_maps found now device dev onoff) [
          | inl (same_orders, same_devices) ↦
              rw (same_orders, same_devices) (rests (lookup d s.orders) (lookup d s.devices))
          | inr (ended, written) ↦ rw (ended, written) (ended-Moves device known dev h e i)
        ]

    pub order_done-Moves :
        (o o' : Order P) (now device : ℕ) (dev : DeviceProfile) (onoff : Bool)
        → lookup device s.orders ≡ some o'
        → lookup device s.devices ≡ some dev
        → Moves (view s) (
            view
              (order_done T o now device dev onoff
                (record s { orders = remove device s.orders })).1)
    unfolding order_done
    order_done-Moves o o' now device dev onoff k e = grind (arith, lookup-insert, lookup-remove)
