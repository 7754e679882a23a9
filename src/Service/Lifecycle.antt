-- ===== src/Service/Lifecycle.antt =====
-- What a device of the service pallet goes through, as an abstract machine of its own
-- (pallets/xchange-service/src/lib.rs): it is away, or free in some state, or has an order to
-- decide on, or one that it has accepted.
use xcm_auto_bank.Base.{⊤, ◌≡◌, ◌⊎◌, Option, none, some}
use xcm_auto_bank.Common.{DeviceState, off, ready, busy, accepted, Order}
use xcm_auto_bank.Service.{DeviceProfile}

pub data Phase (P : Type 0) : Type 0 where
  away : Phase P
  vacant : DeviceState → Phase P
  offered agreed : Order P → Phase P

-- The phase of a device, by its entries in `Orders` and `Device`.
abbrev pub phase : {P : Type 0} → Option (Order P) → Option DeviceProfile → Phase P
phase _ none = away
phase none (some dev) = vacant dev.state
phase (some o) (some dev) = elim dev.state [ busy ↦ offered o | _ ↦ agreed o ]

-- The states that a device chooses for itself.
abbrev pub IsIdle : DeviceState → Type 0
IsIdle state = (state ≡ ready) ⊎ (state ≡ off)

-- One move of the machine, or none. An order is taken only by a device that is free and ready, is
-- never exchanged for another or given back for decision, and a device is not away before it ends.
-- Who cancels leaves the device in the state that it had.
abbrev pub Moves : {P : Type 0} → Phase P → Phase P → Type 0
Moves away away = ⊤
Moves away (vacant state) = IsIdle state
Moves away _ = ⊥
Moves (vacant state) away = state ≡ off
Moves (vacant state) (vacant state') = (state ≡ state') ⊎ IsIdle state'
Moves (vacant state) (offered _) = state ≡ ready
Moves (vacant state) (agreed _) = state ≡ ready
Moves (offered _) away = ⊥
Moves (offered _) (vacant state) = (state ≡ busy) ⊎ IsIdle state
Moves (offered o) (offered o') = o ≡ o'
Moves (offered o) (agreed o') = o ≡ o'
Moves (agreed _) away = ⊥
Moves (agreed _) (vacant state) = (state ≡ accepted) ⊎ IsIdle state
Moves (agreed _) (offered _) = ⊥
Moves (agreed o) (agreed o') = o ≡ o'
