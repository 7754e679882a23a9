-- ===== src/Xchange/Storage.antt =====
-- The profiles, the events and the errors of the exchange pallet (pallets/xchange/src/lib.rs,
-- `mod pallet`).
use xcm_auto_bank.Base.{ℕ}
use xcm_auto_bank.Base.Action.{Action}
use xcm_auto_bank.Common.{DeviceState}
use xcm_auto_bank.Pallet.{State, Failure}

pub record DeviceProfile : Type 0 where
  pub penalty : ℕ
  pub wcd : ℕ
  pub para_id : ℕ
  pub state : DeviceState

pub data Event : Type 0 where
  new_device : ℕ → Event
  new_order accept reject done : ℕ → ℕ → Event
  bad_version : ℕ → Event

pub data Error : Type 0 where
  none_value order_exists illegal_state overdue device_low_bail device_exists : Error
  bad_order_details no_device no_order prohibited cannot_reach_destination : Error

abbrev pub Store : Type 0 → Type 0 → Type 0 → Type 0
Store L Q P = State DeviceProfile Event L Q P

-- A call of the pallet.
abbrev pub Call : Type 0 → Type 0 → Type 0 → Type 0 → Type 0 → Type 0
Call L Q F P A = Action (Store L Q P) (Failure Error F) A
