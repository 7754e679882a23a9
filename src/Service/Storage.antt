-- ===== src/Service/Storage.antt =====
-- The configuration, the profiles, the events and the errors of the service pallet
-- (pallets/xchange-service/src/lib.rs, `mod pallet`).
use xcm_auto_bank.Base.{ℕ, Option, List}
use xcm_auto_bank.Base.Action.{Action}
use xcm_auto_bank.Common.{DeviceState, Order}
use xcm_auto_bank.Frame.{Config}
use xcm_auto_bank.Pallet.{State, Failure}

-- `trait Config`: beside what both pallets take, the parachain's own id, and `OnReceived`, which
-- says what state an incoming order puts its device in, or declines it.
pub record ServiceConfig (L Q F O P : Type 0) : Type 0 where
  pub base : Config L Q F O P
  pub open base use *
  pub self_para_id : ℕ
  pub on_received : ℕ → Order P → Option DeviceState

pub record DeviceProfile : Type 0 where
  pub penalty : ℕ
  pub wcd : ℕ
  pub state : DeviceState

pub data Event : Type 0 where
  new_device new_order accept reject done : ℕ → Event
  bad_version : ℕ → Event
  message_received : List ℕ → Event

pub data Error : Type 0 where
  none_value prohibited device_exists device_low_bail no_order bad_order_details : Error
  no_device illegal_state overdue cannot_reach_destination : Error

abbrev pub Store : Type 0 → Type 0 → Type 0 → Type 0
Store L Q P = State DeviceProfile Event L Q P

-- A call of the pallet.
abbrev pub Call : Type 0 → Type 0 → Type 0 → Type 0 → Type 0 → Type 0
Call L Q F P A = Action (Store L Q P) (Failure Error F) A
