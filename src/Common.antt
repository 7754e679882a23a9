-- ===== src/Common.antt =====
-- The types that the two pallets share and exchange (pallets/common/src/lib.rs). Accounts,
-- balances, moments and parachain ids are numbers; the payload of an order is a parameter.
use xcm_auto_bank.Base.{ℕ, ◌≡◌, refl, Bool, true, false}

pub data DeviceState : Type 0 where
  off ready busy accepted timewait : DeviceState

-- `DeviceState::default()`
pub default_state : DeviceState
default_state = DeviceState.off

-- The derived `PartialEq`.
abbrev pub state_eq : DeviceState → DeviceState → Bool
state_eq off off = true
state_eq ready ready = true
state_eq busy busy = true
state_eq accepted accepted = true
state_eq timewait timewait = true
state_eq _ _ = false

pub record OrderBase (P : Type 0) : Type 0 where
  pub until : ℕ
  pub payload : P
  pub fee : ℕ
  pub device : ℕ

pub record Order (P : Type 0) : Type 0 where
  pub until : ℕ
  pub payload : P
  pub fee : ℕ
  pub client : ℕ
  pub paraid : ℕ

-- `OrderBase::convert`: the order of a client, for the parachain 0.
unfoldable pub convert_base : {P : Type 0} → OrderBase P → ℕ → Order P
convert_base o client = record {
  until = o.until;
  payload = o.payload;
  fee = o.fee;
  client = client;
  paraid = 0;
}

-- `Order::convert`: what is asked of a device.
unfoldable pub convert : {P : Type 0} → Order P → ℕ → OrderBase P
convert o device = record { until = o.until; payload = o.payload; fee = o.fee; device = device }

pub data XcmpMessage (P : Type 0) : Type 0 where
  new_order : ℕ → OrderBase P → XcmpMessage P
  order_accept : ℕ → ℕ → XcmpMessage P
  order_reject order_done : ℕ → ℕ → Bool → XcmpMessage P

-- A booked order gives back the request that it was made from, under the device that it was asked
-- of, whoever the client is.
pub convert-convert_base :
    {P : Type 0} (o : OrderBase P) (client : ℕ) → convert (convert_base o client) o.device ≡ o
unfolding convert convert_base
convert-convert_base o client = refl
