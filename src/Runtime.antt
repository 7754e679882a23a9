-- ===== src/Runtime.antt =====
-- The fee polynomial of the runtime and its `OnReceived` (runtime/src/lib.rs); the modules below have
-- its constants, its pallets and how they are composed.
pub mod Accepting
pub mod Constants
pub mod Pallets
pub mod Xcm
pub mod Inherents
pub mod Routing
pub mod State
pub mod Dispatch
pub mod Handlers
pub mod Histories
pub mod Solvency
pub mod Waiting
pub mod Overdue
pub mod Wiring
pub mod Weights
pub mod Own
pub mod Refusal
pub mod Origins
pub mod Unsigned
pub mod Apis
pub mod Benchmarks
mod Tests
use xcm_auto_bank.Base.{
  ℕ, ◌+◌, ◌*◌, ◌/◌, ◌%◌, ◌≤◌, ◌<◌, ◌≡◌, Bool, false, Option, some, List, [], ◌∷◌, arith,
}
use xcm_auto_bank.Common.{DeviceState, accepted, Order}

abbrev pub milliunit : ℕ
milliunit = 1000000000

abbrev pub existential_deposit : ℕ
existential_deposit = milliunit

-- `AcceptOnReceive::on_received`
abbrev pub on_received : {P : Type 0} → ℕ → Order P → Option DeviceState
on_received device o = some accepted

-- `WeightToFeeCoefficient`; a `Perbill` is its parts of a billion.
pub record WeightToFeeCoefficient : Type 0 where
  pub degree : ℕ
  pub negative : Bool
  pub coeff_frac : ℕ
  pub coeff_integer : ℕ

-- `ExtrinsicBaseWeight::get()` and `Perbill::from_rational` belong to FRAME.
module _ (extrinsic_base_weight : ℕ) (from_rational : ℕ → ℕ → ℕ) where
  -- `WeightToFee::polynomial`
  pub polynomial : List WeightToFeeCoefficient
  polynomial =
      let p = milliunit / 10 in
      let q = 100 * extrinsic_base_weight in
      record {
        degree = 1;
        negative = false;
        coeff_frac = from_rational (p % q) q;
        coeff_integer = p / q;
      }
      ∷ []
