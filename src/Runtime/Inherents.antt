-- ===== src/Runtime/Inherents.antt =====
-- How the relay chain's validators check the inherents of a block (runtime/src/lib.rs,
-- `CheckInherents`). The proof, the inherent data and the check are the libraries'.
use mathlib.Core.Option
use xcm_auto_bank.Base.{ℕ, Option, none, some}

-- `B` are the blocks, `W` the state proofs, `I` the inherent data and `C` the results of a check.
pub record InherentLibraries (B W I C : Type 0) : Type 0 where
  pub read_slot : W → Option ℕ
  -- `from_relay_chain_slot_and_duration(..).create_inherent_data()`, with the duration in seconds
  pub create_inherent_data : ℕ → ℕ → Option I
  pub check_extrinsics : I → B → C

-- `check_inherents`; `none` is a panic of one of its `expect`s.
pub check_inherents : {B W I C : Type 0} → InherentLibraries B W I C → B → W → Option C
check_inherents K block relay_state_proof = elim (K.read_slot relay_state_proof) [
  | none ↦ none
  | some relay_chain_slot ↦
      Option.map (λ inherent_data. K.check_extrinsics inherent_data block)
        (K.create_inherent_data relay_chain_slot 6)
]
