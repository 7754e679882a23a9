-- ===== src/Runtime/Wiring.antt =====
-- What the runtime configures FRAME's own pallets with (runtime/src/lib.rs, the `Config`
-- instances): the pallets that they call, the filters and the limits that they get. Types that only
-- name a type of the libraries (block numbers, hashes, weights of calls and of the database, the
-- update of the fee multiplier) are left out.
pub mod Instances
pub mod Messages
use xcm_auto_bank.Base.{ℕ, Bool, List}
use xcm_auto_bank.Runtime.{WeightToFeeCoefficient}
use xcm_auto_bank.Runtime.Constants.{DispatchClass, WeightsPerClass, RuntimeVersion}
use xcm_auto_bank.Runtime.Dispatch.{RuntimeCall}
use xcm_auto_bank.Runtime.Pallets.{PalletName}

-- `frame_system::Config`
pub record SystemConfig : Type 0 where
  pub runtime_version : RuntimeVersion
  pub on_new_account : List PalletName
  pub on_killed_account : List PalletName
  pub base_call_filter : RuntimeCall → Bool
  pub block_weights : DispatchClass → WeightsPerClass
  pub block_length : ℕ
  pub prefix : ℕ
  pub on_set_code : PalletName

-- `pallet_timestamp::Config`
pub record TimestampConfig : Type 0 where
  pub on_timestamp_set : List PalletName
  pub minimum_gap : ℕ

-- `pallet_authorship::Config`: the author is the account of the session at the index that Aura
-- finds.
pub record AuthorshipConfig : Type 0 where
  pub author_accounts : PalletName
  pub author_index : PalletName
  pub generations : ℕ
  pub uncle_filters : List PalletName
  pub event_handlers : List PalletName

-- `pallet_balances::Config`: nobody receives the dust.
pub record BalancesConfig : Type 0 where
  pub locks : ℕ
  pub reserves : ℕ
  pub minimum_balance : ℕ
  pub dust_receivers : List PalletName
  pub account_store : PalletName

-- `pallet_transaction_payment::Config`: nobody receives the fees.
pub record PaymentConfig : Type 0 where
  pub charged : PalletName
  pub fee_receivers : List PalletName
  pub byte_fee : ℕ
  pub weight_to_fee : List WeightToFeeCoefficient
  pub fee_multiplier : ℕ

-- `cumulus_pallet_parachain_system::Config`
pub record ParachainSystemConfig : Type 0 where
  pub on_validation_data : List PalletName
  pub self_para_id : ℕ
  pub dmp_handler : PalletName
  pub dmp_weight : ℕ
  pub outbound_xcmp_source : PalletName
  pub xcmp_handler : PalletName
  pub xcmp_weight : ℕ

-- `pallet_session::Config`; `S` are the schedules of sessions.
pub record SessionConfig (S : Type 0) : Type 0 where
  pub should_end : S
  pub next_rotation : S
  pub manager : PalletName
  pub handlers : List PalletName

-- `pallet_aura::Config`
pub record AuraConfig : Type 0 where
  pub disabled_by : List PalletName
  pub authorities : ℕ

-- `pallet_collator_selection::Config`
pub record CollatorConfig (O : Type 0) : Type 0 where
  pub bonds : PalletName
  pub may_update : O → Bool
  pub most_candidates : ℕ
  pub fewest_candidates : ℕ
  pub invulnerables : ℕ
  pub kick_threshold : ℕ
  pub registration : PalletName
