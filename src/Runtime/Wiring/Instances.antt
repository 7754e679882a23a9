-- ===== src/Runtime/Wiring/Instances.antt =====
-- The configurations of FRAME's own pallets (runtime/src/lib.rs, the `Config` instances for
-- `Runtime`).
use xcm_auto_bank.Base.{ℕ, Bool, true, [], ◌∷◌}
use xcm_auto_bank.Runtime.{existential_deposit, polynomial}
use xcm_auto_bank.Runtime.Constants.{
  DispatchClass, WeightsPerClass, version, runtime_block_weights, max_block_length, ss58_prefix,
  minimum_period, uncle_generations, max_locks, max_reserves, transaction_byte_fee,
  operational_fee_multiplier, reserved_xcmp_weight, reserved_dmp_weight, period, offset,
  max_authorities, max_candidates, min_candidates, max_invulnerables,
}
use xcm_auto_bank.Runtime.Dispatch.{Libraries}
use xcm_auto_bank.Runtime.Handlers.{killed_account_hooks, xcmp_message_handler}
use xcm_auto_bank.Runtime.Pallets.{
  system, parachain_system, balances, collator_selection, session, aura, xcmp_queue, dmp_queue,
}
use xcm_auto_bank.Runtime.Wiring.{
  SystemConfig, TimestampConfig, AuthorshipConfig, BalancesConfig, PaymentConfig,
  ParachainSystemConfig, SessionConfig, AuraConfig, CollatorConfig,
}

-- `OnTimestampSet = ()`
abbrev pub timestamp_config : TimestampConfig
timestamp_config = record { on_timestamp_set = []; minimum_gap = minimum_period }

-- `FilterUncle = ()` and `EventHandler = (CollatorSelection,)`
abbrev pub authorship_config : AuthorshipConfig
authorship_config = record {
  author_accounts = session;
  author_index = aura;
  generations = uncle_generations;
  uncle_filters = [];
  event_handlers = collator_selection ∷ [];
}

abbrev pub balances_config : BalancesConfig
balances_config = record {
  locks = max_locks;
  reserves = max_reserves;
  minimum_balance = existential_deposit;
  dust_receivers = [];
  account_store = system;
}

abbrev pub aura_config : AuraConfig
aura_config = record { disabled_by = []; authorities = max_authorities }

-- `PeriodicSessions` of the libraries, for a period and an offset.
abbrev pub session_config : {S : Type 0} → (ℕ → ℕ → S) → SessionConfig S
session_config periodic_sessions = record {
  should_end = periodic_sessions period offset;
  next_rotation = periodic_sessions period offset;
  manager = collator_selection;
  handlers = aura ∷ [];
}

-- `EnsureRoot` of the libraries updates the collators.
abbrev pub collator_config : {O : Type 0} → (O → Bool) → CollatorConfig O
collator_config ensure_root = record {
  bonds = balances;
  may_update = ensure_root;
  most_candidates = max_candidates;
  fewest_candidates = min_candidates;
  invulnerables = max_invulnerables;
  kick_threshold = period;
  registration = session;
}

-- `ExtrinsicBaseWeight::get()` and `Perbill::from_rational` belong to FRAME.
abbrev pub payment_config : ℕ → (ℕ → ℕ → ℕ) → PaymentConfig
payment_config extrinsic_base_weight from_rational = record {
  charged = balances;
  fee_receivers = [];
  byte_fee = transaction_byte_fee;
  weight_to_fee = polynomial extrinsic_base_weight from_rational;
  fee_multiplier = operational_fee_multiplier;
}

-- So do the weight of a second, a part of a weight, and the weights that the builder starts from.
module _ (weight_per_second : ℕ) (part_of : ℕ → ℕ → ℕ) (base_weight : ℕ)
    (default : DispatchClass → WeightsPerClass) where
  -- `BaseCallFilter = Everything`
  abbrev pub system_config : SystemConfig
  system_config = record {
    runtime_version = version;
    on_new_account = [];
    on_killed_account = killed_account_hooks;
    base_call_filter = λ call. true;
    block_weights = runtime_block_weights weight_per_second part_of base_weight default;
    block_length = max_block_length;
    prefix = ss58_prefix;
    on_set_code = parachain_system;
  }

  abbrev pub parachain_system_config :
      {L Q F O : Type 0} → Libraries L Q F O → ParachainSystemConfig
  parachain_system_config K = record {
    on_validation_data = [];
    self_para_id = K.parachain_id;
    dmp_handler = dmp_queue;
    dmp_weight = reserved_dmp_weight weight_per_second part_of base_weight default;
    outbound_xcmp_source = xcmp_queue;
    xcmp_handler = xcmp_message_handler;
    xcmp_weight = reserved_xcmp_weight weight_per_second part_of base_weight default;
  }
