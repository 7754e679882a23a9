-- ===== src/Runtime/Constants.antt =====
-- The constants of the runtime: time, money, weights and sessions (runtime/src/lib.rs).
use Prim.Native.String.{String}
use xcm_auto_bank.Base.{ℕ, ◌-◌, ◌*◌, ◌/◌, Option, some}

abbrev pub millisecs_per_block : ℕ
millisecs_per_block = 12000

abbrev pub slot_duration : ℕ
slot_duration = millisecs_per_block

abbrev pub minutes : ℕ
minutes = 60000 / millisecs_per_block

abbrev pub hours : ℕ
hours = minutes * 60

abbrev pub days : ℕ
days = hours * 24

abbrev pub unit : ℕ
unit = 1000000000000

abbrev pub microunit : ℕ
microunit = 1000000

-- `ReservedXcmpWeight` and the rest are parts of the weight that a block may have; `Perbill`s are
-- parts of a billion. The weight of a second and the parts of a weight belong to FRAME.
abbrev pub average_on_initialize_ratio : ℕ
average_on_initialize_ratio = 50000000

abbrev pub normal_dispatch_ratio : ℕ
normal_dispatch_ratio = 750000000

pub data DispatchClass : Type 0 where
  normal operational mandatory : DispatchClass

pub record WeightsPerClass : Type 0 where
  pub base_extrinsic : ℕ
  pub max_total : Option ℕ
  pub reserved : Option ℕ

module _ (weight_per_second : ℕ) (part_of : ℕ → ℕ → ℕ) (base_weight : ℕ)
    (default : DispatchClass → WeightsPerClass) where
  abbrev pub maximum_block_weight : ℕ
  maximum_block_weight = weight_per_second / 2

  abbrev pub reserved_xcmp_weight : ℕ
  reserved_xcmp_weight = maximum_block_weight / 4

  abbrev pub reserved_dmp_weight : ℕ
  reserved_dmp_weight = maximum_block_weight / 4

  -- `RuntimeBlockWeights`, the weights of each class as the builder has set them.
  unfoldable pub runtime_block_weights : DispatchClass → WeightsPerClass
  runtime_block_weights normal = record (default normal) {
    base_extrinsic = base_weight;
    max_total = some (part_of normal_dispatch_ratio maximum_block_weight);
  }
  runtime_block_weights operational = record (default operational) {
    base_extrinsic = base_weight;
    max_total = some maximum_block_weight;
    reserved = some (maximum_block_weight - part_of normal_dispatch_ratio maximum_block_weight);
  }
  runtime_block_weights mandatory = record (default mandatory) { base_extrinsic = base_weight }

-- `RuntimeBlockLength`
abbrev pub max_block_length : ℕ
max_block_length = 5 * 1024 * 1024

-- `MinimumPeriod`
abbrev pub minimum_period : ℕ
minimum_period = slot_duration / 2

-- `Period`, `SessionLength` and the `KickThreshold` of the collators
abbrev pub period : ℕ
period = 6 * hours

abbrev pub session_length : ℕ
session_length = 6 * hours

-- `SS58Prefix`
abbrev pub ss58_prefix : ℕ
ss58_prefix = 42

abbrev pub uncle_generations : ℕ
uncle_generations = 0

abbrev pub max_locks : ℕ
max_locks = 50

abbrev pub max_reserves : ℕ
max_reserves = 50

abbrev pub transaction_byte_fee : ℕ
transaction_byte_fee = 10 * microunit

abbrev pub operational_fee_multiplier : ℕ
operational_fee_multiplier = 5

abbrev pub unit_weight_cost : ℕ
unit_weight_cost = 1000000000

abbrev pub max_instructions : ℕ
max_instructions = 100

abbrev pub version_discovery_queue_size : ℕ
version_discovery_queue_size = 100

-- `MaxDownwardMessageWeight`
abbrev pub max_downward_message_weight : ℕ → ℕ
max_downward_message_weight weight_per_second = weight_per_second / 2 / 10

-- `Offset`, of the first session
abbrev pub offset : ℕ
offset = 0

abbrev pub max_authorities : ℕ
max_authorities = 100000

abbrev pub max_candidates : ℕ
max_candidates = 1000

abbrev pub min_candidates : ℕ
min_candidates = 5

abbrev pub max_invulnerables : ℕ
max_invulnerables = 100

-- `VERSION`, without the versions of the runtime APIs, which the libraries collect.
pub record RuntimeVersion : Type 0 where
  pub spec_name : String
  pub impl_name : String
  pub authoring_version : ℕ
  pub spec_version : ℕ
  pub impl_version : ℕ
  pub transaction_version : ℕ

abbrev pub version : RuntimeVersion
version = record {
  spec_name = "template-parachain";
  impl_name = "template-parachain";
  authoring_version = 1;
  spec_version = 1;
  impl_version = 0;
  transaction_version = 1;
}
