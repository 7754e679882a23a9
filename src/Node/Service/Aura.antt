-- ===== src/Node/Service/Aura.antt =====
-- What the parachain's node passes to Aura: for the import of blocks and for their authoring
-- (node/src/service.rs, `parachain_build_import_queue` and `start_parachain_node`).
use Prim.Native.String.{String}
use xcm_auto_bank.Base.{ℕ, Bool, Option, none, some}
use xcm_auto_bank.Base.Action.{Result, ok, err, Action}
use xcm_auto_bank.Base.{List}
use xcm_auto_bank.Node.Service.{Libraries, Configuration, Parts, Effect, start_node_impl}

-- `ImportQueueParams`. The providers of inherent data are functions of the system's time.
pub record ImportQueueParams (H : Type 0) : Type 0 where
  pub block_import : H
  pub client : H
  pub create_inherent_data_providers : ℕ → ℕ × ℕ
  pub registry : Option H
  pub can_author_with : H
  pub spawner : H
  pub telemetry : Option H

-- A part of a slot.
pub record SlotProportion : Type 0 where
  pub numerator : ℕ
  pub denominator : ℕ

-- `BuildAuraConsensusParams`; `V` is the relay chain's block and its validation data, `D` the
-- parachain's inherent data.
pub record AuraParams (H V D : Type 0) : Type 0 where
  pub proposer_factory : H
  pub create_inherent_data_providers : V → ℕ → Result String (ℕ × ℕ × D)
  pub block_import : H
  pub relay_chain_node : H
  pub para_client : H
  pub backoff_authoring_blocks : Option H
  pub sync_oracle : H
  pub keystore : H
  pub force_authoring : Bool
  pub slot_duration : ℕ
  pub block_proposal_slot_portion : SlotProportion
  pub max_block_proposal_slot_portion : Option SlotProportion
  pub telemetry : Option H

-- The libraries of Aura and of the inherent data.
pub record AuraLibraries (H E V D : Type 0) : Type 0 where
  pub slot_duration : H → Result E ℕ
  -- `CanAuthorWithNativeVersion`, from the executor of the client
  pub can_author_with : H → H
  -- `from_timestamp_and_duration`
  pub slot_of : ℕ → ℕ → ℕ
  pub import_queue : ImportQueueParams H → Result E H
  pub new_proposer_factory : H → H → H → Option H → Option H → H
  -- `ParachainInherentData::create_at_with_client`
  pub create_inherent : H → V → ℕ → Option D
  pub build_aura_consensus : AuraParams H V D → H

module _ {H E V D : Type 0} (A : AuraLibraries H E V D) where
  abbrev pub import_params : H → Configuration H → Option H → H → ℕ → ImportQueueParams H
  import_params client config telemetry task_manager duration = record {
    block_import = client;
    client = client;
    create_inherent_data_providers = λ time. (time, A.slot_of time duration);
    registry = config.prometheus_registry;
    can_author_with = A.can_author_with client;
    spawner = task_manager;
    telemetry = telemetry;
  }

  unfoldable pub parachain_build_import_queue : H → Configuration H → Option H → H → Result E H
  parachain_build_import_queue client config telemetry task_manager =
      elim (A.slot_duration client) [
        | err e ↦ err e
        | ok duration ↦ A.import_queue (import_params client config telemetry task_manager duration)
      ]

  -- What the closure of `start_parachain_node` gives to `build_aura_consensus`.
  abbrev pub aura_params :
      ℕ → Parts H → Option H → Option H → H → H → H → Bool → ℕ → AuraParams H V D
  aura_params id parts registry telemetry relay pool network force_authoring duration = record {
    proposer_factory =
        A.new_proposer_factory parts.task_manager parts.client pool registry telemetry;
    create_inherent_data_providers = λ validation time.
        elim (A.create_inherent relay validation id) [
          | none ↦ err "Failed to create parachain inherent"
          | some inherent ↦ ok (time, A.slot_of time duration, inherent)
        ];
    block_import = parts.client;
    relay_chain_node = relay;
    para_client = parts.client;
    backoff_authoring_blocks = none;
    sync_oracle = network;
    keystore = parts.keystore_container;
    force_authoring = force_authoring;
    slot_duration = duration;
    block_proposal_slot_portion = record { numerator = 1; denominator = 24 };
    max_block_proposal_slot_portion = some (record { numerator = 1; denominator = 16 });
    telemetry = telemetry;
  }

  unfoldable pub parachain_build_consensus :
      ℕ → Parts H → Option H → Option H → H → H → H → Bool → Result E H
  parachain_build_consensus id parts registry telemetry relay pool network force_authoring =
      elim (A.slot_duration parts.client) [
        | err e ↦ err e
        | ok duration ↦ ok (
            A.build_aura_consensus
              (aura_params id parts registry telemetry relay pool network force_authoring duration))
      ]

  unfoldable pub start_parachain_node :
      Libraries H E → Configuration H → H → ℕ → Action (List (Effect H)) E (H × H)
  start_parachain_node L parachain_config polkadot_config id =
      start_node_impl L parachain_config polkadot_config id parachain_build_import_queue
        (parachain_build_consensus id)
