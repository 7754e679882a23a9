-- ===== src/Node/Run.antt =====
-- What the node does for each subcommand (node/src/command.rs, `run`; node/src/cli.rs). What it
-- calls of the libraries in the end is the value of a run.
mod Tests
pub mod Purging
use Prim.Native.String.{String, ◌++◌ as append}
use xcm_auto_bank.Base.{ℕ, Bool, Option, none, some, List, [], ◌∷◌, if◌then◌else◌}
use xcm_auto_bank.Base.Action.{Result, ok, err}
use xcm_auto_bank.Node.ChainSpec.{Keys, ChainSpec}
use xcm_auto_bank.Node.Cli.{Configuration, RelayChainCli, new}
use xcm_auto_bank.Node.Command
use xcm_auto_bank.Node.Command.{Services, Export, Output, and_then, run_node}
use xcm_auto_bank.Node.Service
use xcm_auto_bank.Node.Service.{Libraries, PartialComponents, new_partial}
use xcm_auto_bank.Node.Service.Aura.{
  AuraLibraries, parachain_build_import_queue, start_parachain_node,
}

-- `Subcommand`; `X` are the commands of the libraries.
pub data Subcommand (X : Type 0) : Type 0 where
  export_genesis_state export_genesis_wasm : Export → Subcommand X
  build_spec check_block export_blocks export_state import_blocks : X → Subcommand X
  purge_chain revert benchmark : X → Subcommand X

-- `Cli`
pub record Cli (X : Type 0) : Type 0 where
  pub subcommand : Option (Subcommand X)
  pub run : X
  pub relay_chain_args : List String

-- The last call of a run, with its command and its arguments: `S` are the chain specifications,
-- `H` the objects of the libraries.
pub data Call (X S H : Type 0) : Type 0 where
  build_spec : X → S → H → Call X S H
  check_block import_blocks export_blocks revert : X → H → H → Call X S H
  export_state : X → H → S → Call X S H
  purge_chain : X → Configuration S → H → Call X S H
  benchmark : X → Configuration S → Call X S H
  write : Output → Call X S H
  node : H → Call X S H

pub record RunLibraries (X S B H : Type 0) : Type 0 where
  -- `create_runner` and the configuration that the runner hands out
  pub create_runner : X → Result String (Configuration S)
  pub normalize : X → X
  pub executable_name : String
  pub from_iter : List String → B
  pub debug : String → String
  pub generate_genesis_block : S → Result String H
  pub create_configuration : RelayChainCli B → Result String H
  pub network : Configuration S → H
  pub database : Configuration S → H
  -- the configuration as the service reads it
  pub service_configuration : Configuration S → Service.Configuration H
  -- `cfg!(feature = "runtime-benchmarks")`
  pub runtime_benchmarks : Bool

module _ {X S B H V D : Type 0} (R : RunLibraries X S B H) (L : Libraries H String)
    (A : AuraLibraries H String V D) where
  abbrev services : Services S B H H H
  services = record {
    from_iter = R.from_iter;
    debug = R.debug;
    generate_genesis_block = R.generate_genesis_block;
    create_configuration = R.create_configuration;
    start_parachain_node = λ config polkadot_config id.
        and_then (start_parachain_node A L (R.service_configuration config) polkadot_config id []).0
          λ r. ok r.0;
  }

  -- `construct_async_run!`: the components are those of a node that would run.
  pub construct_async_run :
      X → (PartialComponents H → Configuration S → Call X S H) → Result String (Call X S H)
  construct_async_run cmd code = and_then (R.create_runner cmd) λ config.
      and_then
        (new_partial L (R.service_configuration config) (parachain_build_import_queue A) []).0
        λ components. ok (code components config)

  -- The arm of `run` for `PurgeChain`.
  pub purge : X → List String → Result String (Call X S H)
  purge cmd relay_chain_args = and_then (R.create_runner cmd) λ config.
      elim (R.create_configuration
        (new R.from_iter config (R.executable_name ∷ relay_chain_args))) [
          | err e ↦ err (append "Relay chain argument error: " e)
          | ok polkadot_config ↦ ok (Call.purge_chain cmd config polkadot_config)
        ]

  -- The arm of `run` without a subcommand.
  pub start : X → List String → Result String (Call X S H)
  start cmd relay_chain_args = and_then (R.create_runner (R.normalize cmd)) λ config.
      and_then (run_node services config R.executable_name relay_chain_args)
        λ task_manager. ok (Call.node task_manager)

  module _ {Q K G : Type 0} (keys : Keys Q K String)
      (from_json_file : String → Result String (ChainSpec K String)) (hex_display : List ℕ → List ℕ)
      (generate_genesis_header : ChainSpec K String → Result String (List ℕ))
      (build_storage : ChainSpec K String → Result String G) (code_of : G → Option (List ℕ)) where
    -- `run`
    pub run : Cli X → Result String (Call X S H)
    unfolding construct_async_run purge start
    run cli = elim cli.subcommand [
      | some c ↦ elim c [
        | Subcommand.build_spec cmd ↦
            and_then (R.create_runner cmd)
              λ config. ok (Call.build_spec cmd config.chain_spec (R.network config))
        | Subcommand.check_block cmd ↦ construct_async_run cmd λ components config.
            Call.check_block cmd components.parts.client components.import_queue
        | Subcommand.export_blocks cmd ↦
            construct_async_run cmd λ components config.
              Call.export_blocks cmd components.parts.client (R.database config)
        | Subcommand.export_state cmd ↦
            construct_async_run cmd
              λ components config. Call.export_state cmd components.parts.client config.chain_spec
        | Subcommand.import_blocks cmd ↦ construct_async_run cmd λ components config.
            Call.import_blocks cmd components.parts.client components.import_queue
        | Subcommand.purge_chain cmd ↦ purge cmd cli.relay_chain_args
        | Subcommand.revert cmd ↦
            construct_async_run cmd
              λ components config. Call.revert cmd components.parts.client components.parts.backend
        | Subcommand.export_genesis_state params ↦
            and_then
              (Command.export_genesis_state keys from_json_file hex_display generate_genesis_header
                params)
              λ output. ok (Call.write output)
        | Subcommand.export_genesis_wasm params ↦
            and_then
              (Command.export_genesis_wasm keys from_json_file hex_display build_storage code_of
                params)
              λ output. ok (Call.write output)
        | Subcommand.benchmark cmd ↦
            if R.runtime_benchmarks
            then and_then (R.create_runner cmd) (λ config. ok (Call.benchmark cmd config))
            else err
                "Benchmarking wasn't enabled when building the node. You can enable it with `--features runtime-benchmarks`."
      ]
      | none ↦ start cli.run cli.relay_chain_args
    ]
