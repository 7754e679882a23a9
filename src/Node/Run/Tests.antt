-- ===== src/Node/Run/Tests.antt =====
-- Runs of the node at concrete inputs.
use Prim.Native.String.{String}
use xcm_auto_bank.Base.{ℕ, ◌≡◌, refl, false, Option, none, some, List, [], ◌∷◌}
use xcm_auto_bank.Base.Action.{Result, ok, err}
use xcm_auto_bank.Node.ChainSpec.{Keys, ChainSpec, Extensions}
use xcm_auto_bank.Node.Cli
use xcm_auto_bank.Node.Cli.{RelayChainCli}
use xcm_auto_bank.Node.Command.{run_node}
use xcm_auto_bank.Node.Run.{RunLibraries, run, purge, start}
use xcm_auto_bank.Node.Run.Purging.{purge_finds_relay_chain}
use xcm_auto_bank.Node.Service.{
  start_node_impl, connect, take_part, new_partial, new_telemetry_parts,
}
use xcm_auto_bank.Node.Service.Aura.{
  AuraLibraries, parachain_build_import_queue, parachain_build_consensus, start_parachain_node,
}
use xcm_auto_bank.Node.Service.Tests
use xcm_auto_bank.Node.Service.Tests.{numbers}

abbrev aura : AuraLibraries ℕ String ℕ ℕ
aura = record {
  slot_duration = λ client. ok 12000;
  can_author_with = λ client. 0;
  slot_of = λ time duration. time;
  import_queue = λ params. ok 18;
  new_proposer_factory = λ task_manager client pool registry telemetry. 19;
  create_inherent = λ relay validation id. some 20;
  build_aura_consensus = λ params. 21;
}

-- The specification is a number, and every command has one configuration.
abbrev config : Cli.Configuration ℕ
config = record {
  chain_spec = 0;
  extension = some (record { relay_chain = "rococo-local"; para_id = 2000 });
  base_path = some ("data" ∷ []);
}

abbrev libraries : RunLibraries ℕ ℕ (List String) ℕ
libraries = record {
  create_runner = λ cmd. ok config;
  normalize = λ cmd. cmd;
  executable_name = "node";
  from_iter = λ args. args;
  debug = λ text. text;
  generate_genesis_block = λ spec. ok 1;
  create_configuration = λ cli. ok 30;
  network = λ c. 2;
  database = λ c. 3;
  service_configuration = λ c. Tests.config;
  runtime_benchmarks = false;
}

abbrev keys : Keys String String String
keys = record {
  sr25519_from_string = λ s. some s;
  aura_from_string = λ s. some s;
  into_account = λ s. s;
  wasm_binary = none;
}

abbrev no_file : String → Result String (ChainSpec String String)
no_file path = err "no such file"

abbrev no_header : ChainSpec String String → Result String (List ℕ)
no_header spec = ok []

abbrev no_code : List ℕ → Option (List ℕ)
no_code entries = none

abbrev as_is : List ℕ → List ℕ
as_is bytes = bytes

purge_finds_relay_chain_example :
    (config ≡ config)
    × (extension : Extensions) × (client : ℕ) × (config.extension ≡ some extension)
    × ((start_parachain_node aura numbers Tests.config 30 extension.para_id []).0 ≡ ok (8, client))
unfolding run purge start run_node start_parachain_node parachain_build_import_queue
    parachain_build_consensus start_node_impl connect take_part new_partial new_telemetry_parts
purge_finds_relay_chain_example =
    purge_finds_relay_chain libraries numbers aura keys no_file as_is no_header no_header no_code 4
      5 [] config config 30 8 refl refl refl refl
