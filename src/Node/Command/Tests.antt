-- ===== src/Node/Command/Tests.antt =====
-- The theorems on the command line at concrete inputs.
use Prim.Native.String.{String}
use xcm_auto_bank.Base.{ℕ, ◌≡◌, ◌≢◌, refl, Bool, false, Option, none, some, List, [], ◌∷◌}
use xcm_auto_bank.Base.Action.{Result, ok, err}
use xcm_auto_bank.Node.ChainSpec.{Keys, ChainSpec, Extensions}
use xcm_auto_bank.Node.Cli.{PathBuf, Configuration, new, base_path, chain_id}
use xcm_auto_bank.Node.Command.{
  Services, extract_genesis_wasm, export_genesis_wasm, Export, run_node, load_spec,
}
use xcm_auto_bank.Node.Command.Exports.{wasm, export_as, export_in_hex}
use xcm_auto_bank.Node.Command.Starting.{run_node_ok}

-- Every seed is its own key.
abbrev seeds : Keys String String String
seeds = record {
  sr25519_from_string = λ s. some s;
  aura_from_string = λ s. some s;
  into_account = λ s. s;
  wasm_binary = some (1 ∷ 2 ∷ []);
}

abbrev no_file : String → Result String (ChainSpec String String)
no_file path = err "no such file"

abbrev as_is : List ℕ → List ℕ
as_is bytes = bytes

abbrev header : ChainSpec String String → Result String (List ℕ)
header spec = ok (7 ∷ [])

abbrev storage : ChainSpec String String → Result String (List ℕ)
storage spec = ok (9 ∷ [])

abbrev code : List ℕ → Option (List ℕ)
code entries = some entries

abbrev to_terminal : Export
to_terminal = record { output = none; raw = false; chain = none }

export_in_hex_example :
    export_as seeds no_file as_is header storage code to_terminal wasm false
    ≡ ok (record { file = none; bytes = 0x30 ∷ 0x78 ∷ 9 ∷ [] })
unfolding export_genesis_wasm load_spec extract_genesis_wasm
export_in_hex_example =
    export_in_hex seeds no_file as_is header storage code to_terminal wasm
      (record { file = none; bytes = 9 ∷ [] }) refl

-- The relay chain's command line is its arguments, and a node starts as its parachain's id.
abbrev services : Services ℕ (List String) ℕ (Option String) ℕ
services = record {
  from_iter = λ args. args;
  debug = λ s. s;
  generate_genesis_block = λ spec. ok spec;
  create_configuration = λ cli. ok cli.chain_id;
  start_parachain_node = λ config relay id. ok id;
}

abbrev config : Configuration ℕ
config = record {
  chain_spec = 0;
  extension = some (record { relay_chain = "rococo-local"; para_id = 2000 });
  base_path = some ("data" ∷ []);
}

abbrev no_path : List String → Option PathBuf
no_path args = none

abbrev unnamed : List String → Bool → Result String String
unnamed args is_dev = ok ""

run_node_ok_example :
    let cli = new services.from_iter config ("node" ∷ []) in
    (extension : Extensions) × (c : Option String) × (config.extension ≡ some extension)
    × (services.create_configuration cli ≡ ok c)
    × (services.start_parachain_node config c extension.para_id ≡ ok 2000)
    × (chain_id unnamed cli false ≡ ok extension.relay_chain)
    × (base_path no_path cli ≢ some ("data" ∷ []))
unfolding run_node
run_node_ok_example =
    run_node_ok services config "node" [] no_path unnamed false ("data" ∷ []) 2000 refl refl refl
      refl
