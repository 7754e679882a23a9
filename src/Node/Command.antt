-- ===== src/Node/Command.antt =====
-- The subcommands that the node implements itself, and the start of a collator
-- (node/src/command.rs).
pub mod Substrate
pub mod Exports
pub mod Starting
mod Tests
use Prim.Native.String.{String, compare, ◌++◌ as append}
use Prim.Native.Nat.{Ordering}
use xcm_auto_bank.Base.{
  ℕ, Bool, true, false, Option, none, some, List, [], ◌∷◌, ◌++◌, if◌then◌else◌,
}
use xcm_auto_bank.Base.Action.{Result, ok, err}
use xcm_auto_bank.Node.ChainSpec.{
  Keys, ChainSpec, Extensions, development_config, local_testnet_config,
}
use xcm_auto_bank.Node.Cli.{PathBuf, Configuration, RelayChainCli, new}

abbrev pub equals : String → String → Bool
equals s t = elim (compare s t) [ Ordering.eq ↦ true | _ ↦ false ]

-- `result?`
abbrev pub and_then : {E A B : Type 0} → Result E A → (A → Result E B) → Result E B
and_then (ok a) f = f a
and_then (err e) f = err e

-- `option.unwrap_or_default()`
abbrev pub or_empty : Option String → String
or_empty none = ""
or_empty (some s) = s

-- `ExportGenesisStateCommand` and `ExportGenesisWasmCommand`
pub record Export : Type 0 where
  pub output : Option PathBuf
  pub raw : Bool
  pub chain : Option String

-- The bytes that are written, and the file that they go to; `none` is the standard output.
pub record Output : Type 0 where
  pub file : Option PathBuf
  pub bytes : List ℕ

-- `format!("0x{:?}", HexDisplay::from(..))` of the bytes; the digits are the library's.
abbrev pub encoded : (List ℕ → List ℕ) → Bool → List ℕ → List ℕ
encoded hex_display raw bytes = if raw then bytes else 0x30 ∷ 0x78 ∷ hex_display bytes

-- `extract_genesis_wasm`: `build_storage` gives the entries of the genesis, `code_of` the one
-- under `:code`.
pub extract_genesis_wasm :
    {S G : Type 0} → (S → Result String G) → (G → Option (List ℕ)) → S → Result String (List ℕ)
extract_genesis_wasm build_storage code_of spec = and_then (build_storage spec) λ storage.
    elim (code_of storage) [
      | some wasm ↦ ok wasm
      | none ↦ err "Could not find wasm file in genesis state!"
    ]

module _ {S K A : Type 0} (keys : Keys S K A)
    (from_json_file : String → Result String (ChainSpec K A)) where
  pub load_spec : String → Result String (ChainSpec K A)
  load_spec id =
      if equals id "dev"
      then ok (development_config keys)
      else if equals id "template-rococo"
      then ok (local_testnet_config keys)
      else if equals id ""
      then ok (local_testnet_config keys)
      else if equals id "local"
      then ok (local_testnet_config keys)
      else from_json_file id

  -- The arm of `run` for `ExportGenesisState`.
  pub export_genesis_state :
      (List ℕ → List ℕ) → (ChainSpec K A → Result String (List ℕ)) → Export → Result String Output
  export_genesis_state hex_display generate_genesis_header params =
      and_then (load_spec (or_empty params.chain)) λ spec.
        and_then (generate_genesis_header spec) λ header.
          ok (record { file = params.output; bytes = encoded hex_display params.raw header })

  -- The arm of `run` for `ExportGenesisWasm`.
  pub export_genesis_wasm :
      {G : Type 0}
      → (List ℕ → List ℕ)
      → (ChainSpec K A → Result String G)
      → (G → Option (List ℕ))
      → Export
      → Result String Output
  export_genesis_wasm hex_display build_storage code_of params =
      and_then (load_spec (or_empty params.chain)) λ spec.
        and_then (extract_genesis_wasm build_storage code_of spec)
          λ wasm. ok (record { file = params.output; bytes = encoded hex_display params.raw wasm })

-- What the start of a collator calls: `RunCmd::from_iter`, the formatting of errors,
-- `generate_genesis_block`, `create_configuration` and `start_parachain_node`.
pub record Services (S B H C R : Type 0) : Type 0 where
  pub from_iter : List String → B
  -- `{:?}` of a text
  pub debug : String → String
  pub generate_genesis_block : S → Result String H
  pub create_configuration : RelayChainCli B → Result String C
  pub start_parachain_node : Configuration S → C → ℕ → Result String R

-- The arm of `run` without a subcommand, after the configuration is read.
unfoldable pub run_node :
    {S B H C R : Type 0}
    → Services S B H C R
    → Configuration S
    → String
    → List String
    → Result String R
run_node services config executable_name relay_chain_args = elim config.extension [
  | none ↦ err "Could not find parachain ID in chain-spec."
  | some extension ↦
      let polkadot_cli = new services.from_iter config (executable_name ∷ relay_chain_args) in
      elim (services.generate_genesis_block config.chain_spec) [
        | err e ↦ err (services.debug e)
        | ok block ↦ elim (services.create_configuration polkadot_cli) [
          | err e ↦ err (append "Relay chain argument error: " e)
          | ok polkadot_config ↦
              services.start_parachain_node config polkadot_config extension.para_id
        ]
      ]
]
