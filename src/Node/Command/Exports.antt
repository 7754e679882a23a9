-- ===== src/Node/Command/Exports.antt =====
-- What the export subcommands write (node/src/command.rs).
use Prim.Native.String.{String}
use xcm_auto_bank.Base.{ℕ, ◌≡◌, inl, inr, Bool, true, false, Option, List, ◌∷◌, arith}
use xcm_auto_bank.Base.Action.{Result, ok, Result-cases}
use xcm_auto_bank.Node.ChainSpec.{Keys, ChainSpec}
use xcm_auto_bank.Node.Command.{
  Output, Export, load_spec, export_genesis_state, export_genesis_wasm, extract_genesis_wasm,
  or_empty,
}

pub data Genesis : Type 0 where
  state wasm : Genesis

module _ {S K A G : Type 0} (keys : Keys S K A)
    (from_json_file : String → Result String (ChainSpec K A)) (hex_display : List ℕ → List ℕ)
    (generate_genesis_header : ChainSpec K A → Result String (List ℕ))
    (build_storage : ChainSpec K A → Result String G) (code_of : G → Option (List ℕ))
    (params : Export) where
  -- `ExportGenesisState` and `ExportGenesisWasm`
  abbrev pub export_as : Genesis → Bool → Result String Output
  export_as state raw =
      export_genesis_state keys from_json_file hex_display generate_genesis_header
        (record params { raw = raw })
  export_as wasm raw =
      export_genesis_wasm keys from_json_file hex_display build_storage code_of
        (record params { raw = raw })

  -- The same output in hexadecimal, behind `0x`.
  abbrev pub in_hex : Output → Output
  in_hex o = record { file = o.file; bytes = 0x30 ∷ 0x78 ∷ hex_display o.bytes }

  -- If an export of the genesis, of its state or of its code, writes an output with `--raw`, then
  -- without `--raw` it writes the same bytes to the same place, in hexadecimal behind `0x`.
  pub export_in_hex :
      (g : Genesis) (o : Output) → export_as g true ≡ ok o → export_as g false ≡ ok (in_hex o)
  unfolding export_genesis_state export_genesis_wasm
  export_in_hex g o h =
      elim (Result-cases (load_spec keys from_json_file (or_empty params.chain))) [
        | inr (f, e) ↦ absurd (ground arith)
        | inl (spec, e) ↦ elim (Result-cases (generate_genesis_header spec)) [
          | inl (b, k) ↦ elim (Result-cases (extract_genesis_wasm build_storage code_of spec)) [
            | inl (c, l) ↦ ground arith
            | inr (c, l) ↦ ground arith
          ]
          | inr (b, k) ↦ elim (Result-cases (extract_genesis_wasm build_storage code_of spec)) [
            | inl (c, l) ↦ ground arith
            | inr (c, l) ↦ absurd (ground arith)
          ]
        ]
      ]
