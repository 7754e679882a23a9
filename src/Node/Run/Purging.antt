-- ===== src/Node/Run/Purging.antt =====
-- Which relay chain's data `purge-chain` removes (node/src/command.rs).
use Prim.Native.String.{String}
use xcm_auto_bank.Base.{ℕ, ◌≡◌, Option, none, some, List, [], ◌∷◌, arith, inl, inr, Option-cases}
use xcm_auto_bank.Base.Action.{Result, ok, Result-cases}
use xcm_auto_bank.Node.ChainSpec.{Keys, ChainSpec, Extensions}
use xcm_auto_bank.Node.Cli.{Configuration, new}
use xcm_auto_bank.Node.Command.{run_node}
use xcm_auto_bank.Node.Run.{Subcommand, Cli, Call, RunLibraries, purge, start, run}
use xcm_auto_bank.Node.Service.{Libraries}
use xcm_auto_bank.Node.Service.Aura.{AuraLibraries, start_parachain_node}

module _ {X S B H V D : Type 0} (R : RunLibraries X S B H) (L : Libraries H String)
    (A : AuraLibraries H String V D) where
  purge_ok :
      (cmd : X) (args : List String) (config config' : Configuration S) (relay : H)
      → R.create_runner cmd ≡ ok config
      → purge R L A cmd args ≡ ok (Call.purge_chain cmd config' relay)
      → (config' ≡ config)
        × (R.create_configuration (new R.from_iter config (R.executable_name ∷ args)) ≡ ok relay)
  unfolding purge
  purge_ok cmd args config config' relay e h =
      elim (Result-cases
        (R.create_configuration (new R.from_iter config (R.executable_name ∷ args)))) [
          | inl (c, k) ↦ ground arith
          | inr (f, k) ↦ absurd (ground arith)
        ]

  start_ok :
      (cmd : X) (args : List String) (config : Configuration S) (relay r : H)
      → R.create_runner (R.normalize cmd) ≡ ok config
      → R.create_configuration (new R.from_iter config (R.executable_name ∷ args)) ≡ ok relay
      → start R L A cmd args ≡ ok (Call.node r)
      → (extension : Extensions) × (client : H) × (config.extension ≡ some extension)
        × ((start_parachain_node A L (R.service_configuration config) relay extension.para_id []).0
            ≡ ok (r, client))
  unfolding start run_node
  start_ok cmd args config relay r e k h = elim (Option-cases config.extension) [
    | inl n ↦ absurd (ground arith)
    | inr (extension, x) ↦ elim (Result-cases (R.generate_genesis_block config.chain_spec)) [
      | inr (f, g) ↦ absurd (ground arith)
      | inl (block, g) ↦
          elim (Result-cases
            (start_parachain_node A L (R.service_configuration config) relay extension.para_id
              []).0) [
                | inr (f, n) ↦ absurd (ground arith)
                | inl ((task_manager, client), n) ↦ (extension, client, x, ground arith)
              ]
    ]
  ]

  module _ {Q K G : Type 0} (keys : Keys Q K String)
      (from_json_file : String → Result String (ChainSpec K String)) (hex_display : List ℕ → List ℕ)
      (generate_genesis_header : ChainSpec K String → Result String (List ℕ))
      (build_storage : ChainSpec K String → Result String G) (code_of : G → Option (List ℕ)) where
    abbrev pub run_with : Cli X → Result String (Call X S H)
    run_with =
        run R L A keys from_json_file hex_display generate_genesis_header build_storage code_of

    -- If `purge-chain` and a start of the node have one configuration and the same arguments for
    -- the relay chain, and both succeed: the relay chain whose data `purge-chain` is to remove is
    -- configured as the one that the node is started with, for the parachain of the specification's
    -- extension.
    pub purge_finds_relay_chain :
        (cmd node_cmd : X) (args : List String) (config config' : Configuration S) (relay r : H)
        → R.create_runner cmd ≡ ok config
        → R.create_runner (R.normalize node_cmd) ≡ ok config
        → run_with (record {
          subcommand = some (Subcommand.purge_chain cmd);
          run = node_cmd;
          relay_chain_args = args;
        })
          ≡ ok (Call.purge_chain cmd config' relay)
        → run_with (record { subcommand = none; run = node_cmd; relay_chain_args = args })
          ≡ ok (Call.node r)
        → (config' ≡ config)
          × (extension : Extensions) × (client : H) × (config.extension ≡ some extension)
          × ((start_parachain_node A L
                (R.service_configuration config)
                relay
                extension.para_id
                []).0
              ≡ ok (r, client))
    unfolding run
    purge_finds_relay_chain cmd node_cmd args config config' relay r e e' purged started =
        let (same, k) = purge_ok cmd args config config' relay e purged in
        let (extension, client, x, n) = start_ok node_cmd args config relay r e' k started in
        (same, extension, client, x, n)
