-- ===== src/Node/Command/Starting.antt =====
-- How the relay chain's command line and the specifications fit together when the node starts
-- (node/src/command.rs, node/src/cli.rs).
use Prim.Native.String.{String}
use xcm_auto_bank.Base.{
  ◌≡◌, ◌≢◌, inl, inr, Bool, Option, none, some, List, [], ◌∷◌, ◌++◌, arith, Option-cases,
}
use xcm_auto_bank.Base.Action.{Result, ok, err, Result-cases}
use xcm_auto_bank.Node.ChainSpec.{Extensions}
use xcm_auto_bank.Node.Cli.{PathBuf, Configuration, RelayChainCli, new, base_path, chain_id}
use xcm_auto_bank.Node.Command.{Services, run_node}

-- A path is never the same as one below it.
below_differs : (p : PathBuf) (d : String) → p ++ d ∷ [] ≢ p
below_differs [] d e = cc
below_differs (c ∷ rest) d e = below_differs rest d (ground arith)

module _ {S B H C R : Type 0} (services : Services S B H C R) (config : Configuration S)
    (name : String) (args : List String) where
  -- If a node starts without a subcommand, and its command line names neither a relay chain nor a
  -- directory for it, the node runs the parachain of its specification's extension, its relay chain
  -- is the one that the extension names, and keeps its files in another directory than the
  -- parachain.
  pub run_node_ok :
      (shared_base_path : B → Option PathBuf) (base_chain_id : B → Bool → Result String String)
      (is_dev : Bool) (path : PathBuf) (r : R)
      → base_chain_id (services.from_iter (name ∷ args)) is_dev ≡ ok ""
      → shared_base_path (services.from_iter (name ∷ args)) ≡ none
      → config.base_path ≡ some path
      → run_node services config name args ≡ ok r
      → let cli = new services.from_iter config (name ∷ args) in
        (extension : Extensions) × (c : C) × (config.extension ≡ some extension)
        × (services.create_configuration cli ≡ ok c)
        × (services.start_parachain_node config c extension.para_id ≡ ok r)
        × (chain_id base_chain_id cli is_dev ≡ ok extension.relay_chain)
        × (base_path shared_base_path cli ≢ some path)
  unfolding run_node
  run_node_ok shared_base_path base_chain_id is_dev path r unnamed none_given here h =
      elim (Option-cases config.extension) [
        | inl e ↦ absurd (ground arith)
        | inr (extension, e) ↦ elim (Result-cases (services.create_configuration cli)) [
          | inr (f, k) ↦ absurd (failed extension f e k)
          | inl (c, k) ↦ (
            extension,
            c,
            e,
            k,
            ground arith,
            ground arith,
            λ same. below_differs path "polkadot" (directory same),
          )
        ]
      ]
    where
      cli : RelayChainCli B
      cli = new services.from_iter config (name ∷ args)

      failed :
          (extension : Extensions) (f : String)
          → config.extension ≡ some extension
          → services.create_configuration cli ≡ err f
          → ⊥
      failed extension f e k =
          elim (Result-cases (services.generate_genesis_block config.chain_spec)) [
            | inl (b, g) ↦ ground arith
            | inr (b, g) ↦ ground arith
          ]

      directory : base_path shared_base_path cli ≡ some path → path ++ "polkadot" ∷ [] ≡ path
      directory same = ground arith
