-- ===== src/Node/Cli.antt =====
-- The relay chain's command line, made from the parachain's configuration (node/src/cli.rs,
-- node/src/command.rs). A path is its list of components.
pub mod Relay
use Prim.Native.String.{String, len}
use xcm_auto_bank.Base.{Bool, Option, none, some, List, [], ◌∷◌, ◌++◌, ◌==◌, if◌then◌else◌}
use xcm_auto_bank.Base.Action.{Result, ok, err}
use xcm_auto_bank.Node.ChainSpec.{Extensions}

abbrev pub PathBuf : Type 0
PathBuf = List String

-- `sc_service::Configuration`, as far as it is read: the extension that `Extensions::try_get`
-- finds in the chain specification, and the base path.
pub record Configuration (S : Type 0) : Type 0 where
  pub chain_spec : S
  pub extension : Option Extensions
  pub base_path : Option PathBuf

-- `B` is `polkadot_cli::RunCmd`.
pub record RelayChainCli (B : Type 0) : Type 0 where
  pub base : B
  pub chain_id : Option String
  pub base_path : Option PathBuf

module _ {S B : Type 0} (from_iter : List String → B) where
  -- `RelayChainCli::new`
  abbrev pub new : Configuration S → List String → RelayChainCli B
  new para_config relay_chain_args = record {
    base = from_iter relay_chain_args;
    chain_id = elim para_config.extension [ none ↦ none | some e ↦ some e.relay_chain ];
    base_path = elim para_config.base_path [ none ↦ none | some x ↦ some (x ++ "polkadot" ∷ []) ];
  }

-- `RelayChainCli::base_path`; `shared_base_path` reads the command line.
abbrev pub base_path : {B : Type 0} → (B → Option PathBuf) → RelayChainCli B → Option PathBuf
base_path shared_base_path cli = elim (shared_base_path cli.base) [
  | some path ↦ some path
  | none ↦ cli.base_path
]

-- `RelayChainCli::chain_id`; `base_chain_id` reads the command line.
abbrev pub chain_id :
    {B E : Type 0} → (B → Bool → Result E String) → RelayChainCli B → Bool → Result E String
chain_id base_chain_id cli is_dev = elim (base_chain_id cli.base is_dev) [
  | err e ↦ err e
  | ok id ↦ if len id == 0 then ok (elim cli.chain_id [ none ↦ "" | some id' ↦ id' ]) else ok id
]
