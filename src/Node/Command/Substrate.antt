-- ===== src/Node/Command/Substrate.antt =====
-- What the two command lines tell of themselves (node/src/command.rs, the implementations of
-- `SubstrateCli` for `Cli` and `RelayChainCli`).
use Prim.Native.String.{String}
use xcm_auto_bank.Base.{ℕ, List, [], ◌∷◌}
use xcm_auto_bank.Base.Action.{Result}
use xcm_auto_bank.Node.ChainSpec.{Keys, ChainSpec}
use xcm_auto_bank.Node.Command.{load_spec}

-- `S` are the chain specifications and `V` the runtime versions.
pub record SubstrateCli (S V : Type 0) : Type 0 where
  pub impl_name : String
  pub impl_version : String
  pub description : String
  pub author : String
  pub support_url : String
  pub copyright_start_year : ℕ
  pub load_spec : String → Result String S
  pub native_runtime_version : S → V

-- The variables of the build.
pub record BuildEnv : Type 0 where
  pub substrate_cli_impl_version : String
  pub cargo_pkg_authors : String

abbrev pub description : String
description =
    "Parachain Collator Template\n\nThe command-line arguments provided first will be passed to the parachain node, while the arguments provided after -- will be passed to the relay chain node.\n\nparachain-collator <parachain-args> -- <relay-chain-args>"

-- `Cli`; `version` is the one of the runtime.
pub parachain_cli :
    {S V K A : Type 0}
    → BuildEnv
    → Keys S K A
    → (String → Result String (ChainSpec K A))
    → V
    → SubstrateCli (ChainSpec K A) V
parachain_cli env keys from_json_file version = record {
  impl_name = "Parachain Collator Template";
  impl_version = env.substrate_cli_impl_version;
  description = description;
  author = env.cargo_pkg_authors;
  support_url = "https://github.com/paritytech/cumulus/issues/new";
  copyright_start_year = 2020;
  load_spec = load_spec keys from_json_file;
  native_runtime_version = λ _. version;
}

-- `RelayChainCli`: the relay chain's own command line, made from the name of the executable alone,
-- finds the specifications, and knows their runtime version.
pub relay_chain_cli :
    {P V : Type 0}
    → BuildEnv
    → String
    → (List String → String → Result String P)
    → (P → V)
    → SubstrateCli P V
relay_chain_cli env executable_name load native_runtime_version = record {
  impl_name = "Parachain Collator Template";
  impl_version = env.substrate_cli_impl_version;
  description = description;
  author = env.cargo_pkg_authors;
  support_url = "https://github.com/paritytech/cumulus/issues/new";
  copyright_start_year = 2020;
  load_spec = load (executable_name ∷ []);
  native_runtime_version = native_runtime_version;
}
