-- ===== src/Node/Cli/Relay.antt =====
-- The configuration of the relay chain's node (node/src/command.rs, the implementations of
-- `DefaultConfigurationValues` and `CliConfiguration` for `RelayChainCli`).
use Prim.Native.String.{String}
use xcm_auto_bank.Base.{ℕ, Bool, Option, List}
use xcm_auto_bank.Base.Action.{Result, ok}
use xcm_auto_bank.Node.Cli.{PathBuf, RelayChainCli, base_path, chain_id}

abbrev pub p2p_listen_port : ℕ
p2p_listen_port = 30334

abbrev pub rpc_ws_listen_port : ℕ
rpc_ws_listen_port = 9945

abbrev pub rpc_http_listen_port : ℕ
rpc_http_listen_port = 9934

abbrev pub prometheus_listen_port : ℕ
prometheus_listen_port = 9616

-- The methods of `CliConfiguration`, but `init`, which is never called; `H` are the objects of the
-- libraries and `E` the errors.
pub record CliConfiguration (H E : Type 0) : Type 0 where
  pub shared_params : H
  pub import_params : Option H
  pub network_params : Option H
  pub keystore_params : Option H
  pub base_path : Result E (Option PathBuf)
  pub rpc_http : ℕ → Result E (Option H)
  pub rpc_ws : ℕ → Result E (Option H)
  pub prometheus_config : ℕ → Result E (Option H)
  pub rpc_ipc : Result E (Option String)
  pub chain_id : Bool → Result E String
  pub role : Bool → Result E H
  pub transaction_pool : Result E H
  pub rpc_methods : Result E H
  pub state_cache_child_ratio : Result E (Option ℕ)
  pub rpc_ws_max_connections : Result E (Option ℕ)
  pub default_heap_pages : Result E (Option ℕ)
  pub max_runtime_instances : Result E (Option ℕ)
  pub rpc_cors : Bool → Result E (Option (List String))
  pub force_authoring : Result E Bool
  pub disable_grandpa : Result E Bool
  pub announce_block : Result E Bool
  pub telemetry_endpoints : H → Result E (Option H)

-- All but two methods are those of the `RunCmd`; `shared_base_path` is `SharedParams::base_path`.
pub relay_configuration :
    {B H E : Type 0}
    → (B → CliConfiguration H E)
    → (H → Option PathBuf)
    → RelayChainCli B
    → CliConfiguration H E
relay_configuration run_cmd shared_base_path cli = record (run_cmd cli.base) {
  base_path = ok (base_path (λ base. shared_base_path (run_cmd base).shared_params) cli);
  chain_id = chain_id (λ base. (run_cmd base).chain_id) cli;
}
