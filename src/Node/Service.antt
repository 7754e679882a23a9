-- ===== src/Node/Service.antt =====
-- How the node is started (node/src/service.rs). The networking, consensus, pool and executor are
-- the libraries': what a call of theirs returns is a parameter, a value of the type `H` of their
-- objects or an error of `E`; the calls that do something are logged, the last one first.
pub mod Aura
pub mod Startup
pub mod Tests
use Prim.Native.String.{String}
use mathlib.Core.Option
use xcm_auto_bank.Base.{
  ℕ, ⊤, Bool, true, false, not, Option, none, some, List, [], ◌∷◌, ◌++◌, if◌then◌else◌,
}
use xcm_auto_bank.Node.Rpc.{RpcLibraries, create_full}
use xcm_auto_bank.Base.Action.{Result, ok, err, Action, pure, raise_if, ◌>>=◌, ◌>>◌}

pub data Role : Type 0 where
  full light authority : Role

-- `sc_service::Configuration`, as far as it is read here; `rest` is what the libraries read of it.
pub record Configuration (H : Type 0) : Type 0 where
  pub rest : H
  pub telemetry_endpoints : Option (List H)
  pub wasm_method : H
  pub default_heap_pages : H
  pub max_runtime_instances : H
  pub transaction_pool : H
  pub role : Role
  pub force_authoring : Bool
  pub prometheus_registry : Option H

-- What `new_full_parts` makes.
pub record Parts (H : Type 0) : Type 0 where
  pub client : H
  pub backend : H
  pub keystore_container : H
  pub task_manager : H

-- `PartialComponents`; `other` is the pair of telemetry handles.
pub record PartialComponents (H : Type 0) : Type 0 where
  pub parts : Parts H
  pub import_queue : H
  pub transaction_pool : H
  pub telemetry : Option H
  pub telemetry_worker_handle : Option H

-- `polkadot_service::Error`: one of Substrate, or another, shown as a text.
pub data RelayError (E : Type 0) : Type 0 where
  sub : E → RelayError E
  otherwise : String → RelayError E

-- The calls that do something.
pub data Effect (H : Type 0) : Type 0 where
  worker_created full_parts_built : Effect H
  telemetry_spawned : H → Effect H
  pool_built : Bool → Effect H
  import_queue_built relay_node_built network_built tasks_spawned consensus_built : Effect H
  collator_started : ℕ → H → H → Effect H
  full_node_started : ℕ → H → Effect H
  network_started : H → Effect H

pub record Libraries (H E : Type 0) : Type 0 where
  pub text : String → E
  pub is_authority : Role → Bool
  pub new_worker : ℕ → Result E H
  pub new_telemetry : H → List H → H
  pub telemetry_handle : H → H
  pub worker_handle : H → H
  pub new_executor : H → H → H → H
  pub new_full_parts : Configuration H → Option H → H → Result E (Parts H)
  pub new_pool : H → Bool → Option H → H → H → H
  pub prepare_node_config : Configuration H → Configuration H
  pub build_polkadot_full_node : H → Option H → Result (RelayError E) H
  pub build_block_announce_validator : H → ℕ → H
  -- the network, the sender of system requests and the starter
  pub build_network : Configuration H → Parts H → H → H → H → Result E (H × H × H)
  -- the tasks of the node, and the servers of its RPC extensions
  pub spawn_tasks : Configuration H → PartialComponents H → H → H → (Bool → List H) → Result E ⊤
  pub rpc : RpcLibraries H H
  pub start_collator : Parts H → ℕ → H → H → H → H → Result E ⊤
  pub start_full_node : Parts H → ℕ → H → H → Result E ⊤

-- A call that may fail, and one that cannot.
abbrev pub attempt : {H E A : Type 0} → Effect H → Result E A → Action (List (Effect H)) E A
attempt e r log = (r, e ∷ log)

abbrev pub perform : {H E : Type 0} → Effect H → Action (List (Effect H)) E ⊤
perform e log = (ok tt, e ∷ log)

abbrev pub is_light : Role → Bool
is_light light = true
is_light _ = false

-- `.filter(|x| !x.is_empty())`
abbrev pub filter_empty : {H : Type 0} → Option (List H) → Option (List H)
filter_empty none = none
filter_empty (some []) = none
filter_empty (some (x ∷ xs)) = some (x ∷ xs)

-- `.map_err(|e| match e { .. })?`
abbrev pub relay_result : {E A : Type 0} → (String → E) → Result (RelayError E) A → Result E A
relay_result text (ok a) = ok a
relay_result text (err (sub e)) = err e
relay_result text (err (otherwise s)) = err (text s)

module _ {H E : Type 0} (L : Libraries H E) where
  -- The telemetry of `new_partial`: the worker and its connection, if there are endpoints.
  unfoldable pub new_telemetry_parts : Configuration H → Action (List (Effect H)) E (Option (H × H))
  new_telemetry_parts config = elim (filter_empty config.telemetry_endpoints) [
    | none ↦ pure none
    | some endpoints ↦ attempt worker_created (L.new_worker 16) >>= λ worker.
        pure (some (worker, L.new_telemetry worker endpoints))
  ]

  unfoldable pub new_partial :
      Configuration H
      → (H → Configuration H → Option H → H → Result E H)
      → Action (List (Effect H)) E (PartialComponents H)
  unfolding new_telemetry_parts
  new_partial config build_import_queue = do
    telemetry ← new_telemetry_parts config
    let handle = Option.map (λ t. L.telemetry_handle t.1) telemetry
    let executor =
        L.new_executor config.wasm_method config.default_heap_pages config.max_runtime_instances
    parts ← attempt full_parts_built (L.new_full_parts config handle executor)
    elim telemetry [ none ↦ pure tt | some t ↦ perform (telemetry_spawned t.0) ]
    perform (pool_built (L.is_authority config.role))
    import_queue ←
        attempt import_queue_built
          (build_import_queue parts.client config handle parts.task_manager)
    pure (record {
      parts = parts;
      import_queue = import_queue;
      transaction_pool =
          L.new_pool config.transaction_pool (L.is_authority config.role) config.prometheus_registry
            parts.task_manager parts.client;
      telemetry = Option.map (λ t. t.1) telemetry;
      telemetry_worker_handle = Option.map (λ t. L.worker_handle t.0) telemetry;
    })

  -- `rpc_extensions_builder`
  pub rpc_extensions : PartialComponents H → Bool → List H
  rpc_extensions params deny_unsafe = create_full L.rpc (record {
    client = params.parts.client;
    pool = params.transaction_pool;
    deny_unsafe = deny_unsafe;
  })

  -- `start_node_impl`, its middle: the relay chain's node, the network and the tasks, which serve
  -- the RPC extensions. The result is the node, the network and its starter.
  unfoldable pub connect :
      Configuration H → H → ℕ → PartialComponents H → Action (List (Effect H)) E (H × H × H)
  connect config polkadot_config id params = do
    relay ← attempt relay_node_built (
        relay_result L.text
          (L.build_polkadot_full_node polkadot_config params.telemetry_worker_handle))
    network ← attempt network_built (
        L.build_network config params.parts params.transaction_pool params.import_queue
          (L.build_block_announce_validator relay id))
    attempt tasks_spawned (L.spawn_tasks config params network.0 network.1 (rpc_extensions params))
    pure (relay, network.0, network.2)

  -- Its end: a validator collates, any other node follows.
  unfoldable pub take_part :
      Configuration H
      → ℕ
      → PartialComponents H
      → H
      → H
      → (Parts H → Option H → Option H → H → H → H → Bool → Result E H)
      → Action (List (Effect H)) E ⊤
  take_part config id params relay network build_consensus =
      if L.is_authority config.role
      then (do
        consensus ← attempt consensus_built (
            build_consensus params.parts config.prometheus_registry
              (Option.map L.telemetry_handle params.telemetry) relay params.transaction_pool network
              config.force_authoring)
        attempt (collator_started id relay consensus)
            (L.start_collator params.parts id network relay consensus params.import_queue))
      else attempt (full_node_started id relay) (L.start_full_node params.parts id network relay)

  -- `start_node_impl`
  unfoldable pub start_node_impl :
      Configuration H
      → H
      → ℕ
      → (H → Configuration H → Option H → H → Result E H)
      → (Parts H → Option H → Option H → H → H → H → Bool → Result E H)
      → Action (List (Effect H)) E (H × H)
  start_node_impl parachain_config polkadot_config id build_import_queue build_consensus = do
    raise_if (is_light parachain_config.role) (L.text "Light client not supported!")
    let config = L.prepare_node_config parachain_config
    params ← new_partial config build_import_queue
    connected ← connect config polkadot_config id params
    take_part config id params connected.0 connected.1 build_consensus
    perform (network_started connected.2)
    pure (params.parts.task_manager, params.parts.client)
