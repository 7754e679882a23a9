-- ===== src/Node/Service/Tests.antt =====
-- The start of a node at concrete inputs.
use Prim.Native.String.{String}
use xcm_auto_bank.Base.{ℕ, ◌≡◌, Bool, true, false, Option, none, some, [], ◌∷◌}
use xcm_auto_bank.Base.Action.{Result, ok, err}
use xcm_auto_bank.Node.Service.{
  authority, Configuration, Parts, Libraries, start_node_impl, connect, take_part, new_partial,
  new_telemetry_parts,
}
use xcm_auto_bank.Node.Service.Startup.{started, has_network, start_node_impl-Outcome}

-- Every object is a number.
abbrev pub numbers : Libraries ℕ String
numbers = record {
  text = λ s. s;
  is_authority = λ role. elim role [ authority ↦ true | _ ↦ false ];
  new_worker = λ n. ok n;
  new_telemetry = λ worker endpoints. 1;
  telemetry_handle = λ t. 2;
  worker_handle = λ w. 3;
  new_executor = λ method pages instances. 4;
  new_full_parts = λ config telemetry executor.
      ok (record { client = 5; backend = 6; keystore_container = 7; task_manager = 8 });
  new_pool = λ options validator registry spawner client. 9;
  prepare_node_config = λ config. config;
  build_polkadot_full_node = λ config worker. ok 10;
  build_block_announce_validator = λ relay id. 11;
  build_network = λ config parts pool queue announce. ok (12, 13, 14);
  spawn_tasks = λ config params network sender rpc. ok tt;
  rpc = record { full_system = λ client pool unsafe. 15; transaction_payment = λ client. 16 };
  start_collator = λ parts id network relay consensus queue. ok tt;
  start_full_node = λ parts id network relay. ok tt;
}

abbrev pub config : Configuration ℕ
config = record {
  rest = 0;
  telemetry_endpoints = some (17 ∷ []);
  wasm_method = 0;
  default_heap_pages = 0;
  max_runtime_instances = 0;
  transaction_pool = 0;
  role = authority;
  force_authoring = false;
  prometheus_registry = none;
}

abbrev queue : ℕ → Configuration ℕ → Option ℕ → ℕ → Result String ℕ
queue client c telemetry task_manager = ok 18

abbrev consensus : Parts ℕ → Option ℕ → Option ℕ → ℕ → ℕ → ℕ → Bool → Result String ℕ
consensus parts registry telemetry relay pool network force = ok 19

abbrev no_consensus : Parts ℕ → Option ℕ → Option ℕ → ℕ → ℕ → ℕ → Bool → Result String ℕ
no_consensus parts registry telemetry relay pool network force = err "no slot duration"

-- Without a slot duration there is no consensus, and the start fails.
start_node_impl-Outcome_example :
    has_network numbers config 20 2000 queue no_consensus
      (started numbers config 20 2000 queue no_consensus).1
    ≡ false
unfolding start_node_impl connect take_part new_partial new_telemetry_parts
start_node_impl-Outcome_example = start_node_impl-Outcome numbers config 20 2000 queue no_consensus
