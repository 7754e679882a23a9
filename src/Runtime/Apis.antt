-- ===== src/Runtime/Apis.antt =====
-- What the runtime answers to its node, by calls of FRAME and of the pallets (runtime/src/lib.rs,
-- `impl_runtime_apis!`). `S` is the state of the chain; the other parameters are the libraries'
-- types.
use xcm_auto_bank.Base.{ℕ, Option, List}
use xcm_auto_bank.Runtime.Constants.{RuntimeVersion, version}

module _ (S Block Header Extrinsic Inherents Check Applied Source Validity AuraId : Type 0)
    (Metadata Info Fees Collation : Type 0) where
  -- `Aura`, `Executive`, the generated metadata and inherents, `SessionKeys`, `System`,
  -- `TransactionPayment` and `ParachainSystem`.
  pub record ApiLibraries : Type 0 where
    pub aura_slot_duration : S → ℕ
    pub aura_authorities : S → List AuraId
    pub executive_execute_block : Block → S → S
    pub executive_initialize_block : Header → S → S
    pub runtime_metadata : Metadata
    pub executive_apply_extrinsic : Extrinsic → S → Applied × S
    pub executive_finalize_block : S → Header × S
    pub create_extrinsics : Inherents → List Extrinsic
    pub check_extrinsics : Inherents → Block → Check
    pub executive_validate_transaction : Source → Extrinsic → ℕ → S → Validity
    pub executive_offchain_worker : Header → S → S
    pub session_keys_generate : Option (List ℕ) → S → List ℕ × S
    pub session_keys_decode_into_raw_public_keys : List ℕ → Option (List (List ℕ × ℕ))
    pub system_account_nonce : ℕ → S → ℕ
    pub transaction_payment_query_info : Extrinsic → ℕ → S → Info
    pub transaction_payment_query_fee_details : Extrinsic → ℕ → S → Fees
    pub parachain_system_collect_collation_info : S → Collation

  -- The calls of the node. Durations are in milliseconds.
  pub record RuntimeApis : Type 0 where
    pub slot_duration : S → ℕ
    pub authorities : S → List AuraId
    pub version : RuntimeVersion
    pub execute_block : Block → S → S
    pub initialize_block : Header → S → S
    pub metadata : Metadata
    pub apply_extrinsic : Extrinsic → S → Applied × S
    pub finalize_block : S → Header × S
    pub inherent_extrinsics : Inherents → List Extrinsic
    pub check_inherents : Block → Inherents → Check
    pub validate_transaction : Source → Extrinsic → ℕ → S → Validity
    pub offchain_worker : Header → S → S
    pub generate_session_keys : Option (List ℕ) → S → List ℕ × S
    pub decode_session_keys : List ℕ → Option (List (List ℕ × ℕ))
    pub account_nonce : ℕ → S → ℕ
    pub query_info : Extrinsic → ℕ → S → Info
    pub query_fee_details : Extrinsic → ℕ → S → Fees
    pub collect_collation_info : S → Collation

  pub runtime_apis : ApiLibraries → RuntimeApis
  runtime_apis K = record {
    slot_duration = λ s. K.aura_slot_duration s;
    authorities = λ s. K.aura_authorities s;
    version = version;
    execute_block = λ block s. K.executive_execute_block block s;
    initialize_block = λ header s. K.executive_initialize_block header s;
    metadata = K.runtime_metadata;
    apply_extrinsic = λ extrinsic s. K.executive_apply_extrinsic extrinsic s;
    finalize_block = λ s. K.executive_finalize_block s;
    inherent_extrinsics = λ inherents. K.create_extrinsics inherents;
    check_inherents = λ block inherents. K.check_extrinsics inherents block;
    validate_transaction =
        λ source tx block_hash s. K.executive_validate_transaction source tx block_hash s;
    offchain_worker = λ header s. K.executive_offchain_worker header s;
    generate_session_keys = λ seed s. K.session_keys_generate seed s;
    decode_session_keys = λ encoded. K.session_keys_decode_into_raw_public_keys encoded;
    account_nonce = λ account s. K.system_account_nonce account s;
    query_info = λ uxt len s. K.transaction_payment_query_info uxt len s;
    query_fee_details = λ uxt len s. K.transaction_payment_query_fee_details uxt len s;
    collect_collation_info = λ s. K.parachain_system_collect_collation_info s;
  }
