-- ===== src/Node/ChainSpec.antt =====
-- The chain specifications (node/src/chain_spec.rs). How a seed becomes a key is the crypto
-- library's: `S` are the sr25519 keys, `K` the Aura ids, `A` the accounts.
pub mod Traverse
pub mod Genesis
mod Tests
use Prim.Native.String.{String, ◌++◌ as append}
use xcm_auto_bank.Base.{ℕ, ◌*◌, ◌^◌, Option, none, some, List, [], ◌∷◌, map}
use xcm_auto_bank.Runtime.{existential_deposit}

-- `Pair::from_string`, `none` where it fails, and `into_account`; `wasm_binary` is made by the
-- runtime's build.
pub record Keys (S K A : Type 0) : Type 0 where
  pub sr25519_from_string : String → Option S
  pub aura_from_string : String → Option K
  pub into_account : S → A
  pub wasm_binary : Option (List ℕ)

pub record SessionKeys (K : Type 0) : Type 0 where
  pub aura : K

pub record GenesisConfig (K A : Type 0) : Type 0 where
  pub code : List ℕ
  pub balances : List (A × ℕ)
  pub parachain_id : ℕ
  pub invulnerables : List A
  pub candidacy_bond : ℕ
  pub keys : List (A × A × SessionKeys K)

pub record Extensions : Type 0 where
  pub relay_chain : String
  pub para_id : ℕ

pub data ChainType : Type 0 where
  development local : ChainType

pub data Value : Type 0 where
  text : String → Value
  number : ℕ → Value

-- `genesis` is what the closure returns; `none` is a panic of one of its `expect`s.
pub record ChainSpec (K A : Type 0) : Type 0 where
  pub name : String
  pub id : String
  pub chain_type : ChainType
  pub genesis : Option (GenesisConfig K A)
  pub boot_nodes : List String
  pub protocol_id : Option String
  pub properties : Option (List (String × Value))
  pub extensions : Extensions

-- A value for each element, `none` if one of them panics.
pub traverse : {A B : Type 0} → (A → Option B) → List A → Option (List B)
traverse f [] = some []
traverse f (a ∷ rest) = elim (f a) [
  | none ↦ none
  | some b ↦ elim (traverse f rest) [ none ↦ none | some bs ↦ some (b ∷ bs) ]
]

-- The properties that both configurations build.
abbrev pub unit_properties : List (String × Value)
unit_properties =
    ("tokenSymbol", Value.text "UNIT")
    ∷ ("tokenDecimals", Value.number 12)
    ∷ ("ss58Format", Value.number 42)
    ∷ []

abbrev pub collator_seeds : List String
collator_seeds = "Alice" ∷ "Bob" ∷ []

abbrev pub endowed_seeds : List String
endowed_seeds =
    "Alice" ∷ "Bob" ∷ "Charlie" ∷ "Dave" ∷ "Eve" ∷ "Ferdie" ∷ "Alice//stash" ∷ "Bob//stash"
    ∷ "Charlie//stash" ∷ "Dave//stash" ∷ "Eve//stash" ∷ "Ferdie//stash" ∷ []

abbrev pub get_public_from_seed :
    {Public : Type 0} → (String → Option Public) → String → Option Public
get_public_from_seed from_string seed = from_string (append "//" seed)

abbrev pub template_session_keys : {K : Type 0} → K → SessionKeys K
template_session_keys aura = record { aura = aura }

module _ {S K A : Type 0} (keys : Keys S K A) where
  abbrev pub get_collator_keys_from_seed : String → Option K
  get_collator_keys_from_seed seed = get_public_from_seed keys.aura_from_string seed

  abbrev pub get_account_id_from_seed : String → Option A
  get_account_id_from_seed seed = elim (get_public_from_seed keys.sr25519_from_string seed) [
    | none ↦ none
    | some public ↦ some (keys.into_account public)
  ]

  -- One initial collator: its account and its Aura id.
  abbrev pub collator : String → Option (A × K)
  collator seed = elim (get_account_id_from_seed seed) [
    | none ↦ none
    | some acc ↦ elim (get_collator_keys_from_seed seed) [
      | none ↦ none
      | some aura ↦ some (acc, aura)
    ]
  ]

  pub testnet_genesis : List (A × K) → List A → ℕ → Option (GenesisConfig K A)
  testnet_genesis invulnerables endowed_accounts id = elim keys.wasm_binary [
    | none ↦ none
    | some code ↦ some (record {
      code = code;
      balances = map (λ k. (k, 2 ^ 60)) endowed_accounts;
      parachain_id = id;
      invulnerables = map (λ p. p.0) invulnerables;
      candidacy_bond = existential_deposit * 16;
      keys = map (λ p. (p.0, p.0, template_session_keys p.1)) invulnerables;
    })
  ]

  -- The closure of both configurations.
  pub configured_genesis : Option (GenesisConfig K A)
  configured_genesis = elim (traverse collator collator_seeds) [
    | none ↦ none
    | some invulnerables ↦ elim (traverse get_account_id_from_seed endowed_seeds) [
      | none ↦ none
      | some endowed ↦ testnet_genesis invulnerables endowed 2000
    ]
  ]

  -- The properties are built and not passed on.
  pub development_config : ChainSpec K A
  development_config = record {
    name = "Development";
    id = "dev";
    chain_type = development;
    genesis = configured_genesis;
    boot_nodes = [];
    protocol_id = none;
    properties = none;
    extensions = record { relay_chain = "rococo-local"; para_id = 2000 };
  }

  pub local_testnet_config : ChainSpec K A
  local_testnet_config = record {
    name = "Local Testnet";
    id = "local_testnet";
    chain_type = local;
    genesis = configured_genesis;
    boot_nodes = [];
    protocol_id = some "template-local";
    properties = some unit_properties;
    extensions = record { relay_chain = "rococo-local"; para_id = 2000 };
  }
