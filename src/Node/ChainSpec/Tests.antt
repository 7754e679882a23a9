-- ===== src/Node/ChainSpec/Tests.antt =====
-- The theorem on the genesis states at concrete keys.
use Prim.Native.String.{String}
use xcm_auto_bank.Base.{refl, inl, some, List, [], ◌∷◌, map}
use xcm_auto_bank.Node.ChainSpec.{
  Keys, GenesisConfig, configured_genesis, development_config, testnet_genesis, traverse,
}
use xcm_auto_bank.Node.ChainSpec.Genesis.{IsConsistent, genesis-IsConsistent}

-- Every seed is its own key.
abbrev seeds : Keys String String String
seeds = record {
  sr25519_from_string = λ s. some s;
  aura_from_string = λ s. some s;
  into_account = λ s. s;
  wasm_binary = some (1 ∷ 2 ∷ []);
}

abbrev accounts : List String
accounts =
    "//Alice" ∷ "//Bob" ∷ "//Charlie" ∷ "//Dave" ∷ "//Eve" ∷ "//Ferdie" ∷ "//Alice//stash"
    ∷ "//Bob//stash" ∷ "//Charlie//stash" ∷ "//Dave//stash" ∷ "//Eve//stash" ∷ "//Ferdie//stash"
    ∷ []

abbrev genesis : GenesisConfig String String
genesis = record {
  code = 1 ∷ 2 ∷ [];
  balances = map (λ a. (a, 1152921504606846976)) accounts;
  parachain_id = 2000;
  invulnerables = "//Alice" ∷ "//Bob" ∷ [];
  candidacy_bond = 16000000000;
  keys =
      ("//Alice", "//Alice", record { aura = "//Alice" })
      ∷ ("//Bob", "//Bob", record { aura = "//Bob" })
      ∷ [];
}

genesis-IsConsistent_example : IsConsistent seeds 2000 genesis
unfolding development_config configured_genesis testnet_genesis traverse
genesis-IsConsistent_example =
    genesis-IsConsistent seeds (development_config seeds) genesis (inl refl) refl
