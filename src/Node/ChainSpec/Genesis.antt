-- ===== src/Node/ChainSpec/Genesis.antt =====
-- That the genesis state of both chain specifications fits together (node/src/chain_spec.rs).
use Prim.Native.String.{String}
use mathlib.Core.Path.{subst⁻¹}
use xcm_auto_bank.Base.{
  ℕ, ◌+◌, ◌*◌, ◌^◌, ◌≤◌, ◌≡◌, refl, sym, ap, ◌∙◌, ◌⊎◌, inl, inr, some, List, [], ◌∷◌, map, arith,
  Option-cases, some_inj,
}
use xcm_auto_bank.Base.Member.{IsIn, count}
use xcm_auto_bank.Node.ChainSpec.Traverse.{IsIn-map, IsIn-traverse, traverse-IsIn, count-traverse}
use xcm_auto_bank.Runtime.{existential_deposit}
use xcm_auto_bank.Runtime.Constants.{max_invulnerables, max_authorities}
use xcm_auto_bank.Node.ChainSpec.{
  Keys, GenesisConfig, SessionKeys, ChainSpec, traverse, collator, collator_seeds, endowed_seeds,
  get_account_id_from_seed, template_session_keys, testnet_genesis, configured_genesis,
  development_config, local_testnet_config,
}

-- What a list of balances adds up to.
abbrev pub issuance : {A : Type 0} → List (A × ℕ) → ℕ
issuance [] = 0
issuance (b ∷ rest) = b.1 + issuance rest

count-map : {A B : Type 0} (f : A → B) (xs : List A) → count (map f xs) ≡ count xs
count-map f [] = refl
count-map f (x ∷ rest) = omega (arith, count-map f rest)

issuance-map : {A : Type 0} (xs : List A) → issuance (map (λ k. (k, 2 ^ 60)) xs) ≡ count xs * 2 ^ 60
issuance-map [] = refl
issuance-map (x ∷ rest) = omega (arith, issuance-map rest)

module _ {S K A : Type 0} (keys : Keys S K A) where
  collator-account :
      (seed : String) (p : A × K)
      → collator keys seed ≡ some p
      → get_account_id_from_seed keys seed ≡ some p.0
  collator-account seed p e = ground arith

  abbrev account_of : A × K → A
  account_of p = p.0

  abbrev session_of : A × K → A × A × SessionKeys K
  session_of p = (p.0, p.0, template_session_keys p.1)

  map-fst :
      (xs : List (A × K))
      → map (λ (k : A × A × SessionKeys K). k.0) (map session_of xs) ≡ map account_of xs
  map-fst [] = refl
  map-fst (x ∷ rest) = ap (λ l. x.0 ∷ l) (map-fst rest)

  map-snd :
      (xs : List (A × K))
      → map (λ (k : A × A × SessionKeys K). k.1) (map session_of xs) ≡ map account_of xs
  map-snd [] = refl
  map-snd (x ∷ rest) = ap (λ l. x.0 ∷ l) (map-snd rest)

  IsIn-fst :
      (a : A) (xs : List (A × K))
      → IsIn a (map account_of xs)
      → (k : K) × IsIn {A = A × K} (a, k) xs
  IsIn-fst a [] h = absurd h
  IsIn-fst a (x ∷ rest) (inl e) = (x.1, inl (ap (λ b. (b, x.1)) e))
  IsIn-fst a (x ∷ rest) (inr h) = let (k, i) = IsIn-fst a rest h in (k, inr i)

  collators_endowed : (seed : String) → IsIn seed collator_seeds → IsIn seed endowed_seeds
  collators_endowed seed (inl e) = inl e
  collators_endowed seed (inr (inl e)) = inr (inl e)
  collators_endowed seed (inr (inr h)) = absurd h

  -- The collators among the endowed accounts.
  account_endowed :
      (cs : List (A × K)) (es : List A)
      → traverse (collator keys) collator_seeds ≡ some cs
      → traverse (get_account_id_from_seed keys) endowed_seeds ≡ some es
      → (a : A) → IsIn a (map account_of cs)
      → IsIn {A = A × ℕ} (a, 2 ^ 60) (map (λ k. (k, 2 ^ 60)) es)
  account_endowed cs es c e a h =
      let (k, i) = IsIn-fst a cs h in
      let (seed, is_seed, derived) = IsIn-traverse (collator keys) collator_seeds cs c (a, k) i in
      IsIn-map (λ b. (b, 2 ^ 60)) a es
        (traverse-IsIn (get_account_id_from_seed keys) endowed_seeds es e seed a
          (collators_endowed seed is_seed) (collator-account seed (a, k) derived))

  -- What a genesis state is for the id of a parachain.
  pub record IsConsistent (id : ℕ) (g : GenesisConfig K A) : Type 0 where
    pub for_parachain : g.parachain_id ≡ id
    pub session_accounts : map (λ k. k.0) g.keys ≡ g.invulnerables
    pub session_validators : map (λ k. k.1) g.keys ≡ g.invulnerables
    pub collators_funded :
        (a : A) → IsIn a g.invulnerables → IsIn {A = A × ℕ} (a, 2 ^ 60) g.balances
    pub bond_affordable : g.candidacy_bond + existential_deposit ≤ 2 ^ 60
    pub invulnerables_fit : count g.invulnerables ≤ max_invulnerables
    pub authorities_fit : count g.keys ≤ max_authorities
    pub total : issuance g.balances ≡ 12 * 2 ^ 60

  testnet_genesis-IsConsistent :
      (cs : List (A × K)) (es : List A) (g : GenesisConfig K A) (id : ℕ)
      → traverse (collator keys) collator_seeds ≡ some cs
      → traverse (get_account_id_from_seed keys) endowed_seeds ≡ some es
      → testnet_genesis keys cs es id ≡ some g
      → IsConsistent id g
  unfolding testnet_genesis
  testnet_genesis-IsConsistent cs es g id c e h = elim (Option-cases keys.wasm_binary) [
    | inl missing ↦ absurd (ground arith)
    | inr (code, there) ↦
        subst⁻¹ (IsConsistent id) (some_inj g (built code) (ground arith)) (record {
          for_parachain = refl;
          session_accounts = map-fst cs;
          session_validators = map-snd cs;
          collators_funded = account_endowed cs es c e;
          bond_affordable = omega arith;
          invulnerables_fit =
              omega (
                arith,
                count-map account_of cs,
                count-traverse (collator keys) collator_seeds cs c,
              );
          authorities_fit =
              omega (
                arith,
                count-map session_of cs,
                count-traverse (collator keys) collator_seeds cs c,
              );
          total =
              issuance-map es
              ∙ ap (λ n. n * 2 ^ 60)
                  (count-traverse (get_account_id_from_seed keys) endowed_seeds es e);
        })
  ]
    where
      built : List ℕ → GenesisConfig K A
      built code = record {
        code = code;
        balances = map (λ k. (k, 2 ^ 60)) es;
        parachain_id = id;
        invulnerables = map account_of cs;
        candidacy_bond = existential_deposit * 16;
        keys = map session_of cs;
      }

  configured_genesis-IsConsistent :
      (g : GenesisConfig K A) → configured_genesis keys ≡ some g → IsConsistent 2000 g
  unfolding configured_genesis
  configured_genesis-IsConsistent g h =
      elim (Option-cases (traverse (collator keys) collator_seeds)) [
        | inl missing ↦ absurd (ground arith)
        | inr (cs, c) ↦
            elim (Option-cases (traverse (get_account_id_from_seed keys) endowed_seeds)) [
              | inl missing ↦ absurd (ground arith)
              | inr (es, d) ↦ testnet_genesis-IsConsistent cs es g 2000 c d (ground arith)
            ]
      ]

  -- If the genesis state of one of the two built-in specifications can be built, it is for the
  -- parachain that the specification's extension names, it gives every initial collator session
  -- keys under its own account and more than its bond, it endows its accounts with twelve times
  -- 2 ^ 60 in all, and its collators are no more than the runtime's limits on invulnerable
  -- collators and on authorities.
  pub genesis-IsConsistent :
      (spec : ChainSpec K A) (g : GenesisConfig K A)
      → (spec ≡ development_config keys) ⊎ (spec ≡ local_testnet_config keys)
      → spec.genesis ≡ some g
      → IsConsistent spec.extensions.para_id g
  unfolding development_config local_testnet_config
  genesis-IsConsistent spec g (inl e) h =
      subst⁻¹ (λ c. IsConsistent c.extensions.para_id g) e
        (configured_genesis-IsConsistent g (ap (λ c. c.genesis) (sym e) ∙ h))
  genesis-IsConsistent spec g (inr e) h =
      subst⁻¹ (λ c. IsConsistent c.extensions.para_id g) e
        (configured_genesis-IsConsistent g (ap (λ c. c.genesis) (sym e) ∙ h))
