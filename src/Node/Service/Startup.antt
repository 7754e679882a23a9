-- ===== src/Node/Service/Startup.antt =====
-- In which order a node is started, and what a failed start has not done
-- (node/src/service.rs, `start_node_impl`).
use mathlib.Core.Path.{ap₂, subst⁻¹}
use xcm_auto_bank.Base.{
  ℕ, ◌≡◌, refl, inl, inr, Bool, true, false, Option, none, some, List, [], ◌∷◌, arith,
}
use xcm_auto_bank.Base.Action.{Result, ok, err, Result-cases}
use xcm_auto_bank.Node.Service.{
  Libraries, Configuration, Parts, PartialComponents, Effect, worker_created, full_parts_built,
  telemetry_spawned, pool_built, import_queue_built, relay_node_built, network_built, tasks_spawned,
  consensus_built, collator_started, full_node_started, network_started, start_node_impl,
  new_partial, new_telemetry_parts, connect, take_part, is_light,
}

module _ {H E : Type 0} (L : Libraries H E) (config : Configuration H) (polkadot_config : H)
    (id : ℕ) (build_import_queue : H → Configuration H → Option H → H → Result E H)
    (build_consensus : Parts H → Option H → Option H → H → H → H → Bool → Result E H) where
  abbrev pub started : Result E (H × H) × List (Effect H)
  started = start_node_impl L config polkadot_config id build_import_queue build_consensus []

  -- The calls of `new_partial` when it succeeds, with telemetry and without, the last one first.
  abbrev pub IsPrepared : Bool → Bool → List (Effect H) → Type 0
  IsPrepared true v
        (import_queue_built
          ∷ pool_built w
          ∷ telemetry_spawned worker
          ∷ full_parts_built
          ∷ worker_created
          ∷ []) =
      v ≡ w
  IsPrepared false v (import_queue_built ∷ pool_built w ∷ full_parts_built ∷ []) = v ≡ w
  IsPrepared _ _ _ = ⊥

  abbrev pub prepared : Configuration H
  prepared = L.prepare_node_config config

  -- There are endpoints to send telemetry to.
  abbrev pub has_endpoints : Option (List H) → Bool
  has_endpoints none = false
  has_endpoints (some []) = false
  has_endpoints (some (_ ∷ _)) = true

  abbrev pub Prepares : List (Effect H) → Type 0
  Prepares = IsPrepared (has_endpoints prepared.telemetry_endpoints) (L.is_authority prepared.role)

  -- The calls of a start, the last one first, if the node is an authority and if it is not.
  abbrev pub Boots : Bool → List (Effect H) → Type 0
  Boots true
        (network_started starter
          ∷ collator_started para relay consensus
          ∷ consensus_built
          ∷ tasks_spawned
          ∷ network_built
          ∷ relay_node_built
          ∷ rest) =
      (para ≡ id) × Prepares rest
  Boots false
        (network_started starter
          ∷ full_node_started para relay
          ∷ tasks_spawned
          ∷ network_built
          ∷ relay_node_built
          ∷ rest) =
      (para ≡ id) × Prepares rest
  Boots _ _ = ⊥

  new_partial-Prepares :
      (p : PartialComponents H)
      → (new_partial L prepared build_import_queue []).0 ≡ ok p
      → Prepares (new_partial L prepared build_import_queue []).1
  unfolding new_partial new_telemetry_parts
  new_partial-Prepares p h = ground arith

  connect_log :
      (p : PartialComponents H) (r : H × H × H) (log : List (Effect H))
      → (connect L prepared polkadot_config id p log).0 ≡ ok r
      → (connect L prepared polkadot_config id p log).1
        ≡ tasks_spawned ∷ network_built ∷ relay_node_built ∷ log
  unfolding connect
  connect_log p r log h = ground arith

  take_part-Boots :
      (p : PartialComponents H) (relay network starter : H) (log : List (Effect H))
      → Prepares log
      → let after =
          take_part L prepared id p relay network build_consensus
            (tasks_spawned ∷ network_built ∷ relay_node_built ∷ log) in
        after.0 ≡ ok tt → Boots (L.is_authority prepared.role) (network_started starter ∷ after.1)
  unfolding take_part
  take_part-Boots p relay network starter log c h = ground arith

  not_light : (r : H × H) → started.0 ≡ ok r → is_light config.role ≡ false
  unfolding start_node_impl
  not_light r h = ground arith

  partial_failed :
      (f : E)
      → (new_partial L prepared build_import_queue []).0 ≡ err f
      → (r : H × H) → started.0 ≡ ok r
      → ⊥
  unfolding start_node_impl
  partial_failed f e r h = ground arith

  -- The rest of a start that succeeds, from what `new_partial` left.
  from_connect :
      (p : PartialComponents H) (log : List (Effect H))
      → new_partial L prepared build_import_queue [] ≡ (ok p, log)
      → Prepares log
      → (r : H × H) → started.0 ≡ ok r
      → Boots (L.is_authority prepared.role) started.1
  unfolding start_node_impl
  from_connect p log e c r h =
      let built = (tasks_spawned ∷ network_built ∷ relay_node_built ∷ log) in
      elim (Result-cases (connect L prepared polkadot_config id p log).0) [
        | inr (f, k) ↦ absurd (ground arith)
        | inl ((relay, network, starter), k) ↦
            let logged = connect_log p (relay, network, starter) log k in
            elim (Result-cases (take_part L prepared id p relay network build_consensus built).0) [
              | inr (f, m) ↦ absurd (ground arith)
              | inl (tt, m) ↦
                  subst⁻¹ (Boots (L.is_authority prepared.role)) (ground arith)
                    (take_part-Boots p relay network starter log c m)
            ]
      ]

  start_node_ok :
      (r : H × H)
      → started.0 ≡ ok r
      → (is_light config.role ≡ false) × Boots (L.is_authority prepared.role) started.1
  start_node_ok r h = (
    not_light r h,
    elim (Result-cases (new_partial L prepared build_import_queue []).0) [
      | inr (f, e) ↦ absurd (partial_failed f e r h)
      | inl (p, e) ↦
          from_connect p (new_partial L prepared build_import_queue []).1
            (ap₂ (λ x y. (x, y)) e refl) (new_partial-Prepares p e) r h
    ],
  )

  abbrev pub has_network : List (Effect H) → Bool
  has_network [] = false
  has_network (network_started h ∷ rest) = true
  has_network (_ ∷ rest) = has_network rest

  start_node_failed : (e : E) → started.0 ≡ err e → has_network started.1 ≡ false
  unfolding start_node_impl connect take_part new_partial new_telemetry_parts
  start_node_failed e h = ground arith

  -- What a start has done, by its result.
  abbrev pub Outcome : Result E (H × H) → List (Effect H) → Type 0
  Outcome (ok r) log = (is_light config.role ≡ false) × Boots (L.is_authority prepared.role) log
  Outcome (err e) log = has_network log ≡ false

  outcome : (r : Result E (H × H)) → started.0 ≡ r → Outcome r started.1
  outcome (ok r) h = start_node_ok r h
  outcome (err e) h = start_node_failed e h

  -- A start that succeeds is not one of a light client. It has made these calls, each once and in
  -- this order: the telemetry worker, if there are endpoints, the parts, the telemetry task, if
  -- there are endpoints, the pool, of a validator for an authority, the import queue, the relay
  -- chain's node, the network, the tasks, then the consensus and the collator of an authority, or
  -- else the full node, for the given parachain, and at last the start of the network. A start that
  -- fails, wherever it does, has not started the network.
  pub start_node_impl-Outcome : Outcome started.0 started.1
  start_node_impl-Outcome = outcome started.0 refl
