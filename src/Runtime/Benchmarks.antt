-- ===== src/Runtime/Benchmarks.antt =====
-- The benchmarks that the runtime lists and runs (runtime/src/lib.rs, `runtime-benchmarks`).
use Prim.Native.String.{String}
use xcm_auto_bank.Base.{List, [], ◌∷◌}
use xcm_auto_bank.Base.Action.{Result, ok, err}

-- A benchmark by the name of its pallet and the type that runs it.
pub data Suite : Type 0 where
  system_bench balances_bench timestamp_bench collator_selection_bench : Suite
  session_bench session_pallet_bench : Suite

pub data BenchName : Type 0 where
  frame_system pallet_balances pallet_timestamp pallet_collator_selection : BenchName
  pallet_session : BenchName

-- `list_benchmark!` and `add_benchmark!`, with the keys that are not counted, and the storage
-- info. `add_benchmark!` returns from the function where the benchmark fails.
pub record BenchLibraries (C B E I Z : Type 0) : Type 0 where
  pub list_benchmark : C → BenchName → Suite → List I → List I
  pub add_benchmark : B → List String → BenchName → Suite → List E → Result String (List E)
  pub storage_info : Z

-- The keys of the block number, the issuance, the execution phase, the event count and the events.
abbrev pub whitelist : List String
whitelist =
    "26aa394eea5630e07c48ae0c9558cef702a5c1b19ab7a04f536c519aca4983ac"
    ∷ "c2261276cc9d1f8598ea4b6a74b15c2f57c875e4cff74148e4628f264b974c80"
    ∷ "26aa394eea5630e07c48ae0c9558cef7ff553b5a9862a516939d82b3d3d8661a"
    ∷ "26aa394eea5630e07c48ae0c9558cef70a98fdbe9ce6c55837576c60c7af3850"
    ∷ "26aa394eea5630e07c48ae0c9558cef780d41e5e16056765bc8461851072c9d7" ∷ []

-- What is listed, and what is run.
abbrev pub listed_suites : List (BenchName × Suite)
listed_suites =
    (frame_system, system_bench)
    ∷ (pallet_balances, balances_bench)
    ∷ (pallet_timestamp, timestamp_bench)
    ∷ (pallet_collator_selection, collator_selection_bench)
    ∷ []

abbrev pub added_suites : List (BenchName × Suite)
added_suites =
    (frame_system, system_bench)
    ∷ (pallet_balances, balances_bench)
    ∷ (pallet_session, session_bench)
    ∷ (pallet_timestamp, timestamp_bench)
    ∷ (pallet_collator_selection, collator_selection_bench)
    ∷ (pallet_session, session_pallet_bench)
    ∷ []

module _ {C B E I Z : Type 0} (K : BenchLibraries C B E I Z) where
  list_all : C → List (BenchName × Suite) → List I → List I
  list_all extra [] list = list
  list_all extra ((name, suite) ∷ rest) list =
      list_all extra rest (K.list_benchmark extra name suite list)

  -- `benchmark_metadata`
  pub benchmark_metadata : C → List I × Z
  benchmark_metadata extra = (list_all extra listed_suites [], K.storage_info)

  add_all : B → List (BenchName × Suite) → List E → Result String (List E)
  add_all config [] batches = ok batches
  add_all config ((name, suite) ∷ rest) batches =
      elim (K.add_benchmark config whitelist name suite batches) [
        | err e ↦ err e
        | ok more ↦ add_all config rest more
      ]

  -- The end of `dispatch_benchmark`.
  abbrev pub any_found : List E → Result String (List E)
  any_found [] = err "Benchmark not found for this pallet."
  any_found (b ∷ rest) = ok (b ∷ rest)

  -- `dispatch_benchmark`
  pub dispatch_benchmark : B → Result String (List E)
  dispatch_benchmark config = elim (add_all config added_suites []) [
    | err e ↦ err e
    | ok batches ↦ any_found batches
  ]
