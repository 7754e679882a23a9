-- ===== src/Template/Tests.antt =====
-- Runs of the template pallet, and its theorem at a concrete input.
use xcm_auto_bank.Base.{◌-◌, ◌^◌, ◌≡◌, refl, none, some, [], ◌∷◌, arith}
use xcm_auto_bank.Base.Action.{err}
use xcm_auto_bank.Bank.{signer}
use xcm_auto_bank.Pallet.{module_error}
use xcm_auto_bank.Template.{
  Event, Error, Store, do_something, cause_error, repeated, cause_error_counts,
}

abbrev fresh : Store
fresh = record { something = none; events = [] }

unset : cause_error signer (some 1) fresh ≡ (err (module_error Error.none_value), fresh)
unfolding cause_error
unset = refl

-- Two below the largest `u32`, and five calls.
cause_error_counts_example :
    repeated signer 5 (some 1) (do_something signer (some 1) 4294967293 fresh).1
    ≡ record { something = some (2 ^ 32 - 1); events = Event.something_stored 4294967293 1 ∷ [] }
cause_error_counts_example =
    cause_error_counts signer (some 1) 1 refl 5 4294967293 fresh (ground arith)
