-- ===== src/Runtime/Tests.antt =====
-- The theorems on the runtime at concrete inputs.
mod Histories
mod Refusal
mod Weights
use xcm_auto_bank.Base.{ℕ, ◌+◌, ◌*◌, ◌/◌, ◌≤◌, ◌<◌, arith}
use xcm_auto_bank.Runtime.{milliunit, polynomial}
use xcm_auto_bank.Base.{◌≡◌, ◌≢◌, ◌⊎◌, refl, true, false, Option, some, List, [], ◌∷◌, leb}
use xcm_auto_bank.Frame.{Transact}
use xcm_auto_bank.Runtime.Xcm.{
  Barriers, IsDocumented, barrier, parent_or_parents_executive_plurality, barrier-transact,
}
use xcm_auto_bank.Base.Action.{ok}
use xcm_auto_bank.Bank.{Ledger, Queues, BankError, chain, funds}
use xcm_auto_bank.Common.{OrderBase}
use xcm_auto_bank.Runtime.{on_received}
use xcm_auto_bank.Runtime.Accepting.{accept_never_ok}
use xcm_auto_bank.Service.{ServiceConfig, Store, order, accept, register}
use xcm_auto_bank.Service.Steps.{Step, Reach}

-- Credit must cover the weight, the only messages are unpaid, and the listed origins are unpaid.
abbrev pub barriers : Barriers (List Transact)
barriers = record {
  take_weight_credit = λ origin m max_weight credit. leb max_weight credit;
  allow_top_level_paid_execution_from = λ listed origin m max_weight credit. false;
  allow_unpaid_execution_from = λ listed origin m max_weight credit. listed origin;
  of_transact = λ instructions. instructions;
}

pub barriers-IsDocumented : IsDocumented barriers
barriers-IsDocumented = record {
  credit_covers = λ origin m max_weight credit h. ground arith;
  transact_unpaid = λ listed origin call max_weight credit. refl;
  unpaid_listed = λ listed origin m max_weight credit h. h;
}
