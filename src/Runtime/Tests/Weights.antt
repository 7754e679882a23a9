-- ===== src/Runtime/Tests/Weights.antt =====
-- The shares of a block's weight at concrete weights.
use xcm_auto_bank.Base.{ℕ, ◌*◌, ◌/◌, none}
use xcm_auto_bank.Runtime.Constants.{DispatchClass, WeightsPerClass}
use xcm_auto_bank.Runtime.Tests.Histories as Histories

-- The weight of a second, and of an extrinsic of 125 microseconds.
abbrev second : ℕ
second = 1000000000000

abbrev extrinsic : ℕ
extrinsic = 125000000

abbrev part_of : ℕ → ℕ → ℕ
part_of parts weight = parts * weight / 1000000000

abbrev unlimited : DispatchClass → WeightsPerClass
unlimited _ = record { base_extrinsic = 0; max_total = none; reserved = none }
