-- ===== src/Runtime/Weights.antt =====
-- How the weight of a block is shared out (runtime/src/lib.rs, `RuntimeBlockWeights`,
-- `ReservedXcmpWeight`, `ReservedDmpWeight` and `MaxDownwardMessageWeight`).
