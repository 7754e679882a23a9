-- ===== src/Runtime/Xcm.antt =====
-- Which XCM the runtime executes (runtime/src/lib.rs, `Barrier` and
-- `ParentOrParentsExecutivePlurality`).
use xcm_auto_bank.Base.{ℕ, ◌≤◌, ◌<◌, ◌≡◌, ◌⊎◌, Bool, true, false, List, ◌||◌, ◌==◌, arith}
use xcm_auto_bank.Frame.{MultiLocation, here, parachain, plurality, BodyId, executive, Transact}
use xcm_auto_bank.Pallet.{transact}

-- `match_type!`: the parent, and the plurality of its executive.
unfoldable pub parent_or_parents_executive_plurality : MultiLocation → Bool
parent_or_parents_executive_plurality origin = elim origin.interior [
  | here ↦ origin.parents == 1
  | parachain _ ↦ false
  | plurality b ↦ elim b [ executive ↦ origin.parents == 1 | BodyId.body _ ↦ false ]
]

-- The barriers of the XCM builder; `M` are the messages. A barrier tells whether a message from
-- an origin may be executed, given the weight that it needs at most and the credit for it.
pub record Barriers (M : Type 0) : Type 0 where
  pub take_weight_credit : MultiLocation → M → ℕ → ℕ → Bool
  pub allow_top_level_paid_execution_from :
      (MultiLocation → Bool) → MultiLocation → M → ℕ → ℕ → Bool
  pub allow_unpaid_execution_from : (MultiLocation → Bool) → MultiLocation → M → ℕ → ℕ → Bool
  -- the message of the pallets' instructions
  pub of_transact : List Transact → M

-- What the XCM builder documents: credit is taken where it covers the weight, execution is paid
-- for by messages that put assets in holding, and unpaid execution is for the listed origins.
pub record IsDocumented {M : Type 0} (b : Barriers M) : Type 0 where
  pub credit_covers :
      (origin : MultiLocation) (m : M) (max_weight credit : ℕ)
      → b.take_weight_credit origin m max_weight credit ≡ true
      → max_weight ≤ credit
  pub transact_unpaid :
      (listed : MultiLocation → Bool) (origin : MultiLocation) (call : List ℕ)
      (max_weight credit : ℕ)
      → b.allow_top_level_paid_execution_from listed origin
          (b.of_transact (transact call))
          max_weight
          credit
        ≡ false
  pub unpaid_listed :
      (listed : MultiLocation → Bool) (origin : MultiLocation) (m : M) (max_weight credit : ℕ)
      → b.allow_unpaid_execution_from listed origin m max_weight credit ≡ true
      → listed origin ≡ true

-- `Barrier`: a tuple of barriers lets pass what one of them lets pass. `Everything` lists every
-- origin.
unfoldable pub barrier : {M : Type 0} → Barriers M → MultiLocation → M → ℕ → ℕ → Bool
barrier b origin m max_weight credit =
    b.take_weight_credit origin m max_weight credit
    || b.allow_top_level_paid_execution_from (λ _. true) origin m max_weight credit
    || b.allow_unpaid_execution_from parent_or_parents_executive_plurality origin m max_weight
        credit

-- If the barriers of the XCM builder do as documented, and the credit does not cover the weight of
-- a message: where the runtime's barrier lets pass the `Transact` that the pallets send, the origin
-- is the parent or the plurality of its executive, so it is no sibling parachain.
pub barrier-transact :
    {M : Type 0} (b : Barriers M) (origin : MultiLocation) (call : List ℕ) (max_weight credit : ℕ)
    → IsDocumented b
    → credit < max_weight
    → barrier b origin (b.of_transact (transact call)) max_weight credit ≡ true
    → (origin.parents ≡ 1) × ((origin.interior ≡ here) ⊎ (origin.interior ≡ plurality executive))
unfolding barrier parent_or_parents_executive_plurality
barrier-transact b origin call max_weight credit doc poor passes = ground (
  arith,
  doc.credit_covers origin (b.of_transact (transact call)) max_weight credit,
  doc.transact_unpaid (λ (_ : MultiLocation). true) origin call max_weight credit,
  doc.unpaid_listed parent_or_parents_executive_plurality origin (b.of_transact (transact call))
      max_weight credit,
)
