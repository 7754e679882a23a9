-- ===== src/Node/Rpc.antt =====
-- The RPC extensions of a node (node/src/rpc.rs). The methods are the libraries'.
use xcm_auto_bank.Base.{Bool, List, [], ◌∷◌, ◌++◌}

-- `deny_unsafe` is `DenyUnsafe::Yes` or `No`.
pub record FullDeps (H : Type 0) : Type 0 where
  pub client : H
  pub pool : H
  pub deny_unsafe : Bool

-- The methods of `FullSystem` and of `TransactionPayment`, as delegates.
pub record RpcLibraries (H D : Type 0) : Type 0 where
  pub full_system : H → H → Bool → D
  pub transaction_payment : H → D

-- `create_full`: the handler is the delegates that it was extended with, the first one first.
pub create_full : {H D : Type 0} → RpcLibraries H D → FullDeps H → List D
create_full R deps =
    ([] ++ (R.full_system deps.client deps.pool deps.deny_unsafe ∷ []))
    ++ (R.transaction_payment deps.client ∷ [])
