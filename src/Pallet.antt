-- ===== src/Pallet.antt =====
-- The storage that both pallets keep (`Device` and `Orders`) beside the parts of the chain that
-- they read and write, and the actions that their calls are made of
-- (pallets/xchange/src/lib.rs, pallets/xchange-service/src/lib.rs).
use xcm_auto_bank.Base.{ℕ, ◌+◌, ◌%◌, ◌^◌, ⊤, Bool, List, [], ◌∷◌, ◌++◌}
use xcm_auto_bank.Base.Action.{Result, ok, err, Action, modify}
use xcm_auto_bank.Base.Map.{StorageMap, insert, remove}
use xcm_auto_bank.Common.{Order}
use xcm_auto_bank.Frame.{Config, parachain, Transact, native}

-- `D` is the device profile and `E` the events. Beside the two maps: the clock of
-- `pallet_timestamp`, the balances, the message queues and the events that were deposited.
pub record State (D E L Q P : Type 0) : Type 0 where
  pub devices : StorageMap D
  pub orders : StorageMap (Order P)
  pub now : ℕ
  pub ledger : L
  pub queues : Q
  pub events : List E

-- `DispatchError`: an error of the pallet, or one of FRAME and the currency, passed on by `?`.
pub data Failure (X F : Type 0) : Type 0 where
  module_error : X → Failure X F
  other : F → Failure X F

-- `Moment` is `u64`, and the runtime is built without overflow checks.
abbrev pub moment_mod : ℕ
moment_mod = 2 ^ 64

abbrev pub add_moment : ℕ → ℕ → ℕ
add_moment a b = (a + b) % moment_mod

-- `Xcm(vec![Instruction::Transact { .. }])`
abbrev pub transact : List ℕ → List Transact
transact call = record { origin_type = native; require_weight_at_most = 0; call = call } ∷ []

-- `r?` on a result of FRAME
abbrev pub try : {S X F A : Type 0} → Result F A → Action S (Failure X F) A
try (ok a) s = (ok a, s)
try (err f) s = (err (other f), s)

module _ {D E X L Q F P : Type 0} where
  abbrev pub deposit_event : E → Action (State D E L Q P) (Failure X F) ⊤
  deposit_event e = modify λ s. record s { events = s.events ++ e ∷ [] }

  abbrev pub set_device : ℕ → D → Action (State D E L Q P) (Failure X F) ⊤
  set_device id dev = modify λ s. record s { devices = insert id dev s.devices }

  abbrev pub set_order : ℕ → Order P → Action (State D E L Q P) (Failure X F) ⊤
  set_order device o = modify λ s. record s { orders = insert device o s.orders }

  abbrev pub remove_order : ℕ → Action (State D E L Q P) (Failure X F) ⊤
  remove_order device = modify λ s. record s { orders = remove device s.orders }

module _ {D E X L Q F O P : Type 0} (T : Config L Q F O P) where
  abbrev pub reserve : ℕ → ℕ → Action (State D E L Q P) (Failure X F) ⊤
  reserve who value s = elim (T.currency.reserve s.ledger who value) [
    | ok l ↦ (ok tt, record s { ledger = l })
    | err f ↦ (err (other f), s)
  ]

  -- What could not be released is returned, and the pallets drop it.
  abbrev pub unreserve : ℕ → ℕ → Action (State D E L Q P) (Failure X F) ⊤
  unreserve who value = modify λ s. record s { ledger = T.currency.unreserve s.ledger who value }

  abbrev pub repatriate_reserved : ℕ → ℕ → ℕ → Action (State D E L Q P) (Failure X F) ⊤
  repatriate_reserved slashed beneficiary value s =
      elim (T.currency.repatriate_reserved s.ledger slashed beneficiary value) [
        | ok l ↦ (ok tt, record s { ledger = l })
        | err f ↦ (err (other f), s)
      ]

  -- The message goes to a sibling parachain; the result tells whether it was sent.
  abbrev pub send_xcm : ℕ → List ℕ → Action (State D E L Q P) (Failure X F) Bool
  send_xcm para call s =
      let r =
        T.send_xcm s.queues (record { parents = 1; interior = parachain para }) (transact call) in
      (ok r.0, record s { queues = r.1 })
