-- ===== src/Service/Clock.antt =====
-- No step turns back the clock (pallets/xchange-service/src/lib.rs): the pallet only reads it.
use xcm_auto_bank.Base.{ℕ, ◌≤◌, ◌≡◌, refl, Bool, true, false, Option, some, arith, inl, inr}
use xcm_auto_bank.Base.Action.{Result-cases}
use xcm_auto_bank.Base.Map.{lookup, remove}
use xcm_auto_bank.Common.{Order, OrderBase}
use xcm_auto_bank.Pallet.{try}
use xcm_auto_bank.Service.{
  ServiceConfig, DeviceProfile, Store, order_received, order, order_reject, order_done,
  order_accept, register, set_state, on_killed_account,
}
use xcm_auto_bank.Service.Cases.{cancel_cases, accept_cases, decline_cases, done_cases}
use xcm_auto_bank.Service.Messages.{handle_xcmp_messages_inv}
use xcm_auto_bank.Service.Receiving.{order_received_cases}
use xcm_auto_bank.Service.Steps.{Step}

module _ {L Q F O P : Type 0} (T : ServiceConfig L Q F O P) where
  module _ (s : Store L Q P) where
    order_received-now : (o : Order P) (device : ℕ) → (order_received T o device s).1.now ≡ s.now
    order_received-now o device =
        order_received_cases T o device s (λ r. r.1.now ≡ s.now) (λ e. refl)
          (λ known state l₁ f c e k p q. refl) (λ known state c e. refl)
          λ known state l₁ l₂ c e p q. refl

    order-now : (origin : O) (o : OrderBase P) → (order T origin o s).1.now ≡ s.now
    unfolding order
    order-now origin o = elim (Result-cases (T.ensure_signed origin)) [
      | inr (f, i) ↦ rw (i, try) refl
      | inl (who, i) ↦ rw (i, try) (order_received-now _ o.device)
    ]

    order_reject-now :
        (found : Option (Order P)) (now device : ℕ) (dev : DeviceProfile) (onoff : Bool)
        → (order_reject T found now device dev onoff s).1.now ≡ s.now
    unfolding order_reject
    order_reject-now found now device dev onoff = ground arith

    order_done-now :
        (o : Order P) (now device : ℕ) (dev : DeviceProfile) (onoff : Bool)
        → (order_done T o now device dev onoff s).1.now ≡ s.now
    unfolding order_done
    order_done-now o now device dev onoff = ground arith

    order_accept-now :
        (o : Order P) (device : ℕ) (dev : DeviceProfile)
        → (order_accept T o device dev s).1.now ≡ s.now
    unfolding order_accept
    order_accept-now o device dev = ground arith

    register-now :
        (origin : O) (penalty wcd : ℕ) (onoff : Bool)
        → (register T origin penalty wcd onoff s).1.now ≡ s.now
    unfolding register
    register-now origin penalty wcd onoff = ground arith

    set_state-now : (origin : O) (onoff : Bool) → (set_state T origin onoff s).1.now ≡ s.now
    unfolding set_state
    set_state-now origin onoff = ground arith

    on_killed_account-now : (who : ℕ) → (on_killed_account T who s).now ≡ s.now
    unfolding on_killed_account
    on_killed_account-now who = ground arith

  pub Step-now : {s t : Store L Q P} → Step T s t → s.now ≤ t.now
  Step-now {s} (Step.orders origin o) = omega (arith, order-now s origin o)
  Step-now {s} (Step.cancels origin device) =
      cancel_cases T (λ r. s.now ≤ r.1.now) origin device s (λ e. omega arith)
        λ who o dev _ _ _ _ _. omega (arith, order_reject-now s (some o) s.now device dev false)
  Step-now {s} (Step.accepts origin true onoff) =
      decline_cases T (λ r. s.now ≤ r.1.now) origin onoff s (λ e. omega arith)
        λ id dev _ _ _. omega (arith, order_reject-now s (lookup id s.orders) s.now id _ onoff)
  Step-now {s} (Step.accepts origin false onoff) =
      accept_cases T (λ r. s.now ≤ r.1.now) origin onoff s (λ e. omega arith)
        λ id o dev _ _ _ _ _. omega (arith, order_accept-now s o id dev)
  Step-now {s} (Step.completes origin onoff) =
      done_cases T (λ r. s.now ≤ r.1.now) origin onoff s (λ e. omega arith)
        λ id o dev _ _ _ _.
          omega
            (arith, order_done-now (record s { orders = remove id s.orders }) o s.now id dev onoff)
  Step-now {s} (Step.registers origin penalty wcd onoff) =
      omega (arith, register-now s origin penalty wcd onoff)
  Step-now {s} (Step.switches origin onoff) = omega (arith, set_state-now s origin onoff)
  Step-now {s} (Step.receives batch max_weight) =
      handle_xcmp_messages_inv T (λ t. s.now ≤ t.now)
        (λ o device t h. omega (arith, h, order_received-now t o device)) batch max_weight s
        (omega arith)
  Step-now {s} (Step.reaps who) = omega (arith, on_killed_account-now s who)
  Step-now (Step.elsewhere now ledger queues events later) = later
