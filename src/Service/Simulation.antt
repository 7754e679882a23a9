-- ===== src/Service/Simulation.antt =====
-- The service pallet takes every device through the machine of `Lifecycle`, move by move
-- (pallets/xchange-service/src/lib.rs).
use xcm_auto_bank.Base.{
  ℕ, ◌≡◌, refl, ◌⊎◌, inl, inr, ⊤, true, false, Option, some, [], arith, if◌then◌else◌, ◌==◌,
  Bool-cases,
}
use xcm_auto_bank.Base.Action.{Result-cases}
use xcm_auto_bank.Base.Map.{lookup, insert, lookup-insert}
use xcm_auto_bank.Common.{DeviceState, ready, accepted, state_eq, Order, OrderBase}
use xcm_auto_bank.Pallet.{try}
use xcm_auto_bank.Service.{ServiceConfig, DeviceProfile, Store, order_received, order}
use xcm_auto_bank.Service.Cases.{cancel_cases, accept_cases, decline_cases, done_cases}
use xcm_auto_bank.Service.Invariant.{IsSound, IsWf, IsWf-genesis}
use xcm_auto_bank.Service.Lifecycle.{Phase, away, vacant, offered, agreed, phase, Moves}
use xcm_auto_bank.Service.Messages.{handle_xcmp_messages_inv}
use xcm_auto_bank.Service.Receiving.{Receivable, order_received_cases}
use xcm_auto_bank.Service.Refinement.{
  view, rests, register-Moves, set_state-Moves, on_killed_account-Moves, order_accept-Moves,
  order_reject-Moves, order_done-Moves,
}
use xcm_auto_bank.Service.Steps.{Step, Reach, Reach-IsWf}

abbrev IsTaken : {P : Type 0} → Phase P → Type 0
IsTaken (offered _) = ⊤
IsTaken (agreed _) = ⊤
IsTaken _ = ⊥

-- An order is booked, or nothing changes.
abbrev Books : {P : Type 0} → Phase P → Phase P → Type 0
Books p q = (p ≡ q) ⊎ ((p ≡ vacant ready) × IsTaken q)

-- The second of two bookings finds the device taken.
Books-trans : {P : Type 0} (p q r : Phase P) → Books p q → Books q r → Books p r
Books-trans p q r (inl e) h = rw e h
Books-trans p q r (inr (e, taken)) (inl f) = inr (e, rw (← f) taken)
Books-trans p q r (inr (e, taken)) (inr (f, _)) = absurd (rw f at taken)

Books-Moves :
    {P : Type 0} (o : Option (Order P)) (dev : Option DeviceProfile) (q : Phase P)
    → Books (phase o dev) q
    → Moves (phase o dev) q
Books-Moves o dev q (inl e) = rw (← e) (rests o dev)
Books-Moves o dev (offered _) (inr (e, _)) = rw e refl
Books-Moves o dev (agreed _) (inr (e, _)) = rw e refl
Books-Moves o dev away (inr (_, taken)) = absurd taken
Books-Moves o dev (vacant _) (inr (_, taken)) = absurd taken

module _ {L Q F O P : Type 0} (T : ServiceConfig L Q F O P) (sound : IsSound T) (d : ℕ) where
  order_received-Books :
      (s : Store L Q P) (o : Order P) (device : ℕ)
      → Books (view T d s) (view T d (order_received T o device s).1)
  order_received-Books s o device =
      order_received_cases T o device s (λ r. Books (view T d s) (view T d r.1)) (λ e. inl refl)
        (λ known state l₁ f c e k p q. inl refl) (λ known state c e. books known state c)
        (λ known state l₁ l₂ c e p q. books known state c)
    where
      books :
          (known : DeviceProfile) (state : DeviceState)
          → Receivable T o device s known state
          → Books (view T d s) (
              phase (lookup d (insert device o s.orders)) (
                lookup d (
                  insert device
                    (record known { state = if state_eq state accepted then accepted else state })
                    s.devices)))
      books known state c = elim (Bool-cases (d == device)) [
        | inr e ↦ inl (
            ground (
              arith,
              lookup-insert d device o s.orders,
              lookup-insert d device
                  (record known { state = if state_eq state accepted then accepted else state })
                  s.devices,
            ))
        | inl e ↦ inr (
            ground (
              arith,
              c.no_order,
              c.registered,
              c.is_ready,
              sound device o state c.answered,
              lookup-insert d device o s.orders,
              lookup-insert d device
                  (record known { state = if state_eq state accepted then accepted else state })
                  s.devices,
            ))
      ]

  order-Books :
      (s : Store L Q P) (origin : O) (o : OrderBase P)
      → Books (view T d s) (view T d (order T origin o s).1)
  unfolding order
  order-Books s origin o = elim (Result-cases (T.ensure_signed origin)) [
    | inr (f, i) ↦ rw (i, try) (inl refl)
    | inl (who, i) ↦ rw (i, try) (order_received-Books s _ o.device)
  ]

  Step-Moves : {s t : Store L Q P} → Step T s t → IsWf s → Moves (view T d s) (view T d t)
  Step-Moves {s} (Step.orders origin o) w =
      Books-Moves (lookup d s.orders) (lookup d s.devices) _ (order-Books s origin o)
  Step-Moves {s} (Step.cancels origin device) w =
      cancel_cases T (λ r. Moves (view T d s) (view T d r.1)) origin device s
        (λ e. rests (lookup d s.orders) (lookup d s.devices))
        λ who o dev _ _ e _ _.
          order_reject-Moves T d s (some o) s.now device dev dev false (w.held d) e (inl refl)
  Step-Moves {s} (Step.accepts origin true onoff) w =
      decline_cases T (λ r. Moves (view T d s) (view T d r.1)) origin onoff s
        (λ e. rests (lookup d s.orders) (lookup d s.devices))
        λ id dev _ e _.
          order_reject-Moves T d s (lookup id s.orders) s.now id dev _ onoff (w.held d) e
            (inr (ground arith))
  Step-Moves {s} (Step.accepts origin false onoff) w =
      accept_cases T (λ r. Moves (view T d s) (view T d r.1)) origin onoff s
        (λ e. rests (lookup d s.orders) (lookup d s.devices))
        λ id o dev _ k e b _. order_accept-Moves T d s o id dev k e b
  Step-Moves {s} (Step.completes origin onoff) w =
      done_cases T (λ r. Moves (view T d s) (view T d r.1)) origin onoff s
        (λ e. rests (lookup d s.orders) (lookup d s.devices))
        λ id o dev _ k e _. order_done-Moves T d s o o s.now id dev onoff k e
  Step-Moves {s} (Step.registers origin penalty wcd onoff) w =
      register-Moves T d s origin penalty wcd onoff
  Step-Moves {s} (Step.switches origin onoff) w = set_state-Moves T d s origin onoff (w.held d)
  Step-Moves {s} (Step.receives batch max_weight) w =
      Books-Moves (lookup d s.orders) (lookup d s.devices) _ (
        handle_xcmp_messages_inv T (λ t. Books (view T d s) (view T d t))
          (λ o device t b. Books-trans _ _ _ b (order_received-Books t o device)) batch max_weight s
          (inl refl))
  Step-Moves {s} (Step.reaps who) w = on_killed_account-Moves T d s who (w.held d)
  Step-Moves {s} (Step.elsewhere now ledger queues events later) w =
      rests (lookup d s.orders) (lookup d s.devices)

  -- If `OnReceived` answers only with `Busy` or `Accepted`: in empty storage every device is away.
  -- From there on, every step, whatever is called, received or reaped, in any order and whether it
  -- succeeds or fails, takes every device through at most one move of the machine; also a batch of
  -- messages does.
  pub Reach-genesis-Moves :
      (s₀ s t : Store L Q P)
      → s₀.devices ≡ []
      → s₀.orders ≡ []
      → Reach T s₀ s
      → Step T s t
      → (view T d s₀ ≡ away) × Moves (view T d s) (view T d t)
  Reach-genesis-Moves s₀ s t no_devices no_orders r st = (
    rw (no_orders, no_devices) refl,
    Step-Moves st (Reach-IsWf T sound r (IsWf-genesis s₀ no_devices no_orders)),
  )
