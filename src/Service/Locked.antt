-- ===== src/Service/Locked.antt =====
-- While a device has an order nothing but the end of that order touches it
-- (pallets/xchange-service/src/lib.rs).
use xcm_auto_bank.Base.{ℕ, ◌≡◌, inl, inr, Bool, true, false, Option, some, arith, ap, ◌∙◌, ◌==◌}
use xcm_auto_bank.Base.Action.{ok, Result-cases}
use xcm_auto_bank.Base.Map.{lookup, insert, remove, lookup-insert, lookup-remove}
use xcm_auto_bank.Common.{DeviceState, Order, OrderBase}
use xcm_auto_bank.Pallet.{try}
use xcm_auto_bank.Service.{
  ServiceConfig, DeviceProfile, Store, order_received, order, order_reject, order_done,
  order_accept, register, set_state, on_killed_account,
}
use xcm_auto_bank.Service.Cases.{cancel_cases, accept_cases, decline_cases, done_cases}
use xcm_auto_bank.Service.Invariant.{IsServing}
use xcm_auto_bank.Service.Messages.{handle_xcmp_messages_inv}
use xcm_auto_bank.Service.Receiving.{Receivable, order_received_cases}
use xcm_auto_bank.Service.Steps.{Step}

other_device : (d device : ℕ) → ¬ (device ≡ d) → (d == device) ≡ false
other_device d device n = ground arith

module _ {L Q F O P : Type 0} (T : ServiceConfig L Q F O P) (d : ℕ) (o : Order P)
    (penalty wcd : ℕ) where
  -- The device `d` serves the order `o` on the terms `penalty` and `wcd`.
  abbrev pub OnTerms : Option (Order P) → Option DeviceProfile → Type 0
  OnTerms (some o') (some dev) =
      (o' ≡ o) × IsServing dev.state × (dev.penalty ≡ penalty) × (dev.wcd ≡ wcd)
  OnTerms _ _ = ⊥

  abbrev pub Serves : Store L Q P → Type 0
  Serves s = OnTerms (lookup d s.orders) (lookup d s.devices)

  -- The steps that may end the order: it is cancelled, or the device itself declines or completes
  -- it.
  abbrev pub MayEnd : {s t : Store L Q P} → Step T s t → Type 0
  MayEnd (Step.cancels origin device) = device ≡ d
  MayEnd (Step.accepts origin true onoff) = T.ensure_signed origin ≡ ok d
  MayEnd (Step.completes origin onoff) = T.ensure_signed origin ≡ ok d
  MayEnd _ = ⊥

  module _ (s : Store L Q P) where
    order_received-Serves :
        (o' : Order P) (device : ℕ) → Serves s → Serves (order_received T o' device s).1
    order_received-Serves o' device h =
        order_received_cases T o' device s (λ r. Serves r.1) (λ e. h)
          (λ known state l₁ f c e k p q. h) (λ known state c e. books known state c _)
          (λ known state l₁ l₂ c e p q. books known state c _)
      where
        books :
            (known : DeviceProfile) (state : DeviceState)
            → Receivable T o' device s known state
            → (v : DeviceProfile)
            → OnTerms (lookup d (insert device o' s.orders)) (lookup d (insert device v s.devices))
        books known state c v = ground (
          arith,
          h,
          c.no_order,
          lookup-insert d device o' s.orders,
          lookup-insert d device v s.devices,
        )

    order-Serves : (origin : O) (o' : OrderBase P) → Serves s → Serves (order T origin o' s).1
    unfolding order
    order-Serves origin o' h = elim (Result-cases (T.ensure_signed origin)) [
      | inr (f, i) ↦ rw (i, try) h
      | inl (who, i) ↦ rw (i, try) (order_received-Serves _ o'.device h)
    ]

    -- An order on another device ends.
    order_reject-Serves :
        (found : Option (Order P)) (now device : ℕ) (dev : DeviceProfile) (onoff : Bool)
        → (d == device) ≡ false
        → Serves s
        → Serves (order_reject T found now device dev onoff s).1
    unfolding order_reject
    order_reject-Serves found now device dev onoff ne h =
        grind (arith, lookup-insert, lookup-remove)

    order_done-Serves :
        (o' : Order P) (now device : ℕ) (dev : DeviceProfile) (onoff : Bool)
        → (d == device) ≡ false
        → Serves s
        → Serves (order_done T o' now device dev onoff s).1
    unfolding order_done
    order_done-Serves o' now device dev onoff ne h = grind (arith, lookup-insert)

    order_accept-Serves :
        (o' : Order P) (id : ℕ) (dev : DeviceProfile)
        → lookup id s.devices ≡ some dev
        → Serves s
        → Serves (order_accept T o' id dev s).1
    unfolding order_accept
    order_accept-Serves o' id dev e h = grind (arith, lookup-insert)

    register-Serves :
        (origin : O) (penalty' wcd' : ℕ) (onoff : Bool)
        → Serves s
        → Serves (register T origin penalty' wcd' onoff s).1
    unfolding register
    register-Serves origin penalty' wcd' onoff h = grind (arith, lookup-insert)

    set_state-Serves :
        (origin : O) (onoff : Bool) → Serves s → Serves (set_state T origin onoff s).1
    unfolding set_state
    set_state-Serves origin onoff h = grind (arith, lookup-insert)

    on_killed_account-Serves : (who : ℕ) → Serves s → Serves (on_killed_account T who s)
    unfolding on_killed_account
    on_killed_account-Serves who h = grind (arith, lookup-remove)

  -- While a device serves an order, every step of the chain keeps the order, the device busy or
  -- accepted, and its penalty and time, but for a `cancel` of this order and a declining or
  -- completing call of the device itself.
  pub Step-Serves : {s t : Store L Q P} (st : Step T s t) → Serves s → ¬ MayEnd st → Serves t
  Step-Serves {s} (Step.orders origin o') h n = order-Serves s origin o' h
  Step-Serves {s} (Step.cancels origin device) h n =
      cancel_cases T (λ r. Serves r.1) origin device s (λ e. h)
        λ who o' dev _ _ _ _ _.
          order_reject-Serves s (some o') s.now device dev false (other_device d device n) h
  Step-Serves {s} (Step.accepts origin true onoff) h n =
      decline_cases T (λ r. Serves r.1) origin onoff s (λ e. h)
        λ id dev i _ _.
          order_reject-Serves s (lookup id s.orders) s.now id _ onoff
            (other_device d id (λ e. n (i ∙ ap ok e))) h
  Step-Serves {s} (Step.accepts origin false onoff) h n =
      accept_cases T (λ r. Serves r.1) origin onoff s (λ e. h)
        λ id o' dev _ _ k _ _. order_accept-Serves s o' id dev k h
  Step-Serves {s} (Step.completes origin onoff) h n =
      done_cases T (λ r. Serves r.1) origin onoff s (λ e. h)
        λ id o' dev i _ _ _.
          let ne = other_device d id (λ e. n (i ∙ ap ok e)) in
          order_done-Serves (record s { orders = remove id s.orders }) o' s.now id dev onoff ne
            (ground (arith, h, ne, lookup-remove d id s.orders))
  Step-Serves {s} (Step.registers origin penalty' wcd' onoff) h n =
      register-Serves s origin penalty' wcd' onoff h
  Step-Serves {s} (Step.switches origin onoff) h n = set_state-Serves s origin onoff h
  Step-Serves {s} (Step.receives batch max_weight) h n =
      handle_xcmp_messages_inv T Serves (λ o' device t. order_received-Serves t o' device) batch
        max_weight s h
  Step-Serves {s} (Step.reaps who) h n = on_killed_account-Serves s who h
  Step-Serves (Step.elsewhere now ledger queues events later) h n = h
