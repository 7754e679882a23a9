-- ===== src/Service/Prompt.antt =====
-- Where `OnReceived` never leaves a device to decide (pallets/xchange-service/src/lib.rs; it is so
-- in runtime/src/lib.rs).
use xcm_auto_bank.Base.{
  ℕ, ⊤, ◌≡◌, inl, inr, Bool, true, false, Option, none, some, arith, if◌then◌else◌,
}
use xcm_auto_bank.Base.Action.{Result-cases}
use xcm_auto_bank.Base.Map.{lookup, insert, remove, lookup-insert, lookup-remove}
use xcm_auto_bank.Common.{DeviceState, ready, off, busy, accepted, state_eq, Order, OrderBase}
use xcm_auto_bank.Pallet.{try}
use xcm_auto_bank.Service.{
  ServiceConfig, DeviceProfile, Store, order_received, order, order_reject, order_done,
  order_accept, register, set_state, on_killed_account,
}
use xcm_auto_bank.Service.Cases.{cancel_cases, accept_cases, decline_cases, done_cases}
use xcm_auto_bank.Service.Messages.{handle_xcmp_messages_inv}
use xcm_auto_bank.Service.Receiving.{Receivable, order_received_cases}
use xcm_auto_bank.Service.Steps.{Step, Reach}

abbrev pub IsPrompt : Option DeviceProfile → Type 0
IsPrompt none = ⊤
IsPrompt (some dev) = state_eq dev.state busy ≡ false

abbrev pub NoneBusy : {L Q P : Type 0} → Store L Q P → Type 0
NoneBusy s = (d : ℕ) → IsPrompt (lookup d s.devices)

module _ {L Q F O P : Type 0} (T : ServiceConfig L Q F O P) where
  module _ (s : Store L Q P) (h : NoneBusy s) where
    inserted :
        (device : ℕ) (v : DeviceProfile) (d : ℕ)
        → state_eq v.state busy ≡ false
        → IsPrompt (lookup d (insert device v s.devices))
    inserted device v d n = ground (arith, h d, lookup-insert d device v s.devices)

    known_prompt :
        (device : ℕ) (dev : DeviceProfile)
        → lookup device s.devices ≡ some dev
        → state_eq dev.state busy ≡ false
    known_prompt device dev k = ground (arith, h device)

    order_reject-NoneBusy :
        (found : Option (Order P)) (now device : ℕ) (dev : DeviceProfile) (onoff : Bool)
        → state_eq dev.state busy ≡ false
        → NoneBusy (order_reject T found now device dev onoff s).1
    unfolding order_reject
    order_reject-NoneBusy found now device dev onoff n d =
        ground (arith, h d, inserted device dev d n)

    order_done-NoneBusy :
        (o : Order P) (now device : ℕ) (dev : DeviceProfile) (onoff : Bool)
        → NoneBusy (order_done T o now device dev onoff s).1
    unfolding order_done
    order_done-NoneBusy o now device dev onoff d =
        ground (arith, h d, inserted device (record dev { state = if onoff then ready else off }) d)

    order_accept-NoneBusy :
        (o : Order P) (device : ℕ) (dev : DeviceProfile)
        → NoneBusy (order_accept T o device dev s).1
    unfolding order_accept
    order_accept-NoneBusy o device dev d =
        ground (arith, h d, inserted device (record dev { state = accepted }) d)

    register-NoneBusy :
        (origin : O) (penalty wcd : ℕ) (onoff : Bool)
        → NoneBusy (register T origin penalty wcd onoff s).1
    unfolding register
    register-NoneBusy origin penalty wcd onoff d = grind (arith, h d, lookup-insert)

    set_state-NoneBusy : (origin : O) (onoff : Bool) → NoneBusy (set_state T origin onoff s).1
    unfolding set_state
    set_state-NoneBusy origin onoff d = grind (arith, h d, lookup-insert)

    on_killed_account-NoneBusy : (who : ℕ) → NoneBusy (on_killed_account T who s)
    unfolding on_killed_account
    on_killed_account-NoneBusy who d = grind (arith, h d, lookup-remove)

  module _
      (prompt : (device : ℕ) (o : Order P) (state : DeviceState)
        → T.on_received device o ≡ some state
        → state_eq state busy ≡ false) where
    order_received-NoneBusy :
        (o : Order P) (device : ℕ) (s : Store L Q P)
        → NoneBusy s
        → NoneBusy (order_received T o device s).1
    order_received-NoneBusy o device s h =
        order_received_cases T o device s (λ r. NoneBusy r.1) (λ e. h)
          (λ known state l₁ f c e k p q. h) (λ known state c e d. books known state c d)
          (λ known state l₁ l₂ c e p q d. books known state c d)
      where
        books :
            (known : DeviceProfile) (state : DeviceState)
            → Receivable T o device s known state
            → (d : ℕ)
            → IsPrompt (
                lookup d (
                  insert device
                    (record known { state = if state_eq state accepted then accepted else state })
                    s.devices))
        books known state c d =
            inserted s h device _ d (ground (arith, prompt device o state c.answered))

    order-NoneBusy :
        (origin : O) (o : OrderBase P) (s : Store L Q P)
        → NoneBusy s
        → NoneBusy (order T origin o s).1
    unfolding order
    order-NoneBusy origin o s h = elim (Result-cases (T.ensure_signed origin)) [
      | inr (f, i) ↦ rw (i, try) h
      | inl (who, i) ↦ rw (i, try) (order_received-NoneBusy _ o.device s h)
    ]

    Step-NoneBusy : {s t : Store L Q P} → Step T s t → NoneBusy s → NoneBusy t
    Step-NoneBusy {s} (Step.orders origin o) h = order-NoneBusy origin o s h
    Step-NoneBusy {s} (Step.cancels origin device) h =
        cancel_cases T (λ r. NoneBusy r.1) origin device s (λ e. h)
          λ who o dev _ _ k _ _.
            order_reject-NoneBusy s h (some o) s.now device dev false
              (known_prompt s h device dev k)
    Step-NoneBusy {s} (Step.accepts origin true onoff) h =
        decline_cases T (λ r. NoneBusy r.1) origin onoff s (λ e. h)
          λ id dev _ _ _.
            order_reject-NoneBusy s h (lookup id s.orders) s.now id _ onoff (ground arith)
    Step-NoneBusy {s} (Step.accepts origin false onoff) h =
        accept_cases T (λ r. NoneBusy r.1) origin onoff s (λ e. h)
          λ id o dev _ _ _ _ _. order_accept-NoneBusy s h o id dev
    Step-NoneBusy {s} (Step.completes origin onoff) h =
        done_cases T (λ r. NoneBusy r.1) origin onoff s (λ e. h)
          λ id o dev _ _ _ _.
            order_done-NoneBusy (record s { orders = remove id s.orders }) h o s.now id dev onoff
    Step-NoneBusy {s} (Step.registers origin penalty wcd onoff) h =
        register-NoneBusy s h origin penalty wcd onoff
    Step-NoneBusy {s} (Step.switches origin onoff) h = set_state-NoneBusy s h origin onoff
    Step-NoneBusy {s} (Step.receives batch max_weight) h =
        handle_xcmp_messages_inv T NoneBusy order_received-NoneBusy batch max_weight s h
    Step-NoneBusy {s} (Step.reaps who) h = on_killed_account-NoneBusy s h who
    Step-NoneBusy (Step.elsewhere now ledger queues events later) h = h

    pub Reach-NoneBusy : {s t : Store L Q P} → Reach T s t → NoneBusy s → NoneBusy t
    Reach-NoneBusy Reach.here h = h
    Reach-NoneBusy (Reach.next r st) h = Step-NoneBusy st (Reach-NoneBusy r h)
