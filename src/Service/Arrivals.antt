-- ===== src/Service/Arrivals.antt =====
-- Where the orders of the service pallet come from (pallets/xchange-service/src/lib.rs): `order`
-- and the requests in a batch bring them, and nothing else changes one.
use xcm_auto_bank.Base.{
  ℕ, ◌≡◌, Bool, true, false, Option, some, List, ⊤, arith, inl, inr, ◌==◌, Bool-cases, some_inj,
}
use xcm_auto_bank.Base.Action.{ok, Result-cases}
use xcm_auto_bank.Base.Map.{StorageMap, lookup, insert, remove, lookup-insert, lookup-remove}
use xcm_auto_bank.Base.Member.{IsIn}
use xcm_auto_bank.Common.{Order, OrderBase, XcmpMessage}
use xcm_auto_bank.Pallet.{try}
use xcm_auto_bank.Service.{
  ServiceConfig, DeviceProfile, Store, received, order_received, order, order_reject, order_done,
  order_accept, register, set_state, on_killed_account, handle_xcmp_messages,
}
use xcm_auto_bank.Service.Cases.{cancel_cases, accept_cases, decline_cases, done_cases}
use xcm_auto_bank.Service.Messages.{handle_xcmp_messages_from}
use xcm_auto_bank.Service.Receiving.{order_received_cases}
use xcm_auto_bank.Service.Steps.{Step}

-- `R` holds of each device and its order.
module _ {L Q F O P : Type 0} (T : ServiceConfig L Q F O P) (R : ℕ → Order P → Type 0) where
  abbrev pub Everywhere : StorageMap (Order P) → Type 0
  Everywhere orders = (d : ℕ) (o : Order P) → lookup d orders ≡ some o → R d o

  -- It holds of each order that a step brings.
  abbrev pub Brings : {s t : Store L Q P} → Step T s t → Type 0
  Brings (Step.orders origin o) =
      (who : ℕ) → T.ensure_signed origin ≡ ok who → R o.device (received o who T.self_para_id)
  Brings (Step.receives batch max_weight) =
      (sender sent_at : ℕ) (bytes : List ℕ) (client : ℕ) (o : OrderBase P)
      → IsIn (sender, sent_at, bytes) batch
      → T.decode bytes ≡ some (XcmpMessage.new_order client o)
      → R o.device (received o client sender)
  Brings _ = ⊤

  remove-Everywhere :
      (device : ℕ) (orders : StorageMap (Order P))
      → Everywhere orders
      → Everywhere (remove device orders)
  remove-Everywhere device orders h d o k = h d o (ground (arith, k, lookup-remove d device orders))

  insert-Everywhere :
      (device : ℕ) (o : Order P) (orders : StorageMap (Order P))
      → R device o
      → Everywhere orders
      → Everywhere (insert device o orders)
  insert-Everywhere device o orders new h d o' k = elim (Bool-cases (d == device)) [
    | inr ne ↦ h d o' (ground (arith, k, lookup-insert d device o orders))
    | inl same ↦
        let at : d ≡ device = ground arith in
        let is : o' ≡ o = some_inj o' o (ground (arith, k, lookup-insert d device o orders)) in
        rw (at, is) new
  ]

  module _ (s : Store L Q P) where
    order_received-Everywhere :
        (o : Order P) (device : ℕ)
        → R device o
        → Everywhere s.orders
        → Everywhere (order_received T o device s).1.orders
    order_received-Everywhere o device new h =
        order_received_cases T o device s (λ r. Everywhere r.1.orders) (λ _. h)
          (λ known state l₁ f c e k p q. h)
          (λ known state c k. insert-Everywhere device o s.orders new h)
          λ known state l₁ l₂ c k p q. insert-Everywhere device o s.orders new h

    order-Everywhere :
        (origin : O) (o : OrderBase P)
        → ((who : ℕ) → T.ensure_signed origin ≡ ok who → R o.device (received o who T.self_para_id))
        → Everywhere s.orders
        → Everywhere (order T origin o s).1.orders
    unfolding order
    order-Everywhere origin o new h = elim (Result-cases (T.ensure_signed origin)) [
      | inr (f, i) ↦ rw (i, try) h
      | inl (who, i) ↦ rw (i, try) (order_received-Everywhere _ o.device (new who i) h)
    ]

    order_reject-orders :
        (found : Option (Order P)) (now device : ℕ) (dev : DeviceProfile) (onoff : Bool)
        → Everywhere s.orders
        → Everywhere (order_reject T found now device dev onoff s).1.orders
    unfolding order_reject
    order_reject-orders found now device dev onoff h d o k =
        h d o (ground (arith, k, lookup-remove d device s.orders))

    order_done-orders :
        (o : Order P) (now device : ℕ) (dev : DeviceProfile) (onoff : Bool)
        → (order_done T o now device dev onoff s).1.orders ≡ s.orders
    unfolding order_done
    order_done-orders o now device dev onoff = ground arith

    order_accept-orders :
        (o : Order P) (device : ℕ) (dev : DeviceProfile)
        → (order_accept T o device dev s).1.orders ≡ s.orders
    unfolding order_accept
    order_accept-orders o device dev = ground arith

    register-orders :
        (origin : O) (penalty wcd : ℕ) (onoff : Bool)
        → (register T origin penalty wcd onoff s).1.orders ≡ s.orders
    unfolding register
    register-orders origin penalty wcd onoff = ground arith

    set_state-orders :
        (origin : O) (onoff : Bool) → (set_state T origin onoff s).1.orders ≡ s.orders
    unfolding set_state
    set_state-orders origin onoff = ground arith

    on_killed_account-orders : (who : ℕ) → (on_killed_account T who s).orders ≡ s.orders
    unfolding on_killed_account
    on_killed_account-orders who = ground arith

  handle_xcmp_messages-Everywhere :
      (batch : List (ℕ × ℕ × List ℕ)) (max_weight : ℕ) (s : Store L Q P)
      → ((sender sent_at : ℕ) (bytes : List ℕ) (client : ℕ) (o : OrderBase P)
          → IsIn (sender, sent_at, bytes) batch
          → T.decode bytes ≡ some (XcmpMessage.new_order client o)
          → R o.device (received o client sender))
      → Everywhere s.orders
      → Everywhere (handle_xcmp_messages T batch max_weight s).1.orders
  handle_xcmp_messages-Everywhere batch max_weight s new h =
      handle_xcmp_messages_from T (λ t. Everywhere t.orders) batch max_weight s
        (λ sender sent_at bytes client o i e t.
          order_received-Everywhere t (received o client sender) o.device
            (new sender sent_at bytes client o i e))
        h

  -- What holds of each order holds after a step, if it holds of those that the step brings.
  pub Step-Everywhere :
      {s t : Store L Q P} (st : Step T s t) → Brings st → Everywhere s.orders → Everywhere t.orders
  Step-Everywhere {s} (Step.orders origin o) new h = order-Everywhere s origin o new h
  Step-Everywhere {s} (Step.cancels origin device) new h =
      cancel_cases T (λ r. Everywhere r.1.orders) origin device s (λ e. h)
        λ who o dev _ _ _ _ _. order_reject-orders s (some o) s.now device dev false h
  Step-Everywhere {s} (Step.accepts origin true onoff) new h =
      decline_cases T (λ r. Everywhere r.1.orders) origin onoff s (λ e. h)
        λ id dev _ _ _. order_reject-orders s (lookup id s.orders) s.now id _ onoff h
  Step-Everywhere {s} (Step.accepts origin false onoff) new h =
      accept_cases T (λ r. Everywhere r.1.orders) origin onoff s (λ e. h)
        λ id o dev _ _ _ _ _. rw (order_accept-orders s o id dev) h
  Step-Everywhere {s} (Step.completes origin onoff) new h =
      done_cases T (λ r. Everywhere r.1.orders) origin onoff s (λ e. h)
        λ id o dev _ _ _ _.
          rw (order_done-orders (record s { orders = remove id s.orders }) o s.now id dev onoff)
            (remove-Everywhere id s.orders h)
  Step-Everywhere {s} (Step.registers origin penalty wcd onoff) new h =
      rw (register-orders s origin penalty wcd onoff) h
  Step-Everywhere {s} (Step.switches origin onoff) new h = rw (set_state-orders s origin onoff) h
  Step-Everywhere {s} (Step.receives batch max_weight) new h =
      handle_xcmp_messages-Everywhere batch max_weight s new h
  Step-Everywhere {s} (Step.reaps who) new h = rw (on_killed_account-orders s who) h
  Step-Everywhere (Step.elsewhere now ledger queues events later) new h = h
