-- ===== src/Service/Solvency.antt =====
-- Histories of the service pallet in which no transfer that ends an order fails
-- (pallets/xchange-service/src/lib.rs).
use xcm_auto_bank.Base.{
  ℕ, true, false, ◌≤◌, ◌≡◌, refl, Bool, Option, none, some, List, [], arith, inl, inr,
}
use xcm_auto_bank.Base.Action.{ok}
use xcm_auto_bank.Base.Map.{lookup, remove, remove-none}
use xcm_auto_bank.Common.{Order, OrderBase}
use xcm_auto_bank.Frame.{IsReservable}
use xcm_auto_bank.Owed.{owed-insert_same}
use xcm_auto_bank.Pallet.{try}
use xcm_auto_bank.Base.Action.{Result-cases}
use xcm_auto_bank.Service.{
  ServiceConfig, DeviceProfile, Store, order, cancel, accept, done, order_reject, order_done,
  handle_xcmp_messages,
}
use xcm_auto_bank.Service.Cases.{cancel_cases, accept_cases, decline_cases, done_cases}
use xcm_auto_bank.Service.Escrow.{
  is_local, IsCovered, IsBacked, penalty, order_received-IsBacked, order_accept-IsBacked,
  register-IsBacked, set_state-IsBacked, on_killed_account-IsBacked,
}
use xcm_auto_bank.Service.Invariant.{IsWf, IsWf-genesis, IsSound}
use xcm_auto_bank.Service.Messages.{handle_xcmp_messages_inv}
use xcm_auto_bank.Service.Settling.{order_reject-Settles, order_done-Settles, Settles-IsBacked}
use xcm_auto_bank.Service.Steps.{Step, Step-IsWf, order_received-IsWf}

module _ {L Q F O P : Type 0} (T : ServiceConfig L Q F O P) (sound : IsSound T)
    (laws : IsReservable T.currency) where
  module _ (extra : ℕ → ℕ) (s : Store L Q P) (w : IsWf s) where
    pub order-IsBacked :
        (origin : O) (o : OrderBase P)
        → IsBacked T extra s
        → IsBacked T extra (order T origin o s).1
    unfolding order
    order-IsBacked origin o c = elim (Result-cases (T.ensure_signed origin)) [
      | inr (f, i) ↦ rw (i, try) c
      | inl (who, i) ↦ rw (i, try) (order_received-IsBacked T extra laws s w _ o.device c)
    ]

    order_reject-IsBacked :
        (found : Option (Order P)) (device : ℕ) (known dev : DeviceProfile) (onoff : Bool)
        → lookup device s.orders ≡ found
        → lookup device s.devices ≡ some known
        → dev.penalty ≡ known.penalty
        → (order_reject T found s.now device dev onoff s).0 ≡ ok tt
        → IsBacked T extra s
        → IsBacked T extra (order_reject T found s.now device dev onoff s).1
    unfolding order_reject
    order_reject-IsBacked none device known dev onoff k e same h c = λ a. ground (
      arith,
      c a,
      remove-none device s.orders k,
      owed-insert_same penalty (is_local T) s.devices s.orders a device w.orders_map dev,
    )
    order_reject-IsBacked (some o) device known dev onoff k e same h c =
        let (moves, ended) = order_reject-Settles T s o s.now device dev onoff h in
        Settles-IsBacked T extra laws s w _ s.now device o known dev
          (order_reject T (some o) s.now device dev onoff s).1
          (λ l₁ a p. rw p (laws.unreserve_reserved s.ledger o.client o.fee a)) k e same moves ended
          c

    order_done-IsBacked :
        (o : Order P) (device : ℕ) (dev : DeviceProfile) (onoff : Bool)
        → lookup device s.orders ≡ some o
        → lookup device s.devices ≡ some dev
        → (order_done T o s.now device dev onoff (record s { orders = remove device s.orders })).0
          ≡ ok tt
        → IsBacked T extra s
        → IsBacked T extra
            (order_done T o s.now device dev onoff (record s { orders = remove device s.orders })).1
    order_done-IsBacked o device dev onoff k e h c =
        let (moves, ended) = order_done-Settles T s o s.now device dev onoff h in
        Settles-IsBacked T extra laws s w _ s.now device o dev _
          (order_done T o s.now device dev onoff (record s { orders = remove device s.orders })).1
          (λ l₁ a p. laws.repatriate_reserved_reserved s.ledger l₁ o.client device o.fee a p) k e
          refl moves ended c

    pub cancel-IsBacked :
        (origin : O) (device : ℕ)
        → (cancel T origin device s).0 ≡ ok tt
        → IsBacked T extra s
        → IsBacked T extra (cancel T origin device s).1
    cancel-IsBacked origin device =
        cancel_cases T (λ r. r.0 ≡ ok tt → IsBacked T extra s → IsBacked T extra r.1) origin device
          s (λ e h. cc)
          λ who o dev _ k e _ _. order_reject-IsBacked (some o) device dev dev false k e refl

    pub accept-IsBacked :
        (origin : O) (onoff : Bool)
        → IsBacked T extra s
        → IsBacked T extra (accept T origin false onoff s).1
    accept-IsBacked origin onoff =
        accept_cases T (λ r. IsBacked T extra s → IsBacked T extra r.1) origin onoff s (λ e c. c)
          λ id o dev _ _ e _ _. order_accept-IsBacked T extra laws s w o id dev e

    pub decline-IsBacked :
        (origin : O) (onoff : Bool)
        → (accept T origin true onoff s).0 ≡ ok tt
        → IsBacked T extra s
        → IsBacked T extra (accept T origin true onoff s).1
    decline-IsBacked origin onoff =
        decline_cases T (λ r. r.0 ≡ ok tt → IsBacked T extra s → IsBacked T extra r.1) origin onoff
          s (λ e h. cc)
          λ id dev _ e _. order_reject-IsBacked (lookup id s.orders) id dev _ onoff refl e refl

    pub done-IsBacked :
        (origin : O) (onoff : Bool)
        → (done T origin onoff s).0 ≡ ok tt
        → IsBacked T extra s
        → IsBacked T extra (done T origin onoff s).1
    done-IsBacked origin onoff =
        done_cases T (λ r. r.0 ≡ ok tt → IsBacked T extra s → IsBacked T extra r.1) origin onoff s
          (λ e h. cc) λ id o dev _ k e _. order_done-IsBacked o id dev onoff k e

  handle_xcmp_messages-IsBacked :
      (extra : ℕ → ℕ) (batch : List (ℕ × ℕ × List ℕ)) (max_weight : ℕ) (s : Store L Q P)
      → IsWf s
      → IsBacked T extra s
      → IsBacked T extra (handle_xcmp_messages T batch max_weight s).1
  handle_xcmp_messages-IsBacked extra batch max_weight s w c =
      (handle_xcmp_messages_inv T (λ t. IsWf t × IsBacked T extra t)
        (λ o device t h. (
          order_received-IsWf T t sound o device h.0,
          order_received-IsBacked T extra laws t h.0 o device h.1,
        ))
        batch max_weight s (w, c)).1

  -- A call that ends an order returns `Ok`; any other may fail. Outside the pallet no reserve is
  -- taken from.
  abbrev pub IsOrderly : {s t : Store L Q P} → Step T s t → Type 0
  IsOrderly {s} (Step.cancels origin device) = (cancel T origin device s).0 ≡ ok tt
  IsOrderly {s} (Step.accepts origin true onoff) = (accept T origin true onoff s).0 ≡ ok tt
  IsOrderly {s} (Step.completes origin onoff) = (done T origin onoff s).0 ≡ ok tt
  IsOrderly {s} (Step.elsewhere now ledger queues events later) =
      (a : ℕ) → T.currency.reserved_balance s.ledger a ≤ T.currency.reserved_balance ledger a
  IsOrderly _ = Unit

  pub data Run (s : Store L Q P) : Store L Q P → Type 0 where
    here : Run s s
    next : {t u : Store L Q P} → Run s t → (st : Step T t u) → IsOrderly st → Run s u

  pub Step-IsBacked :
      (extra : ℕ → ℕ) {s t : Store L Q P} (st : Step T s t)
      → IsOrderly st
      → IsWf s
      → IsBacked T extra s
      → IsBacked T extra t
  Step-IsBacked extra {s} (Step.orders origin o) h w c = order-IsBacked extra s w origin o c
  Step-IsBacked extra {s} (Step.cancels origin device) h w c =
      cancel-IsBacked extra s w origin device h c
  Step-IsBacked extra {s} (Step.accepts origin true onoff) h w c =
      decline-IsBacked extra s w origin onoff h c
  Step-IsBacked extra {s} (Step.accepts origin false onoff) h w c =
      accept-IsBacked extra s w origin onoff c
  Step-IsBacked extra {s} (Step.completes origin onoff) h w c =
      done-IsBacked extra s w origin onoff h c
  Step-IsBacked extra {s} (Step.registers origin fine wcd onoff) h w c =
      register-IsBacked T extra laws s w origin fine wcd onoff c
  Step-IsBacked extra {s} (Step.switches origin onoff) h w c =
      set_state-IsBacked T extra laws s w origin onoff c
  Step-IsBacked extra {s} (Step.receives batch max_weight) h w c =
      handle_xcmp_messages-IsBacked extra batch max_weight s w c
  Step-IsBacked extra {s} (Step.reaps who) h w c = on_killed_account-IsBacked T extra laws s w who c
  Step-IsBacked extra (Step.elsewhere now ledger queues events _) h w c =
      λ a. omega (arith, c a, h a)

  Run-invariant :
      {s t : Store L Q P}
      → Run s t
      → IsWf s × IsBacked T (λ _. 0) s
      → IsWf t × IsBacked T (λ _. 0) t
  Run-invariant Run.here h = h
  Run-invariant (Run.next r st orderly) h =
      let (w, c) = Run-invariant r h in
      (Step-IsWf T sound st w, Step-IsBacked (λ _. 0) st orderly w c)

  -- If the currency does as documented, and `OnReceived` answers only with `Busy` or `Accepted`:
  -- after any history that began with empty storage, in which every call that ends an order
  -- returned `Ok` and no reserve was taken from outside the pallet, every account has reserved at
  -- least the fees of its open orders of this parachain together with the penalty of such an order
  -- on it as a device.
  pub Run-genesis-IsCovered :
      (s t : Store L Q P) → s.devices ≡ [] → s.orders ≡ [] → Run s t → IsCovered T t
  Run-genesis-IsCovered s t no_devices no_orders r =
      let start : IsWf s × IsBacked T (λ _. 0) s =
        (IsWf-genesis s no_devices no_orders, λ a. rw no_orders (omega arith)) in
      λ a. omega (arith, (Run-invariant r start).1 a)
