-- ===== src/Service/Calls.antt =====
-- Exactly when the other calls succeed, and what they do then
-- (pallets/xchange-service/src/lib.rs).
use xcm_auto_bank.Base.{
  ℕ, ◌<◌, ◌≡◌, refl, ◌⊎◌, true, inl, inr, ◌↔◌, Bool, false, some, arith, ◌==◌, Option-cases,
}
use xcm_auto_bank.Base.Action.{ok, err, Result-cases}
use xcm_auto_bank.Base.Map.{lookup}
use xcm_auto_bank.Common.{DeviceState, busy, Order}
use xcm_auto_bank.Frame.{IsReservable, reserve_second}
use xcm_auto_bank.Pallet.{Failure}
use xcm_auto_bank.Service.{
  ServiceConfig, DeviceProfile, Error, Store, order_received, order_accept, accept,
}
use xcm_auto_bank.Service.Receiving.{Receivable, booked, order_received_cases}

module _ {L Q F O P : Type 0} (T : ServiceConfig L Q F O P) where
  -- Whatever becomes of it, an order from another parachain leaves the balances of this one as
  -- they were.
  pub order_received_foreign :
      (o : Order P) (device : ℕ) (s : Store L Q P)
      → (o.paraid == T.self_para_id) ≡ false
      → (order_received T o device s).1.ledger ≡ s.ledger
  order_received_foreign o device s e =
      order_received_cases T o device s (λ r. r.1.ledger ≡ s.ledger) (λ _. refl)
        (λ known state l₁ f c e' k p q. absurd (ground arith)) (λ known state c e'. refl)
        (λ known state l₁ l₂ c e' p q. absurd (ground arith))

  -- If the currency does as documented, and if the client is not the device itself, an order that
  -- is not received has no effect at all, although no transaction guards it.
  pub order_received_atomic :
      IsReservable T.currency
      → (o : Order P) (device : ℕ) (s : Store L Q P) (e : Failure Error F)
      → (device == o.client) ≡ false
      → (order_received T o device s).0 ≡ err e
      → (order_received T o device s).1 ≡ s
  order_received_atomic laws o device s e ne =
      order_received_cases T o device s (λ r. r.0 ≡ err e → r.1 ≡ s) (λ _ h. refl)
        (λ known state l₁ f c e' k p q h. absurd (
          reserve_second T.currency laws s.ledger l₁ device o.client known.penalty o.fee f p ne k
            q))
        (λ known state c e' h. cc) (λ known state l₁ l₂ c e' p q h. cc)

  -- The ledger `l` with which an order on a device of the penalty `penalty` is booked: for an order
  -- of this parachain with the penalty and then the fee reserved.
  abbrev pub Reserves : Order P → ℕ → ℕ → L → L → Type 0
  Reserves o device penalty before l =
      (((o.paraid == T.self_para_id) ≡ false) × (l ≡ before))
      ⊎ ((l₁ : L) × ((o.paraid == T.self_para_id) ≡ true)
          × (T.currency.reserve before device penalty ≡ ok l₁)
          × (T.currency.reserve l₁ o.client o.fee ≡ ok l))

  -- An order is received only if its deadline lies ahead and leaves the device its time, the
  -- device is registered, ready and without an order, `OnReceived` takes it and, for an order of
  -- this parachain, penalty and fee can be reserved. Then exactly this order is booked on the
  -- device, in the state that `OnReceived` chose, with those reserves.
  pub order_received_ok :
      (o : Order P) (device : ℕ) (s : Store L Q P)
      → (order_received T o device s).0 ≡ ok tt
      → (known : DeviceProfile) × (state : DeviceState) × (l : L) × Receivable T o device s known
          state
        × Reserves o device known.penalty s.ledger l
        × ((order_received T o device s).1 ≡ booked T o device s known state l)
  order_received_ok o device s =
      order_received_cases T o device s
        (λ r.
          r.0 ≡ ok tt
          → (known : DeviceProfile) × (state : DeviceState) × (l : L) × Receivable T o device s
              known state
            × Reserves o device known.penalty s.ledger l
            × (r.1 ≡ booked T o device s known state l))
        (λ _ h. cc) (λ known state l₁ f c e' k p q h. cc)
        (λ known state c e' h. (known, state, s.ledger, c, inl (e', refl), refl))
        (λ known state l₁ l₂ c e' p q h. (known, state, l₂, c, inr (l₁, e', p, q), refl))

  accept_ok-cases :
      (origin : O) (onoff : Bool) (s : Store L Q P)
      → (accept T origin false onoff s).0 ≡ ok tt
      → (id : ℕ) × (o : Order P) × (dev : DeviceProfile) × (T.ensure_signed origin ≡ ok id)
        × (lookup id s.orders ≡ some o)
        × (lookup id s.devices ≡ some dev)
        × (dev.state ≡ busy)
        × (s.now < o.until)
  unfolding accept order_accept
  accept_ok-cases origin onoff s h = elim (Result-cases (T.ensure_signed origin)) [
    | inr (f, e) ↦ absurd (ground arith)
    | inl (id, e) ↦ elim (Option-cases (lookup id s.devices)) [
      | inl k ↦ absurd (ground arith)
      | inr (dev, k) ↦ elim (Option-cases (lookup id s.orders)) [
        | inl p ↦ absurd (ground arith)
        | inr (o, p) ↦ (id, o, dev, e, p, k, ground arith, ground arith)
      ]
    ]
  ]

  accept_ok :
      (origin : O) (onoff : Bool) (s : Store L Q P) (id : ℕ) (o : Order P) (dev : DeviceProfile)
      → T.ensure_signed origin ≡ ok id
      → lookup id s.orders ≡ some o
      → lookup id s.devices ≡ some dev
      → dev.state ≡ busy
      → s.now < o.until
      → (accept T origin false onoff s).0 ≡ ok tt
  unfolding accept order_accept
  accept_ok origin onoff s id o dev e p k b later = ground arith

  -- `accept` without rejection succeeds exactly for the signature of a device that is busy with
  -- an order whose deadline lies ahead.
  pub accept_ok_iff :
      (origin : O) (onoff : Bool) (s : Store L Q P)
      → ((accept T origin false onoff s).0 ≡ ok tt) ↔ (
          (id : ℕ) × (o : Order P) × (dev : DeviceProfile) × (T.ensure_signed origin ≡ ok id)
          × (lookup id s.orders ≡ some o)
          × (lookup id s.devices ≡ some dev)
          × (dev.state ≡ busy)
          × (s.now < o.until))
  accept_ok_iff origin onoff s = (
    accept_ok-cases origin onoff s,
    λ (id, o, dev, e, p, k, b, later). accept_ok origin onoff s id o dev e p k b later,
  )
