-- ===== src/Service/Cases.antt =====
-- How `cancel`, `accept` and `done` reach the helpers that they share
-- (pallets/xchange-service/src/lib.rs): either they leave the storage alone, or their guards have
-- passed.
use mathlib.Core.Path.{subst⁻¹}
use xcm_auto_bank.Base.{
  ℕ, ⊤, ◌≤◌, ◌<◌, ◌≡◌, ◌⊎◌, inl, inr, Bool, true, false, some, arith, if◌then◌else◌, Option-cases,
  Bool-cases, leb,
}
use xcm_auto_bank.Base.Action.{Result, ok, err, Result-cases}
use xcm_auto_bank.Base.Map.{lookup, remove, remove-none}
use xcm_auto_bank.Common.{off, ready, busy, accepted, state_eq, Order}
use xcm_auto_bank.Pallet.{Failure, module_error, other}
use xcm_auto_bank.Service.{
  ServiceConfig, DeviceProfile, Error, Store, order_accept, order_reject, order_done, cancel,
  accept, done, no_device, illegal_state, no_order, overdue,
}

module _ {L Q F O P : Type 0} (T : ServiceConfig L Q F O P) where
  pub cancel_cases {ℓ} :
      (R : Result (Failure Error F) ⊤ × Store L Q P → Type ℓ) (origin : O) (device : ℕ)
      (s : Store L Q P)
      → ((e : Failure Error F) → R (err e, s))
      → ((who : ℕ) (o : Order P) (dev : DeviceProfile)
          → T.ensure_signed origin ≡ ok who
          → lookup device s.orders ≡ some o
          → lookup device s.devices ≡ some dev
          → o.until ≤ s.now
          → o.client ≡ who
          → R (order_reject T (some o) s.now device dev false s))
      → R (cancel T origin device s)
  unfolding cancel
  cancel_cases R origin device s same reached = grind (arith, reached, same)

  pub accept_cases {ℓ} :
      (R : Result (Failure Error F) ⊤ × Store L Q P → Type ℓ) (origin : O) (onoff : Bool)
      (s : Store L Q P)
      → ((e : Failure Error F) → R (err e, s))
      → ((id : ℕ) (o : Order P) (dev : DeviceProfile)
          → T.ensure_signed origin ≡ ok id
          → lookup id s.orders ≡ some o
          → lookup id s.devices ≡ some dev
          → dev.state ≡ busy
          → s.now < o.until
          → R (order_accept T o id dev s))
      → R (accept T origin false onoff s)
  unfolding accept
  accept_cases R origin onoff s same reached = elim (Result-cases (T.ensure_signed origin)) [
    | inr (f, i) ↦ by (other f) (ground arith)
    | inl (id, i) ↦ elim (Option-cases (lookup id s.devices)) [
      | inl e ↦ by (module_error no_device) (ground arith)
      | inr (dev, e) ↦ elim (Bool-cases (state_eq dev.state busy)) [
        | inr b ↦ by (module_error illegal_state) (ground arith)
        | inl b ↦ elim (Option-cases (lookup id s.orders)) [
          | inl k ↦ by (module_error no_order) (ground arith)
          | inr (o, k) ↦ elim (Bool-cases (leb o.until s.now)) [
            | inl late ↦ by (module_error overdue) (ground arith)
            | inr early ↦
                subst⁻¹ R (called id o dev i e b k early)
                  (reached id o dev i k e (ground arith) (ground arith))
          ]
        ]
      ]
    ]
  ]
    where
      by :
          (e : Failure Error F)
          → accept T origin false onoff s ≡ (err e, s)
          → R (accept T origin false onoff s)
      by e h = subst⁻¹ R h (same e)

      called :
          (id : ℕ) (o : Order P) (dev : DeviceProfile)
          → T.ensure_signed origin ≡ ok id
          → lookup id s.devices ≡ some dev
          → state_eq dev.state busy ≡ true
          → lookup id s.orders ≡ some o
          → leb o.until s.now ≡ false
          → accept T origin false onoff s ≡ order_accept T o id dev s
      called id o dev i e b k early = ground arith

  pub decline_cases {ℓ} :
      (R : Result (Failure Error F) ⊤ × Store L Q P → Type ℓ) (origin : O) (onoff : Bool)
      (s : Store L Q P)
      → ((e : Failure Error F) → R (err e, s))
      → ((id : ℕ) (dev : DeviceProfile)
          → T.ensure_signed origin ≡ ok id
          → lookup id s.devices ≡ some dev
          → (dev.state ≡ busy) ⊎ (dev.state ≡ accepted)
          → R (
              order_reject T
                (lookup id s.orders)
                s.now
                id
                (record dev { state = if onoff then ready else off })
                onoff
                s))
      → R (accept T origin true onoff s)
  unfolding accept
  decline_cases R origin onoff s same reached = grind (arith, reached, same)

  pub done_cases {ℓ} :
      (R : Result (Failure Error F) ⊤ × Store L Q P → Type ℓ) (origin : O) (onoff : Bool)
      (s : Store L Q P)
      → ((e : Failure Error F) → R (err e, s))
      → ((id : ℕ) (o : Order P) (dev : DeviceProfile)
          → T.ensure_signed origin ≡ ok id
          → lookup id s.orders ≡ some o
          → lookup id s.devices ≡ some dev
          → dev.state ≡ accepted
          → R (order_done T o s.now id dev onoff (record s { orders = remove id s.orders })))
      → R (done T origin onoff s)
  unfolding done
  done_cases R origin onoff s same reached = elim (Result-cases (T.ensure_signed origin)) [
    | inr (f, i) ↦ by (other f) (ground arith)
    | inl (id, i) ↦ elim (Option-cases (lookup id s.devices)) [
      | inl e ↦ by (module_error no_device) (ground arith)
      | inr (dev, e) ↦ elim (Bool-cases (state_eq dev.state accepted)) [
        | inr b ↦ by (module_error illegal_state) (ground arith)
        | inl b ↦ elim (Option-cases (lookup id s.orders)) [
          | inl k ↦ by (module_error no_order) (ground (arith, remove-none id s.orders k))
          | inr (o, k) ↦ subst⁻¹ R (called id o dev i e b k) (reached id o dev i k e (ground arith))
        ]
      ]
    ]
  ]
    where
      by : (e : Failure Error F) → done T origin onoff s ≡ (err e, s) → R (done T origin onoff s)
      by e h = subst⁻¹ R h (same e)

      called :
          (id : ℕ) (o : Order P) (dev : DeviceProfile)
          → T.ensure_signed origin ≡ ok id
          → lookup id s.devices ≡ some dev
          → state_eq dev.state accepted ≡ true
          → lookup id s.orders ≡ some o
          → done T origin onoff s
            ≡ order_done T o s.now id dev onoff (record s { orders = remove id s.orders })
      called id o dev i e b k = ground arith
