-- ===== src/Xchange/Cases.antt =====
-- How `cancel` and `on_reject` reach `order_reject` (pallets/xchange/src/lib.rs): either they
-- leave the storage alone, or all their guards have passed.
use xcm_auto_bank.Base.{ℕ, ⊤, ◌≤◌, ◌≡◌, inl, inr, Bool, not, some, arith, if◌then◌else◌}
use xcm_auto_bank.Base.Action.{Result, ok, err, Result-cases}
use xcm_auto_bank.Base.Map.{lookup}
use xcm_auto_bank.Common.{off, ready, Order}
use xcm_auto_bank.Frame.{Config}
use xcm_auto_bank.Pallet.{Failure}
use xcm_auto_bank.Xchange.{DeviceProfile, Error, Store, order_reject, cancel, on_reject}

module _ {L Q F O P : Type 0} (T : Config L Q F O P) where
  pub cancel_cases {ℓ} :
      (R : Result (Failure Error F) ⊤ × Store L Q P → Type ℓ) (origin : O) (device : ℕ)
      (s : Store L Q P)
      → ((e : Failure Error F) → R (err e, s))
      → ((who : ℕ) (o : Order P) (dev : DeviceProfile)
          → T.ensure_signed origin ≡ ok who
          → lookup device s.orders ≡ some o
          → lookup device s.devices ≡ some dev
          → o.until ≤ s.now
          → o.client ≡ who
          → R (order_reject T who o s.now device dev s))
      → R (cancel T origin device s)
  unfolding cancel
  cancel_cases R origin device s same reached = grind (arith, reached, same)

  pub on_reject_cases {ℓ} :
      (R : Result (Failure Error F) ⊤ × Store L Q P → Type ℓ) (who device : ℕ) (onoff : Bool)
      (s : Store L Q P)
      → ((e : Failure Error F) → R (err e, s))
      → ((o : Order P) (dev : DeviceProfile)
          → lookup device s.orders ≡ some o
          → lookup device s.devices ≡ some dev
          → R (
              order_reject T who o s.now device
                (record dev { state = if not onoff then off else ready })
                s))
      → R (on_reject T who device onoff s)
  unfolding on_reject
  on_reject_cases R who device onoff s same reached = grind (arith, reached, same)

  -- With an order and a profile at hand, `on_reject` is `order_reject`.
  pub on_reject_known :
      (who device : ℕ) (onoff : Bool) (s : Store L Q P) (o : Order P) (dev : DeviceProfile)
      → lookup device s.orders ≡ some o
      → lookup device s.devices ≡ some dev
      → on_reject T who device onoff s
        ≡ order_reject T who o s.now device
            (record dev { state = if not onoff then off else ready })
            s
  unfolding on_reject
  on_reject_known who device onoff s o dev k e = ground arith

  -- So is a `cancel` that succeeds, for the order's client and from the deadline on.
  pub cancel_known :
      (origin : O) (device : ℕ) (s : Store L Q P) (o : Order P) (dev : DeviceProfile)
      → lookup device s.orders ≡ some o
      → lookup device s.devices ≡ some dev
      → (cancel T origin device s).0 ≡ ok tt
      → (cancel T origin device s ≡ order_reject T o.client o s.now device dev s)
        × (o.until ≤ s.now)
        × (T.ensure_signed origin ≡ ok o.client)
  unfolding cancel
  cancel_known origin device s o dev k e h = elim (Result-cases (T.ensure_signed origin)) [
    | inr (f, i) ↦ absurd (ground arith)
    | inl (who, i) ↦ ground arith
  ]
