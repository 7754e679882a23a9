-- ===== src/Xchange/Outcome.antt =====
-- What a `cancel` does to an open order, whatever it returns (pallets/xchange/src/lib.rs).
use xcm_auto_bank.Base.{ℕ, ◌≤◌, ◌≡◌, ◌⊎◌, inl, inr, arith, ◌==◌, Bool-cases, Option-cases}
use xcm_auto_bank.Base.Action.{ok, err, Result-cases}
use xcm_auto_bank.Base.Map.{lookup}
use xcm_auto_bank.Common.{Order}
use xcm_auto_bank.Frame.{Config}
use xcm_auto_bank.Pallet.{Failure}
use xcm_auto_bank.Xchange.{DeviceProfile, Error, Store, order_reject, cancel}
use xcm_auto_bank.Xchange.Cases.{cancel_cases, cancel_known}
use xcm_auto_bank.Xchange.Locked.{Binds, Step-Binds}
use xcm_auto_bank.Xchange.Steps.{Step}

module _ {L Q F O P : Type 0} (T : Config L Q F O P) (d : ℕ) (o : Order P) (penalty wcd para_id : ℕ)
    (s : Store L Q P) where
  order_reject_failed-Binds :
      (who : ℕ) (o' : Order P) (now device : ℕ) (dev : DeviceProfile) (e : Failure Error F)
      → (order_reject T who o' now device dev s).0 ≡ err e
      → Binds T d o penalty wcd para_id s
      → Binds T d o penalty wcd para_id (order_reject T who o' now device dev s).1
  unfolding order_reject
  order_reject_failed-Binds who o' now device dev e h b = ground (arith, h)

  cancel_failed-Binds :
      (origin : O) (device : ℕ) (e : Failure Error F)
      → (cancel T origin device s).0 ≡ err e
      → Binds T d o penalty wcd para_id s
      → Binds T d o penalty wcd para_id (cancel T origin device s).1
  cancel_failed-Binds origin device e =
      cancel_cases T
        (λ r. r.0 ≡ err e → Binds T d o penalty wcd para_id s → Binds T d o penalty wcd para_id r.1)
        origin device s (λ e' h b. b)
        λ who o' dev _ _ _ _ _ h b. order_reject_failed-Binds who o' s.now device dev e h b

  -- The order stays as it was, or it is the client's `cancel` from the deadline on, and succeeds.
  pub cancel-outcome :
      (origin : O) (device : ℕ)
      → Binds T d o penalty wcd para_id s
      → Binds T d o penalty wcd para_id (cancel T origin device s).1
        ⊎ ((device ≡ d)
            × ((cancel T origin device s).0 ≡ ok tt)
            × (o.until ≤ s.now)
            × (T.ensure_signed origin ≡ ok o.client))
  cancel-outcome origin device b = elim (Result-cases (cancel T origin device s).0) [
    | inr (e, h) ↦ inl (cancel_failed-Binds origin device e h b)
    | inl (u, h) ↦ elim (Bool-cases (device == d)) [
      | inr ne ↦
          inl (
            Step-Binds T d o penalty wcd para_id (Step.cancels origin device) b (λ m. ground arith))
      | inl same ↦ inr (known (ground arith) h)
    ]
  ]
    where
      known :
          device ≡ d
          → (cancel T origin device s).0 ≡ ok tt
          → (device ≡ d)
            × ((cancel T origin device s).0 ≡ ok tt)
            × (o.until ≤ s.now)
            × (T.ensure_signed origin ≡ ok o.client)
      known same h = elim (Option-cases (lookup device s.devices)) [
        | inl e ↦ absurd (ground arith)
        | inr (dev, e) ↦
            let (_, late, signed) = cancel_known T origin device s o dev (ground arith) e h in
            (same, h, late, signed)
      ]
