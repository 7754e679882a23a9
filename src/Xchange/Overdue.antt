-- ===== src/Xchange/Overdue.antt =====
-- What becomes of an order whose deadline passes (pallets/xchange/src/lib.rs, `cancel`).
use xcm_auto_bank.Base.{
  ℕ, ◌≡◌, refl, none, some, [], arith, leb, ◌==◌, if◌then◌else◌, Option-cases, inl, inr,
}
use xcm_auto_bank.Base.Action.{ok}
use xcm_auto_bank.Base.Map.{lookup, lookup-remove}
use xcm_auto_bank.Common.{Order}
use xcm_auto_bank.Frame.{Config}
use xcm_auto_bank.Xchange.{DeviceProfile, Event, Store, cancel}
use xcm_auto_bank.Xchange.Cancel.{cancel-closed}
use xcm_auto_bank.Xchange.Invariant.{IsWf, IsWf-genesis}
use xcm_auto_bank.Xchange.Settlement.{closed}
use xcm_auto_bank.Xchange.Steps.{Step, Reach, Reach-IsWf}

module _ {L Q F O P : Type 0} (T : Config L Q F O P) where
  -- The storage when the deadline of the order has come.
  abbrev pub due : Order P → Store L Q P → Store L Q P
  due o s = record s { now = if leb o.until s.now then s.now else o.until }

  -- Money can be moved from a reserve to `client`, whose account exists, once a fee is released.
  abbrev pub IsPayable : Store L Q P → ℕ → Type 0
  IsPayable s client =
      (fee device penalty : ℕ)
      → (l : L) × (T.currency.repatriate_reserved (T.currency.unreserve s.ledger client fee) device
            client penalty
          ≡ ok l)

  cancel-due :
      (s : Store L Q P) (origin : O) (device : ℕ) (o : Order P)
      → IsWf s
      → lookup device s.orders ≡ some o
      → T.ensure_signed origin ≡ ok o.client
      → IsPayable s o.client
      → (dev : DeviceProfile) × (l : L) × (cancel T origin device (due o s)
          ≡ (ok tt, closed T (due o s) device dev l (Event.reject o.client device)))
  cancel-due s origin device o w k signed payable = elim (Option-cases (lookup device s.devices)) [
    | inl e ↦ absurd (let h = w.held device in ground arith)
    | inr (dev, e) ↦
        let (l, paid) = payable o.fee device dev.penalty in
        (
          dev,
          l,
          cancel-closed T origin device (due o s) o.client o dev l (record {
            signed = signed;
            has_order = k;
            is_due = ground arith;
            is_owner = refl;
            registered = e;
            penalty_paid = paid;
          }),
        )
  ]

  -- If an order is open in a storage that was reached from an empty one, an origin is signed by its
  -- client, and money can be moved to the client: when the time of the deadline has come, the
  -- client's `cancel` succeeds. So the storage leads on, by time passing and one call, to one
  -- without this order and with all the others.
  pub cancel_always_ends :
      (s₀ s : Store L Q P) (origin : O) (device : ℕ) (o : Order P)
      → s₀.devices ≡ []
      → s₀.orders ≡ []
      → Reach T s₀ s
      → lookup device s.orders ≡ some o
      → T.ensure_signed origin ≡ ok o.client
      → IsPayable s o.client
      → (t : Store L Q P) × Reach T s t
        × (cancel T origin device (due o s) ≡ (ok tt, t))
        × ((d : ℕ) → lookup d t.orders ≡ (if d == device then none else lookup d s.orders))
  cancel_always_ends s₀ s origin device o no_devices no_orders r k signed payable =
      let (dev, l, e) =
        cancel-due s origin device o (Reach-IsWf T r (IsWf-genesis s₀ no_devices no_orders)) k
          signed payable in
      (
        (cancel T origin device (due o s)).1,
        Reach.next
            (Reach.next Reach.here
              (Step.elsewhere (due o s).now s.ledger s.queues s.events (ground arith)))
            (Step.cancels origin device),
        rw e refl,
        λ d. rw e (lookup-remove d device s.orders),
      )
