-- ===== src/Runtime/Overdue.antt =====
-- What the client of an overdue order can do in the runtime (runtime/src/lib.rs and
-- pallets/xchange/src/lib.rs, `cancel`).
use xcm_auto_bank.Base.{ℕ, ◌≡◌, refl, none, some, [], arith, leb, ◌==◌, if◌then◌else◌}
use xcm_auto_bank.Base.Action.{ok}
use xcm_auto_bank.Base.Map.{lookup}
use xcm_auto_bank.Common.{Order}
use xcm_auto_bank.Runtime.Dispatch.{Libraries, RuntimeCall, XchangeCall, xchange_config, dispatch}
use xcm_auto_bank.Runtime.Histories.{Step, Reach, Reach-Reach}
use xcm_auto_bank.Runtime.State.{RuntimeState, xchange_storage}
use xcm_auto_bank.Xchange.Overdue.{IsPayable, cancel_always_ends}

module _ {L Q F O : Type 0} (K : Libraries L Q F O) where
  -- The state when the deadline of the order has come.
  abbrev pub late : Order ℕ → RuntimeState L Q → RuntimeState L Q
  late o s = record s { now = if leb o.until s.now then s.now else o.until }

  -- In any history of the runtime that began without devices and orders in the exchange pallet, if
  -- an order is open there, an origin is signed by its client, and money can be moved to the
  -- client: once the deadline has come, the dispatch of the client's `cancel` returns `Ok`, and it
  -- leads on to a state without this order, with all the others of that pallet, and with all orders
  -- and devices of the service pallet.
  pub cancel_always_possible :
      (s₀ s : RuntimeState L Q) (origin : O) (device : ℕ) (o : Order ℕ)
      → s₀.xchange_devices ≡ []
      → s₀.xchange_orders ≡ []
      → Reach K s₀ s
      → lookup device s.xchange_orders ≡ some o
      → K.ensure_signed origin ≡ ok o.client
      → IsPayable (xchange_config K) (xchange_storage s) o.client
      → let r =
          dispatch K (RuntimeCall.xchange_pallet (XchangeCall.cancel device)) origin (late o s) in
        Reach K s r.1
        × (r.0 ≡ ok tt)
        × ((d : ℕ)
            → lookup d r.1.xchange_orders
              ≡ (if d == device then none else lookup d s.xchange_orders))
        × (r.1.service_orders ≡ s.service_orders)
        × (r.1.service_devices ≡ s.service_devices)
  unfolding dispatch
  cancel_always_possible s₀ s origin device o no_devices no_orders r k signed payable =
      let (t, _, e, left) =
        cancel_always_ends (xchange_config K) (xchange_storage s₀) (xchange_storage s) origin device
          o no_devices no_orders (Reach-Reach K r).0 k signed payable in
      (
        Reach.next
            (Reach.next Reach.here
              (Step.elsewhere (late o s).now s.ledger s.queues s.events (ground arith)))
            (Step.dispatches origin (RuntimeCall.xchange_pallet (XchangeCall.cancel device))),
        rw e refl,
        λ d. rw e (left d),
        refl,
        refl,
      )
