-- ===== src/Runtime/Waiting.antt =====
-- How an order of the exchange pallet ends in the runtime, where the answers of the other
-- parachains do not reach the pallet (runtime/src/lib.rs, `type XcmpMessageHandler = XcmpQueue`).
use xcm_auto_bank.Base.{ℕ, ◌≤◌, ◌≡◌, ◌⊎◌, inl, inr, some, [], arith, Option-cases}
use xcm_auto_bank.Base.Action.{ok}
use xcm_auto_bank.Base.Map.{lookup}
use xcm_auto_bank.Common.{Order, busy, timewait}
use xcm_auto_bank.Runtime.Dispatch.{Libraries, RuntimeCall, XchangeCall, xchange_config, dispatch}
use xcm_auto_bank.Runtime.Histories.{
  Step, Reach, Reach-Reach, xchange_Step, reap_same, receive_same,
}
use xcm_auto_bank.Runtime.State.{RuntimeState, xchange_storage}
use xcm_auto_bank.Xchange.Locked.{Binds, Step-Binds}
use xcm_auto_bank.Xchange.Outcome.{cancel-outcome}
use xcm_auto_bank.Xchange.Steps as Exchange
use xcm_auto_bank.Xchange as Exchanged

module _ {L Q F O : Type 0} (K : Libraries L Q F O) (d : ℕ) (o : Order ℕ) where
  -- The `cancel` of the device's order, and its client signs it.
  abbrev pub cancel_it : RuntimeCall
  cancel_it = RuntimeCall.xchange_pallet (XchangeCall.cancel d)

  -- On the way from `s` to `t` the order's client has cancelled it, from the deadline on, and that
  -- call has returned `Ok`.
  pub record Cancellation (s t : RuntimeState L Q) : Type 0 where
    pub between : RuntimeState L Q
    pub origin : O
    pub before : Reach K s between
    pub has_order : lookup d between.xchange_orders ≡ some o
    pub is_due : o.until ≤ between.now
    pub signed : K.ensure_signed origin ≡ ok o.client
    pub succeeds : (dispatch K cancel_it origin between).0 ≡ ok tt
    pub after : Reach K (dispatch K cancel_it origin between).1 t

  -- The order is open, and the device is busy or abandoned.
  abbrev pub StillOpen : RuntimeState L Q → Type 0
  StillOpen s =
      (lookup d s.xchange_orders ≡ some o)
      × ((dev : Exchanged.DeviceProfile) × (lookup d s.xchange_devices ≡ some dev)
          × ((dev.state ≡ busy) ⊎ (dev.state ≡ timewait)))

  module _ (penalty wcd para_id : ℕ) where
    abbrev IsHeld : RuntimeState L Q → Type 0
    IsHeld s = Binds (xchange_config K) d o penalty wcd para_id (xchange_storage s)

    IsHeld-order : (s : RuntimeState L Q) → IsHeld s → lookup d s.xchange_orders ≡ some o
    IsHeld-order s h = ground arith

    still_open : (s : RuntimeState L Q) → IsHeld s → StillOpen s
    still_open s h = elim (Option-cases (lookup d s.xchange_devices)) [
      | inl e ↦ absurd (ground arith)
      | inr (dev, e) ↦ (IsHeld-order s h, (dev, e, ground arith))
    ]

    call-IsHeld :
        (origin : O) (c : XchangeCall) {s₀ s : RuntimeState L Q}
        → Reach K s₀ s
        → IsHeld s
        → let t = (dispatch K (RuntimeCall.xchange_pallet c) origin s).1 in
          IsHeld t ⊎ Cancellation s₀ t
    unfolding dispatch
    call-IsHeld origin (XchangeCall.cancel device) {s = s} r h =
        elim (cancel-outcome (xchange_config K) d o penalty wcd para_id (xchange_storage s) origin
          device h) [
            | inl b ↦ inl b
            | inr (same, succeeds, late, signed) ↦ inr (record {
              between = s;
              origin = origin;
              before = r;
              has_order = IsHeld-order s h;
              is_due = late;
              signed = signed;
              succeeds = ground arith;
              after = rw same Reach.here;
            })
          ]
    call-IsHeld origin XchangeCall.test {s = s} r h = inl (
        Step-Binds (xchange_config K) d o penalty wcd para_id
          (xchange_Step K XchangeCall.test origin s) h (λ n. n))
    call-IsHeld origin (XchangeCall.order o') {s = s} r h = inl (
        Step-Binds (xchange_config K) d o penalty wcd para_id
          (xchange_Step K (XchangeCall.order o') origin s) h (λ n. n))
    call-IsHeld origin (XchangeCall.register paraid penalty' wcd' onoff) {s = s} r h = inl (
        Step-Binds (xchange_config K) d o penalty wcd para_id
          (xchange_Step K (XchangeCall.register paraid penalty' wcd' onoff) origin s) h (λ n. n))

    Step-IsHeld :
        {s₀ s t : RuntimeState L Q}
        → Reach K s₀ s
        → Step K s t
        → IsHeld s
        → IsHeld t ⊎ Cancellation s₀ t
    unfolding dispatch
    Step-IsHeld r (Step.dispatches origin (RuntimeCall.template_pallet c)) h = inl h
    Step-IsHeld r (Step.dispatches origin (RuntimeCall.xchange_service c)) h = inl h
    Step-IsHeld r (Step.dispatches origin (RuntimeCall.xchange_pallet c)) h =
        call-IsHeld origin c r h
    Step-IsHeld {s = s} r (Step.receives batch max_weight) h =
        inl (rw (receive_same K batch max_weight s) h)
    Step-IsHeld {s = s} r (Step.reaps who) h = inl (rw (reap_same K who s) h)
    Step-IsHeld r (Step.elsewhere now ledger queues events later) h = inl h

    Reach-IsHeld : {s t : RuntimeState L Q} → Reach K s t → IsHeld s → IsHeld t ⊎ Cancellation s t
    Reach-IsHeld Reach.here h = inl h
    Reach-IsHeld (Reach.next r st) h = elim (Reach-IsHeld r h) [
      | inl b ↦ Step-IsHeld r st b
      | inr c ↦ inr (record {
        between = c.between;
        origin = c.origin;
        before = c.before;
        has_order = c.has_order;
        is_due = c.is_due;
        signed = c.signed;
        succeeds = c.succeeds;
        after = Reach.next c.after st;
      })
    ]

  -- In any history of the runtime that began without devices and orders, whatever is called, with
  -- whatever result, and whatever messages arrive: an order of the exchange pallet stays open, with
  -- its device held, until its client cancels it, from the deadline on, with success.
  pub open_until_cancelled :
      (s₀ s t : RuntimeState L Q)
      → s₀.xchange_devices ≡ []
      → s₀.xchange_orders ≡ []
      → Reach K s₀ s
      → lookup d s.xchange_orders ≡ some o
      → Reach K s t
      → StillOpen t ⊎ Cancellation s t
  open_until_cancelled s₀ s t no_devices no_orders r k r' =
      let w =
        Exchange.Reach-genesis-IsWf (xchange_config K) (xchange_storage s₀) (xchange_storage s)
          no_devices no_orders (Reach-Reach K r).0 in
      elim (Option-cases (lookup d s.xchange_devices)) [
        | inl e ↦ absurd (let h = w.held d in ground arith)
        | inr (dev, e) ↦
            let h = w.held d in
            elim (Reach-IsHeld dev.penalty dev.wcd dev.para_id r' (ground arith)) [
              | inl b ↦ inl (still_open dev.penalty dev.wcd dev.para_id t b)
              | inr c ↦ inr c
            ]
      ]
