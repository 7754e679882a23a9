-- ===== src/Runtime/Refusal.antt =====
-- An order's way from a parachain of this runtime to another one of it (runtime/src/lib.rs,
-- `XcmRouter` and `Barrier`; pallets/xchange/src/lib.rs, `order`).
use xcm_auto_bank.Base.{ℕ, ◌<◌, ◌≡◌, ap, ◌∙◌, false, some, List, Bool-cases, inl, inr, arith}
use xcm_auto_bank.Base.Action.{ok}
use xcm_auto_bank.Base.Map.{lookup}
use xcm_auto_bank.Common.{OrderBase, XcmpMessage}
use xcm_auto_bank.Frame.{Transact}
use xcm_auto_bank.Pallet.{transact}
use xcm_auto_bank.Runtime.Dispatch.{
  Libraries, RuntimeCall, RuntimeError, XchangeCall, xchange_config, dispatch,
}
use xcm_auto_bank.Runtime.Origins.{sibling}
use xcm_auto_bank.Runtime.Routing as Routing
use xcm_auto_bank.Runtime.Routing.{xcm_router-sibling}
use xcm_auto_bank.Runtime.Solvency.{raised_ok}
use xcm_auto_bank.Runtime.State.{RuntimeState, xchange_storage}
use xcm_auto_bank.Runtime.Xcm.{Barriers, IsDocumented, barrier, barrier-transact}
use xcm_auto_bank.Xchange as Exchange
use xcm_auto_bank.Xchange.Placing.{order_ok-Orderable, order-placed}

-- The pallets' message from a sibling does not pass the barrier.
refuses :
    {M : Type 0} (b : Barriers M) (para : ℕ) (call : List ℕ) (max_weight credit : ℕ)
    → IsDocumented b
    → credit < max_weight
    → barrier b (sibling para) (b.of_transact (transact call)) max_weight credit ≡ false
refuses b para call max_weight credit doc poor =
    elim (Bool-cases (barrier b (sibling para) (b.of_transact (transact call)) max_weight credit)) [
      | inr e ↦ e
      | inl e ↦ absurd (
          let (_, from_above) =
            barrier-transact b (sibling para) call max_weight credit doc poor e in
          ground arith)
    ]

module _ {L Q F O : Type 0} (K : Libraries L Q F O) where
  -- The message for an order of `who`.
  abbrev pub request : ℕ → OrderBase ℕ → List Transact
  request who o = transact (K.encode (XcmpMessage.new_order who o))

module _ {L Q F O M : Type 0} (K : Libraries L Q F O) (b : Barriers M) where
  -- If the routers and the barriers of the libraries do as documented: an `order` that succeeds in
  -- the runtime hands the request, in the name of its signer, to the XCMP queue for the parachain
  -- of the device. A parachain with this runtime's barrier refuses to execute that message, if the
  -- credit that it has does not cover the message's weight.
  pub order_is_refused :
      Routing.IsDocumented K.routers
      → IsDocumented b
      → (origin : O) (o : OrderBase ℕ) (s : RuntimeState L Q) (max_weight credit : ℕ)
      → credit < max_weight
      → (dispatch K (RuntimeCall.xchange_pallet (XchangeCall.order o)) origin s).0 ≡ ok tt
      → let t = (dispatch K (RuntimeCall.xchange_pallet (XchangeCall.order o)) origin s).1 in
        (who : ℕ) × (dev : Exchange.DeviceProfile) × (K.ensure_signed origin ≡ ok who)
        × (lookup o.device s.xchange_devices ≡ some dev)
        × (t.queues ≡ (K.routers.xcmp_queue s.queues (sibling dev.para_id) (request K who o)).1)
        × (barrier b (sibling K.parachain_id) (b.of_transact (request K who o)) max_weight credit
            ≡ false)
  unfolding dispatch
  order_is_refused routes doc origin o s max_weight credit poor succeeds =
      let (who, dev, l₁, l₂, c) =
        order_ok-Orderable (xchange_config K) origin o (xchange_storage s)
          (raised_ok RuntimeError.xchange_pallet _ succeeds) in
      let placed = order-placed (xchange_config K) origin o (xchange_storage s) who dev l₁ l₂ c in
      (
        who,
        dev,
        c.signed,
        c.registered,
        ap (λ r. r.1.queues) placed
            ∙ ap (λ r. r.1)
                (xcm_router-sibling K.routers s.queues dev.para_id (request K who o) routes),
        refuses b K.parachain_id (K.encode (XcmpMessage.new_order who o)) max_weight credit doc
            poor,
      )
