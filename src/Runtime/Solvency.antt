-- ===== src/Runtime/Solvency.antt =====
-- The two pallets reserve from the same balances (runtime/src/lib.rs, `type Currency = Balances`).
use xcm_auto_bank.Base.{ℕ, ◌+◌, ◌≤◌, ◌≡◌, refl, Bool, true, false, ⊤, [], arith}
use xcm_auto_bank.Base.Action.{Result, ok, err}
use xcm_auto_bank.Frame.{IsReservable}
use xcm_auto_bank.Pallet.{Failure, module_error, other}
use xcm_auto_bank.Runtime.Dispatch.{
  Libraries, RuntimeCall, RuntimeError, XchangeCall, ServiceCall, raised, xchange_config,
  service_config, call_xchange, call_service, dispatch,
}
use xcm_auto_bank.Runtime.Histories.{
  Step, Reach, Reach-Reach, service_Step, reap_same, receive_same,
}
use xcm_auto_bank.Runtime.State.{RuntimeState, xchange_storage, service_storage}
use xcm_auto_bank.Service.Escrow as ServingEscrow
use xcm_auto_bank.Service.Invariant as ServingInvariant
use xcm_auto_bank.Service.Solvency as Serving
use xcm_auto_bank.Service.Steps as ServingSteps
use xcm_auto_bank.Xchange.Escrow as ExchangeEscrow
use xcm_auto_bank.Xchange.Invariant as ExchangeInvariant
use xcm_auto_bank.Xchange.Orderly as Exchange
use xcm_auto_bank.Xchange.Steps as ExchangeSteps

-- The calls that end an order.
abbrev pub is_ending : RuntimeCall → Bool
is_ending (RuntimeCall.xchange_pallet (XchangeCall.cancel device)) = true
is_ending (RuntimeCall.xchange_service (ServiceCall.cancel device)) = true
is_ending (RuntimeCall.xchange_service (ServiceCall.accept rejects onoff)) = rejects
is_ending (RuntimeCall.xchange_service (ServiceCall.done onoff)) = true
is_ending _ = false

pub raised_ok :
    {X F : Type 0} (wrap : X → RuntimeError F) (r : Result (Failure X F) ⊤)
    → raised wrap r ≡ ok tt
    → r ≡ ok tt
raised_ok wrap (ok tt) h = ground arith
raised_ok wrap (err (module_error e)) h = absurd (ground arith)
raised_ok wrap (err (other f)) h = absurd (ground arith)

module _ {L Q F O : Type 0} (K : Libraries L Q F O) where
  -- A call that ends an order returns `Ok`; any other may fail. The libraries take from no reserve.
  abbrev pub IsOrderly : {s t : RuntimeState L Q} → Step K s t → Type 0
  IsOrderly {s} (Step.dispatches origin c) = is_ending c ≡ true → (dispatch K c origin s).0 ≡ ok tt
  IsOrderly {s} (Step.elsewhere now ledger queues events later) =
      (a : ℕ) → K.balances.reserved_balance s.ledger a ≤ K.balances.reserved_balance ledger a
  IsOrderly _ = Unit

  pub data Run (s : RuntimeState L Q) : RuntimeState L Q → Type 0 where
    here : Run s s
    next : {t u : RuntimeState L Q} → Run s t → (st : Step K t u) → IsOrderly st → Run s u

  -- What the open orders of both pallets oblige an account to.
  abbrev pub owed : RuntimeState L Q → ℕ → ℕ
  owed s a =
      ExchangeEscrow.owed (xchange_storage s) a
      + ServingEscrow.owed (service_config K) (service_storage s) a

  abbrev pub IsCovered : RuntimeState L Q → Type 0
  IsCovered s = (a : ℕ) → owed s a ≤ K.balances.reserved_balance s.ledger a

  Run-Reach : {s t : RuntimeState L Q} → Run s t → Reach K s t
  Run-Reach Run.here = Reach.here
  Run-Reach (Run.next r st orderly) = Reach.next (Run-Reach r) st

  -- The runtime's `OnReceived` accepts.
  pub sound : ServingInvariant.IsSound (service_config K)
  sound device o state answered = ground arith

  module _ (laws : IsReservable K.balances) where
    xchange_Orderly :
        (c : XchangeCall) (origin : O) (s : RuntimeState L Q)
        → (is_ending (RuntimeCall.xchange_pallet c) ≡ true
            → (call_xchange K c origin (xchange_storage s)).0 ≡ ok tt)
        → Exchange.Orderly
            (xchange_config K)
            (xchange_storage s)
            (call_xchange K c origin (xchange_storage s)).1
    xchange_Orderly XchangeCall.test origin s h = Exchange.Orderly.tests origin
    xchange_Orderly (XchangeCall.order o) origin s h = Exchange.Orderly.orders origin o
    xchange_Orderly (XchangeCall.cancel device) origin s h =
        Exchange.Orderly.cancels origin device (h refl)
    xchange_Orderly (XchangeCall.register paraid penalty wcd onoff) origin s h =
        Exchange.Orderly.registers origin paraid penalty wcd onoff

    service_IsOrderly :
        (c : ServiceCall) (origin : O) (s : RuntimeState L Q)
        → (is_ending (RuntimeCall.xchange_service c) ≡ true
            → (call_service K c origin (service_storage s)).0 ≡ ok tt)
        → Serving.IsOrderly (service_config K) sound laws (service_Step K c origin s)
    service_IsOrderly (ServiceCall.order o) origin s h = tt
    service_IsOrderly (ServiceCall.cancel device) origin s h = h refl
    service_IsOrderly (ServiceCall.accept true onoff) origin s h = h refl
    service_IsOrderly (ServiceCall.accept false onoff) origin s h = tt
    service_IsOrderly (ServiceCall.done onoff) origin s h = h refl
    service_IsOrderly (ServiceCall.set_state onoff) origin s h = tt
    service_IsOrderly (ServiceCall.register penalty wcd onoff) origin s h = tt

    Step-IsCovered :
        {s t : RuntimeState L Q} (st : Step K s t)
        → IsOrderly st
        → ExchangeInvariant.IsWf (xchange_storage s)
        → ServingInvariant.IsWf (service_storage s)
        → IsCovered s
        → IsCovered t
    unfolding dispatch
    Step-IsCovered (Step.dispatches origin (RuntimeCall.template_pallet c)) h x y w = w
    Step-IsCovered {s} (Step.dispatches origin (RuntimeCall.xchange_pallet c)) h x y w =
        let st = xchange_Orderly c origin s (λ e. raised_ok RuntimeError.xchange_pallet _ (h e)) in
        let others = ServingEscrow.owed (service_config K) (service_storage s) in
        Exchange.Orderly-IsBacked (xchange_config K) laws others st x w
    Step-IsCovered {s} (Step.dispatches origin (RuntimeCall.xchange_service c)) h x y w =
        let others = ExchangeEscrow.owed (xchange_storage s) in
        let orderly =
          service_IsOrderly c origin s (λ e. raised_ok RuntimeError.xchange_service _ (h e)) in
        let backed =
          Serving.Step-IsBacked (service_config K) sound laws others (service_Step K c origin s)
            orderly y (λ a. omega (arith, w a)) in
        λ a. omega (arith, backed a)
    Step-IsCovered {s} (Step.receives batch max_weight) h x y w =
        rw (receive_same K batch max_weight s) w
    Step-IsCovered {s} (Step.reaps who) h x y w = rw (reap_same K who s) w
    Step-IsCovered (Step.elsewhere now ledger queues events later) h x y w =
        λ a. omega (arith, w a, h a)

    -- If the currency does as documented: after any history of the runtime that began without
    -- devices and orders, in which every call that ends an order returned `Ok` and the libraries
    -- took from no reserve, every account has reserved at least what the open orders of the two
    -- pallets together oblige it to, although both reserve from the same balances: the fees of its
    -- orders and, for a device, the penalty of its order in either pallet.
    pub Run-genesis-covers :
        (s t : RuntimeState L Q)
        → s.xchange_devices ≡ []
        → s.xchange_orders ≡ []
        → s.service_devices ≡ []
        → s.service_orders ≡ []
        → Run s t
        → IsCovered t
    Run-genesis-covers s t no_devices no_orders idle unserved Run.here =
        λ a. rw (no_orders, unserved) (omega arith)
    Run-genesis-covers s t no_devices no_orders idle unserved (Run.next {t = u} r st orderly) =
        let (x, y) = Reach-Reach K (Run-Reach r) in
        Step-IsCovered st orderly
          (ExchangeSteps.Reach-genesis-IsWf (xchange_config K) (xchange_storage s)
            (xchange_storage u) no_devices no_orders x)
          (ServingSteps.Reach-IsWf (service_config K) sound y
            (ServingInvariant.IsWf-genesis (service_storage s) idle unserved))
          (Run-genesis-covers s u no_devices no_orders idle unserved r)
