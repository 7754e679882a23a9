-- ===== src/Runtime/Histories.antt =====
-- What happens to the storage of the runtime, and what each pallet sees of it: a history of the
-- runtime is one of each pallet (runtime/src/lib.rs).
use xcm_auto_bank.Base.{ℕ, ◌≤◌, ◌≡◌, refl, List, [], arith}
use xcm_auto_bank.Runtime.Dispatch.{
  Libraries, RuntimeCall, XchangeCall, ServiceCall, xchange_config, service_config, call_xchange,
  call_service, dispatch,
}
use xcm_auto_bank.Runtime.Handlers.{
  killed_account_hooks, xcmp_message_handler, reap, handle_xcmp_messages,
}
use xcm_auto_bank.Runtime.State.{RuntimeState, RuntimeEvent, xchange_storage, service_storage}
use xcm_auto_bank.Service.Clock as ServingClock
use xcm_auto_bank.Service.Steps as Serving
use xcm_auto_bank.Xchange.Clock as ExchangeClock
use xcm_auto_bank.Xchange.Steps as Exchange
use xcm_auto_bank.Service as ServingStorage
use xcm_auto_bank.Xchange as ExchangeStorage

module _ {L Q F O : Type 0} (K : Libraries L Q F O) where
  -- A call counts with whatever it wrote, also where it returned an error.
  pub data Step (s : RuntimeState L Q) : RuntimeState L Q → Type 0 where
    dispatches : (origin : O) (call : RuntimeCall) → Step s (dispatch K call origin s).1
    receives :
        (batch : List (ℕ × ℕ × List ℕ)) (max_weight : ℕ)
        → Step s (handle_xcmp_messages K xcmp_message_handler batch max_weight s)
    reaps : (who : ℕ) → Step s (reap K killed_account_hooks who s)
    -- time passes, the libraries' pallets use the balances and the queues, and a block begins
    elsewhere :
        (now : ℕ) (ledger : L) (queues : Q) (events : List RuntimeEvent)
        → s.now ≤ now
        → Step s (record s { now = now; ledger = ledger; queues = queues; events = events })

  pub data Reach (s : RuntimeState L Q) : RuntimeState L Q → Type 0 where
    here : Reach s s
    next : {t u : RuntimeState L Q} → Reach s t → Step t u → Reach s u

  -- Neither the hook nor the handler of a pallet is called.
  pub reap_same : (who : ℕ) (s : RuntimeState L Q) → reap K killed_account_hooks who s ≡ s
  unfolding reap killed_account_hooks
  reap_same who s = refl

  pub receive_same :
      (batch : List (ℕ × ℕ × List ℕ)) (max_weight : ℕ) (s : RuntimeState L Q)
      → handle_xcmp_messages K xcmp_message_handler batch max_weight s ≡ s
  unfolding handle_xcmp_messages xcmp_message_handler
  receive_same batch max_weight s = refl

  -- A call is a step of its pallet.
  abbrev pub xchange_Step :
      (c : XchangeCall) (origin : O) (s : RuntimeState L Q)
      → Exchange.Step
          (xchange_config K)
          (xchange_storage s)
          (call_xchange K c origin (xchange_storage s)).1
  xchange_Step XchangeCall.test origin s = Exchange.Step.tests origin
  xchange_Step (XchangeCall.order o) origin s = Exchange.Step.orders origin o
  xchange_Step (XchangeCall.cancel device) origin s = Exchange.Step.cancels origin device
  xchange_Step (XchangeCall.register paraid penalty wcd onoff) origin s =
      Exchange.Step.registers origin paraid penalty wcd onoff

  abbrev pub service_Step :
      (c : ServiceCall) (origin : O) (s : RuntimeState L Q)
      → Serving.Step
          (service_config K)
          (service_storage s)
          (call_service K c origin (service_storage s)).1
  service_Step (ServiceCall.order o) origin s = Serving.Step.orders origin o
  service_Step (ServiceCall.cancel device) origin s = Serving.Step.cancels origin device
  service_Step (ServiceCall.accept rejects onoff) origin s =
      Serving.Step.accepts origin rejects onoff
  service_Step (ServiceCall.done onoff) origin s = Serving.Step.completes origin onoff
  service_Step (ServiceCall.set_state onoff) origin s = Serving.Step.switches origin onoff
  service_Step (ServiceCall.register penalty wcd onoff) origin s =
      Serving.Step.registers origin penalty wcd onoff

  -- A step of the runtime lengthens a history of the exchange pallet.
  xchange_lengthens :
      {x : ExchangeStorage.Store L Q ℕ} {s t : RuntimeState L Q}
      → Step s t
      → Exchange.Reach (xchange_config K) x (xchange_storage s)
      → Exchange.Reach (xchange_config K) x (xchange_storage t)
  unfolding dispatch
  xchange_lengthens {s = s} (dispatches origin (RuntimeCall.template_pallet c)) h =
      Exchange.Reach.next h (Exchange.Step.elsewhere s.now s.ledger s.queues [] (omega arith))
  xchange_lengthens {s = s} (dispatches origin (RuntimeCall.xchange_pallet c)) h =
      let t = (call_xchange K c origin (xchange_storage s)).1 in
      Exchange.Reach.next (Exchange.Reach.next h (xchange_Step c origin s))
        (Exchange.Step.elsewhere t.now t.ledger t.queues [] (omega arith))
  xchange_lengthens {s = s} (dispatches origin (RuntimeCall.xchange_service c)) h =
      let t = (call_service K c origin (service_storage s)).1 in
      Exchange.Reach.next h (
        Exchange.Step.elsewhere t.now t.ledger t.queues []
          (ServingClock.Step-now (service_config K) (service_Step c origin s)))
  xchange_lengthens {s = s} (receives batch max_weight) h = rw (receive_same batch max_weight s) h
  xchange_lengthens {s = s} (reaps who) h = rw (reap_same who s) h
  xchange_lengthens (elsewhere now ledger queues events later) h =
      Exchange.Reach.next h (Exchange.Step.elsewhere now ledger queues [] later)

  service_lengthens :
      {x : ServingStorage.Store L Q ℕ} {s t : RuntimeState L Q}
      → Step s t
      → Serving.Reach (service_config K) x (service_storage s)
      → Serving.Reach (service_config K) x (service_storage t)
  unfolding dispatch
  service_lengthens {s = s} (dispatches origin (RuntimeCall.template_pallet c)) h =
      Serving.Reach.next h (Serving.Step.elsewhere s.now s.ledger s.queues [] (omega arith))
  service_lengthens {s = s} (dispatches origin (RuntimeCall.xchange_service c)) h =
      let t = (call_service K c origin (service_storage s)).1 in
      Serving.Reach.next (Serving.Reach.next h (service_Step c origin s))
        (Serving.Step.elsewhere t.now t.ledger t.queues [] (omega arith))
  service_lengthens {s = s} (dispatches origin (RuntimeCall.xchange_pallet c)) h =
      let t = (call_xchange K c origin (xchange_storage s)).1 in
      Serving.Reach.next h (
        Serving.Step.elsewhere t.now t.ledger t.queues []
          (ExchangeClock.Step-now (xchange_config K) (xchange_Step c origin s)))
  service_lengthens {s = s} (receives batch max_weight) h = rw (receive_same batch max_weight s) h
  service_lengthens {s = s} (reaps who) h = rw (reap_same who s) h
  service_lengthens (elsewhere now ledger queues events later) h =
      Serving.Reach.next h (Serving.Step.elsewhere now ledger queues [] later)

  -- Every history of the runtime is, for each of the two pallets, a history of that pallet.
  pub Reach-Reach :
      {s t : RuntimeState L Q}
      → Reach s t
      → Exchange.Reach (xchange_config K) (xchange_storage s) (xchange_storage t)
        × Serving.Reach (service_config K) (service_storage s) (service_storage t)
  Reach-Reach here = (Exchange.Reach.here, Serving.Reach.here)
  Reach-Reach (next r st) =
      let (x, y) = Reach-Reach r in (xchange_lengthens st x, service_lengthens st y)
