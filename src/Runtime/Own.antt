-- ===== src/Runtime/Own.antt =====
-- What the service pallet serves in the runtime, where no message reaches it and `OnReceived`
-- accepts (runtime/src/lib.rs, `type XcmpMessageHandler = XcmpQueue` and `AcceptOnReceive`).
use xcm_auto_bank.Base.{ℕ, ◌≡◌, ◌≢◌, refl, Bool, false, some, [], arith, Option-cases, inl, inr}
use xcm_auto_bank.Base.Action.{ok}
use xcm_auto_bank.Base.Map.{lookup}
use xcm_auto_bank.Common.{Order, accepted}
use xcm_auto_bank.Runtime.Accepting.{accept_never_ok}
use xcm_auto_bank.Runtime.Dispatch.{
  Libraries, RuntimeCall, RuntimeError, ServiceCall, service_config, dispatch,
}
use xcm_auto_bank.Runtime.Histories.{
  Step, Reach, Reach-Reach, service_Step, reap_same, receive_same,
}
use xcm_auto_bank.Runtime.Solvency.{sound, raised_ok}
use xcm_auto_bank.Runtime.State.{RuntimeState, service_storage}
use xcm_auto_bank.Service.{DeviceProfile}
use xcm_auto_bank.Service.Invariant.{IsWf-genesis}
use xcm_auto_bank.Service.Local.{IsOwn, AllLocal, Step-AllLocal}
use xcm_auto_bank.Service.Prompt.{Reach-NoneBusy}
use xcm_auto_bank.Service.Steps as Serving

module _ {L Q F O : Type 0} (K : Libraries L Q F O) where
  service_IsOwn :
      (c : ServiceCall) (origin : O) (s : RuntimeState L Q)
      → IsOwn (service_config K) (service_Step K c origin s)
  service_IsOwn (ServiceCall.order o) origin s = tt
  service_IsOwn (ServiceCall.cancel device) origin s = tt
  service_IsOwn (ServiceCall.accept rejects onoff) origin s = tt
  service_IsOwn (ServiceCall.done onoff) origin s = tt
  service_IsOwn (ServiceCall.set_state onoff) origin s = tt
  service_IsOwn (ServiceCall.register penalty wcd onoff) origin s = tt

  Step-local :
      {s t : RuntimeState L Q}
      → Step K s t
      → AllLocal (service_config K) (service_storage s)
      → AllLocal (service_config K) (service_storage t)
  unfolding dispatch
  Step-local (Step.dispatches origin (RuntimeCall.template_pallet c)) h = h
  Step-local (Step.dispatches origin (RuntimeCall.xchange_pallet c)) h = h
  Step-local {s} (Step.dispatches origin (RuntimeCall.xchange_service c)) h =
      Step-AllLocal (service_config K) (service_Step K c origin s) (service_IsOwn c origin s) h
  Step-local {s} (Step.receives batch max_weight) h = rw (receive_same K batch max_weight s) h
  Step-local {s} (Step.reaps who) h = rw (reap_same K who s) h
  Step-local (Step.elsewhere now ledger queues events later) h = h

  Reach-local :
      {s t : RuntimeState L Q}
      → Reach K s t
      → AllLocal (service_config K) (service_storage s)
      → AllLocal (service_config K) (service_storage t)
  Reach-local Reach.here h = h
  Reach-local (Reach.next r st) h = Step-local st (Reach-local r h)

  module _ (s t : RuntimeState L Q) (no_devices : s.service_devices ≡ [])
      (no_orders : s.service_orders ≡ []) (r : Reach K s t) where
    history : Serving.Reach (service_config K) (service_storage s) (service_storage t)
    history = (Reach-Reach K r).1

    local : (d : ℕ) (o : Order ℕ) → lookup d t.service_orders ≡ some o → o.paraid ≡ K.parachain_id
    local d o k = Reach-local r (λ d' o' e. absurd (ground (arith, e, no_orders))) d o k

    already :
        (d : ℕ) (o : Order ℕ)
        → lookup d t.service_orders ≡ some o
        → (dev : DeviceProfile) × (lookup d t.service_devices ≡ some dev) × (dev.state ≡ accepted)
    already d o k =
        let w =
          Serving.Reach-IsWf (service_config K) (sound K) history
            (IsWf-genesis (service_storage s) no_devices no_orders) in
        let none_busy =
          Reach-NoneBusy (service_config K) (λ device o' state answered. ground arith) history
            (λ d'. rw no_devices tt) in
        elim (Option-cases (lookup d t.service_devices)) [
          | inl e ↦ absurd (let h = w.held d in ground arith)
          | inr (dev, e) ↦ (dev, e, let h = w.held d in ground (arith, none_busy d))
        ]

    never_accepts :
        (origin : O) (onoff : Bool)
        → (dispatch K (RuntimeCall.xchange_service (ServiceCall.accept false onoff)) origin t).0
          ≢ ok tt
    unfolding dispatch
    never_accepts origin onoff h =
        accept_never_ok (service_config K) (λ device o. refl) (service_storage s)
          (service_storage t) no_devices history origin onoff
          (raised_ok RuntimeError.xchange_service _ h)

    -- In any history of the runtime that began without devices and orders in the service pallet,
    -- whatever is called, with whatever result, and whatever messages arrive: an order in the
    -- pallet is one of this parachain, its device is registered and has accepted it already, and
    -- every call of `accept` without rejection fails.
    pub serves_own_accepted :
        (d : ℕ) (o : Order ℕ)
        → lookup d t.service_orders ≡ some o
        → (o.paraid ≡ K.parachain_id)
          × ((dev : DeviceProfile) × (lookup d t.service_devices ≡ some dev)
              × (dev.state ≡ accepted))
          × ((origin : O) (onoff : Bool)
              → (dispatch K
                  (RuntimeCall.xchange_service (ServiceCall.accept false onoff))
                  origin
                  t).0
                ≢ ok tt)
    serves_own_accepted d o k = (local d o k, already d o k, never_accepts)
