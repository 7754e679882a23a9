-- ===== src/Runtime/Accepting.antt =====
-- The service pallet as the runtime configures it (runtime/src/lib.rs, `AcceptOnReceive`).
use xcm_auto_bank.Base.{ℕ, ◌≡◌, ◌≢◌, Bool, false, [], arith}
use xcm_auto_bank.Base.Action.{ok}
use xcm_auto_bank.Common.{Order}
use xcm_auto_bank.Runtime.{on_received}
use xcm_auto_bank.Service.{ServiceConfig, Store, accept}
use xcm_auto_bank.Service.Calls.{accept_ok_iff}
use xcm_auto_bank.Service.Prompt.{Reach-NoneBusy}
use xcm_auto_bank.Service.Steps.{Reach}

-- If `OnReceived` is the runtime's, then after any history that began without devices no `accept`
-- without rejection succeeds.
pub accept_never_ok :
    {L Q F O P : Type 0} (T : ServiceConfig L Q F O P)
    → ((device : ℕ) (o : Order P) → T.on_received device o ≡ on_received device o)
    → (s t : Store L Q P) → s.devices ≡ []
    → Reach T s t
    → (origin : O) (onoff : Bool) → (accept T origin false onoff t).0 ≢ ok tt
accept_never_ok T wired s t no_devices r origin onoff succeeds =
    let (id, o, dev, _, _, known, is_busy, _) = (accept_ok_iff T origin onoff t).0 succeeds in
    let none_busy =
      Reach-NoneBusy T (λ device o' state answered. ground (arith, wired device o')) r
        (λ d. rw no_devices tt) id in
    ground arith
