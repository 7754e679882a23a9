-- ===== src/Service/Local.antt =====
-- Where no message arrives, all orders are of this parachain (pallets/xchange-service/src/lib.rs).
use xcm_auto_bank.Base.{ℕ, ◌≡◌, refl}
use xcm_auto_bank.Common.{Order}
use xcm_auto_bank.Service.{ServiceConfig, Store}
use xcm_auto_bank.Service.Arrivals.{Everywhere, Brings, Step-Everywhere}
use xcm_auto_bank.Service.Steps.{Step}

module _ {L Q F O P : Type 0} (T : ServiceConfig L Q F O P) where
  abbrev pub IsLocal : ℕ → Order P → Type 0
  IsLocal device o = o.paraid ≡ T.self_para_id

  abbrev pub AllLocal : Store L Q P → Type 0
  AllLocal s = Everywhere T IsLocal s.orders

  -- No batch of messages arrives.
  abbrev pub IsOwn : {s t : Store L Q P} → Step T s t → Type 0
  IsOwn (Step.receives batch max_weight) = ⊥
  IsOwn _ = Unit

  Brings-IsLocal : {s t : Store L Q P} (st : Step T s t) → IsOwn st → Brings T IsLocal st
  Brings-IsLocal (Step.orders origin o) own = λ who e. refl
  Brings-IsLocal (Step.cancels origin device) own = tt
  Brings-IsLocal (Step.accepts origin rejects onoff) own = tt
  Brings-IsLocal (Step.completes origin onoff) own = tt
  Brings-IsLocal (Step.registers origin penalty wcd onoff) own = tt
  Brings-IsLocal (Step.switches origin onoff) own = tt
  Brings-IsLocal (Step.receives batch max_weight) own = absurd own
  Brings-IsLocal (Step.reaps who) own = tt
  Brings-IsLocal (Step.elsewhere now ledger queues events later) own = tt

  pub Step-AllLocal : {s t : Store L Q P} (st : Step T s t) → IsOwn st → AllLocal s → AllLocal t
  Step-AllLocal st own h = Step-Everywhere T IsLocal st (Brings-IsLocal st own) h
