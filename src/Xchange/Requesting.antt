-- ===== src/Xchange/Requesting.antt =====
-- The requests of the exchange pallet, step by step (pallets/xchange/src/lib.rs): what waits for
-- other parachains after a step has waited before, or is the request of the order it placed.
use xcm_auto_bank.Base.{⊤, ◌⊎◌, inl, List}
use xcm_auto_bank.Base.Member.{IsIn}
use xcm_auto_bank.Frame.{Config}
use xcm_auto_bank.Outbox.{Packet, IsOutbox, Hands-IsIn}
use xcm_auto_bank.Xchange.{Store}
use xcm_auto_bank.Xchange.Sending.{
  IsRequest, IsTest, test-Hands, order-Hands, cancel-queues, register-queues,
  on_killed_account-queues, handle_xcmp_messages-queues,
}
use xcm_auto_bank.Xchange.Steps.{Step}

module _ {L Q F O P : Type 0} (T : Config L Q F O P) (pending : Q → List Packet)
    (outbox : IsOutbox T.send_xcm pending) (p : Packet) where
  abbrev Waits : Q → Type 0
  Waits q = IsIn p (pending q)

  -- What the rest of the chain does to the queues adds no such packet.
  abbrev pub AddsNone : {s t : Store L Q P} → Step T s t → Type 0
  AddsNone {s} (Step.elsewhere now ledger queues events later) = Waits queues → Waits s.queues
  AddsNone _ = ⊤

  -- The packet that the step hands over.
  abbrev pub Says : {s t : Store L Q P} → Step T s t → Type 0
  Says (Step.tests origin) = IsTest T p
  Says {s} (Step.orders origin o) = IsRequest T origin o s p
  Says _ = ⊥

  -- What waits after a step has waited before, or the step has handed it over.
  pub Step-Says :
      {s t : Store L Q P} (st : Step T s t)
      → AddsNone st
      → Waits t.queues
      → Waits s.queues ⊎ Says st
  Step-Says {s} (Step.tests origin) adds i =
      Hands-IsIn T.send_xcm outbox p (test-Hands T s origin) i
  Step-Says {s} (Step.orders origin o) adds i =
      Hands-IsIn T.send_xcm outbox p (order-Hands T s origin o) i
  Step-Says {s} (Step.cancels origin device) adds i = inl (rw (← cancel-queues T s origin device) i)
  Step-Says {s} (Step.registers origin paraid penalty wcd onoff) adds i =
      inl (rw (← register-queues T s origin paraid penalty wcd onoff) i)
  Step-Says {s} (Step.receives batch max_weight) adds i =
      inl (rw (← handle_xcmp_messages-queues T batch max_weight s) i)
  Step-Says {s} (Step.reaps who) adds i = inl (rw (← on_killed_account-queues T s who) i)
  Step-Says (Step.elsewhere now ledger queues events later) adds i = inl (adds i)
