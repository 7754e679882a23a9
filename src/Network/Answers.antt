-- ===== src/Network/Answers.antt =====
-- Where the answers that reach the exchange pallet come from (pallets/xchange/src/lib.rs,
-- `handle_xcmp_messages`; pallets/xchange-service/src/lib.rs, `cancel`, `accept` and `done`).
use mathlib.Core.Path.{subst}
use xcm_auto_bank.Base.{ℕ, ◌≡◌, sym, ap, ◌∙◌, inl, inr, some, some_inj, List, []}
use xcm_auto_bank.Base.Member.{IsIn}
use xcm_auto_bank.Common.{XcmpMessage}
use xcm_auto_bank.Frame.{Config}
use xcm_auto_bank.Network.{Agree}
use xcm_auto_bank.Network.Protocol.{Chains, ServiceRule, Step, Reach}
use xcm_auto_bank.Outbox.{Packet, to_sibling, to_sibling_inj, IsOutbox}
use xcm_auto_bank.Service.{ServiceConfig}
use xcm_auto_bank.Service as Serving
use xcm_auto_bank.Service.Answering.{AddsNone, Step-IsSpoken}
use xcm_auto_bank.Service.Sending.{Ends, IsSpoken, Speaks}
use xcm_auto_bank.Service.Steps as Served
use xcm_auto_bank.Xchange as Exchange

-- The messages that end an order on the device `d`.
abbrev pub IsAnswer : {P : Type 0} → ℕ → XcmpMessage P → Type 0
IsAnswer d (XcmpMessage.order_reject client device onoff) = device ≡ d
IsAnswer d (XcmpMessage.order_done client device onoff) = device ≡ d
IsAnswer d _ = ⊥

module _ {L Q F O L' Q' F' O' P : Type 0} (T : Config L Q F O P) (U : ServiceConfig L' Q' F' O' P)
    (here : ℕ) (sent : Q → List Packet) (answered : Q' → List Packet) (z₀ : Chains L Q L' Q' P)
    (d : ℕ) where
  -- On the way from `z₀` to `z` a step of the service pallet has ended an order of the device by
  -- right.
  pub record Verdict (z : Chains L Q L' Q' P) : Type 0 where
    pub at : Chains L Q L' Q' P
    pub next_service : Serving.Store L' Q' P
    pub step : Served.Step U at.service next_service
    pub before : Reach T U here sent answered z₀ at
    pub ends : Ends U d step
    pub after : Reach T U here sent answered (record at { service = next_service }) z

  pub Verdict-next :
      {z z' : Chains L Q L' Q' P} → Step T U here sent answered z z' → Verdict z → Verdict z'
  Verdict-next st v = record {
    at = v.at;
    next_service = v.next_service;
    step = v.step;
    before = v.before;
    ends = v.ends;
    after = Reach.next v.after st;
  }

  -- Each answer for the device that waits stems from such a step.
  abbrev pub Judged : Chains L Q L' Q' P → Type 0
  Judged z =
      (bytes : List ℕ) (m : XcmpMessage P)
      → IsIn (to_sibling here bytes) (answered z.service.queues)
      → T.decode bytes ≡ some m
      → IsAnswer d m
      → Verdict z

  module _ (outbox : IsOutbox U.send_xcm answered) (agree : Agree T U) where
    adds_none :
        (bytes : List ℕ) (e : Exchange.Store L Q P) {s t : Serving.Store L' Q' P}
        (st : Served.Step U s t)
        → ServiceRule T U here sent answered e st
        → AddsNone U answered outbox (to_sibling here bytes) st
    adds_none bytes e (Served.Step.orders origin o) rule = tt
    adds_none bytes e (Served.Step.cancels origin device) rule = tt
    adds_none bytes e (Served.Step.accepts origin rejects onoff) rule = tt
    adds_none bytes e (Served.Step.completes origin onoff) rule = tt
    adds_none bytes e (Served.Step.registers origin penalty wcd onoff) rule = tt
    adds_none bytes e (Served.Step.switches origin onoff) rule = tt
    adds_none bytes e (Served.Step.receives batch max_weight) rule = tt
    adds_none bytes e (Served.Step.reaps who) rule = tt
    adds_none bytes e (Served.Step.elsewhere now ledger queues events later) rule = rule bytes

    answer-Ends :
        {s t : Serving.Store L' Q' P} (st : Served.Step U s t) (m : XcmpMessage P)
        → Speaks U st m
        → IsAnswer d m
        → Ends U d st
    answer-Ends st (XcmpMessage.order_reject client device onoff) speaks is =
        subst (λ a. Ends U a st) is speaks
    answer-Ends st (XcmpMessage.order_done client device onoff) speaks is =
        subst (λ a. Ends U a st) is speaks
    answer-Ends st (XcmpMessage.order_accept client device) speaks is = absurd is
    answer-Ends st (XcmpMessage.new_order client o) speaks is = absurd is

    spoken_judged :
        {z : Chains L Q L' Q' P} {t : Serving.Store L' Q' P} (bytes : List ℕ) (m : XcmpMessage P)
        (st : Served.Step U z.service t)
        → Reach T U here sent answered z₀ z
        → T.decode bytes ≡ some m
        → IsAnswer d m
        → IsSpoken U st (to_sibling here bytes)
        → Verdict (record z { service = t })
    spoken_judged {z} {t} bytes m st r e is p =
        let (_, same) = to_sibling_inj _ _ _ _ p.is_packet in
        let decoded : some m ≡ some p.message =
          sym e ∙ ap T.decode same ∙ agree.answers p.message in
        record {
          at = z;
          next_service = t;
          step = st;
          before = r;
          ends =
              answer-Ends st p.message p.speaks
                (subst (IsAnswer d) (some_inj m p.message decoded) is);
          after = Reach.start;
        }

    Step-Judged :
        {z z' : Chains L Q L' Q' P}
        → Reach T U here sent answered z₀ z
        → Step T U here sent answered z z'
        → Judged z
        → Judged z'
    Step-Judged r (Step.exchanges st rule) h bytes m i e is =
        Verdict-next (Step.exchanges st rule) (h bytes m i e is)
    Step-Judged {z} r (Step.serves st rule) h bytes m i e is =
        elim (Step-IsSpoken U answered outbox (to_sibling here bytes) st
          (adds_none bytes z.exchange st rule) i) [
            | inl before ↦ Verdict-next (Step.serves st rule) (h bytes m before e is)
            | inr spoken ↦ spoken_judged bytes m st r e is spoken
          ]

    Reach-Judged :
        {z : Chains L Q L' Q' P} → Judged z₀ → Reach T U here sent answered z₀ z → Judged z
    Reach-Judged h Reach.start = h
    Reach-Judged h (Reach.next r st) = Step-Judged r st (Reach-Judged h r)

    -- Where nothing waited at first.
    pub waiting-Judged :
        {z : Chains L Q L' Q' P}
        → answered z₀.service.queues ≡ []
        → Reach T U here sent answered z₀ z
        → Judged z
    waiting-Judged nothing =
        Reach-Judged λ bytes m i e is. absurd (subst (IsIn (to_sibling here bytes)) nothing i)
