-- ===== src/Network/Outcome.antt =====
-- What becomes of an open order, step by step (pallets/xchange/src/lib.rs).
use xcm_auto_bank.Base.{
  ℕ, ◌≡◌, refl, ◌⊎◌, inl, inr, Option, none, some, List, [], ◌∷◌, arith, ◌==◌, Bool-cases,
  Option-cases,
}
use xcm_auto_bank.Base.Map.{lookup}
use xcm_auto_bank.Base.Member.{IsIn}
use xcm_auto_bank.Common.{Order, XcmpMessage}
use xcm_auto_bank.Frame.{Config}
use xcm_auto_bank.Network.{Agree}
use xcm_auto_bank.Network.Answers.{IsAnswer, Judged, Verdict-next, waiting-Judged}
use xcm_auto_bank.Network.Protocol.{Chains, Genuine, Step, Reach, joined, exchange_history}
use xcm_auto_bank.Outbox.{Packet, IsOutbox}
use xcm_auto_bank.Service.{ServiceConfig}
use xcm_auto_bank.Xchange.{cancel, handle_xcmp_messages}
use xcm_auto_bank.Xchange.Locked.{Binds, Answers, AnyAnswers, Step-Binds}
use xcm_auto_bank.Xchange.Outcome.{cancel-outcome}
use xcm_auto_bank.Xchange.Steps as Exchanged
use xcm_auto_bank.Network.Ending.{Closure, Closure-next, StillHeld, cancelled, judged, intruded}

module _ {L Q F O L' Q' F' O' P : Type 0} (T : Config L Q F O P) (U : ServiceConfig L' Q' F' O' P)
    (here : ℕ) (sent : Q → List Packet) (answered : Q' → List Packet) (d : ℕ) (o : Order P) where
  module _ (penalty wcd para_id : ℕ) where
    abbrev IsHeld : Chains L Q L' Q' P → Type 0
    IsHeld z = Binds T d o penalty wcd para_id z.exchange

    abbrev AnswerIn : Option (XcmpMessage P) → Type 0
    AnswerIn r = (m : XcmpMessage P) × (r ≡ some m) × IsAnswer d m

    decide_answer :
        (r : Option (XcmpMessage P)) → AnswerIn r ⊎ (¬ Answers T d o penalty wcd para_id r)
    decide_answer none = inr (λ a. a)
    decide_answer (some (XcmpMessage.order_accept client device)) = inr (λ a. a)
    decide_answer (some (XcmpMessage.new_order client o')) = inr (λ a. a)
    decide_answer (some (XcmpMessage.order_reject client device onoff)) =
        elim (Bool-cases (device == d)) [
          | inl e ↦ inl (XcmpMessage.order_reject client device onoff, refl, ground arith)
          | inr e ↦ inr (λ a. ground arith)
        ]
    decide_answer (some (XcmpMessage.order_done client device onoff)) =
        elim (Bool-cases (device == d)) [
          | inl e ↦ inl (XcmpMessage.order_done client device onoff, refl, ground arith)
          | inr e ↦ inr (λ a. ground arith)
        ]

    -- A batch holds an answer for the device, or none.
    find_answer :
        (batch : List (ℕ × ℕ × List ℕ))
        → ((sender : ℕ) × (sent_at : ℕ) × (bytes : List ℕ) × IsIn (sender, sent_at, bytes) batch
            × AnswerIn (T.decode bytes))
          ⊎ (¬ AnyAnswers T d o penalty wcd para_id batch)
    find_answer [] = inr (λ a. a)
    find_answer ((sender, sent_at, bytes) ∷ rest) = elim (decide_answer (T.decode bytes)) [
      | inl a ↦ inl (sender, sent_at, bytes, inl refl, a)
      | inr n ↦ elim (find_answer rest) [
        | inl (p, t, bs, i, a) ↦ inl (p, t, bs, inr i, a)
        | inr m ↦ inr (λ a. elim a [ inl first ↦ n first | inr later ↦ m later ])
      ]
    ]

    module _ {z₀ z y : Chains L Q L' Q' P} (r : Reach T U here sent answered z y)
        (h : IsHeld y) where
      receives-outcome :
          (batch : List (ℕ × ℕ × List ℕ)) (max_weight : ℕ)
          → Genuine T U here sent answered U.self_para_id here (answered y.service.queues) batch
          → Judged T U here sent answered z₀ d y
          → let x = record y {
            exchange = (handle_xcmp_messages T batch max_weight y.exchange).1;
          } in
            IsHeld x ⊎ Closure T U here sent answered d o z₀ z x
      receives-outcome batch max_weight rule j =
          let st : Exchanged.Step T y.exchange
              (handle_xcmp_messages T batch max_weight y.exchange).1 =
            Exchanged.Step.receives batch max_weight in
          elim (find_answer batch) [
            | inr n ↦ inl (Step-Binds T d o penalty wcd para_id st h n)
            | inl (sender, sent_at, bytes, i, (m, e, is)) ↦
                elim (Bool-cases (sender == U.self_para_id)) [
                  | inr ne ↦ inr (
                      intruded (record {
                        at = y;
                        batch = batch;
                        max_weight = max_weight;
                        sender = sender;
                        sent_at = sent_at;
                        bytes = bytes;
                        message = m;
                        before = r;
                        is_in = i;
                        third = λ k. ground arith;
                        decoded = e;
                        is_answer = is;
                        after = Reach.start;
                      }))
                  | inl own ↦
                      let from : sender ≡ U.self_para_id = ground arith in
                      let v = j bytes m (rule sent_at bytes (rw (← from) i)) e is in
                      inr (
                        judged
                          (Verdict-next T U here sent answered z₀ d (Step.exchanges st rule) v))
                ]
          ]

      cancels-outcome :
          (origin : O) (device : ℕ)
          → let x = record y { exchange = (cancel T origin device y.exchange).1 } in
            IsHeld x ⊎ Closure T U here sent answered d o z₀ z x
      cancels-outcome origin device =
          elim (cancel-outcome T d o penalty wcd para_id y.exchange origin device h) [
            | inl b ↦ inl b
            | inr (same, succeeds, late, signed) ↦ inr (
                cancelled (record {
                  at = y;
                  origin = origin;
                  before = r;
                  is_due = late;
                  signed = signed;
                  succeeds = ground arith;
                  after = rw same Reach.start;
                }))
          ]

      Step-outcome :
          {x : Chains L Q L' Q' P}
          → Step T U here sent answered y x
          → Judged T U here sent answered z₀ d y
          → IsHeld x ⊎ Closure T U here sent answered d o z₀ z x
      Step-outcome (Step.serves st rule) j = inl h
      Step-outcome (Step.exchanges (Exchanged.Step.receives batch max_weight) rule) j =
          receives-outcome batch max_weight rule j
      Step-outcome (Step.exchanges (Exchanged.Step.cancels origin device) rule) j =
          cancels-outcome origin device
      Step-outcome (Step.exchanges (Exchanged.Step.tests origin) rule) j =
          inl (Step-Binds T d o penalty wcd para_id (Exchanged.Step.tests origin) h (λ n. n))
      Step-outcome (Step.exchanges (Exchanged.Step.orders origin o') rule) j =
          inl (Step-Binds T d o penalty wcd para_id (Exchanged.Step.orders origin o') h (λ n. n))
      Step-outcome (Step.exchanges (Exchanged.Step.registers origin paraid fine time onoff) rule)
            j =
          inl (
            Step-Binds T d o penalty wcd para_id
              (Exchanged.Step.registers origin paraid fine time onoff) h (λ n. n))
      Step-outcome (Step.exchanges (Exchanged.Step.reaps who) rule) j =
          inl (Step-Binds T d o penalty wcd para_id (Exchanged.Step.reaps who) h (λ n. n))
      Step-outcome (Step.exchanges (Exchanged.Step.elsewhere now ledger queues events later) rule)
            j =
          inl h

    Reach-outcome :
        {z₀ z y : Chains L Q L' Q' P}
        → ((x : Chains L Q L' Q' P)
            → Reach T U here sent answered z x
            → Judged T U here sent answered z₀ d x)
        → Reach T U here sent answered z y
        → IsHeld z
        → IsHeld y ⊎ Closure T U here sent answered d o z₀ z y
    Reach-outcome j Reach.start h = inl h
    Reach-outcome j (Reach.next r st) h = elim (Reach-outcome j r h) [
      | inl b ↦ Step-outcome r b st (j _ r)
      | inr e ↦ inr (Closure-next T U here sent answered d o st e)
    ]

    still_open : (z : Chains L Q L' Q' P) → IsHeld z → StillHeld d o z
    still_open z h = elim (Option-cases (lookup d z.exchange.devices)) [
      | inl e ↦ absurd (ground arith)
      | inr (dev, e) ↦ (ground arith, (dev, e, ground arith))
    ]

  -- If the router of the service pallet sends a message or refuses it, if nothing else on its
  -- parachain sends to the exchange pallet's one, and if the parachains use one encoding: let
  -- nothing wait on the service pallet's side at first, and let the exchange pallet have no device
  -- and no order. Then, in any interleaving of the two parachains, whatever is called with whatever
  -- result, and however late, out of order or often the messages are delivered, an order that is
  -- open with the exchange pallet stays open, with its device held, until one of these: its client
  -- cancels it, from the deadline on, with success; or a call on the service pallet's parachain, at
  -- some time, returned `Ok` and ended an order of another parachain that this device had there,
  -- which it has no more: that order's client signed a `cancel` from the deadline on, or the device
  -- itself declined it, being busy or having accepted it, or completed it, having accepted it; or a
  -- message of a third parachain answers for the device.
  pub open_until_ended :
      IsOutbox U.send_xcm answered
      → Agree T U
      → (z₀ z y : Chains L Q L' Q' P) → answered z₀.service.queues ≡ []
      → z₀.exchange.devices ≡ []
      → z₀.exchange.orders ≡ []
      → Reach T U here sent answered z₀ z
      → lookup d z.exchange.orders ≡ some o
      → Reach T U here sent answered z y
      → StillHeld d o y ⊎ Closure T U here sent answered d o z₀ z y
  open_until_ended outbox agree z₀ z y nothing no_devices no_orders r k r' =
      let w =
        Exchanged.Reach-genesis-IsWf T z₀.exchange z.exchange no_devices no_orders
          (exchange_history T U here sent answered r) in
      elim (Option-cases (lookup d z.exchange.devices)) [
        | inl e ↦ absurd (let h = w.held d in ground arith)
        | inr (dev, e) ↦
            let h = w.held d in
            elim (Reach-outcome dev.penalty dev.wcd dev.para_id
              (λ x q.
                waiting-Judged T U here sent answered z₀ d outbox agree nothing
                  (joined T U here sent answered r q))
              r' (ground arith)) [
                | inl b ↦ inl (still_open dev.penalty dev.wcd dev.para_id y b)
                | inr c ↦ inr c
              ]
      ]
