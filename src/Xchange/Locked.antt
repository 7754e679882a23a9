-- ===== src/Xchange/Locked.antt =====
-- While an order on a device is open, only its client after the deadline and the device's answers
-- can end it (pallets/xchange/src/lib.rs).
use xcm_auto_bank.Base.{
  ℕ, ◌≤◌, ◌≡◌, ◌⊎◌, inl, inr, Bool, false, Option, some, List, [], ◌∷◌, arith, ◌==◌, Bool-cases,
  Option-cases,
}
use xcm_auto_bank.Base.Action.{ok}
use xcm_auto_bank.Base.Map.{lookup, lookup-insert, lookup-remove}
use xcm_auto_bank.Common.{busy, timewait, Order, OrderBase, XcmpMessage}
use xcm_auto_bank.Frame.{Config}
use xcm_auto_bank.Xchange.{
  DeviceProfile, Store, order, order_reject, cancel, register, on_accept, on_done,
  on_killed_account, on_message, handle_xcmp_messages,
}
use xcm_auto_bank.Xchange.Cases.{cancel_cases, on_reject_cases}
use xcm_auto_bank.Xchange.Steps.{Step, test_same}

module _ {L Q F O P : Type 0} (T : Config L Q F O P) (d : ℕ) (o : Order P)
    (penalty wcd para_id : ℕ) where
  -- The order `o` is open on the device `d`, on these terms.
  abbrev pub OnTerms : Option (Order P) → Option DeviceProfile → Type 0
  OnTerms (some o') (some dev) =
      (o' ≡ o)
      × ((dev.state ≡ busy) ⊎ (dev.state ≡ timewait))
      × (dev.penalty ≡ penalty)
      × (dev.wcd ≡ wcd)
      × (dev.para_id ≡ para_id)
  OnTerms _ _ = ⊥

  abbrev pub Binds : Store L Q P → Type 0
  Binds s = OnTerms (lookup d s.orders) (lookup d s.devices)

  -- The messages that end an order on the device.
  abbrev pub Answers : Option (XcmpMessage P) → Type 0
  Answers (some (XcmpMessage.order_reject client device onoff)) = device ≡ d
  Answers (some (XcmpMessage.order_done client device onoff)) = device ≡ d
  Answers _ = ⊥

  abbrev pub AnyAnswers : List (ℕ × ℕ × List ℕ) → Type 0
  AnyAnswers [] = ⊥
  AnyAnswers ((sender, sent_at, bytes) ∷ rest) = Answers (T.decode bytes) ⊎ AnyAnswers rest

  -- The steps that may end the order: its client cancels it from the deadline on, or a batch holds
  -- an answer of the device.
  abbrev pub MayEnd : {s t : Store L Q P} → Step T s t → Type 0
  MayEnd {s} (Step.cancels origin device) =
      (device ≡ d) × (T.ensure_signed origin ≡ ok o.client) × (o.until ≤ s.now)
  MayEnd (Step.receives batch max_weight) = AnyAnswers batch
  MayEnd _ = ⊥

  module _ (s : Store L Q P) where
    order-Binds : (origin : O) (o' : OrderBase P) → Binds s → Binds (order T origin o' s).1
    unfolding order
    order-Binds origin o' h = grind (arith, lookup-insert)

    register-Binds :
        (origin : O) (paraid penalty' wcd' : ℕ) (onoff : Bool)
        → Binds s
        → Binds (register T origin paraid penalty' wcd' onoff s).1
    unfolding register
    register-Binds origin paraid penalty' wcd' onoff h = grind (arith, lookup-insert)

    on_killed_account-Binds : (who : ℕ) → Binds s → Binds (on_killed_account T who s)
    unfolding on_killed_account
    on_killed_account-Binds who h = grind (arith, lookup-insert, lookup-remove)

    order_reject-Binds :
        (who : ℕ) (o' : Order P) (now device : ℕ) (dev : DeviceProfile)
        → (d == device) ≡ false
        → Binds s
        → Binds (order_reject T who o' now device dev s).1
    unfolding order_reject
    order_reject-Binds who o' now device dev ne h = grind (arith, lookup-insert, lookup-remove)

    on_done-Binds :
        (who device : ℕ) (onoff : Bool)
        → (d == device) ≡ false
        → Binds s
        → Binds (on_done T who device onoff s).1
    unfolding on_done
    on_done-Binds who device onoff ne h = grind (arith, lookup-insert, lookup-remove)

    cancel-Binds :
        (origin : O) (device : ℕ)
        → Binds s
        → ¬ ((device ≡ d) × (T.ensure_signed origin ≡ ok o.client) × (o.until ≤ s.now))
        → Binds (cancel T origin device s).1
    cancel-Binds origin device h n =
        cancel_cases T (λ r. Binds r.1) origin device s (λ e. h)
          λ who o' dev i k e late own. elim (Bool-cases (d == device)) [
            | inr ne ↦ order_reject-Binds who o' s.now device dev ne h
            | inl same ↦ absurd (n (ground (arith, h, i, k, late, own)))
          ]

    on_message-Binds :
        (bytes : List ℕ) (m : XcmpMessage P)
        → T.decode bytes ≡ some m
        → ¬ Answers (T.decode bytes)
        → Binds s
        → Binds (on_message T m s)
    unfolding on_message on_accept
    on_message-Binds bytes (XcmpMessage.order_accept client device) e n h = h
    on_message-Binds bytes (XcmpMessage.new_order client o') e n h = h
    on_message-Binds bytes (XcmpMessage.order_reject client device onoff) e n h =
        on_reject_cases T (λ r. Binds r.1) client device onoff s (λ f. h)
          λ o' dev k f. order_reject-Binds client o' s.now device _ (ground (arith, e, n)) h
    on_message-Binds bytes (XcmpMessage.order_done client device onoff) e n h =
        on_done-Binds client device onoff (ground (arith, e, n)) h

  handle_xcmp_messages-Binds :
      (batch : List (ℕ × ℕ × List ℕ)) (max_weight : ℕ) (s : Store L Q P)
      → ¬ AnyAnswers batch
      → Binds s
      → Binds (handle_xcmp_messages T batch max_weight s).1
  unfolding handle_xcmp_messages
  handle_xcmp_messages-Binds [] max_weight s n h = h
  handle_xcmp_messages-Binds ((sender, sent_at, bytes) ∷ rest) max_weight s n h =
      elim (Option-cases (T.decode bytes)) [
        | inl e ↦ rw (e, handle_xcmp_messages) h
        | inr (m, e) ↦
            rw (e, handle_xcmp_messages)
              (handle_xcmp_messages-Binds rest max_weight (on_message T m s) (λ a. n (inr a))
                (on_message-Binds s bytes m e (λ a. n (inl a)) h))
      ]

  -- While an order on a device is open, every step of the chain keeps the order, the device busy or
  -- abandoned, and its penalty, its time and its parachain, but for a `cancel` of this order that
  -- its client has signed from the deadline on, and a batch with a message that rejects or
  -- completes the device's order.
  pub Step-Binds : {s t : Store L Q P} (st : Step T s t) → Binds s → ¬ MayEnd st → Binds t
  Step-Binds {s} (Step.tests origin) h n = rw (test_same T origin s) h
  Step-Binds {s} (Step.orders origin o') h n = order-Binds s origin o' h
  Step-Binds {s} (Step.cancels origin device) h n = cancel-Binds s origin device h n
  Step-Binds {s} (Step.registers origin paraid penalty' wcd' onoff) h n =
      register-Binds s origin paraid penalty' wcd' onoff h
  Step-Binds {s} (Step.receives batch max_weight) h n =
      handle_xcmp_messages-Binds batch max_weight s n h
  Step-Binds {s} (Step.reaps who) h n = on_killed_account-Binds s who h
  Step-Binds (Step.elsewhere now ledger queues events later) h n = h
