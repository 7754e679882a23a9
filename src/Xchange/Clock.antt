-- ===== src/Xchange/Clock.antt =====
-- No step turns back the clock (pallets/xchange/src/lib.rs): the pallet only reads it.
use xcm_auto_bank.Base.{ℕ, ◌≤◌, Bool, List, [], ◌∷◌, arith, Option-cases, inl, inr}
use xcm_auto_bank.Common.{Order, XcmpMessage}
use xcm_auto_bank.Frame.{Config}
use xcm_auto_bank.Xchange.{
  DeviceProfile, Store, order_reject, register, on_accept, on_done, on_killed_account, on_message,
  handle_xcmp_messages,
}
use xcm_auto_bank.Xchange.Cases.{cancel_cases, on_reject_cases}
use xcm_auto_bank.Xchange.Refusing.{order_cases}
use xcm_auto_bank.Xchange.Steps.{Step, Reach, test_same}
use xcm_auto_bank.Base.{◌≡◌, refl}

module _ {L Q F O P : Type 0} (T : Config L Q F O P) where
  module _ (s : Store L Q P) where
    order_reject-now :
        (who : ℕ) (o : Order P) (now device : ℕ) (dev : DeviceProfile)
        → (order_reject T who o now device dev s).1.now ≡ s.now
    unfolding order_reject
    order_reject-now who o now device dev = ground arith

    register-now :
        (origin : O) (paraid penalty wcd : ℕ) (onoff : Bool)
        → (register T origin paraid penalty wcd onoff s).1.now ≡ s.now
    unfolding register
    register-now origin paraid penalty wcd onoff = ground arith

    on_killed_account-now : (who : ℕ) → (on_killed_account T who s).now ≡ s.now
    unfolding on_killed_account
    on_killed_account-now who = ground arith

    on_message-now : (m : XcmpMessage P) → (on_message T m s).now ≡ s.now
    unfolding on_message on_accept on_done
    on_message-now (XcmpMessage.order_accept client device) = refl
    on_message-now (XcmpMessage.new_order client o) = refl
    on_message-now (XcmpMessage.order_done client device onoff) = ground arith
    on_message-now (XcmpMessage.order_reject client device onoff) =
        on_reject_cases T (λ r. r.1.now ≡ s.now) client device onoff s (λ e. refl)
          λ o dev _ _. order_reject-now client o s.now device _

  handle_xcmp_messages-now :
      (batch : List (ℕ × ℕ × List ℕ)) (max_weight : ℕ) (s : Store L Q P)
      → (handle_xcmp_messages T batch max_weight s).1.now ≡ s.now
  unfolding handle_xcmp_messages
  handle_xcmp_messages-now [] max_weight s = refl
  handle_xcmp_messages-now ((sender, sent_at, bytes) ∷ rest) max_weight s =
      elim (Option-cases (T.decode bytes)) [
        | inl e ↦ rw (e, handle_xcmp_messages) refl
        | inr (m, e) ↦
            rw
              (e, handle_xcmp_messages, handle_xcmp_messages-now rest max_weight (on_message T m s))
              (on_message-now s m)
      ]

  pub Step-now : {s t : Store L Q P} → Step T s t → s.now ≤ t.now
  Step-now {s} (Step.tests origin) = rw (test_same T origin s) (omega arith)
  Step-now {s} (Step.orders origin o) =
      order_cases T origin o s (λ t. s.now ≤ t.now) (omega arith) (λ dev l₁ k. omega arith)
        λ who dev l₁ l₂ k. omega arith
  Step-now {s} (Step.cancels origin device) =
      cancel_cases T (λ r. s.now ≤ r.1.now) origin device s (λ e. omega arith)
        λ who o dev _ _ _ _ _. omega (arith, order_reject-now s who o s.now device dev)
  Step-now {s} (Step.registers origin paraid penalty wcd onoff) =
      omega (arith, register-now s origin paraid penalty wcd onoff)
  Step-now {s} (Step.receives batch max_weight) =
      omega (arith, handle_xcmp_messages-now batch max_weight s)
  Step-now {s} (Step.reaps who) = omega (arith, on_killed_account-now s who)
  Step-now (Step.elsewhere now ledger queues events later) = later

  pub Reach-now : {s t : Store L Q P} → Reach T s t → s.now ≤ t.now
  Reach-now {s} Reach.here = omega arith
  Reach-now {s} (Reach.next r st) = omega (arith, Reach-now r, Step-now st)
