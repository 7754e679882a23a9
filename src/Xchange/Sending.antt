-- ===== src/Xchange/Sending.antt =====
-- What the exchange pallet hands to the router (pallets/xchange/src/lib.rs): `order` the request of
-- an order that it has placed, `test` its two bytes, and nothing else anything.
use xcm_auto_bank.Base.{ℕ, ◌≡◌, refl, inl, inr, Bool, some, List, [], ◌∷◌, arith, ◌∙◌, Option-cases}
use xcm_auto_bank.Base.Action.{ok, err, Result-cases}
use xcm_auto_bank.Base.Map.{lookup}
use xcm_auto_bank.Common.{Order, OrderBase, XcmpMessage}
use xcm_auto_bank.Frame.{Config}
use xcm_auto_bank.Outbox.{Packet, to_sibling, Hands, nothing, one}
use xcm_auto_bank.Pallet.{Failure}
use xcm_auto_bank.Xchange.{
  DeviceProfile, Error, Store, test, order, order_reject, cancel, register, on_accept, on_done,
  on_killed_account, on_message, handle_xcmp_messages,
}
use xcm_auto_bank.Xchange.Cases.{cancel_cases, on_reject_cases}
use xcm_auto_bank.Xchange.Placing.{order-placed, order_ok-Orderable}

module _ {L Q F O P : Type 0} (T : Config L Q F O P) where
  -- The request of the order that `order` has just placed with success.
  pub record IsRequest (origin : O) (o : OrderBase P) (s : Store L Q P) (p : Packet) : Type 0 where
    pub who : ℕ
    pub dev : DeviceProfile
    pub signed : T.ensure_signed origin ≡ ok who
    pub registered : lookup o.device s.devices ≡ some dev
    pub succeeds : (order T origin o s).0 ≡ ok tt
    pub is_request : p ≡ to_sibling dev.para_id (T.encode (XcmpMessage.new_order who o))

  -- The two bytes that `test` sends.
  abbrev pub IsTest : Packet → Type 0
  IsTest p = p ≡ to_sibling 200 (T.encode_bytes (0x00 ∷ 0x20 ∷ []))

  module _ (s : Store L Q P) where
    pub test-Hands : (origin : O) → Hands T.send_xcm s.queues IsTest (test T origin s).1.queues
    unfolding test
    test-Hands origin = one (to_sibling 200 (T.encode_bytes (0x00 ∷ 0x20 ∷ []))) refl

    order_failed-queues :
        (origin : O) (o : OrderBase P) (e : Failure Error F)
        → (order T origin o s).0 ≡ err e
        → (order T origin o s).1.queues ≡ s.queues
    unfolding order
    order_failed-queues origin o e h = ground arith

    -- A failed `order` hands over nothing, a successful one its request.
    pub order-Hands :
        (origin : O) (o : OrderBase P)
        → Hands T.send_xcm s.queues (IsRequest origin o s) (order T origin o s).1.queues
    order-Hands origin o = elim (Result-cases (order T origin o s).0) [
      | inr (e, h) ↦ rw (order_failed-queues origin o e h) nothing
      | inl (u, h) ↦
          let (who, dev, l₁, l₂, c) = order_ok-Orderable T origin o s h in
          let p = to_sibling dev.para_id (T.encode (XcmpMessage.new_order who o)) in
          rw (order-placed T origin o s who dev l₁ l₂ c) (
            one p (record {
              who = who;
              dev = dev;
              signed = c.signed;
              registered = c.registered;
              succeeds = h;
              is_request = refl;
            }))
    ]

    order_reject-queues :
        (who : ℕ) (o : Order P) (now device : ℕ) (dev : DeviceProfile)
        → (order_reject T who o now device dev s).1.queues ≡ s.queues
    unfolding order_reject
    order_reject-queues who o now device dev = ground arith

    pub cancel-queues : (origin : O) (device : ℕ) → (cancel T origin device s).1.queues ≡ s.queues
    cancel-queues origin device =
        cancel_cases T (λ r. r.1.queues ≡ s.queues) origin device s (λ e. refl)
          λ who o dev _ _ _ _ _. order_reject-queues who o s.now device dev

    pub register-queues :
        (origin : O) (paraid penalty wcd : ℕ) (onoff : Bool)
        → (register T origin paraid penalty wcd onoff s).1.queues ≡ s.queues
    unfolding register
    register-queues origin paraid penalty wcd onoff = ground arith

    pub on_killed_account-queues : (who : ℕ) → (on_killed_account T who s).queues ≡ s.queues
    unfolding on_killed_account
    on_killed_account-queues who = ground arith

    on_done-queues :
        (who device : ℕ) (onoff : Bool) → (on_done T who device onoff s).1.queues ≡ s.queues
    unfolding on_done
    on_done-queues who device onoff = ground arith

    on_message-queues : (m : XcmpMessage P) → (on_message T m s).queues ≡ s.queues
    unfolding on_message on_accept
    on_message-queues (XcmpMessage.order_accept client device) = refl
    on_message-queues (XcmpMessage.new_order client o) = refl
    on_message-queues (XcmpMessage.order_reject client device onoff) =
        on_reject_cases T (λ r. r.1.queues ≡ s.queues) client device onoff s (λ e. refl)
          λ o dev _ _. order_reject-queues client o s.now device _
    on_message-queues (XcmpMessage.order_done client device onoff) =
        on_done-queues client device onoff

  -- The exchange never answers: a batch of messages, whatever it holds, hands nothing over.
  pub handle_xcmp_messages-queues :
      (batch : List (ℕ × ℕ × List ℕ)) (max_weight : ℕ) (s : Store L Q P)
      → (handle_xcmp_messages T batch max_weight s).1.queues ≡ s.queues
  unfolding handle_xcmp_messages
  handle_xcmp_messages-queues [] max_weight s = refl
  handle_xcmp_messages-queues ((sender, sent_at, bytes) ∷ rest) max_weight s =
      elim (Option-cases (T.decode bytes)) [
        | inl e ↦ rw (e, handle_xcmp_messages) refl
        | inr (m, e) ↦
            rw (e, handle_xcmp_messages)
              (handle_xcmp_messages-queues rest max_weight (on_message T m s)
                ∙ on_message-queues s m)
      ]
