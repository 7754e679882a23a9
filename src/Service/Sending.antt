-- ===== src/Service/Sending.antt =====
-- What the service pallet hands to the router (pallets/xchange-service/src/lib.rs): `order_accept`,
-- `order_reject` and `order_done` one answer each for an order of another parachain.
use xcm_auto_bank.Base.{
  ℕ, ⊤, ◌≡◌, refl, inl, inr, Bool, true, false, none, some, arith, ◌==◌, Bool-cases, ==_refl,
}
use xcm_auto_bank.Base.Action.{Result, ok, Result-cases}
use xcm_auto_bank.Base.Map.{lookup}
use xcm_auto_bank.Common.{DeviceState, state_eq, accepted, Order, OrderBase, XcmpMessage}
use xcm_auto_bank.Outbox.{Packet, to_sibling, Hands, nothing, one, Hands-nothing, Hands-one}
use xcm_auto_bank.Pallet.{Failure, try}
use xcm_auto_bank.Service.{
  ServiceConfig, DeviceProfile, Error, Store, cancel, accept, done, received, order_received, order,
  order_reject, order_done, order_accept, register, set_state, on_killed_account,
}
use xcm_auto_bank.Service.Closing.{Finishes, Declines, Dues}
use xcm_auto_bank.Service.Receiving.{booked, order_received_cases}
use xcm_auto_bank.Service.Steps.{Step}

module _ {L Q F O P : Type 0} (T : ServiceConfig L Q F O P) where
  -- The message `m` for the parachain of the order `o`.
  abbrev pub Is : Order P → XcmpMessage P → Packet → Type 0
  Is o m p = p ≡ to_sibling o.paraid (T.encode m)

  abbrev pub HandsOne : Store L Q P → Order P → XcmpMessage P → Store L Q P → Type 0
  HandsOne s o m t = Hands T.send_xcm s.queues (Is o m) t.queues

  module _ (s : Store L Q P) where
    booked-queues :
        (o : Order P) (device : ℕ) (known : DeviceProfile) (state : DeviceState) (l : L)
        → HandsOne s o
            (XcmpMessage.order_accept o.client device)
            (booked T o device s known state l)
    booked-queues o device known state l = elim (Bool-cases (state_eq state accepted)) [
      | inr e ↦ rw e nothing
      | inl e ↦ elim (Bool-cases (o.paraid == T.self_para_id)) [
        | inl own ↦ rw (e, own) nothing
        | inr foreign ↦
            rw (e, foreign)
              (one (to_sibling o.paraid (T.encode (XcmpMessage.order_accept o.client device))) refl)
      ]
    ]

    pub order_received-Hands :
        (o : Order P) (device : ℕ)
        → HandsOne s o (XcmpMessage.order_accept o.client device) (order_received T o device s).1
    order_received-Hands o device =
        order_received_cases T o device s
          (λ r. HandsOne s o (XcmpMessage.order_accept o.client device) r.1) (λ e. nothing)
          (λ known state l₁ f c e k p q. nothing)
          (λ known state c e. booked-queues o device known state s.ledger)
          (λ known state l₁ l₂ c e p q. booked-queues o device known state l₂)

    order_received_own-queues :
        (o : Order P) (device : ℕ)
        → (o.paraid == T.self_para_id) ≡ true
        → (order_received T o device s).1.queues ≡ s.queues
    order_received_own-queues o device own =
        order_received_cases T o device s (λ r. r.1.queues ≡ s.queues) (λ e. refl)
          (λ known state l₁ f c e k p q. refl) (λ known state c e. ground arith)
          (λ known state l₁ l₂ c e p q. ground arith)

    -- An order of this parachain is not answered.
    pub order-queues : (origin : O) (o : OrderBase P) → (order T origin o s).1.queues ≡ s.queues
    unfolding order
    order-queues origin o = elim (Result-cases (T.ensure_signed origin)) [
      | inr (f, i) ↦ rw (i, try) refl
      | inl (who, i) ↦
          rw (i, try)
            (order_received_own-queues (received o who T.self_para_id) o.device
              (==_refl T.self_para_id))
    ]

    pub order_reject-Hands :
        (o : Order P) (now device : ℕ) (dev : DeviceProfile) (onoff : Bool)
        → HandsOne s o
            (XcmpMessage.order_reject o.client device onoff)
            (order_reject T (some o) now device dev onoff s).1
    unfolding order_reject
    order_reject-Hands o now device dev onoff = elim (Bool-cases (o.paraid == T.self_para_id)) [
      | inl own ↦ Hands-nothing T.send_xcm (ground arith)
      | inr foreign ↦
          Hands-one T.send_xcm
            (to_sibling o.paraid (T.encode (XcmpMessage.order_reject o.client device onoff))) refl
            (ground arith)
    ]

    -- An order of this parachain is not answered when it is rejected or done either.
    pub order_reject_own-queues :
        (o : Order P) (now device : ℕ) (dev : DeviceProfile) (onoff : Bool)
        → (o.paraid == T.self_para_id) ≡ true
        → (order_reject T (some o) now device dev onoff s).1.queues ≡ s.queues
    unfolding order_reject
    order_reject_own-queues o now device dev onoff own = ground arith

    pub order_done_own-queues :
        (o : Order P) (now device : ℕ) (dev : DeviceProfile) (onoff : Bool)
        → (o.paraid == T.self_para_id) ≡ true
        → (order_done T o now device dev onoff s).1.queues ≡ s.queues
    unfolding order_done
    order_done_own-queues o now device dev onoff own = ground arith

    pub order_reject-none-queues :
        (now device : ℕ) (dev : DeviceProfile) (onoff : Bool)
        → (order_reject T none now device dev onoff s).1.queues ≡ s.queues
    unfolding order_reject
    order_reject-none-queues now device dev onoff = ground arith

    pub order_done-Hands :
        (o : Order P) (now device : ℕ) (dev : DeviceProfile) (onoff : Bool)
        → HandsOne s o
            (XcmpMessage.order_done o.client device onoff)
            (order_done T o now device dev onoff s).1
    unfolding order_done
    order_done-Hands o now device dev onoff = elim (Bool-cases (o.paraid == T.self_para_id)) [
      | inl own ↦ Hands-nothing T.send_xcm (ground arith)
      | inr foreign ↦
          Hands-one T.send_xcm
            (to_sibling o.paraid (T.encode (XcmpMessage.order_done o.client device onoff))) refl
            (ground arith)
    ]

    pub order_accept-Hands :
        (o : Order P) (device : ℕ) (dev : DeviceProfile)
        → HandsOne s o (XcmpMessage.order_accept o.client device) (order_accept T o device dev s).1
    unfolding order_accept
    order_accept-Hands o device dev = elim (Bool-cases (o.paraid == T.self_para_id)) [
      | inl own ↦ Hands-nothing T.send_xcm (ground arith)
      | inr foreign ↦
          Hands-one T.send_xcm
            (to_sibling o.paraid (T.encode (XcmpMessage.order_accept o.client device))) refl
            (ground arith)
    ]

    pub register-queues :
        (origin : O) (penalty wcd : ℕ) (onoff : Bool)
        → (register T origin penalty wcd onoff s).1.queues ≡ s.queues
    unfolding register
    register-queues origin penalty wcd onoff = ground arith

    pub set_state-queues :
        (origin : O) (onoff : Bool) → (set_state T origin onoff s).1.queues ≡ s.queues
    unfolding set_state
    set_state-queues origin onoff = ground arith

    pub on_killed_account-queues : (who : ℕ) → (on_killed_account T who s).queues ≡ s.queues
    unfolding on_killed_account
    on_killed_account-queues who = ground arith

  -- A call that ends the order `o` of another parachain: it returns `Ok`, and the device has no
  -- order any more.
  pub record IsClosing (d : ℕ) (o : Order P) (r : Result (Failure Error F) ⊤ × Store L Q P)
      : Type 0 where
    pub is_foreign : (o.paraid == T.self_para_id) ≡ false
    pub succeeds : r.0 ≡ ok tt
    pub is_gone : lookup d r.1.orders ≡ none

  -- The step ends an order of another parachain that the device `d` has, by right: its client
  -- cancels it from the deadline on, the device declines it while busy or accepted, or the device
  -- completes it when accepted.
  abbrev pub Ends : ℕ → {s t : Store L Q P} → Step T s t → Type 0
  Ends d {s} (Step.cancels origin device) =
      (device ≡ d)
      × ((o : Order P) × (dev : DeviceProfile) × Dues T s o dev origin d
          × IsClosing d o (cancel T origin d s))
  Ends d {s} (Step.accepts origin true onoff) =
      (o : Order P) × (dev : DeviceProfile) × Declines T s o dev origin d
      × IsClosing d o (accept T origin true onoff s)
  Ends d {s} (Step.completes origin onoff) =
      (o : Order P) × (dev : DeviceProfile) × Finishes T s o dev origin d
      × IsClosing d o (done T origin onoff s)
  Ends d _ = ⊥

  -- A message that the step may hand over: that an order ended only where the step ends it.
  abbrev pub Speaks : {s t : Store L Q P} → Step T s t → XcmpMessage P → Type 0
  Speaks st (XcmpMessage.order_accept client device) = ⊤
  Speaks st (XcmpMessage.order_reject client device onoff) = Ends device st
  Speaks st (XcmpMessage.order_done client device onoff) = Ends device st
  Speaks st (XcmpMessage.new_order client o) = ⊥

  pub record IsSpoken {s t : Store L Q P} (st : Step T s t) (p : Packet) : Type 0 where
    pub para : ℕ
    pub message : XcmpMessage P
    pub is_packet : p ≡ to_sibling para (T.encode message)
    pub speaks : Speaks st message
