-- ===== src/Service/Exact.antt =====
-- Exactly when an order is received and when it is completed
-- (pallets/xchange-service/src/lib.rs, `order_received` and `done`).
use xcm_auto_bank.Base.{
  ℕ, ◌≡◌, sym, ap, ◌∙◌, ◌⊎◌, inl, inr, ◌↔◌, true, false, arith, ◌==◌, Bool-cases,
}
use xcm_auto_bank.Base.Action.{ok, err}
use xcm_auto_bank.Common.{DeviceState, Order}
use xcm_auto_bank.Pallet.{module_error}
use xcm_auto_bank.Service.{
  device_low_bail, ServiceConfig, DeviceProfile, Store, check_order, reserve_order, book_order,
  order_received,
}
use xcm_auto_bank.Service.Calls.{Reserves, order_received_ok}
use xcm_auto_bank.Service.Receiving.{Receivable, booked, check_order_ok, book_order-booked}

module _ {L Q F O P : Type 0} (T : ServiceConfig L Q F O P) where
  module _ (o : Order P) (device : ℕ) (s : Store L Q P) where
    reserve_order_refused :
        (dev : DeviceProfile)
        → (o.paraid == T.self_para_id) ≡ true
        → T.currency.can_reserve s.ledger o.client o.fee ≡ false
        → reserve_order T o device dev s ≡ (err (module_error device_low_bail), s)
    unfolding reserve_order
    reserve_order_refused dev own k = ground arith

    reserve_order_own :
        (dev : DeviceProfile) (l₁ l₂ : L)
        → (o.paraid == T.self_para_id) ≡ true
        → T.currency.can_reserve s.ledger o.client o.fee ≡ true
        → T.currency.reserve s.ledger device dev.penalty ≡ ok l₁
        → T.currency.reserve l₁ o.client o.fee ≡ ok l₂
        → reserve_order T o device dev s ≡ (ok tt, record s { ledger = l₂ })
    unfolding reserve_order
    reserve_order_own dev l₁ l₂ own k p q = ground arith

    order_received_refused :
        (known : DeviceProfile) (state : DeviceState)
        → Receivable T o device s known state
        → (o.paraid == T.self_para_id) ≡ true
        → T.currency.can_reserve s.ledger o.client o.fee ≡ false
        → (order_received T o device s).0 ≡ err (module_error device_low_bail)
    unfolding order_received
    order_received_refused known state c own k = ground (
      arith,
      check_order_ok T o device s known state c,
      reserve_order_refused (record known { state = state }) own k,
    )

    order_received_own :
        (known : DeviceProfile) (state : DeviceState) (l₁ l₂ : L)
        → Receivable T o device s known state
        → (o.paraid == T.self_para_id) ≡ true
        → T.currency.can_reserve s.ledger o.client o.fee ≡ true
        → T.currency.reserve s.ledger device known.penalty ≡ ok l₁
        → T.currency.reserve l₁ o.client o.fee ≡ ok l₂
        → order_received T o device s ≡ (ok tt, booked T o device s known state l₂)
    unfolding order_received
    order_received_own known state l₁ l₂ c own k p q = ground (
      arith,
      check_order_ok T o device s known state c,
      reserve_order_own (record known { state = state }) l₁ l₂ own k p q,
      book_order-booked T o device s known state l₂,
    )

    order_received_foreign :
        (known : DeviceProfile) (state : DeviceState)
        → Receivable T o device s known state
        → (o.paraid == T.self_para_id) ≡ false
        → order_received T o device s ≡ (ok tt, booked T o device s known state s.ledger)
    unfolding order_received check_order reserve_order book_order
    order_received_foreign known state c e = ground arith

    -- The money of the order: none moves for another parachain, and for this one the fee is
    -- announced as possible, and the penalty and the fee are reserved.
    abbrev pub Funds : DeviceProfile → L → Type 0
    Funds known l =
        (((o.paraid == T.self_para_id) ≡ false) × (l ≡ s.ledger))
        ⊎ ((l₁ : L) × ((o.paraid == T.self_para_id) ≡ true)
            × (T.currency.can_reserve s.ledger o.client o.fee ≡ true)
            × (T.currency.reserve s.ledger device known.penalty ≡ ok l₁)
            × (T.currency.reserve l₁ o.client o.fee ≡ ok l))

    -- An order is received exactly when its deadline lies ahead and leaves the device its time, the
    -- device is registered, ready and without an order, `OnReceived` takes it and, for an order of
    -- this parachain, the fee can be reserved, as `can_reserve` says, and so can the penalty and
    -- then the fee. Then exactly this order is booked on the device, in the state that `OnReceived`
    -- chose, with those reserves; a device that accepts at once answers another parachain.
    pub order_received_ok_iff :
        (t : Store L Q P)
        → (order_received T o device s ≡ (ok tt, t)) ↔ (
            (known : DeviceProfile) × (state : DeviceState) × (l : L) × Receivable T o device s
              known state
            × Funds known l
            × (t ≡ booked T o device s known state l))
    order_received_ok_iff t = (there, back)
      where
        funded :
            (known : DeviceProfile) (state : DeviceState) (l : L)
            → Receivable T o device s known state
            → (order_received T o device s).0 ≡ ok tt
            → Reserves T o device known.penalty s.ledger l
            → Funds known l
        funded known state l c h (inl foreign) = inl foreign
        funded known state l c h (inr (l₁, own, p, q)) =
            elim (Bool-cases (T.currency.can_reserve s.ledger o.client o.fee)) [
              | inl k ↦ inr (l₁, own, k, p, q)
              | inr k ↦ absurd (let refused = order_received_refused known state c own k in cc)
            ]

        there :
            order_received T o device s ≡ (ok tt, t)
            → (known : DeviceProfile) × (state : DeviceState) × (l : L) × Receivable T o device s
                known state
              × Funds known l
              × (t ≡ booked T o device s known state l)
        there h =
            let ends = ap (λ r. r.0) h in
            let (known, state, l, c, funds, e) = order_received_ok T o device s ends in
            (known, state, l, c, funded known state l c ends funds, sym (ap (λ r. r.1) h) ∙ e)

        back :
            (known : DeviceProfile) × (state : DeviceState) × (l : L) × Receivable T o device s
                known state
              × Funds known l
              × (t ≡ booked T o device s known state l)
            → order_received T o device s ≡ (ok tt, t)
        back (known, state, l, c, inl (foreign, same), e) =
            rw (e, same) (order_received_foreign known state c foreign)
        back (known, state, l, c, inr (l₁, own, k, p, q), e) =
            rw e (order_received_own known state l₁ l c own k p q)
