-- ===== src/Service/Refunds.antt =====
-- Who is paid when an order of this parachain is declined or cancelled
-- (pallets/xchange-service/src/lib.rs, `accept`, `cancel` and `order_reject`).
use xcm_auto_bank.Base.{
  ℕ, ◌+◌, ◌≤◌, ◌≡◌, refl, sym, ap, ◌∙◌, inl, inr, Bool, true, false, some, arith, ltb, ◌==◌,
  if◌then◌else◌, not_ltb_of_le,
}
use xcm_auto_bank.Base.Action.{ok}
use xcm_auto_bank.Base.Map.{lookup, total-remove}
use xcm_auto_bank.Common.{off, ready, Order}
use xcm_auto_bank.Frame.{IsReservable}
use xcm_auto_bank.Money.{Pays, refund_then_penalty}
use xcm_auto_bank.Owed
use xcm_auto_bank.Service.{ServiceConfig, DeviceProfile, Store, order_reject, accept, cancel}
use xcm_auto_bank.Service.Closing.{Declines}
use xcm_auto_bank.Service.Escrow.{is_local, IsCovered, penalty}
use xcm_auto_bank.Service.Invariant.{IsWf}
use xcm_auto_bank.Service.Settling.{Ended, order_reject-Settles}

module _ {L Q F O P : Type 0} (T : ServiceConfig L Q F O P) where
  -- With its guards passed, a decline is `order_reject`.
  decline_known :
      (s : Store L Q P) (o : Order P) (dev : DeviceProfile) (origin : O) (id : ℕ) (onoff : Bool)
      → Declines T s o dev origin id
      → accept T origin true onoff s
        ≡ order_reject T
            (some o)
            s.now
            id
            (record dev { state = if onoff then ready else off })
            onoff
            s
  unfolding accept
  decline_known s o dev origin id onoff h = ground arith

  module _ (laws : IsReservable T.currency) (s : Store L Q P) (w : IsWf s) (c : IsCovered T s)
      (o : Order P) (known : DeviceProfile) (device : ℕ) (k : lookup device s.orders ≡ some o)
      (e : lookup device s.devices ≡ some known) (native : is_local T o ≡ true)
      (others : (o.client == device) ≡ false) where
    share-le :
        (a : ℕ)
        → Owed.share penalty (is_local T) s.devices a device o
          ≤ T.currency.reserved_balance s.ledger a
    share-le a = omega (
      arith,
      total-remove (Owed.share penalty (is_local T) s.devices a) device o s.orders w.orders_map k,
      c a,
    )

    order_reject-Pays :
        (dev : DeviceProfile) (onoff : Bool)
        → dev.penalty ≡ known.penalty
        → (order_reject T (some o) s.now device dev onoff s).0 ≡ ok tt
        → let t = (order_reject T (some o) s.now device dev onoff s).1 in
          Pays T.currency s.ledger t.ledger o.client device o.fee dev.penalty
            (o.fee + (if ltb s.now o.until then 0 else dev.penalty))
            (if ltb s.now o.until then dev.penalty else 0)
          × Ended T s device dev t
    order_reject-Pays dev onoff same ends =
        let (moves, ended) = order_reject-Settles T s o s.now device dev onoff ends in
        (
          elim moves [
            | inl (foreign, _) ↦ absurd (ground arith)
            | inr (_, l₁, released, penalty_moves) ↦
                refund_then_penalty T.currency laws s.now o.until o.client device o.fee dev.penalty
                  s.ledger l₁ _ others (ground (arith, share-le o.client))
                  (ground (arith, share-le device)) penalty_moves released
          ],
          ended,
        )

    -- If the currency does as documented, and if the storage is well-formed and its orders are
    -- covered by reserves, a device declines an order of this parachain whose client is not the
    -- device, and the call returns `Ok`: the client gets the whole fee back; the penalty goes back
    -- to the device before the deadline, and to the client from then on. Nobody else's balances
    -- change, the order is gone, and the device is ready or off as it asked.
    pub decline-Pays :
        (origin : O) (onoff : Bool)
        → Declines T s o known origin device
        → (accept T origin true onoff s).0 ≡ ok tt
        → let t = (accept T origin true onoff s).1 in
          Pays T.currency s.ledger t.ledger o.client device o.fee known.penalty
            (o.fee + (if ltb s.now o.until then 0 else known.penalty))
            (if ltb s.now o.until then known.penalty else 0)
          × Ended T s device (record known { state = if onoff then ready else off }) t
    decline-Pays origin onoff h ends =
        let same = decline_known s o known origin device onoff h in
        let dev : DeviceProfile = record known { state = if onoff then ready else off } in
        rw same (order_reject-Pays dev onoff refl (ap (λ r. r.0) (sym same) ∙ ends))

    cancel_due :
        (origin : O)
        → o.until ≤ s.now
        → T.ensure_signed origin ≡ ok o.client
        → cancel T origin device s ≡ order_reject T (some o) s.now device known false s
    unfolding cancel
    cancel_due origin due signed = ground arith

    order_reject_payable :
        (l : L)
        → o.until ≤ s.now
        → T.currency.repatriate_reserved
            (T.currency.unreserve s.ledger o.client o.fee)
            device
            o.client
            known.penalty
          ≡ ok l
        → (order_reject T (some o) s.now device known false s).0 ≡ ok tt
    unfolding order_reject
    order_reject_payable l due payable = ground arith

    -- If the currency does as documented, and if the storage is well-formed and its orders are
    -- covered by reserves, and the deadline of an order of this parachain has come, whose client is
    -- not the device and can be paid the penalty: then the client's `cancel` succeeds. The client
    -- gets the whole fee and the device's penalty, nobody else's balances change, the order is
    -- gone, and the device's profile is as it was.
    pub overdue_cancel-Pays :
        (origin : O) (l : L)
        → o.until ≤ s.now
        → T.ensure_signed origin ≡ ok o.client
        → T.currency.repatriate_reserved
            (T.currency.unreserve s.ledger o.client o.fee)
            device
            o.client
            known.penalty
          ≡ ok l
        → let r = cancel T origin device s in
          (r.0 ≡ ok tt)
          × Pays T.currency s.ledger r.1.ledger o.client device o.fee known.penalty
              (o.fee + known.penalty)
              0
          × Ended T s device known r.1
    overdue_cancel-Pays origin l due signed payable =
        let succeeds = order_reject_payable l due payable in
        let (pays, ended) = order_reject-Pays known false refl succeeds in
        rw (cancel_due origin due signed)
          (succeeds, (rw (not_ltb_of_le o.until s.now due) at pays), ended)
