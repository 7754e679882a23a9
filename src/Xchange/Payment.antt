-- ===== src/Xchange/Payment.antt =====
-- Who is paid when an order ends (pallets/xchange/src/lib.rs, `on_done` and `order_reject`).
use xcm_auto_bank.Base.{
  ℕ, ◌+◌, ◌≤◌, ◌≡◌, refl, sym, ap, ◌∙◌, Bool, false, not, some, arith, ltb, ◌==◌, if◌then◌else◌,
  not_ltb_of_le,
}
use xcm_auto_bank.Base.Action.{ok}
use xcm_auto_bank.Base.Map.{lookup, total-remove}
use xcm_auto_bank.Common.{off, ready, Order}
use xcm_auto_bank.Frame.{Config, IsReservable}
use xcm_auto_bank.Money.{Pays, fee_then_penalty, refund_then_penalty}
use xcm_auto_bank.Xchange.{DeviceProfile, Store, cancel, on_reject, on_done}
use xcm_auto_bank.Xchange.Cases.{cancel_known, on_reject_known}
use xcm_auto_bank.Xchange.Escrow.{share, IsCovered}
use xcm_auto_bank.Xchange.Invariant.{IsWf}
use xcm_auto_bank.Xchange.Settlement.{on_done-closed, on_done_ok-known, order_reject-closed}

module _ {L Q F O P : Type 0} (T : Config L Q F O P) where
  module _ (laws : IsReservable T.currency) (s : Store L Q P) (w : IsWf s) (c : IsCovered T s) where
    share-le :
        (a device : ℕ) (o : Order P)
        → lookup device s.orders ≡ some o
        → share s.devices a device o ≤ T.currency.reserved_balance s.ledger a
    share-le a device o k =
        omega (arith, total-remove (share s.devices a) device o s.orders w.orders_map k, c a)

    has_fee :
        (device : ℕ) (o : Order P)
        → lookup device s.orders ≡ some o
        → o.fee ≤ T.currency.reserved_balance s.ledger o.client
    has_fee device o k = ground (arith, share-le o.client device o k)

    has_penalty :
        (device : ℕ) (o : Order P) (dev : DeviceProfile)
        → lookup device s.orders ≡ some o
        → lookup device s.devices ≡ some dev
        → dev.penalty ≤ T.currency.reserved_balance s.ledger device
    has_penalty device o dev k e = ground (arith, share-le device device o k)

    -- If the currency does as documented, and if the storage is well-formed and its orders are
    -- covered by reserves, the client is not the device, and `on_done` with the order's own client
    -- returns `Ok`, the device gets the whole fee; it gets its penalty back before the deadline,
    -- and from then on the client gets it. Nobody else's balances change.
    pub on_done-Pays :
        (o : Order P) (dev : DeviceProfile) (device : ℕ) (onoff : Bool)
        → lookup device s.orders ≡ some o
        → lookup device s.devices ≡ some dev
        → (o.client == device) ≡ false
        → (on_done T o.client device onoff s).0 ≡ ok tt
        → Pays T.currency s.ledger
            (on_done T o.client device onoff s).1.ledger
            o.client
            device
            o.fee
            dev.penalty
            (if ltb s.now o.until then 0 else dev.penalty)
            (o.fee + (if ltb s.now o.until then dev.penalty else 0))
    on_done-Pays o dev device onoff k e ne ends =
        let (l₁, l₂, d) = on_done_ok-known T s o.client device onoff o dev k e ends in
        rw (on_done-closed T s o.client device onoff o dev l₁ l₂ d) (
          fee_then_penalty T.currency laws s.now o.until o.client device o.fee dev.penalty s.ledger
            l₁ l₂ ne (has_fee device o k) (has_penalty device o dev k e) d.penalty_moved d.fee_paid)

    -- If the currency does as documented, and if the storage is well-formed and its orders are
    -- covered by reserves, and the client is not the device, a `cancel` that returns `Ok` gives the
    -- client the whole fee back, and the device's penalty on top. Nobody else's balances change.
    pub cancel-Pays :
        (origin : O) (o : Order P) (dev : DeviceProfile) (device : ℕ)
        → lookup device s.orders ≡ some o
        → lookup device s.devices ≡ some dev
        → (o.client == device) ≡ false
        → (cancel T origin device s).0 ≡ ok tt
        → Pays T.currency s.ledger
            (cancel T origin device s).1.ledger
            o.client
            device
            o.fee
            dev.penalty
            (o.fee + dev.penalty)
            0
    cancel-Pays origin o dev device k e ne ends =
        let (same, late, signed) = cancel_known T origin device s o dev k e ends in
        let (l, moves, after) =
          order_reject-closed T s o.client o s.now device dev (ap (λ r. r.0) (sym same) ∙ ends) in
        let pays =
          refund_then_penalty T.currency laws s.now o.until o.client device o.fee dev.penalty
            s.ledger _ l ne (has_fee device o k) (has_penalty device o dev k e) moves refl in
        rw (same, after) (rw (not_ltb_of_le o.until s.now late) at pays)

    -- If the currency does as documented, and if the storage is well-formed and its orders are
    -- covered by reserves, the client is not the device, and `on_reject` with the order's own
    -- client returns `Ok`, the client gets the whole fee back; the penalty goes back to the device
    -- before the deadline, and to the client from then on. Nobody else's balances change.
    pub on_reject-Pays :
        (o : Order P) (dev : DeviceProfile) (device : ℕ) (onoff : Bool)
        → lookup device s.orders ≡ some o
        → lookup device s.devices ≡ some dev
        → (o.client == device) ≡ false
        → (on_reject T o.client device onoff s).0 ≡ ok tt
        → Pays T.currency s.ledger
            (on_reject T o.client device onoff s).1.ledger
            o.client
            device
            o.fee
            dev.penalty
            (o.fee + (if ltb s.now o.until then 0 else dev.penalty))
            (if ltb s.now o.until then dev.penalty else 0)
    on_reject-Pays o dev device onoff k e ne ends =
        let dev' : DeviceProfile = record dev { state = if not onoff then off else ready } in
        let same = on_reject_known T o.client device onoff s o dev k e in
        let (l, moves, after) =
          order_reject-closed T s o.client o s.now device dev' (ap (λ r. r.0) (sym same) ∙ ends) in
        rw (same, after)
          (refund_then_penalty T.currency laws s.now o.until o.client device o.fee dev.penalty
            s.ledger _ l ne (has_fee device o k) (has_penalty device o dev k e) moves refl)
