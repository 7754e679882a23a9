-- ===== src/Xchange/Restoring.antt =====
-- An order that its device rejects in time (pallets/xchange/src/lib.rs, `order` and `on_reject`).
use mathlib.Core.Path.{subst}
use xcm_auto_bank.Base.{ℕ, ◌<◌, ◌≡◌, refl, Bool, false, arith, ◌==◌}
use xcm_auto_bank.Base.Action.{ok, ok_unique}
use xcm_auto_bank.Base.Map.{lookup, lookup-insert, lookup-remove}
use xcm_auto_bank.Common.{busy, OrderBase, convert_base}
use xcm_auto_bank.Frame.{Config, IsReservable}
use xcm_auto_bank.Xchange.{DeviceProfile, Event, Store, order, on_reject, order_reject}
use xcm_auto_bank.Xchange.Placing.{Orderable, placed, order-placed, order_ok-Orderable}
use xcm_auto_bank.Xchange.Settlement.{closed, switched}

module _ {L Q F O P : Type 0} (T : Config L Q F O P) where
  -- The device no longer has an order, all other orders and profiles are as they were, and so is
  -- every balance.
  pub record Restored (s u : Store L Q P) (device : ℕ) : Type 0 where
    pub orders : (d : ℕ) → lookup d u.orders ≡ lookup d s.orders
    pub devices : (d : ℕ) → (device == d) ≡ false → lookup d u.devices ≡ lookup d s.devices
    pub free : (a : ℕ) → T.currency.free_balance u.ledger a ≡ T.currency.free_balance s.ledger a
    pub reserved :
        (a : ℕ) → T.currency.reserved_balance u.ledger a ≡ T.currency.reserved_balance s.ledger a

  module _ (origin : O) (o : OrderBase P) (s : Store L Q P) (who now : ℕ) (onoff : Bool) where
    -- The order is placed, and time has passed.
    abbrev waiting : DeviceProfile → L → Store L Q P
    waiting dev l = record (placed T origin o s who dev l) { now = now }

    on_reject-closed :
        (dev : DeviceProfile) (l : L)
        → now < o.until
        → on_reject T who o.device onoff (waiting dev l) ≡ (
          ok tt,
          closed T
              (waiting dev l)
              o.device
              (switched T dev onoff)
              (T.currency.unreserve (T.currency.unreserve l who o.fee) o.device dev.penalty)
              (Event.reject who o.device),
        )
    unfolding on_reject order_reject convert_base
    on_reject-closed dev l early = grind (arith, lookup-insert)

    module _ (laws : IsReservable T.currency) (dev : DeviceProfile) (l₁ l₂ : L)
        (h : Orderable T origin o s who dev l₁ l₂) where
      abbrev released : L
      released = T.currency.unreserve (T.currency.unreserve l₂ who o.fee) o.device dev.penalty

      released_reserved :
          (a : ℕ) → T.currency.reserved_balance released a ≡ T.currency.reserved_balance s.ledger a
      released_reserved a = ground (
        arith,
        laws.reserve_reserved s.ledger l₁ o.device dev.penalty a h.pledged,
        laws.reserve_reserved l₁ l₂ who o.fee a h.paid,
        laws.unreserve_reserved l₂ who o.fee a,
        laws.unreserve_reserved (T.currency.unreserve l₂ who o.fee) o.device dev.penalty a,
      )

      released_free :
          (a : ℕ) → T.currency.free_balance released a ≡ T.currency.free_balance s.ledger a
      released_free a = ground (
        arith,
        laws.reserve_reserved s.ledger l₁ o.device dev.penalty o.device h.pledged,
        laws.reserve_reserved s.ledger l₁ o.device dev.penalty who h.pledged,
        laws.reserve_reserved l₁ l₂ who o.fee who h.paid,
        laws.reserve_reserved l₁ l₂ who o.fee o.device h.paid,
        laws.unreserve_reserved l₂ who o.fee o.device,
        laws.reserve_covered s.ledger l₁ o.device dev.penalty h.pledged,
        laws.reserve_covered l₁ l₂ who o.fee h.paid,
        laws.reserve_free s.ledger l₁ o.device dev.penalty a h.pledged,
        laws.reserve_free l₁ l₂ who o.fee a h.paid,
        laws.unreserve_free l₂ who o.fee a,
        laws.unreserve_free (T.currency.unreserve l₂ who o.fee) o.device dev.penalty a,
      )

      released-Restored :
          Restored s
            (closed T
              (waiting dev l₂)
              o.device
              (switched T dev onoff)
              released
              (Event.reject who o.device))
            o.device
      released-Restored = record {
        orders = λ d. ground (
          arith,
          h.no_order,
          lookup-remove d o.device (waiting dev l₂).orders,
          lookup-insert d o.device (convert_base o who) s.orders,
        );
        devices = λ d n. ground (
          arith,
          lookup-insert d o.device (switched T dev onoff) (waiting dev l₂).devices,
          lookup-insert d o.device (record dev { state = busy }) s.devices,
        );
        free = released_free;
        reserved = released_reserved;
      }

  -- If the currency does as documented, and if an `order` of `who` succeeded and its rejection
  -- arrives before the deadline, with only the clock changed in between: `on_reject` succeeds, the
  -- order is gone, every other order and profile is as it was before the `order`, and so are the
  -- free and the reserved balance of every account.
  pub on_reject-order-Restored :
      IsReservable T.currency
      → (origin : O) (o : OrderBase P) (s : Store L Q P) (who now : ℕ) (onoff : Bool)
      → T.ensure_signed origin ≡ ok who
      → (order T origin o s).0 ≡ ok tt
      → now < o.until
      → let r = on_reject T who o.device onoff (record (order T origin o s).1 { now = now }) in
        (r.0 ≡ ok tt) × Restored s r.1 o.device
  on_reject-order-Restored laws origin o s who now onoff signed placed_ok early =
      let (client, dev, l₁, l₂, h) = order_ok-Orderable T origin o s placed_ok in
      let same : client ≡ who = ok_unique (T.ensure_signed origin) client who h.signed signed in
      let g = subst (λ c. Orderable T origin o s c dev l₁ l₂) same h in
      rw
        (
          order-placed T origin o s who dev l₁ l₂ g,
          on_reject-closed origin o s who now onoff dev l₂ early,
        )
        (refl, released-Restored origin o s who now onoff laws dev l₁ l₂ g)
