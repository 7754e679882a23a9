-- ===== src/Xchange/Settlement.antt =====
-- How an order ends: `on_done` and `order_reject`, with the moves of money on the way
-- (pallets/xchange/src/lib.rs).
use mathlib.Core.Path.{subst₂}
use xcm_auto_bank.Base.{
  ℕ, ◌≡◌, refl, sym, ap, ◌∙◌, inl, inr, ◌↔◌, Bool, some, [], ◌∷◌, ◌++◌, arith, ltb, if◌then◌else◌,
  Option-cases, Bool-cases, some_inj,
}
use xcm_auto_bank.Base.Action.{ok, Result-cases}
use xcm_auto_bank.Base.Map.{lookup, insert, remove}
use xcm_auto_bank.Common.{Order, off, ready}
use xcm_auto_bank.Frame.{Config}
use xcm_auto_bank.Money.{PenaltyMoves}
use xcm_auto_bank.Xchange.{DeviceProfile, Event, Store, order_reject, on_done}

module _ {L Q F O P : Type 0} (T : Config L Q F O P) where
  -- The storage once the order on the device is closed.
  abbrev pub closed : Store L Q P → ℕ → DeviceProfile → L → Event → Store L Q P
  closed s device dev l e = record s {
    devices = insert device dev s.devices;
    orders = remove device s.orders;
    ledger = l;
    events = s.events ++ e ∷ [];
  }

  abbrev pub switched : DeviceProfile → Bool → DeviceProfile
  switched dev onoff = record dev { state = if onoff then ready else off }

  module _ (s : Store L Q P) (who device : ℕ) (onoff : Bool) where
    pub record Done (o : Order P) (dev : DeviceProfile) (l₁ l₂ : L) : Type 0 where
      pub has_order : lookup device s.orders ≡ some o
      pub registered : lookup device s.devices ≡ some dev
      pub fee_paid : T.currency.repatriate_reserved s.ledger who device o.fee ≡ ok l₁
      pub penalty_moved : PenaltyMoves T.currency s.now o.until device who dev.penalty l₁ l₂

    pub on_done-closed :
        (o : Order P) (dev : DeviceProfile) (l₁ l₂ : L)
        → Done o dev l₁ l₂
        → on_done T who device onoff s
          ≡ (ok tt, closed s device (switched dev onoff) l₂ (Event.done who device))
    unfolding on_done
    on_done-closed o dev l₁ l₂ h = ground arith

    pub on_done_ok-Done :
        (on_done T who device onoff s).0 ≡ ok tt
        → (o : Order P) × (dev : DeviceProfile) × (l₁ : L) × (l₂ : L) × Done o dev l₁ l₂
    unfolding on_done
    on_done_ok-Done h = elim (Option-cases (lookup device s.orders)) [
      | inl e ↦ absurd (ground arith)
      | inr (o, k) ↦ elim (Option-cases (lookup device s.devices)) [
        | inl e ↦ absurd (ground arith)
        | inr (dev, e) ↦
            elim (Result-cases (T.currency.repatriate_reserved s.ledger who device o.fee)) [
              | inr (f, r) ↦ absurd (ground arith)
              | inl (l₁, r) ↦ elim (Bool-cases (ltb s.now o.until)) [
                | inl early ↦ (
                  o,
                  dev,
                  l₁,
                  T.currency.unreserve l₁ device dev.penalty,
                  record {
                    has_order = k;
                    registered = e;
                    fee_paid = r;
                    penalty_moved = inl (ground arith, refl);
                  },
                )
                | inr late ↦
                    elim (Result-cases (T.currency.repatriate_reserved l₁ device who dev.penalty)) [
                      | inr (f, r₂) ↦ absurd (ground arith)
                      | inl (l₂, r₂) ↦ (
                        o,
                        dev,
                        l₁,
                        l₂,
                        record {
                          has_order = k;
                          registered = e;
                          fee_paid = r;
                          penalty_moved = inr (ground arith, r₂);
                        },
                      )
                    ]
              ]
            ]
      ]
    ]

    pub on_done_ok-known :
        (o : Order P) (dev : DeviceProfile)
        → lookup device s.orders ≡ some o
        → lookup device s.devices ≡ some dev
        → (on_done T who device onoff s).0 ≡ ok tt
        → (l₁ : L) × (l₂ : L) × Done o dev l₁ l₂
    on_done_ok-known o dev k e h =
        let (o', dev', l₁, l₂, d) = on_done_ok-Done h in
        let same_order : o' ≡ o = some_inj _ _ (sym d.has_order ∙ k) in
        let same_device : dev' ≡ dev = some_inj _ _ (sym d.registered ∙ e) in
        (l₁, l₂, subst₂ (λ x y. Done x y l₁ l₂) same_order same_device d)

    -- `on_done` succeeds exactly when the device is registered and has an order, and both
    -- transfers can be made. Then the fee has gone from the named account's reserve to the device,
    -- the penalty has gone back to the device, or from the deadline on to the named account, the
    -- order is gone, the device is ready or off as the message says, and one event is deposited.
    pub on_done_ok_iff :
        (t : Store L Q P)
        → (on_done T who device onoff s ≡ (ok tt, t)) ↔ (
            (o : Order P) × (dev : DeviceProfile) × (l₁ : L) × (l₂ : L) × Done o dev l₁ l₂
            × (t ≡ closed s device (switched dev onoff) l₂ (Event.done who device)))
    on_done_ok_iff t = (there, back)
      where
        there :
            on_done T who device onoff s ≡ (ok tt, t)
            → (o : Order P) × (dev : DeviceProfile) × (l₁ : L) × (l₂ : L) × Done o dev l₁ l₂
              × (t ≡ closed s device (switched dev onoff) l₂ (Event.done who device))
        there h =
            let (o, dev, l₁, l₂, c) = on_done_ok-Done (ap (λ r. r.0) h) in
            (o, dev, l₁, l₂, c, ap (λ r. r.1) (sym h ∙ on_done-closed o dev l₁ l₂ c))

        back :
            (o : Order P) × (dev : DeviceProfile) × (l₁ : L) × (l₂ : L) × Done o dev l₁ l₂
              × (t ≡ closed s device (switched dev onoff) l₂ (Event.done who device))
            → on_done T who device onoff s ≡ (ok tt, t)
        back (o, dev, l₁, l₂, c, e) = rw e (on_done-closed o dev l₁ l₂ c)

  -- What `order_reject` has done when it returned `Ok`.
  pub order_reject-closed :
      (s : Store L Q P) (who : ℕ) (o : Order P) (now device : ℕ) (dev : DeviceProfile)
      → (order_reject T who o now device dev s).0 ≡ ok tt
      → (l : L) × PenaltyMoves T.currency now o.until device o.client dev.penalty
          (T.currency.unreserve s.ledger who o.fee)
          l
        × ((order_reject T who o now device dev s).1
            ≡ closed s device dev l (Event.reject who device))
  unfolding order_reject
  order_reject-closed s who o now device dev h = elim (Bool-cases (ltb now o.until)) [
    | inl early ↦ (
      T.currency.unreserve (T.currency.unreserve s.ledger who o.fee) device dev.penalty,
      inl (ground arith, refl),
      ground arith,
    )
    | inr late ↦
        elim (Result-cases (
          T.currency.repatriate_reserved (T.currency.unreserve s.ledger who o.fee) device o.client
            dev.penalty)) [
              | inr (f, r) ↦ absurd (ground arith)
              | inl (l, r) ↦ (l, inr (ground arith, r), ground arith)
            ]
  ]
