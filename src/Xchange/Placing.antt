-- ===== src/Xchange/Placing.antt =====
-- When `order` succeeds, and what it does then
-- (pallets/xchange/src/lib.rs, `order`).
use xcm_auto_bank.Base.{
  ℕ, ◌+◌, ◌^◌, ◌≤◌, ◌<◌, ◌≡◌, inl, inr, ◌↔◌, true, none, some, [], ◌∷◌, ◌++◌, sym, ap, ◌∙◌, arith,
  Option-cases,
}
use xcm_auto_bank.Base.Action.{ok, Result-cases}
use xcm_auto_bank.Base.Map.{lookup, insert}
use xcm_auto_bank.Common.{ready, busy, OrderBase, convert_base, convert-convert_base, XcmpMessage}
use xcm_auto_bank.Frame.{Config, parachain}
use xcm_auto_bank.Pallet.{add_moment, transact}
use xcm_auto_bank.Xchange.{DeviceProfile, Event, Store, order}

module _ {L Q F O P : Type 0} (T : Config L Q F O P) (origin : O) (o : OrderBase P)
    (s : Store L Q P) where
  -- The guards of `order`, for the client `who` and the profile `dev` of the device; the ledger
  -- is `l₁` after the penalty is reserved and `l₂` after the fee is.
  pub record Orderable (who : ℕ) (dev : DeviceProfile) (l₁ l₂ : L) : Type 0 where
    pub signed : T.ensure_signed origin ≡ ok who
    pub in_time : s.now < o.until
    pub no_order : lookup o.device s.orders ≡ none
    pub registered : lookup o.device s.devices ≡ some dev
    pub is_ready : dev.state ≡ ready
    pub has_room : add_moment s.now dev.wcd ≤ o.until
    pub can_pay : T.currency.can_reserve s.ledger who o.fee ≡ true
    pub pledged : T.currency.reserve s.ledger o.device dev.penalty ≡ ok l₁
    pub paid : T.currency.reserve l₁ who o.fee ≡ ok l₂

  -- All guards but the one on the device's time.
  pub record Guarded (who : ℕ) (dev : DeviceProfile) (l₁ l₂ : L) : Type 0 where
    pub signed : T.ensure_signed origin ≡ ok who
    pub in_time : s.now < o.until
    pub no_order : lookup o.device s.orders ≡ none
    pub registered : lookup o.device s.devices ≡ some dev
    pub is_ready : dev.state ≡ ready
    pub can_pay : T.currency.can_reserve s.ledger who o.fee ≡ true
    pub pledged : T.currency.reserve s.ledger o.device dev.penalty ≡ ok l₁
    pub paid : T.currency.reserve l₁ who o.fee ≡ ok l₂

  -- The storage after a successful `order`.
  abbrev pub placed : ℕ → DeviceProfile → L → Store L Q P
  placed who dev l = record {
    devices = insert o.device (record dev { state = busy }) s.devices;
    orders = insert o.device (convert_base o who) s.orders;
    now = s.now;
    ledger = l;
    queues =
        (T.send_xcm s.queues (record { parents = 1; interior = parachain dev.para_id })
          (transact (T.encode (XcmpMessage.new_order who o)))).1;
    events = s.events ++ Event.new_order who o.device ∷ [];
  }

  pub order-placed :
      (who : ℕ) (dev : DeviceProfile) (l₁ l₂ : L)
      → Orderable who dev l₁ l₂
      → order T origin o s ≡ (ok tt, placed who dev l₂)
  unfolding order
  order-placed who dev l₁ l₂ h = ground (arith, convert-convert_base o who)

  pub order_ok-Orderable :
      (order T origin o s).0 ≡ ok tt
      → (who : ℕ) × (dev : DeviceProfile) × (l₁ : L) × (l₂ : L) × Orderable who dev l₁ l₂
  unfolding order
  order_ok-Orderable h = elim (Result-cases (T.ensure_signed origin)) [
    | inr (f, e) ↦ absurd (ground arith)
    | inl (who, signed) ↦ elim (Option-cases (lookup o.device s.devices)) [
      | inl e ↦ absurd (ground arith)
      | inr (dev, known) ↦ elim (Result-cases (T.currency.reserve s.ledger o.device dev.penalty)) [
        | inr (f, e) ↦ absurd (ground arith)
        | inl (l₁, pledged) ↦ elim (Result-cases (T.currency.reserve l₁ who o.fee)) [
          | inr (f, e) ↦ absurd (ground arith)
          | inl (l₂, paid) ↦ (who, dev, l₁, l₂, ground arith)
        ]
      ]
    ]
  ]

  -- The sum of the clock and the device's time wraps at 2 ^ 64, as in a release build. So where all
  -- other guards hold and the sum lies beyond 2 ^ 64 by no more than the deadline, `order` succeeds
  -- although the deadline comes before the device's time is over.
  pub order_overflows :
      (who : ℕ) (dev : DeviceProfile) (l₁ l₂ : L)
      → Guarded who dev l₁ l₂
      → o.until < 2 ^ 64
      → 2 ^ 64 ≤ s.now + dev.wcd
      → s.now + dev.wcd ≤ 2 ^ 64 + o.until
      → (order T origin o s ≡ (ok tt, placed who dev l₂)) × (o.until < s.now + dev.wcd)
  order_overflows who dev l₁ l₂ g small wraps room = (
    order-placed who dev l₁ l₂ (record {
      signed = g.signed;
      in_time = g.in_time;
      no_order = g.no_order;
      registered = g.registered;
      is_ready = g.is_ready;
      has_room = omega (arith, room, wraps, small);
      can_pay = g.can_pay;
      pledged = g.pledged;
      paid = g.paid;
    }),
    omega (arith, small, wraps),
  )

  -- `order` succeeds exactly when the origin is signed, the deadline lies ahead and leaves the
  -- device its time, the device is registered, ready and without an order, and the penalty and the
  -- fee can be reserved. Then it books the order, makes the device busy, has both reserved, hands
  -- the request for the device's parachain to the router and deposits one event, and changes
  -- nothing else.
  pub order_ok_iff :
      (t : Store L Q P)
      → (order T origin o s ≡ (ok tt, t)) ↔ (
          (who : ℕ) × (dev : DeviceProfile) × (l₁ : L) × (l₂ : L) × Orderable who dev l₁ l₂
          × (t ≡ placed who dev l₂))
  order_ok_iff t = (there, back)
    where
      there :
          order T origin o s ≡ (ok tt, t)
          → (who : ℕ) × (dev : DeviceProfile) × (l₁ : L) × (l₂ : L) × Orderable who dev l₁ l₂
            × (t ≡ placed who dev l₂)
      there h =
          let (who, dev, l₁, l₂, c) = order_ok-Orderable (ap (λ r. r.0) h) in
          (who, dev, l₁, l₂, c, ap (λ r. r.1) (sym h ∙ order-placed who dev l₁ l₂ c))

      back :
          (who : ℕ) × (dev : DeviceProfile) × (l₁ : L) × (l₂ : L) × Orderable who dev l₁ l₂
            × (t ≡ placed who dev l₂)
          → order T origin o s ≡ (ok tt, t)
      back (who, dev, l₁, l₂, c, e) = rw e (order-placed who dev l₁ l₂ c)
