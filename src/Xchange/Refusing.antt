-- ===== src/Xchange/Refusing.antt =====
-- What `order` leaves behind when it fails
-- (pallets/xchange/src/lib.rs, `order`).
use xcm_auto_bank.Base.{
  ℕ, ◌≤◌, ◌<◌, ⊤, ◌≡◌, refl, ◌≢◌, ◌⊎◌, inl, inr, Bool, true, false, none, some, arith, ◌==◌,
  Option-cases, Bool-cases,
}
use xcm_auto_bank.Base.Action.{Result, ok, err, Result-cases}
use xcm_auto_bank.Base.Map.{lookup}
use xcm_auto_bank.Common.{ready, Order, OrderBase}
use xcm_auto_bank.Frame.{Config, IsReservable, reserve_second}
use xcm_auto_bank.Pallet.{module_error, other, Failure, add_moment}
use xcm_auto_bank.Xchange.{
  DeviceProfile, Error, Store, order, overdue, illegal_state, no_device, bad_order_details,
  device_low_bail, none_value, order_exists, device_exists, no_order, prohibited,
  cannot_reach_destination,
}
use xcm_auto_bank.Xchange.Placing.{Orderable, placed, order-placed, order_ok-Orderable}

module _ {L Q F O P : Type 0} (T : Config L Q F O P) (origin : O) (o : OrderBase P)
    (s : Store L Q P) where
  -- What each error of the pallet says of the call. No other one is returned.
  abbrev pub Reason : Error → Type 0
  Reason overdue = o.until ≤ s.now
  Reason illegal_state =
      ((b : Order P) × (lookup o.device s.orders ≡ some b))
      ⊎ ((dev : DeviceProfile) × (lookup o.device s.devices ≡ some dev) × (dev.state ≢ ready))
  Reason no_device = lookup o.device s.devices ≡ none
  Reason bad_order_details =
      (dev : DeviceProfile) × (lookup o.device s.devices ≡ some dev)
      × (o.until < add_moment s.now dev.wcd)
  Reason device_low_bail =
      (who : ℕ) × (T.ensure_signed origin ≡ ok who)
      × (T.currency.can_reserve s.ledger who o.fee ≡ false)
  Reason _ = ⊥

  order_refused_same :
      (e : Error) → (order T origin o s).0 ≡ err (module_error e) → (order T origin o s).1 ≡ s
  unfolding order
  order_refused_same e h = ground arith

  abbrev is_used : Error → Bool
  is_used overdue = true
  is_used illegal_state = true
  is_used no_device = true
  is_used bad_order_details = true
  is_used device_low_bail = true
  is_used _ = false

  order_refused_used :
      (e : Error) → (order T origin o s).0 ≡ err (module_error e) → is_used e ≡ true
  unfolding order
  order_refused_used e h = ground arith

  order_overdue : (order T origin o s).0 ≡ err (module_error overdue) → Reason overdue
  unfolding order
  order_overdue h = ground arith

  order_illegal_state :
      (order T origin o s).0 ≡ err (module_error illegal_state) → Reason illegal_state
  unfolding order
  order_illegal_state h = elim (Option-cases (lookup o.device s.orders)) [
    | inr (b, e) ↦ inl (b, e)
    | inl e ↦ elim (Option-cases (lookup o.device s.devices)) [
      | inr (dev, k) ↦ inr (dev, k, λ r. ground arith)
      | inl k ↦ absurd (ground arith)
    ]
  ]

  order_no_device : (order T origin o s).0 ≡ err (module_error no_device) → Reason no_device
  unfolding order
  order_no_device h = ground arith

  order_bad_order_details :
      (order T origin o s).0 ≡ err (module_error bad_order_details) → Reason bad_order_details
  unfolding order
  order_bad_order_details h = elim (Option-cases (lookup o.device s.devices)) [
    | inr (dev, k) ↦ (dev, k, ground arith)
    | inl k ↦ absurd (ground arith)
  ]

  order_device_low_bail :
      (order T origin o s).0 ≡ err (module_error device_low_bail) → Reason device_low_bail
  unfolding order
  order_device_low_bail h = elim (Result-cases (T.ensure_signed origin)) [
    | inl (who, k) ↦ (who, k, ground arith)
    | inr (f, k) ↦ absurd (ground arith)
  ]

  order-Reason : (e : Error) → (order T origin o s).0 ≡ err (module_error e) → Reason e
  order-Reason overdue h = order_overdue h
  order-Reason illegal_state h = order_illegal_state h
  order-Reason no_device h = order_no_device h
  order-Reason bad_order_details h = order_bad_order_details h
  order-Reason device_low_bail h = order_device_low_bail h
  order-Reason none_value h = cc (order_refused_used none_value h)
  order-Reason order_exists h = cc (order_refused_used order_exists h)
  order-Reason device_exists h = cc (order_refused_used device_exists h)
  order-Reason no_order h = cc (order_refused_used no_order h)
  order-Reason prohibited h = cc (order_refused_used prohibited h)
  order-Reason cannot_reach_destination h = cc (order_refused_used cannot_reach_destination h)

  -- An error of the pallet that `order` returns names a guard that failed, and the storage, the
  -- balances and the queues are as before.
  pub order_refused :
      (e : Error)
      → (order T origin o s).0 ≡ err (module_error e)
      → Reason e × ((order T origin o s).1 ≡ s)
  order_refused e h = (order-Reason e h, order_refused_same e h)

  pub order_atomic :
      IsReservable T.currency
      → (who : ℕ) → T.ensure_signed origin ≡ ok who
      → (o.device == who) ≡ false
      → (e : Failure Error F) → (order T origin o s).0 ≡ err e
      → (order T origin o s).1 ≡ s
  unfolding order
  order_atomic laws who signed other_account e h = grind (arith, reserve_second T.currency laws)

  -- The penalty of the device alone is reserved: the signer is the device itself, whose balance
  -- does not hold the fee as well.
  pub record IsStranded (f : F) : Type 0 where
    pub dev : DeviceProfile
    pub ledger : L
    pub own_order : T.ensure_signed origin ≡ ok o.device
    pub no_order : lookup o.device s.orders ≡ none
    pub registered : lookup o.device s.devices ≡ some dev
    pub can_pay : T.currency.can_reserve s.ledger o.device o.fee ≡ true
    pub pledged : T.currency.reserve s.ledger o.device dev.penalty ≡ ok ledger
    pub unpaid : T.currency.reserve ledger o.device o.fee ≡ err f
    pub after : (order T origin o s).1 ≡ record s { ledger = ledger }

  own_order_failed :
      (f : F) (dev : DeviceProfile)
      → T.ensure_signed origin ≡ ok o.device
      → lookup o.device s.devices ≡ some dev
      → (order T origin o s).0 ≡ err (other f)
      → ((order T origin o s).1 ≡ s) ⊎ IsStranded f
  unfolding order
  own_order_failed f dev i e h =
      elim (Result-cases (T.currency.reserve s.ledger o.device dev.penalty)) [
        | inr (g, k) ↦ inl (ground arith)
        | inl (l₁, k) ↦ elim (Result-cases (T.currency.reserve l₁ o.device o.fee)) [
          | inl (l₂, k₂) ↦ absurd (ground arith)
          | inr (g, k₂) ↦ inr (record {
            dev = dev;
            ledger = l₁;
            own_order = i;
            no_order = ground arith;
            registered = e;
            can_pay = ground arith;
            pledged = k;
            unpaid = ground arith;
            after = ground arith;
          })
        ]
      ]

  order_failed_other :
      IsReservable T.currency
      → (f : F) → (order T origin o s).0 ≡ err (other f)
      → ((order T origin o s).1 ≡ s) ⊎ IsStranded f
  unfolding order
  order_failed_other laws f h = elim (Result-cases (T.ensure_signed origin)) [
    | inr (g, i) ↦ inl (ground arith)
    | inl (who, i) ↦ elim (Bool-cases (o.device == who)) [
      | inr ne ↦ inl (order_atomic laws who i ne (other f) h)
      | inl same ↦ elim (Option-cases (lookup o.device s.devices)) [
        | inl e ↦ absurd (ground arith)
        | inr (dev, e) ↦ own_order_failed f dev (ground arith) e h
      ]
    ]
  ]

  -- If the currency does as documented, an `order` that fails, whatever the error, has changed
  -- nothing, or the error is the currency's, the device ordered from itself, and its balance can
  -- reserve the fee or the penalty but not both: then the penalty is reserved, although no order
  -- is open, and nothing else has changed.
  pub order_failed :
      IsReservable T.currency
      → (e : Failure Error F) → (order T origin o s).0 ≡ err e
      → ((order T origin o s).1 ≡ s) ⊎ ((f : F) × (e ≡ other f) × IsStranded f)
  order_failed laws (module_error e) h = inl (order_refused_same e h)
  order_failed laws (other f) h = elim (order_failed_other laws f h) [
    | inl same ↦ inl same
    | inr stranded ↦ inr (f, refl, stranded)
  ]

  order_other :
      (f : F)
      → (order T origin o s).0 ≡ err (other f)
      → ((order T origin o s).1 ≡ s)
        ⊎ ((dev : DeviceProfile) × (l₁ : L) × (T.currency.reserve s.ledger o.device dev.penalty
              ≡ ok l₁)
            × ((order T origin o s).1 ≡ record s { ledger = l₁ }))
  unfolding order
  order_other f h = elim (Option-cases (lookup o.device s.devices)) [
    | inl e ↦ inl (ground arith)
    | inr (dev, e) ↦ elim (Result-cases (T.currency.reserve s.ledger o.device dev.penalty)) [
      | inr (g, k) ↦ inl (ground arith)
      | inl (l₁, k) ↦ elim (Result-cases (T.ensure_signed origin)) [
        | inr (g, i) ↦ inl (ground arith)
        | inl (who, i) ↦ inr (dev, l₁, k, ground arith)
      ]
    ]
  ]

  -- The storage after `order`, whatever it returned: unchanged, or with the penalty reserved
  -- alone, or with the order placed.
  pub order_cases {ℓ} :
      (R : Store L Q P → Type ℓ)
      → R s
      → ((dev : DeviceProfile) (l₁ : L)
          → T.currency.reserve s.ledger o.device dev.penalty ≡ ok l₁
          → R (record s { ledger = l₁ }))
      → ((who : ℕ) (dev : DeviceProfile) (l₁ l₂ : L)
          → Orderable T origin o s who dev l₁ l₂
          → R (placed T origin o s who dev l₂))
      → R (order T origin o s).1
  order_cases R same stranded booked = go (order T origin o s).0 refl
    where
      go : (r : Result (Failure Error F) ⊤) → (order T origin o s).0 ≡ r → R (order T origin o s).1
      go (ok tt) h =
          let (who, dev, l₁, l₂, c) = order_ok-Orderable T origin o s h in
          rw (order-placed T origin o s who dev l₁ l₂ c) (booked who dev l₁ l₂ c)
      go (err (module_error e)) h = rw (order_refused_same e h) same
      go (err (other f)) h = elim (order_other f h) [
        | inl e ↦ rw e same
        | inr (dev, l₁, k, e) ↦ rw e (stranded dev l₁ k)
      ]
