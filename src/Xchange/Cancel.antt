-- ===== src/Xchange/Cancel.antt =====
-- Who may cancel, when, and what a `cancel` that fails has done (pallets/xchange/src/lib.rs,
-- `cancel`).
use xcm_auto_bank.Base.{
  ℕ, ◌≤◌, ◌<◌, ◌≡◌, sym, ap, ◌∙◌, ◌⊎◌, inl, inr, ◌↔◌, ◌≢◌, some, arith, Option-cases, Bool-cases,
  ltb, ◌||◌, not, ◌==◌,
}
use xcm_auto_bank.Base.Action.{ok, err, Result-cases}
use xcm_auto_bank.Base.Map.{lookup}
use xcm_auto_bank.Common.{Order}
use xcm_auto_bank.Frame.{Config}
use xcm_auto_bank.Pallet.{Failure, module_error, other}
use xcm_auto_bank.Xchange.{DeviceProfile, Error, Event, Store, cancel, order_reject, prohibited}
use xcm_auto_bank.Xchange.Settlement.{closed}

module _ {L Q F O P : Type 0} (T : Config L Q F O P) (origin : O) (device : ℕ)
    (s : Store L Q P) where
  pub record Cancellable (who : ℕ) (o : Order P) (dev : DeviceProfile) (l : L) : Type 0 where
    pub signed : T.ensure_signed origin ≡ ok who
    pub has_order : lookup device s.orders ≡ some o
    pub is_due : o.until ≤ s.now
    pub is_owner : o.client ≡ who
    pub registered : lookup device s.devices ≡ some dev
    pub penalty_paid :
        T.currency.repatriate_reserved
          (T.currency.unreserve s.ledger who o.fee)
          device
          o.client
          dev.penalty
        ≡ ok l

  pub cancel-closed :
      (who : ℕ) (o : Order P) (dev : DeviceProfile) (l : L)
      → Cancellable who o dev l
      → cancel T origin device s ≡ (ok tt, closed T s device dev l (Event.reject who device))
  unfolding cancel order_reject
  cancel-closed who o dev l h = ground arith

  cancel_ok-Cancellable :
      (cancel T origin device s).0 ≡ ok tt
      → (who : ℕ) × (o : Order P) × (dev : DeviceProfile) × (l : L) × Cancellable who o dev l
  unfolding cancel order_reject
  cancel_ok-Cancellable h = elim (Result-cases (T.ensure_signed origin)) [
    | inr (f, e) ↦ absurd (ground arith)
    | inl (who, i) ↦ elim (Option-cases (lookup device s.orders)) [
      | inl e ↦ absurd (ground arith)
      | inr (o, k) ↦ elim (Option-cases (lookup device s.devices)) [
        | inl e ↦ absurd (ground arith)
        | inr (dev, e) ↦
            elim (Result-cases (
              T.currency.repatriate_reserved (T.currency.unreserve s.ledger who o.fee) device
                o.client dev.penalty)) [
                  | inr (f, r) ↦ absurd (ground arith)
                  | inl (l, r) ↦ (who, o, dev, l, ground arith)
                ]
      ]
    ]
  ]

  -- `cancel` succeeds exactly when the signer is the client of the device's order, the deadline
  -- has come, the device is registered and its penalty can be paid to the client. Then the fee is
  -- released and the penalty paid, the order is gone, the device keeps its state, and one event is
  -- deposited.
  pub cancel_ok_iff :
      (t : Store L Q P)
      → (cancel T origin device s ≡ (ok tt, t)) ↔ (
          (who : ℕ) × (o : Order P) × (dev : DeviceProfile) × (l : L) × Cancellable who o dev l
          × (t ≡ closed T s device dev l (Event.reject who device)))
  cancel_ok_iff t = (there, back)
    where
      there :
          cancel T origin device s ≡ (ok tt, t)
          → (who : ℕ) × (o : Order P) × (dev : DeviceProfile) × (l : L) × Cancellable who o dev l
            × (t ≡ closed T s device dev l (Event.reject who device))
      there h =
          let (who, o, dev, l, c) = cancel_ok-Cancellable (ap (λ r. r.0) h) in
          (who, o, dev, l, c, ap (λ r. r.1) (sym h ∙ cancel-closed who o dev l c))

      back :
          (who : ℕ) × (o : Order P) × (dev : DeviceProfile) × (l : L) × Cancellable who o dev l
            × (t ≡ closed T s device dev l (Event.reject who device))
          → cancel T origin device s ≡ (ok tt, t)
      back (who, o, dev, l, c, e) = rw e (cancel-closed who o dev l c)

  -- Before the deadline of a device's order a signed `cancel` of it is refused without effect,
  -- whoever signed it, and one by any other account than the client always is.
  cancel_prohibited :
      (who : ℕ) (o : Order P)
      → T.ensure_signed origin ≡ ok who
      → lookup device s.orders ≡ some o
      → (s.now < o.until) ⊎ (o.client ≢ who)
      → cancel T origin device s ≡ (err (module_error prohibited), s)
  unfolding cancel
  cancel_prohibited who o i k h = ground arith

  -- The penalty of an overdue order of the signer cannot be paid, once its fee is released.
  pub record IsUnpaid (f : F) : Type 0 where
    pub o : Order P
    pub dev : DeviceProfile
    pub signed : T.ensure_signed origin ≡ ok o.client
    pub has_order : lookup device s.orders ≡ some o
    pub is_due : o.until ≤ s.now
    pub registered : lookup device s.devices ≡ some dev
    pub unpaid :
        T.currency.repatriate_reserved
          (T.currency.unreserve s.ledger o.client o.fee)
          device
          o.client
          dev.penalty
        ≡ err f
    pub after :
        (cancel T origin device s).1
        ≡ record s { ledger = T.currency.unreserve s.ledger o.client o.fee }

  cancel_failed_due :
      (who : ℕ) (o : Order P) (e : Failure Error F)
      → T.ensure_signed origin ≡ ok who
      → lookup device s.orders ≡ some o
      → o.until ≤ s.now
      → o.client ≡ who
      → (cancel T origin device s).0 ≡ err e
      → ((cancel T origin device s).1 ≡ s) ⊎ ((f : F) × (e ≡ other f) × IsUnpaid f)
  unfolding cancel order_reject
  cancel_failed_due who o e i k late own h = elim (Option-cases (lookup device s.devices)) [
    | inl none_there ↦ inl (ground arith)
    | inr (dev, there) ↦
        elim (Result-cases (
          T.currency.repatriate_reserved (T.currency.unreserve s.ledger who o.fee) device o.client
            dev.penalty)) [
              | inl (l, r) ↦ absurd (ground arith)
              | inr (f, r) ↦ inr (
                f,
                ground arith,
                record {
                  o = o;
                  dev = dev;
                  signed = ground arith;
                  has_order = k;
                  is_due = late;
                  registered = there;
                  unpaid = ground arith;
                  after = ground arith;
                },
              )
            ]
  ]

  -- A `cancel` that fails, whatever the error, has changed nothing, or the error is the currency's:
  -- the signer is the client, the deadline has come, and the penalty of the device cannot be paid;
  -- then the fee of the client is released all the same, and nothing else has changed, the order
  -- being as open as before.
  pub cancel_failed :
      (e : Failure Error F)
      → (cancel T origin device s).0 ≡ err e
      → ((cancel T origin device s).1 ≡ s) ⊎ ((f : F) × (e ≡ other f) × IsUnpaid f)
  unfolding cancel
  cancel_failed e h = elim (Result-cases (T.ensure_signed origin)) [
    | inr (f, i) ↦ inl (ground arith)
    | inl (who, i) ↦ elim (Option-cases (lookup device s.orders)) [
      | inl k ↦ inl (ground arith)
      | inr (o, k) ↦ elim (Bool-cases (ltb s.now o.until || not (o.client == who))) [
        | inl refused ↦ inl (ground arith)
        | inr due ↦ cancel_failed_due who o e i k (ground arith) (ground arith) h
      ]
    ]
  ]
