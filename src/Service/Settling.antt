-- ===== src/Service/Settling.antt =====
-- What an order that ends moves and writes when nothing fails, and that the reserves still cover
-- the other orders (pallets/xchange-service/src/lib.rs, `order_reject` and `order_done`).
use xcm_auto_bank.Base.{
  ℕ, true, false, ◌-◌, ◌≡◌, refl, Bool, some, arith, ◌==◌, ltb, if◌then◌else◌, Bool-cases, inl, inr,
  ◌⊎◌,
}
use xcm_auto_bank.Base.Action.{ok, Result-cases}
use xcm_auto_bank.Base.Map.{lookup, insert, remove}
use xcm_auto_bank.Common.{off, ready, Order}
use xcm_auto_bank.Frame.{IsReservable}
use xcm_auto_bank.Money.{PenaltyMoves, PenaltyMoves-reserved}
use xcm_auto_bank.Owed.{owed-closed}
use xcm_auto_bank.Service.{ServiceConfig, DeviceProfile, Store, order_reject, order_done}
use xcm_auto_bank.Service.Escrow.{is_local, IsBacked, penalty}
use xcm_auto_bank.Service.Invariant.{IsWf}

module _ {L Q F O P : Type 0} (T : ServiceConfig L Q F O P) where
  -- The money of an order that ends: of a local one the fee leaves the reserve of its client, by
  -- a release or by a payment, and then the penalty moves; another one moves nothing.
  abbrev pub Settles : (L → Type 0) → ℕ → Order P → ℕ → DeviceProfile → L → L → Type 0
  Settles after_fee now o device dev l l' =
      ((is_local T o ≡ false) × (l' ≡ l))
      ⊎ ((is_local T o ≡ true)
          × (l₁ : L) × after_fee l₁
          × PenaltyMoves T.currency now o.until device o.client dev.penalty l₁ l')

  -- What both kinds of end write.
  abbrev pub Ended : Store L Q P → ℕ → DeviceProfile → Store L Q P → Type 0
  Ended s device dev t =
      (t.orders ≡ remove device s.orders) × (t.devices ≡ insert device dev s.devices)

  module _ (s : Store L Q P) (o : Order P) (now device : ℕ) (dev : DeviceProfile)
      (onoff : Bool) where
    pub order_reject-Settles :
        (order_reject T (some o) now device dev onoff s).0 ≡ ok tt
        → let t = (order_reject T (some o) now device dev onoff s).1 in
          Settles
            (λ l₁. l₁ ≡ T.currency.unreserve s.ledger o.client o.fee)
            now
            o
            device
            dev
            s.ledger
            t.ledger
          × Ended s device dev t
    unfolding order_reject
    order_reject-Settles h = elim (Bool-cases (is_local T o)) [
      | inr e ↦ (inl (e, ground arith), ground arith)
      | inl e ↦ elim (Bool-cases (ltb now o.until)) [
        | inl early ↦ (
          inr (
            e,
            T.currency.unreserve s.ledger o.client o.fee,
            refl,
            inl (ground arith, ground arith),
          ),
          ground arith,
        )
        | inr late ↦
            elim (Result-cases (
              T.currency.repatriate_reserved (T.currency.unreserve s.ledger o.client o.fee) device
                o.client dev.penalty)) [
                  | inr (f, r) ↦ absurd (ground arith)
                  | inl (l, r) ↦ (
                    inr (
                      e,
                      T.currency.unreserve s.ledger o.client o.fee,
                      refl,
                      inr (ground arith, ground arith),
                    ),
                    ground arith,
                  )
                ]
      ]
    ]

    abbrev pub finished : DeviceProfile
    finished = record dev { state = if onoff then ready else off }

    abbrev pub taken : Store L Q P
    taken = record s { orders = remove device s.orders }

    pub order_done-Settles :
        (order_done T o now device dev onoff taken).0 ≡ ok tt
        → let t = (order_done T o now device dev onoff taken).1 in
          Settles
            (λ l₁. T.currency.repatriate_reserved s.ledger o.client device o.fee ≡ ok l₁)
            now
            o
            device
            dev
            s.ledger
            t.ledger
          × Ended s device finished t
    unfolding order_done
    order_done-Settles h = elim (Bool-cases (is_local T o)) [
      | inr e ↦ (inl (e, ground arith), ground arith)
      | inl e ↦
          elim (Result-cases (T.currency.repatriate_reserved s.ledger o.client device o.fee)) [
            | inr (f, p) ↦ absurd (ground arith)
            | inl (l₁, p) ↦ elim (Bool-cases (ltb now o.until)) [
              | inl early ↦ (inr (e, l₁, p, inl (ground arith, ground arith)), ground arith)
              | inr late ↦
                  elim (Result-cases
                    (T.currency.repatriate_reserved l₁ device o.client dev.penalty)) [
                      | inr (f, r) ↦ absurd (ground arith)
                      | inl (l, r) ↦
                          (inr (e, l₁, p, inr (ground arith, ground arith)), ground arith)
                    ]
            ]
          ]
    ]

  module _ (extra : ℕ → ℕ) (laws : IsReservable T.currency) (s : Store L Q P) (w : IsWf s) where
    -- Where the fee leaves the client's reserve, the other orders stay covered.
    pub Settles-IsBacked :
        (after_fee : L → Type 0) (now device : ℕ) (o : Order P) (known dev : DeviceProfile)
        (t : Store L Q P)
        → ((l₁ : L) (a : ℕ)
            → after_fee l₁
            → T.currency.reserved_balance l₁ a ≡ (
                if o.client == a
                then T.currency.reserved_balance s.ledger a - o.fee
                else T.currency.reserved_balance s.ledger a))
        → lookup device s.orders ≡ some o
        → lookup device s.devices ≡ some known
        → dev.penalty ≡ known.penalty
        → Settles after_fee now o device dev s.ledger t.ledger
        → Ended s device dev t
        → IsBacked T extra s
        → IsBacked T extra t
    Settles-IsBacked after_fee now device o known dev t fee k e same moves (removed, written) c a =
        rw (removed, written)
          (elim moves [
            | inl (foreign, kept) ↦ rw kept (
                ground (
                  arith,
                  c a,
                  owed-closed penalty (is_local T) s.devices s.orders a device w.orders_map dev o k,
                ))
            | inr (native, l₁, paid, penalty_moves) ↦ ground (
              arith,
              c a,
              owed-closed penalty (is_local T) s.devices s.orders a device w.orders_map dev o k,
              fee l₁ a paid,
              PenaltyMoves-reserved T.currency laws now o.until device o.client dev.penalty l₁
                  t.ledger penalty_moves a,
            )
          ])
