-- ===== src/Service/Receiving.antt =====
-- How an order is received: its guards, its reserves and its writes
-- (pallets/xchange-service/src/lib.rs, `order_received`).
use xcm_auto_bank.Base.{
  ℕ, ◌≤◌, ◌<◌, ⊤, ◌≡◌, refl, inl, inr, true, false, none, some, [], ◌∷◌, ◌++◌, arith, ◌==◌,
  if◌then◌else◌, Option-cases, Bool-cases,
}
use xcm_auto_bank.Base.Action.{Result, ok, err, Result-cases}
use xcm_auto_bank.Base.Map.{lookup, insert}
use xcm_auto_bank.Common.{DeviceState, ready, accepted, state_eq, Order, XcmpMessage}
use xcm_auto_bank.Frame.{parachain}
use xcm_auto_bank.Pallet.{module_error, other, Failure, add_moment, transact}
use xcm_auto_bank.Service.{
  ServiceConfig, DeviceProfile, Error, Event, Store, check_order, reserve_order, book_order,
  order_received, device_low_bail,
}

module _ {L Q F O P : Type 0} (T : ServiceConfig L Q F O P) (o : Order P) (device : ℕ)
    (s : Store L Q P) where
  -- The guards: `known` is the profile of the device and `state` the answer of `OnReceived`.
  pub record Receivable (known : DeviceProfile) (state : DeviceState) : Type 0 where
    pub in_time : s.now < o.until
    pub no_order : lookup device s.orders ≡ none
    pub registered : lookup device s.devices ≡ some known
    pub is_ready : known.state ≡ ready
    pub has_room : add_moment s.now known.wcd ≤ o.until
    pub answered : T.on_received device o ≡ some state

  check_order_same : (check_order T o device s).1 ≡ s
  unfolding check_order
  check_order_same = ground arith

  pub check_order_ok :
      (known : DeviceProfile) (state : DeviceState)
      → Receivable known state
      → check_order T o device s ≡ (ok (record known { state = state }), s)
  unfolding check_order
  check_order_ok known state h = ground arith

  check_order-Receivable :
      (dev : DeviceProfile)
      → (check_order T o device s).0 ≡ ok dev
      → (known : DeviceProfile) × Receivable known dev.state
        × (dev ≡ record known { state = dev.state })
  unfolding check_order
  check_order-Receivable dev h = elim (Option-cases (lookup device s.devices)) [
    | inl e ↦ absurd (ground arith)
    | inr (known, e) ↦ elim (Option-cases (T.on_received device o)) [
      | inl k ↦ absurd (ground arith)
      | inr (state, k) ↦ (known, ground arith, ground arith)
    ]
  ]

  -- The reserves end in one of four ways.
  pub data Reserved (dev : DeviceProfile) : Result (Failure Error F) ⊤ × Store L Q P → Type 0 where
    foreign : (o.paraid == T.self_para_id) ≡ false → Reserved dev (ok tt, s)
    refused : (e : Failure Error F) → (o.paraid == T.self_para_id) ≡ true → Reserved dev (err e, s)
    stranded :
        (l₁ : L) (f : F)
        → (o.paraid == T.self_para_id) ≡ true
        → T.currency.can_reserve s.ledger o.client o.fee ≡ true
        → T.currency.reserve s.ledger device dev.penalty ≡ ok l₁
        → T.currency.reserve l₁ o.client o.fee ≡ err f
        → Reserved dev (err (other f), record s { ledger = l₁ })
    local :
        (l₁ l₂ : L)
        → (o.paraid == T.self_para_id) ≡ true
        → T.currency.can_reserve s.ledger o.client o.fee ≡ true
        → T.currency.reserve s.ledger device dev.penalty ≡ ok l₁
        → T.currency.reserve l₁ o.client o.fee ≡ ok l₂
        → Reserved dev (ok tt, record s { ledger = l₂ })

  -- A result that is known by an equation.
  Reserved-of :
      {dev : DeviceProfile} {r r' : Result (Failure Error F) ⊤ × Store L Q P}
      → r ≡ r'
      → Reserved dev r'
      → Reserved dev r
  Reserved-of e h = rw e h

  pub reserve_order-Reserved : (dev : DeviceProfile) → Reserved dev (reserve_order T o device dev s)
  unfolding reserve_order
  reserve_order-Reserved dev = elim (Bool-cases (o.paraid == T.self_para_id)) [
    | inr e ↦ Reserved-of (ground arith) (foreign e)
    | inl e ↦ elim (Bool-cases (T.currency.can_reserve s.ledger o.client o.fee)) [
      | inr k ↦ Reserved-of (ground arith) (refused (module_error device_low_bail) e)
      | inl k ↦ elim (Result-cases (T.currency.reserve s.ledger device dev.penalty)) [
        | inr (f, p) ↦ Reserved-of (ground arith) (refused (other f) e)
        | inl (l₁, p) ↦ elim (Result-cases (T.currency.reserve l₁ o.client o.fee)) [
          | inr (f, q) ↦ Reserved-of (ground arith) (stranded l₁ f e k p q)
          | inl (l₂, q) ↦ Reserved-of (ground arith) (local l₁ l₂ e k p q)
        ]
      ]
    ]
  ]

  -- The storage after an order is booked on the ledger `l`.
  abbrev pub booked : DeviceProfile → DeviceState → L → Store L Q P
  booked known state l = record {
    devices =
        insert device (record known { state = if state_eq state accepted then accepted else state })
          s.devices;
    orders = insert device o s.orders;
    now = s.now;
    ledger = l;
    queues =
        if state_eq state accepted
        then if o.paraid == T.self_para_id
          then s.queues
          else (T.send_xcm s.queues (record { parents = 1; interior = parachain o.paraid })
              (transact (T.encode (XcmpMessage.order_accept o.client device)))).1
        else s.queues;
    events =
        if state_eq state accepted
        then (s.events ++ Event.new_order device ∷ []) ++ Event.accept device ∷ []
        else s.events ++ Event.new_order device ∷ [];
  }

  pub book_order-booked :
      (known : DeviceProfile) (state : DeviceState) (l : L)
      → book_order T o device (record known { state = state }) (record s { ledger = l })
        ≡ (ok tt, booked known state l)
  unfolding book_order
  book_order-booked known state l = ground arith

  -- The storage after `order_received`, and what it returned: an error with the storage unchanged,
  -- an error with the penalty reserved alone, or success with the order booked.
  pub order_received_cases {ℓ} :
      (R : Result (Failure Error F) ⊤ × Store L Q P → Type ℓ)
      → ((e : Failure Error F) → R (err e, s))
      → ((known : DeviceProfile) (state : DeviceState) (l₁ : L) (f : F)
          → Receivable known state
          → (o.paraid == T.self_para_id) ≡ true
          → T.currency.can_reserve s.ledger o.client o.fee ≡ true
          → T.currency.reserve s.ledger device known.penalty ≡ ok l₁
          → T.currency.reserve l₁ o.client o.fee ≡ err f
          → R (err (other f), record s { ledger = l₁ }))
      → ((known : DeviceProfile) (state : DeviceState)
          → Receivable known state
          → (o.paraid == T.self_para_id) ≡ false
          → R (ok tt, booked known state s.ledger))
      → ((known : DeviceProfile) (state : DeviceState) (l₁ l₂ : L)
          → Receivable known state
          → (o.paraid == T.self_para_id) ≡ true
          → T.currency.reserve s.ledger device known.penalty ≡ ok l₁
          → T.currency.reserve l₁ o.client o.fee ≡ ok l₂
          → R (ok tt, booked known state l₂))
      → R (order_received T o device s)
  unfolding order_received
  order_received_cases R same strands foreigner native = checked (check_order T o device s).0 refl
    where
      reserved :
          (known : DeviceProfile) (state : DeviceState)
          → Receivable known state
          → {r : Result (Failure Error F) ⊤ × Store L Q P}
          → Reserved (record known { state = state }) r
          → reserve_order T o device (record known { state = state }) s ≡ r
          → R (order_received T o device s)
      reserved known state c (foreign e) p =
          let after : order_received T o device s ≡ (ok tt, booked known state s.ledger) =
            ground
              (arith, check_order_ok known state c, p, book_order-booked known state s.ledger) in
          rw after (foreigner known state c e)
      reserved known state c (refused e local_order) p =
          let after : order_received T o device s ≡ (err e, s) =
            ground (arith, check_order_ok known state c, p) in
          rw after (same e)
      reserved known state c (stranded l₁ f e k q q') p =
          let after : order_received T o device s ≡ (err (other f), record s { ledger = l₁ }) =
            ground (arith, check_order_ok known state c, p) in
          rw after (strands known state l₁ f c e k q q')
      reserved known state c (local l₁ l₂ e k q q') p =
          let after : order_received T o device s ≡ (ok tt, booked known state l₂) =
            ground (arith, check_order_ok known state c, p, book_order-booked known state l₂) in
          rw after (native known state l₁ l₂ c e q q')

      checked :
          (r : Result (Failure Error F) DeviceProfile)
          → (check_order T o device s).0 ≡ r
          → R (order_received T o device s)
      checked (err e) h =
          let after : order_received T o device s ≡ (err e, s) = ground (arith, check_order_same) in
          rw after (same e)
      checked (ok dev) h =
          let (known, c, e) = check_order-Receivable dev h in
          reserved known dev.state c (reserve_order-Reserved (record known { state = dev.state }))
            refl
