-- ===== src/Xchange/Escrow.antt =====
-- The reserves that the open orders rest on: every account has reserved at least the fees of the
-- orders that it placed and the penalty of the order that it serves
-- (pallets/xchange/src/lib.rs).
use xcm_auto_bank.Base.{
  ℕ, true, ◌+◌, ◌-◌, ◌≤◌, ◌≡◌, refl, sym, Bool, none, some, arith, ◌==◌, if◌then◌else◌,
  Option-cases, inl, inr, ◌⊎◌,
}
use xcm_auto_bank.Base.Action.{ok}
use xcm_auto_bank.Base.Map.{StorageMap, lookup, insert, remove, IsMap, lookup-insert, total}
use xcm_auto_bank.Common.{DeviceState, Order, OrderBase, convert_base, busy, timewait}
use xcm_auto_bank.Frame.{Config, IsReservable}
use xcm_auto_bank.Money.{PenaltyMoves-reserved}
use xcm_auto_bank.Owed
use xcm_auto_bank.Owed.{
  owed-booked, owed-closed, owed-insert_free, owed-insert_same, owed-remove_free,
}
use xcm_auto_bank.Xchange.{
  DeviceProfile, Store, order, order_reject, cancel, register, on_reject, on_done,
  on_killed_account,
}
use xcm_auto_bank.Xchange.Cases.{cancel_cases, on_reject_cases}
use xcm_auto_bank.Xchange.Invariant.{IsWf}
use xcm_auto_bank.Xchange.Settlement.{order_reject-closed, on_done-closed, on_done_ok-Done}
use xcm_auto_bank.Xchange.Refusing.{order_cases}

-- What the order `o` on the device `d` obliges the account `a` to.
abbrev pub share : {P : Type 0} → StorageMap DeviceProfile → ℕ → ℕ → Order P → ℕ
share = Owed.share (λ dev. dev.penalty) (λ _. true)

abbrev pub owed : {L Q P : Type 0} → Store L Q P → ℕ → ℕ
owed s a = Owed.owed (λ dev. dev.penalty) (λ _. true) s.devices s.orders a

module _ {L Q F O P : Type 0} (T : Config L Q F O P) where
  abbrev pub IsCovered : Store L Q P → Type 0
  IsCovered s = (a : ℕ) → owed s a ≤ T.currency.reserved_balance s.ledger a

  -- Beside the open orders, each account has `extra` in reserve for others.
  abbrev pub IsBacked : (ℕ → ℕ) → Store L Q P → Type 0
  IsBacked extra s = (a : ℕ) → owed s a + extra a ≤ T.currency.reserved_balance s.ledger a

module _ {L Q F O P : Type 0} (T : Config L Q F O P) (extra : ℕ → ℕ)
    (laws : IsReservable T.currency) (s : Store L Q P) (w : IsWf s) where
  -- A booked order obliges no account to more than was reserved for it.
  booked_covers :
      (devices : StorageMap DeviceProfile) (orders : StorageMap (Order P)) (l l₁ l₂ : L)
      (d who a : ℕ) (dev dev' : DeviceProfile) (o : Order P)
      → IsMap orders
      → lookup d orders ≡ none
      → lookup d devices ≡ some dev
      → dev'.penalty ≡ dev.penalty
      → o.client ≡ who
      → T.currency.reserve l d dev.penalty ≡ ok l₁
      → T.currency.reserve l₁ who o.fee ≡ ok l₂
      → total (share devices a) orders + extra a ≤ T.currency.reserved_balance l a
      → total (share (insert d dev' devices) a) (insert d o orders) + extra a
        ≤ T.currency.reserved_balance l₂ a
  booked_covers devices orders l l₁ l₂ d who a dev dev' o m e k same_penalty client r₁ r₂ c =
      ground (
        arith,
        owed-booked (λ dev. dev.penalty) (λ _. true) devices orders a d m dev' o e,
        lookup-insert d d dev' devices,
        laws.reserve_reserved l l₁ d dev.penalty a r₁,
        laws.reserve_reserved l₁ l₂ who o.fee a r₂,
      )

  pub order-IsBacked :
      (origin : O) (o : OrderBase P) → IsBacked T extra s → IsBacked T extra (order T origin o s).1
  unfolding convert_base
  order-IsBacked origin o c =
      order_cases T origin o s (IsBacked T extra) c
        (λ dev l₁ k a.
          ground (arith, c a, laws.reserve_reserved s.ledger l₁ o.device dev.penalty a k))
        λ who dev l₁ l₂ k a.
          booked_covers s.devices s.orders s.ledger l₁ l₂ o.device who a dev _ _ w.orders_map
            k.no_order k.registered refl refl k.pledged k.paid (c a)

  pub register-IsBacked :
      (origin : O) (paraid penalty wcd : ℕ) (onoff : Bool)
      → IsBacked T extra s
      → IsBacked T extra (register T origin paraid penalty wcd onoff s).1
  unfolding register
  register-IsBacked origin paraid penalty wcd onoff c a = grind (
    arith,
    c a,
    owed-insert_free (λ dev. dev.penalty) (λ _. true) s.devices s.orders a _ w.orders_map,
  )

  pub on_killed_account-IsBacked :
      (who : ℕ) → IsBacked T extra s → IsBacked T extra (on_killed_account T who s)
  unfolding on_killed_account
  on_killed_account-IsBacked who c a = elim (Option-cases (lookup who s.devices)) [
    | inl e ↦ ground (arith, c a)
    | inr (dev, e) ↦ elim (Option-cases (lookup who s.orders)) [
      | inl k ↦ ground (
        arith,
        c a,
        owed-remove_free (λ dev. dev.penalty) (λ _. true) s.devices s.orders a who w.orders_map k,
        owed-insert_free (λ dev. dev.penalty) (λ _. true) s.devices s.orders a who w.orders_map
            (record dev { state = timewait }) k,
      )
      | inr (o, k) ↦
          let h : (dev.state ≡ busy) ⊎ (dev.state ≡ timewait) = rw (k, e) at (w.held who) in
          ground (
            arith,
            c a,
            owed-insert_same (λ dev. dev.penalty) (λ _. true) s.devices s.orders a who w.orders_map
                (record dev { state = timewait }),
          )
    ]
  ]

  -- A closed order takes no more from a reserve than it obliged the account to.
  closed_covers :
      (l₁ l₂ : L) (device a : ℕ) (dev dev' : DeviceProfile) (o : Order P)
      → lookup device s.orders ≡ some o
      → lookup device s.devices ≡ some dev
      → T.currency.reserved_balance l₁ a ≡ (
          if o.client == a
          then T.currency.reserved_balance s.ledger a - o.fee
          else T.currency.reserved_balance s.ledger a)
      → T.currency.reserved_balance l₂ a ≡ (
          if device == a
          then T.currency.reserved_balance l₁ a - dev.penalty
          else T.currency.reserved_balance l₁ a)
      → owed s a + extra a ≤ T.currency.reserved_balance s.ledger a
      → total (share (insert device dev' s.devices) a) (remove device s.orders) + extra a
        ≤ T.currency.reserved_balance l₂ a
  closed_covers l₁ l₂ device a dev dev' o k e r₁ r₂ c = ground (
    arith,
    owed-closed (λ dev. dev.penalty) (λ _. true) s.devices s.orders a device w.orders_map dev' o k,
  )

  order_reject-IsBacked :
      (o : Order P) (now device : ℕ) (dev : DeviceProfile) (state : DeviceState)
      → lookup device s.orders ≡ some o
      → lookup device s.devices ≡ some dev
      → (order_reject T o.client o now device (record dev { state = state }) s).0 ≡ ok tt
      → IsBacked T extra s
      → IsBacked T extra (order_reject T o.client o now device (record dev { state = state }) s).1
  order_reject-IsBacked o now device dev state k e ends c a =
      let (l, moves, after) =
        order_reject-closed T s o.client o now device (record dev { state = state }) ends in
      rw after (
        closed_covers _ l device a dev _ o k e (laws.unreserve_reserved s.ledger o.client o.fee a)
          (PenaltyMoves-reserved T.currency laws now o.until device o.client dev.penalty _ l moves
            a)
          (c a))

  -- The client of the order on a device, if there is one, is `who`.
  abbrev pub IsClient : ℕ → ℕ → Type 0
  IsClient device who = (o : Order P) → lookup device s.orders ≡ some o → o.client ≡ who

  pub on_done-IsBacked :
      (who device : ℕ) (onoff : Bool)
      → IsClient device who
      → (on_done T who device onoff s).0 ≡ ok tt
      → IsBacked T extra s
      → IsBacked T extra (on_done T who device onoff s).1
  on_done-IsBacked who device onoff client ends c a =
      let (o, dev, l₁, l₂, d) = on_done_ok-Done T s who device onoff ends in
      let owner : o.client ≡ who = client o d.has_order in
      rw (on_done-closed T s who device onoff o dev l₁ l₂ d) (
        closed_covers l₁ l₂ device a dev _ o d.has_order d.registered
          (rw owner (laws.repatriate_reserved_reserved s.ledger l₁ who device o.fee a d.fee_paid))
          (PenaltyMoves-reserved T.currency laws s.now o.until device who dev.penalty l₁ l₂
            d.penalty_moved a)
          (c a))

  pub on_reject-IsBacked :
      (who device : ℕ) (onoff : Bool)
      → IsClient device who
      → (on_reject T who device onoff s).0 ≡ ok tt
      → IsBacked T extra s
      → IsBacked T extra (on_reject T who device onoff s).1
  on_reject-IsBacked who device onoff client =
      on_reject_cases T (λ r. r.0 ≡ ok tt → IsBacked T extra s → IsBacked T extra r.1) who device
        onoff s (λ e h. cc)
        λ o dev k e. rw (sym (client o k)) (order_reject-IsBacked o s.now device dev _ k e)

  -- A `cancel` that returns `Ok` leaves every account with enough in reserve for the other orders.
  pub cancel-IsBacked :
      (origin : O) (device : ℕ)
      → (cancel T origin device s).0 ≡ ok tt
      → IsBacked T extra s
      → IsBacked T extra (cancel T origin device s).1
  cancel-IsBacked origin device =
      cancel_cases T (λ r. r.0 ≡ ok tt → IsBacked T extra s → IsBacked T extra r.1) origin device s
        (λ e h. cc)
        λ who o dev signed k e late owner.
          rw (← owner) (order_reject-IsBacked o s.now device dev dev.state k e)
