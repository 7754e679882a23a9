-- ===== src/Service/Escrow.antt =====
-- The reserves that the open orders of this parachain's clients rest on
-- (pallets/xchange-service/src/lib.rs). An order of another parachain reserves nothing here.
use xcm_auto_bank.Base.{
  ℕ, ◌+◌, ◌≤◌, ◌≡◌, Bool, some, arith, ◌==◌, if◌then◌else◌, Option-cases, inl, inr,
}
use xcm_auto_bank.Base.Map.{lookup, insert, lookup-insert}
use xcm_auto_bank.Common.{DeviceState, Order, state_eq, accepted}
use xcm_auto_bank.Frame.{IsReservable}
use xcm_auto_bank.Owed
use xcm_auto_bank.Owed.{
  owed-booked, owed-closed, owed-insert_free, owed-insert_same, owed-remove_free,
}
use xcm_auto_bank.Service.{
  ServiceConfig, DeviceProfile, Store, order_received, order_accept, register, set_state,
  on_killed_account,
}
use xcm_auto_bank.Service.Invariant.{IsWf}
use xcm_auto_bank.Service.Receiving.{Receivable, order_received_cases}

abbrev pub penalty : DeviceProfile → ℕ
penalty dev = dev.penalty

-- The profile with the answer of `OnReceived`.
abbrev written : DeviceProfile → DeviceState → DeviceProfile
written known state = record known { state = if state_eq state accepted then accepted else state }

module _ {L Q F O P : Type 0} (T : ServiceConfig L Q F O P) where
  -- The order is one of this parachain.
  abbrev pub is_local : Order P → Bool
  is_local o = o.paraid == T.self_para_id

  abbrev pub owed : Store L Q P → ℕ → ℕ
  owed s = Owed.owed penalty is_local s.devices s.orders

  -- Every account has reserved the fees of the local orders that it placed and the penalty of the
  -- local order that it serves.
  abbrev pub IsCovered : Store L Q P → Type 0
  IsCovered s = (a : ℕ) → owed s a ≤ T.currency.reserved_balance s.ledger a

  -- Beside those orders, each account has `extra` in reserve for others.
  abbrev pub IsBacked : (ℕ → ℕ) → Store L Q P → Type 0
  IsBacked extra s = (a : ℕ) → owed s a + extra a ≤ T.currency.reserved_balance s.ledger a

  module _ (extra : ℕ → ℕ) (laws : IsReservable T.currency) (s : Store L Q P) (w : IsWf s) where
    pub order_received-IsBacked :
        (o : Order P) (device : ℕ)
        → IsBacked extra s
        → IsBacked extra (order_received T o device s).1
    order_received-IsBacked o device c =
        order_received_cases T o device s (λ r. IsBacked extra r.1) (λ e. c)
          (λ known state l₁ f r e k p q a.
            ground (arith, c a, laws.reserve_reserved s.ledger l₁ device known.penalty a p))
          (λ known state r e a. ground (arith, c a, books known state r a))
          (λ known state l₁ l₂ r e p q a. ground (
            arith,
            c a,
            books known state r a,
            laws.reserve_reserved s.ledger l₁ device known.penalty a p,
            laws.reserve_reserved l₁ l₂ o.client o.fee a q,
            lookup-insert device device (written known state) s.devices,
          ))
      where
        books :
            (known : DeviceProfile) (state : DeviceState)
            → Receivable T o device s known state
            → (a : ℕ)
            → Owed.owed penalty is_local
                (insert device (written known state) s.devices)
                (insert device o s.orders)
                a
              ≡ owed s a
                + Owed.share penalty is_local
                    (insert device (written known state) s.devices)
                    a
                    device
                    o
        books known state r a =
            owed-booked penalty is_local s.devices s.orders a device w.orders_map
              (written known state) o r.no_order

    pub order_accept-IsBacked :
        (o : Order P) (id : ℕ) (dev : DeviceProfile)
        → lookup id s.devices ≡ some dev
        → IsBacked extra s
        → IsBacked extra (order_accept T o id dev s).1
    unfolding order_accept
    order_accept-IsBacked o id dev e c a = ground (
      arith,
      c a,
      owed-insert_same penalty is_local s.devices s.orders a id w.orders_map
          (record dev { state = accepted }),
    )

    pub register-IsBacked :
        (origin : O) (fine wcd : ℕ) (onoff : Bool)
        → IsBacked extra s
        → IsBacked extra (register T origin fine wcd onoff s).1
    unfolding register
    register-IsBacked origin fine wcd onoff c a =
        grind (arith, c a, owed-insert_free penalty is_local s.devices s.orders a _ w.orders_map)

    pub set_state-IsBacked :
        (origin : O) (onoff : Bool)
        → IsBacked extra s
        → IsBacked extra (set_state T origin onoff s).1
    unfolding set_state
    set_state-IsBacked origin onoff c a =
        grind (arith, c a, owed-insert_same penalty is_local s.devices s.orders a _ w.orders_map)

    pub on_killed_account-IsBacked :
        (who : ℕ) → IsBacked extra s → IsBacked extra (on_killed_account T who s)
    unfolding on_killed_account
    on_killed_account-IsBacked who c a = elim (Option-cases (lookup who s.orders)) [
      | inl k ↦
          ground
            (arith, c a, owed-remove_free penalty is_local s.devices s.orders a who w.orders_map k)
      | inr (o, k) ↦ ground (arith, c a, w.held who)
    ]
