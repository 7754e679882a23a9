-- ===== src/Service/Closing.antt =====
-- How an order ends: `done`, and what both kinds of order do to the money and to the other
-- parachain (pallets/xchange-service/src/lib.rs, `done`, `cancel`, `accept`, `order_done` and
-- `order_reject`).
use xcm_auto_bank.Base.{
  ℕ, ◌+◌, ◌≤◌, ◌≡◌, refl, inl, inr, Bool, true, false, some, [], ◌∷◌, ◌++◌, arith, ltb, ◌==◌,
  if◌then◌else◌, Bool-cases,
}
use xcm_auto_bank.Base.Action.{ok, Result-cases}
use xcm_auto_bank.Base.Map.{lookup, insert, remove}
use xcm_auto_bank.Common.{off, ready, accepted, Order, XcmpMessage}
use xcm_auto_bank.Frame.{IsReservable, parachain}
use xcm_auto_bank.Money.{PenaltyMoves, Pays, fee_then_penalty}
use xcm_auto_bank.Pallet.{transact}
use xcm_auto_bank.Service.{
  ServiceConfig, DeviceProfile, Event, Store, order_done, done, accept, cancel, order_reject,
}
use xcm_auto_bank.Service.Invariant.{IsServing}

module _ {L Q F O P : Type 0} (T : ServiceConfig L Q F O P) (s : Store L Q P) (o : Order P)
    (dev : DeviceProfile) where
  abbrev pub switched : Bool → DeviceProfile
  switched onoff = record dev { state = if onoff then ready else off }

  -- The guards of `done` for the device `id`.
  pub record Finishes (origin : O) (id : ℕ) : Type 0 where
    pub signed : T.ensure_signed origin ≡ ok id
    pub has_order : lookup id s.orders ≡ some o
    pub registered : lookup id s.devices ≡ some dev
    pub is_accepted : dev.state ≡ accepted

  -- The storage once the order of the device `id` is over.
  abbrev pub finished : ℕ → DeviceProfile → L → Q → Event → Store L Q P
  finished id dev' l q e = record s {
    devices = insert id dev' s.devices;
    orders = remove id s.orders;
    ledger = l;
    queues = q;
    events = s.events ++ e ∷ [];
  }

  -- `send_xcm` of an answer to the parachain of the order.
  abbrev pub answered : XcmpMessage P → Q
  answered m =
      (T.send_xcm s.queues (record { parents = 1; interior = parachain o.paraid })
        (transact (T.encode m))).1

  module _ (origin : O) (id : ℕ) (onoff : Bool) (h : Finishes origin id) where
    -- For an accepted order of another parachain `done` succeeds without any move of money here:
    -- the order is gone, the device is ready or off as it asked, and `OrderDone` is handed to the
    -- router for the parachain that the order came from.
    pub done_foreign :
        (o.paraid == T.self_para_id) ≡ false
        → done T origin onoff s ≡ (
          ok tt,
          finished id
              (switched onoff)
              s.ledger
              (answered (XcmpMessage.order_done o.client id onoff))
              (Event.done id),
        )
    unfolding done order_done
    done_foreign e = ground arith

    pub done_local_moves :
        (o.paraid == T.self_para_id) ≡ true
        → (done T origin onoff s).0 ≡ ok tt
        → (l₁ : L) × (l₂ : L) × (T.currency.repatriate_reserved s.ledger o.client id o.fee ≡ ok l₁)
          × PenaltyMoves T.currency s.now o.until id o.client dev.penalty l₁ l₂
          × ((done T origin onoff s).1 ≡ finished id (switched onoff) l₂ s.queues (Event.done id))
    unfolding done order_done
    done_local_moves e ends =
        elim (Result-cases (T.currency.repatriate_reserved s.ledger o.client id o.fee)) [
          | inr (f, r) ↦ absurd (ground arith)
          | inl (l₁, r) ↦ elim (Bool-cases (ltb s.now o.until)) [
            | inl early ↦ (
              l₁,
              T.currency.unreserve l₁ id dev.penalty,
              r,
              inl (ground arith, refl),
              ground arith,
            )
            | inr late ↦
                elim (Result-cases (T.currency.repatriate_reserved l₁ id o.client dev.penalty)) [
                  | inr (f, r₂) ↦ absurd (ground arith)
                  | inl (l₂, r₂) ↦ (l₁, l₂, r, inr (ground arith, r₂), ground arith)
                ]
          ]
        ]

    -- If the currency does as documented, and if both reserves are in place and the client is not
    -- the device, a `done` that returns `Ok` for an accepted order of this parachain pays the
    -- device the whole fee; the device gets its penalty back before the deadline, and from then on
    -- the client gets it. The order is gone, and the device is ready or off as it asked.
    pub done-Pays :
        IsReservable T.currency
        → (o.paraid == T.self_para_id) ≡ true
        → (o.client == id) ≡ false
        → o.fee ≤ T.currency.reserved_balance s.ledger o.client
        → dev.penalty ≤ T.currency.reserved_balance s.ledger id
        → (done T origin onoff s).0 ≡ ok tt
        → let t = (done T origin onoff s).1 in
          Pays T.currency s.ledger t.ledger o.client id o.fee dev.penalty
            (if ltb s.now o.until then 0 else dev.penalty)
            (o.fee + (if ltb s.now o.until then dev.penalty else 0))
          × (t.orders ≡ remove id s.orders)
          × (t.devices ≡ insert id (switched onoff) s.devices)
    done-Pays laws e others has_fee has_penalty ends =
        let (l₁, l₂, paid, moves, after) = done_local_moves e ends in
        rw after (
          fee_then_penalty T.currency laws s.now o.until o.client id o.fee dev.penalty s.ledger l₁
              l₂ others has_fee has_penalty moves paid,
          refl,
          refl,
        )

  -- The guards of `accept` with a rejection, for an order of the device `id`.
  pub record Declines (origin : O) (id : ℕ) : Type 0 where
    pub signed : T.ensure_signed origin ≡ ok id
    pub has_order : lookup id s.orders ≡ some o
    pub registered : lookup id s.devices ≡ some dev
    pub is_serving : IsServing dev.state

  -- A device that declines an order of another parachain answers with `OrderReject`.
  pub decline_foreign :
      (origin : O) (id : ℕ) (onoff : Bool)
      → Declines origin id
      → (o.paraid == T.self_para_id) ≡ false
      → accept T origin true onoff s ≡ (
        ok tt,
        finished id
            (switched onoff)
            s.ledger
            (answered (XcmpMessage.order_reject o.client id onoff))
            (Event.reject id),
      )
  unfolding accept order_reject
  decline_foreign origin id onoff h e = ground (arith, h.is_serving)

  -- The guards of `cancel` for the order of the device `id`.
  pub record Dues (origin : O) (id : ℕ) : Type 0 where
    pub signed : T.ensure_signed origin ≡ ok o.client
    pub has_order : lookup id s.orders ≡ some o
    pub registered : lookup id s.devices ≡ some dev
    pub is_due : o.until ≤ s.now

  -- A client that cancels an overdue order of another parachain has `OrderReject` sent there.
  pub cancel_foreign :
      (origin : O) (id : ℕ)
      → Dues origin id
      → (o.paraid == T.self_para_id) ≡ false
      → cancel T origin id s ≡ (
        ok tt,
        finished id dev s.ledger
            (answered (XcmpMessage.order_reject o.client id false))
            (Event.reject id),
      )
  unfolding cancel order_reject
  cancel_foreign origin id h e = ground (arith, h.is_due)
