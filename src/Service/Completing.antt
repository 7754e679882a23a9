-- ===== src/Service/Completing.antt =====
-- Exactly when a device completes its order, what happens then, and what happens when it fails
-- (pallets/xchange-service/src/lib.rs, `done`).
use xcm_auto_bank.Base.{
  ℕ, ◌≤◌, ◌≡◌, refl, sym, ap, ◌∙◌, ◌⊎◌, inl, inr, ◌↔◌, Bool, true, false, arith, ltb, ◌==◌,
  Bool-cases,
}
use xcm_auto_bank.Base.Action.{ok, err, Result-cases}
use xcm_auto_bank.Base.Map.{insert, remove}
use xcm_auto_bank.Common.{Order, XcmpMessage}
use xcm_auto_bank.Money.{PenaltyMoves}
use xcm_auto_bank.Pallet.{Failure, other}
use xcm_auto_bank.Service.{ServiceConfig, DeviceProfile, Error, Event, Store, order_done, done}
use xcm_auto_bank.Service.Cases.{done_cases}
use xcm_auto_bank.Service.Closing.{
  Finishes, finished, switched, answered, done_foreign, done_local_moves,
}

module _ {L Q F O P : Type 0} (T : ServiceConfig L Q F O P) (origin : O) (onoff : Bool)
    (s t : Store L Q P) where
  done_ok-Finishes :
      (done T origin onoff s).0 ≡ ok tt
      → (id : ℕ) × (o : Order P) × (dev : DeviceProfile) × Finishes T s o dev origin id
  done_ok-Finishes =
      done_cases T
        (λ r.
          r.0 ≡ ok tt
          → (id : ℕ) × (o : Order P) × (dev : DeviceProfile) × Finishes T s o dev origin id)
        origin onoff s (λ e h. cc)
        λ id o dev i k e a h.
          (id, o, dev, record { signed = i; has_order = k; registered = e; is_accepted = a })

  module _ (id : ℕ) (o : Order P) (dev : DeviceProfile) where
    -- The order is of another parachain, which is answered.
    abbrev pub EndsThere : Type 0
    EndsThere =
        ((o.paraid == T.self_para_id) ≡ false)
        × (t
            ≡ finished T s o dev id (switched T s o dev onoff) s.ledger
                (answered T s o dev (XcmpMessage.order_done o.client id onoff)) (Event.done id))

    -- Or of this one, and both transfers can be made.
    abbrev pub EndsHere : Type 0
    EndsHere =
        (l₁ : L) × (l₂ : L) × ((o.paraid == T.self_para_id) ≡ true)
        × (T.currency.repatriate_reserved s.ledger o.client id o.fee ≡ ok l₁)
        × PenaltyMoves T.currency s.now o.until id o.client dev.penalty l₁ l₂
        × (t ≡ finished T s o dev id (switched T s o dev onoff) l₂ s.queues (Event.done id))

    done_local :
        (l₁ l₂ : L)
        → Finishes T s o dev origin id
        → (o.paraid == T.self_para_id) ≡ true
        → T.currency.repatriate_reserved s.ledger o.client id o.fee ≡ ok l₁
        → PenaltyMoves T.currency s.now o.until id o.client dev.penalty l₁ l₂
        → done T origin onoff s
          ≡ (ok tt, finished T s o dev id (switched T s o dev onoff) l₂ s.queues (Event.done id))
    unfolding done order_done
    done_local l₁ l₂ f own paid (inl m) = ground arith
    done_local l₁ l₂ f own paid (inr m) = ground arith

    done_ok-ends :
        Finishes T s o dev origin id → done T origin onoff s ≡ (ok tt, t) → EndsThere ⊎ EndsHere
    done_ok-ends f h = elim (Bool-cases (o.paraid == T.self_para_id)) [
      | inr foreign ↦
          inl (foreign, ap (λ r. r.1) (sym h ∙ done_foreign T s o dev origin id onoff f foreign))
      | inl own ↦
          let (l₁, l₂, paid, moves, e) =
            done_local_moves T s o dev origin id onoff f own (ap (λ r. r.0) h) in
          inr (l₁, l₂, own, paid, moves, sym (ap (λ r. r.1) h) ∙ e)
    ]

    ends-done :
        Finishes T s o dev origin id → EndsThere ⊎ EndsHere → done T origin onoff s ≡ (ok tt, t)
    ends-done f (inl (foreign, e)) = rw e (done_foreign T s o dev origin id onoff f foreign)
    ends-done f (inr (l₁, l₂, own, paid, moves, e)) = rw e (done_local l₁ l₂ f own paid moves)

  -- `done` succeeds exactly for the signature of a registered device that has accepted an order
  -- which it has, and either the order is of another parachain, or of this one and both transfers
  -- can be made. Then the order is gone, the device is ready or off as it asked, and one event is
  -- deposited; for another parachain no money moves and it is answered by `OrderDone`, and for this
  -- one nothing is sent, the fee has gone from the client's reserve to the device, and the penalty
  -- back to the device, or from the deadline on to the client.
  pub done_ok_iff : (done T origin onoff s ≡ (ok tt, t)) ↔ (
      (id : ℕ) × (o : Order P) × (dev : DeviceProfile) × Finishes T s o dev origin id
      × (EndsThere id o dev ⊎ EndsHere id o dev))
  done_ok_iff = (
    λ h.
        let (id, o, dev, f) = done_ok-Finishes (ap (λ r. r.0) h) in
        (id, o, dev, f, done_ok-ends id o dev f h),
    λ (id, o, dev, f, ends). ends-done id o dev f ends,
  )

module _ {L Q F O P : Type 0} (T : ServiceConfig L Q F O P) (origin : O) (onoff : Bool)
    (s : Store L Q P) where
  -- A transfer of an order of this parachain fails: of the fee, with the balances as before, or of
  -- the penalty, from the deadline on and with the fee moved.
  pub record IsUnpaid (f : F) : Type 0 where
    pub id : ℕ
    pub o : Order P
    pub dev : DeviceProfile
    pub ledger : L
    pub finishes : Finishes T s o dev origin id
    pub is_local : (o.paraid == T.self_para_id) ≡ true
    pub unpaid :
        ((T.currency.repatriate_reserved s.ledger o.client id o.fee ≡ err f) × (ledger ≡ s.ledger))
        ⊎ ((T.currency.repatriate_reserved s.ledger o.client id o.fee ≡ ok ledger)
            × (o.until ≤ s.now)
            × (T.currency.repatriate_reserved ledger id o.client dev.penalty ≡ err f))
    pub after : (done T origin onoff s).1 ≡ record s {
      devices = insert id (switched T s o dev onoff) s.devices;
      orders = remove id s.orders;
      ledger = ledger;
    }

  module _ (id : ℕ) (o : Order P) (dev : DeviceProfile) (f : F)
      (finishes : Finishes T s o dev origin id) where
    fee-IsUnpaid :
        (o.paraid == T.self_para_id) ≡ true
        → T.currency.repatriate_reserved s.ledger o.client id o.fee ≡ err f
        → ((done T origin onoff s).0 ≡ err (other f)) × IsUnpaid f
    unfolding done order_done
    fee-IsUnpaid own r = (
      ground arith,
      record {
        id = id;
        o = o;
        dev = dev;
        ledger = s.ledger;
        finishes = finishes;
        is_local = own;
        unpaid = inl (r, refl);
        after = ground arith;
      },
    )

    penalty-IsUnpaid :
        (l : L)
        → (o.paraid == T.self_para_id) ≡ true
        → T.currency.repatriate_reserved s.ledger o.client id o.fee ≡ ok l
        → ltb s.now o.until ≡ false
        → T.currency.repatriate_reserved l id o.client dev.penalty ≡ err f
        → ((done T origin onoff s).0 ≡ err (other f)) × IsUnpaid f
    unfolding done order_done
    penalty-IsUnpaid l own r late r' = (
      ground arith,
      record {
        id = id;
        o = o;
        dev = dev;
        ledger = l;
        finishes = finishes;
        is_local = own;
        unpaid = inr (r, ground arith, r');
        after = ground arith;
      },
    )

  finishing_failed :
      (id : ℕ) (o : Order P) (dev : DeviceProfile) (e : Failure Error F)
      → Finishes T s o dev origin id
      → (done T origin onoff s).0 ≡ err e
      → (f : F) × (e ≡ other f) × IsUnpaid f
  finishing_failed id o dev e finishes h = elim (Bool-cases (o.paraid == T.self_para_id)) [
    | inr foreign ↦
        absurd (let is = done_foreign T s o dev origin id onoff finishes foreign in ground arith)
    | inl own ↦ elim (Result-cases (T.currency.repatriate_reserved s.ledger o.client id o.fee)) [
      | inr (f, r) ↦ named f (fee-IsUnpaid id o dev f finishes own r)
      | inl (l, r) ↦ elim (Bool-cases (ltb s.now o.until)) [
        | inl early ↦ absurd (
            let is =
              done_local T origin onoff s s id o dev l (T.currency.unreserve l id dev.penalty)
                finishes own r (inl (ground arith, refl)) in
            ground arith)
        | inr late ↦
            elim (Result-cases (T.currency.repatriate_reserved l id o.client dev.penalty)) [
              | inr (f, r') ↦ named f (penalty-IsUnpaid id o dev f finishes l own r late r')
              | inl (l', r') ↦ absurd (
                  let is =
                    done_local T origin onoff s s id o dev l l' finishes own r
                      (inr (ground arith, r')) in
                  ground arith)
            ]
      ]
    ]
  ]
    where
      named :
          (f : F)
          → ((done T origin onoff s).0 ≡ err (other f)) × IsUnpaid f
          → (f : F) × (e ≡ other f) × IsUnpaid f
      named f (is, unpaid) = (f, cc, unpaid)

  -- A `done` that fails, whatever the error, has changed nothing, or the error is the currency's:
  -- an accepted order of this parachain is over, but the transfer of the fee or, from the deadline
  -- on, of the penalty failed. Then the order is gone all the same and the device is ready or off
  -- as it asked; the fee has been moved or not, and nothing else has changed.
  pub done_failed :
      (e : Failure Error F)
      → (done T origin onoff s).0 ≡ err e
      → ((done T origin onoff s).1 ≡ s) ⊎ ((f : F) × (e ≡ other f) × IsUnpaid f)
  done_failed e h =
      done_cases T
        (λ r. done T origin onoff s ≡ r → (r.1 ≡ s) ⊎ ((f : F) × (e ≡ other f) × IsUnpaid f)) origin
        onoff s (λ _ _. inl refl)
        (λ id o dev i k r a _. inr (
          finishing_failed id o dev e
            (record { signed = i; has_order = k; registered = r; is_accepted = a }) h))
        refl
