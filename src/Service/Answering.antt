-- ===== src/Service/Answering.antt =====
-- The answers of the service pallet, step by step (pallets/xchange-service/src/lib.rs): what waits
-- for other parachains after a step has waited before, or the step speaks it.
use xcm_auto_bank.Base.{
  ℕ, ⊤, ◌≡◌, refl, ◌⊎◌, inl, inr, true, false, List, sym, ap, ◌∙◌, Option-cases, Bool-cases, arith,
  ◌==◌,
}
use xcm_auto_bank.Base.Action.{Result, ok}
use xcm_auto_bank.Base.Map.{StorageMap, lookup, remove, lookup-remove}
use xcm_auto_bank.Base.Member.{IsIn}
use xcm_auto_bank.Common.{Order, XcmpMessage}
use xcm_auto_bank.Outbox.{Packet, Hands, IsOutbox, Hands-IsIn}
use xcm_auto_bank.Pallet.{Failure}
use xcm_auto_bank.Service.{ServiceConfig, Error, Store, cancel, accept, done, handle_xcmp_messages}
use xcm_auto_bank.Service.Cases.{cancel_cases, accept_cases, decline_cases, done_cases}
use xcm_auto_bank.Service.Closing.{
  Finishes, Declines, Dues, done_foreign, decline_foreign, cancel_foreign,
}
use xcm_auto_bank.Service.Messages.{handle_xcmp_messages_inv}
use xcm_auto_bank.Service.Sending.{
  Is, IsSpoken, IsClosing, Speaks, order_reject_own-queues, order_done_own-queues, order-queues,
  order_received-Hands, order_reject-Hands, order_done-Hands, order_accept-Hands,
  order_reject-none-queues, register-queues, set_state-queues, on_killed_account-queues,
}
use xcm_auto_bank.Service.Steps.{Step}

module _ {L Q F O P : Type 0} (T : ServiceConfig L Q F O P) (pending : Q → List Packet)
    (outbox : IsOutbox T.send_xcm pending) (p : Packet) where
  abbrev Waits : Q → Type 0
  Waits q = IsIn p (pending q)

  -- What the rest of the chain does to the queues adds no such packet.
  abbrev pub AddsNone : {s t : Store L Q P} → Step T s t → Type 0
  AddsNone {s} (Step.elsewhere now ledger queues events later) =
      IsIn p (pending queues) → IsIn p (pending s.queues)
  AddsNone _ = ⊤

  -- A step that hands over one message, and speaks it.
  lone_message :
      {s t : Store L Q P} (st : Step T s t) (q : Q) (o : Order P) (m : XcmpMessage P)
      → Speaks T st m
      → Hands T.send_xcm s.queues (Is T o m) q
      → Waits q
      → Waits s.queues ⊎ IsSpoken T st p
  lone_message st q o m speaks hands i = elim (Hands-IsIn T.send_xcm outbox p hands i) [
    | inl before ↦ inl before
    | inr is ↦ inr (record { para = o.paraid; message = m; is_packet = is; speaks = speaks })
  ]

  -- A call that succeeds and takes out the order of the device.
  closing :
      {t : Store L Q P} {r : Result (Failure Error F) ⊤ × Store L Q P} (id : ℕ) (o : Order P)
      (m : StorageMap (Order P))
      → (o.paraid == T.self_para_id) ≡ false
      → r ≡ (ok tt, t)
      → t.orders ≡ remove id m
      → IsClosing T id o r
  closing id o m foreign is taken = record {
    is_foreign = foreign;
    succeeds = ap (λ r. r.0) is;
    is_gone =
        ap (λ r. lookup id r.1.orders) is
        ∙ ap (lookup id) taken
        ∙ (ground (arith, lookup-remove id id m));
  }

  -- What waits after a step has waited before, or the step speaks it.
  pub Step-IsSpoken :
      {s t : Store L Q P} (st : Step T s t)
      → AddsNone st
      → Waits t.queues
      → Waits s.queues ⊎ IsSpoken T st p
  Step-IsSpoken {s} (Step.orders origin o) adds = rw (order-queues T s origin o) inl
  Step-IsSpoken {s} (Step.cancels origin device) adds =
      let st : Step T s (cancel T origin device s).1 = Step.cancels origin device in
      cancel_cases T (λ r. Waits r.1.queues → Waits s.queues ⊎ IsSpoken T st p) origin device s
        (λ e. inl)
        λ who o dev i k e late own. elim (Bool-cases (o.paraid == T.self_para_id)) [
          | inl local ↦ rw (order_reject_own-queues T s o s.now device dev false local) inl
          | inr foreign ↦
              let h : Dues T s o dev origin device = record {
                signed = i ∙ ap ok (sym own);
                has_order = k;
                registered = e;
                is_due = late;
              } in
              lone_message st _ o (XcmpMessage.order_reject o.client device false)
                (
                  refl,
                  (
                    o,
                    dev,
                    h,
                    closing device o s.orders foreign
                        (cancel_foreign T s o dev origin device h foreign) refl,
                  ),
                )
                (order_reject-Hands T s o s.now device dev false)
        ]
  Step-IsSpoken {s} (Step.accepts origin true onoff) adds =
      let st : Step T s (accept T origin true onoff s).1 = Step.accepts origin true onoff in
      decline_cases T (λ r. Waits r.1.queues → Waits s.queues ⊎ IsSpoken T st p) origin onoff s
        (λ e. inl)
        λ id dev i e serving. elim (Option-cases (lookup id s.orders)) [
          | inl k ↦ rw k (rw (order_reject-none-queues T s s.now id _ onoff) inl)
          | inr (o, k) ↦ elim (Bool-cases (o.paraid == T.self_para_id)) [
            | inl local ↦ rw k (rw (order_reject_own-queues T s o s.now id _ onoff local) inl)
            | inr foreign ↦
                let h : Declines T s o dev origin id = record {
                  signed = i;
                  has_order = k;
                  registered = e;
                  is_serving = serving;
                } in
                rw k (
                  lone_message st _ o (XcmpMessage.order_reject o.client id onoff)
                    (
                      o,
                      dev,
                      h,
                      closing id o s.orders foreign
                          (decline_foreign T s o dev origin id onoff h foreign) refl,
                    )
                    (order_reject-Hands T s o s.now id _ onoff))
          ]
        ]
  Step-IsSpoken {s} (Step.accepts origin false onoff) adds =
      let st : Step T s (accept T origin false onoff s).1 = Step.accepts origin false onoff in
      accept_cases T (λ r. Waits r.1.queues → Waits s.queues ⊎ IsSpoken T st p) origin onoff s
        (λ e. inl)
        λ id o dev _ _ _ _ _.
          lone_message st _ o (XcmpMessage.order_accept o.client id) tt
            (order_accept-Hands T s o id dev)
  Step-IsSpoken {s} (Step.completes origin onoff) adds =
      let st : Step T s (done T origin onoff s).1 = Step.completes origin onoff in
      done_cases T (λ r. Waits r.1.queues → Waits s.queues ⊎ IsSpoken T st p) origin onoff s
        (λ e. inl)
        λ id o dev i k e accepts.
          let u = record s { orders = remove id s.orders } in
          elim (Bool-cases (o.paraid == T.self_para_id)) [
            | inl local ↦ rw (order_done_own-queues T u o s.now id dev onoff local) inl
            | inr foreign ↦
                let h : Finishes T s o dev origin id = record {
                  signed = i;
                  has_order = k;
                  registered = e;
                  is_accepted = accepts;
                } in
                lone_message st _ o (XcmpMessage.order_done o.client id onoff)
                  (
                    o,
                    dev,
                    h,
                    closing id o s.orders foreign (done_foreign T s o dev origin id onoff h foreign)
                        refl,
                  )
                  (order_done-Hands T u o s.now id dev onoff)
          ]
  Step-IsSpoken {s} (Step.registers origin penalty wcd onoff) adds =
      rw (register-queues T s origin penalty wcd onoff) inl
  Step-IsSpoken {s} (Step.switches origin onoff) adds = rw (set_state-queues T s origin onoff) inl
  Step-IsSpoken {s} (Step.receives batch max_weight) adds =
      let st : Step T s (handle_xcmp_messages T batch max_weight s).1 =
        Step.receives batch max_weight in
      handle_xcmp_messages_inv T (λ u. Waits u.queues → Waits s.queues ⊎ IsSpoken T st p)
        (λ o device u h i.
          elim (Hands-IsIn T.send_xcm outbox p (order_received-Hands T u o device) i) [
            | inl before ↦ h before
            | inr is ↦ inr (record {
              para = o.paraid;
              message = XcmpMessage.order_accept o.client device;
              is_packet = is;
              speaks = tt;
            })
          ])
        batch max_weight s inl
  Step-IsSpoken {s} (Step.reaps who) adds = λ i. inl (rw (← on_killed_account-queues T s who) i)
  Step-IsSpoken (Step.elsewhere now ledger queues events later) adds = λ i. inl (adds i)
