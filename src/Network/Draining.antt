-- ===== src/Network/Draining.antt =====
-- What waits between the two parachains can be delivered to the end
-- (`handle_xcmp_messages` in pallets/xchange/src/lib.rs and pallets/xchange-service/src/lib.rs).
use xcm_auto_bank.Base.{ℕ, zero, suc, ◌+◌, ◌≤◌, ◌≡◌, ◌⊎◌, inl, inr, List, arith}
use xcm_auto_bank.Base.Member.{IsIn}
use xcm_auto_bank.Frame.{Config}
use xcm_auto_bank.Network.Protocol.{Chains}
use xcm_auto_bank.Network.Relay.{Delivery, Deliveries, traffic, Delivery-traffic, traffic_dies_out}
use xcm_auto_bank.Network.Taking.{take_out}
use xcm_auto_bank.Outbox.{Packet, to_sibling, IsOutbox}
use xcm_auto_bank.Service.{ServiceConfig}

module _ {L Q F O L' Q' F' O' P : Type 0} (T : Config L Q F O P) (U : ServiceConfig L' Q' F' O' P)
    (here : ℕ) (sent : Q → List Packet) (answered : Q' → List Packet) where
  -- Nothing waits for the other parachain, on either side.
  abbrev pub IsIdle : Chains L Q L' Q' P → Type 0
  IsIdle z =
      ((bytes : List ℕ) → ¬ IsIn (to_sibling U.self_para_id bytes) (sent z.exchange.queues))
      × ((bytes : List ℕ) → ¬ IsIn (to_sibling here bytes) (answered z.service.queues))

  module _ (outbox : IsOutbox U.send_xcm answered)
      (holds : (l : List Packet) → (q : Q) × (sent q ≡ l))
      (holds' : (l : List Packet) → (q : Q') × (answered q ≡ l)) where
    -- One delivery is possible, unless nothing waits.
    deliver_one :
        (z : Chains L Q L' Q' P)
        → ((y : Chains L Q L' Q' P) × Delivery T U here sent answered z y) ⊎ IsIdle z
    deliver_one z = elim (take_out U.self_para_id (sent z.exchange.queues)) [
      | inl (bytes, rest, t) ↦
          let (q, e) = holds rest in inl (_, Delivery.to_service bytes 0 0 q (rw e t))
      | inr n ↦ elim (take_out here (answered z.service.queues)) [
        | inl (bytes, rest, t) ↦
            let (q, e) = holds' rest in inl (_, Delivery.to_exchange bytes 0 0 q (rw e t))
        | inr m ↦ inr (n, m)
      ]
    ]

    drain :
        (fuel : ℕ) (z : Chains L Q L' Q' P)
        → traffic T U here sent answered z ≤ fuel
        → (n : ℕ) × (y : Chains L Q L' Q' P) × Deliveries T U here sent answered n z y × IsIdle y
    drain zero z enough = elim (deliver_one z) [
      | inr idle ↦ (0, z, Deliveries.over, idle)
      | inl (y, d) ↦
          let less = Delivery-traffic T U here sent answered outbox d in
          absurd (omega (arith, less, enough))
    ]
    drain (suc fuel) z enough = elim (deliver_one z) [
      | inr idle ↦ (0, z, Deliveries.over, idle)
      | inl (y, d) ↦
          let less = Delivery-traffic T U here sent answered outbox d in
          let (n, x, ds, idle) = drain fuel y (omega (arith, less, enough)) in
          (suc n, x, Deliveries.then_on d ds, idle)
    ]

    -- If the router of the service pallet sends a message or refuses it, and if the queues can hold
    -- any messages: from any state, whatever waits in either queue, also what no pallet has
    -- written, the two parachains come to rest by deliveries alone, and after no more of them than
    -- twice the packets that wait on the exchange pallet's side and the packets that wait on the
    -- service pallet's side: a request is answered once at most, and an answer never.
    pub comes_to_rest :
        (z : Chains L Q L' Q' P)
        → (n : ℕ) × (y : Chains L Q L' Q' P) × Deliveries T U here sent answered n z y
          × IsIdle y
          × (n + traffic T U here sent answered y ≤ traffic T U here sent answered z)
    comes_to_rest z =
        let (n, y, ds, idle) = drain (traffic T U here sent answered z) z (omega arith) in
        (n, y, ds, idle, traffic_dies_out T U here sent answered outbox ds)
