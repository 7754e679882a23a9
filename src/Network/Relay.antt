-- ===== src/Network/Relay.antt =====
-- The traffic between the two parachains: how many deliveries it can take until nothing waits
-- (`handle_xcmp_messages` in pallets/xchange/src/lib.rs and pallets/xchange-service/src/lib.rs).
use xcm_auto_bank.Base.{ℕ, suc, ◌+◌, ◌*◌, ◌≤◌, ◌≡◌, refl, Option, none, some, List, [], ◌∷◌, arith}
use xcm_auto_bank.Base.Member.{count}
use xcm_auto_bank.Common.{XcmpMessage}
use xcm_auto_bank.Frame.{Config}
use xcm_auto_bank.Network.Protocol.{Chains}
use xcm_auto_bank.Network.Taking.{IsTaken, IsTaken-count}
use xcm_auto_bank.Outbox.{Packet, to_sibling, IsOutbox, Hands-count}
use xcm_auto_bank.Service.{ServiceConfig, received, order_received}
use xcm_auto_bank.Service.Messages.{handle-Requests}
use xcm_auto_bank.Service.Sending.{order_received-Hands}
use xcm_auto_bank.Service as Serving
use xcm_auto_bank.Xchange as Exchange
use xcm_auto_bank.Xchange.Sending.{handle_xcmp_messages-queues}

module _ {L Q F O L' Q' F' O' P : Type 0} (T : Config L Q F O P) (U : ServiceConfig L' Q' F' O' P)
    (here : ℕ) (sent : Q → List Packet) (answered : Q' → List Packet) where
  -- One message is taken out of a queue and handed to the pallet that it is for, and nothing else
  -- happens.
  pub data Delivery (z : Chains L Q L' Q' P) : Chains L Q L' Q' P → Type 0 where
    to_service :
        (bytes : List ℕ) (sent_at max_weight : ℕ) (q : Q)
        → IsTaken (to_sibling U.self_para_id bytes) (sent z.exchange.queues) (sent q)
        → Delivery z (record {
          exchange = record z.exchange { queues = q };
          service =
              (Serving.handle_xcmp_messages U ((here, sent_at, bytes) ∷ []) max_weight z.service).1;
        })
    to_exchange :
        (bytes : List ℕ) (sent_at max_weight : ℕ) (q : Q')
        → IsTaken (to_sibling here bytes) (answered z.service.queues) (answered q)
        → Delivery z (record {
          exchange =
              (Exchange.handle_xcmp_messages T
                ((U.self_para_id, sent_at, bytes) ∷ [])
                max_weight
                z.exchange).1;
          service = record z.service { queues = q };
        })

  -- So many of them in a row.
  pub data Deliveries : ℕ → Chains L Q L' Q' P → Chains L Q L' Q' P → Type 0 where
    over : {z : Chains L Q L' Q' P} → Deliveries 0 z z
    then_on :
        {n : ℕ} {z y x : Chains L Q L' Q' P}
        → Delivery z y
        → Deliveries n y x
        → Deliveries (suc n) z x

  -- A request counts twice, since it may be answered.
  abbrev pub traffic : Chains L Q L' Q' P → ℕ
  traffic z = 2 * count (sent z.exchange.queues) + count (answered z.service.queues)

  module _ (outbox : IsOutbox U.send_xcm answered) where
    -- A message to the service pallet is answered by one message at most.
    receive_one-count :
        (sent_at : ℕ) (bytes : List ℕ) (max_weight : ℕ) (u : Serving.Store L' Q' P)
        (r : Option (XcmpMessage P))
        → U.decode bytes ≡ r
        → count (
            answered
              (Serving.handle_xcmp_messages U ((here, sent_at, bytes) ∷ []) max_weight u).1.queues)
          ≤ suc (count (answered u.queues))
    receive_one-count sent_at bytes max_weight u (some (XcmpMessage.new_order client o)) e =
        rw
          (handle-Requests U ((here, sent_at, bytes) ∷ []) [] ((here, client, o) ∷ []) max_weight
            max_weight u (e, refl, tt) refl)
          (Hands-count U.send_xcm outbox
            (order_received-Hands U u (received o client here) o.device))
    receive_one-count sent_at bytes max_weight u none e =
        rw (handle-Requests U [] ((here, sent_at, bytes) ∷ []) [] max_weight 0 u tt (rw e tt, refl))
          (omega arith)
    receive_one-count sent_at bytes max_weight u (some (XcmpMessage.order_accept client device)) e =
        rw (handle-Requests U [] ((here, sent_at, bytes) ∷ []) [] max_weight 0 u tt (rw e tt, refl))
          (omega arith)
    receive_one-count sent_at bytes max_weight u
          (some (XcmpMessage.order_reject client device onoff)) e =
        rw (handle-Requests U [] ((here, sent_at, bytes) ∷ []) [] max_weight 0 u tt (rw e tt, refl))
          (omega arith)
    receive_one-count sent_at bytes max_weight u (some (XcmpMessage.order_done client device onoff))
          e =
        rw (handle-Requests U [] ((here, sent_at, bytes) ∷ []) [] max_weight 0 u tt (rw e tt, refl))
          (omega arith)

    pub Delivery-traffic : {z y : Chains L Q L' Q' P} → Delivery z y → suc (traffic y) ≤ traffic z
    Delivery-traffic {z} (to_service bytes sent_at max_weight q t) = omega (
      arith,
      IsTaken-count t,
      receive_one-count sent_at bytes max_weight z.service (U.decode bytes) refl,
    )
    Delivery-traffic {z} (to_exchange bytes sent_at max_weight q t) =
        rw
          (handle_xcmp_messages-queues T ((U.self_para_id, sent_at, bytes) ∷ []) max_weight
            z.exchange)
          (omega (arith, IsTaken-count t))

    -- If the router of the service pallet sends a message or refuses it: deliveries die out. Each
    -- one, of whatever bytes that wait, takes away from twice the packets that wait on the exchange
    -- pallet's side and the packets that wait on the service pallet's side, since the service
    -- pallet answers a request with one message at most, and the exchange pallet answers nothing.
    -- So their number and what is left together never exceed what there was at first.
    pub traffic_dies_out :
        {n : ℕ} {z y : Chains L Q L' Q' P} → Deliveries n z y → n + traffic y ≤ traffic z
    traffic_dies_out over = omega arith
    traffic_dies_out (then_on d ds) = omega (arith, traffic_dies_out ds, Delivery-traffic d)
