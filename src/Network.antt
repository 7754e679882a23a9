-- ===== src/Network.antt =====
-- An order across two parachains: the exchange pallet on the client's one
-- (pallets/xchange/src/lib.rs) and the service pallet on the device's one
-- (pallets/xchange-service/src/lib.rs), if each decodes what the other has encoded.
pub mod Declining
pub mod Protocol
pub mod Requests
pub mod Answers
pub mod Ending
pub mod Outcome
pub mod Taking
pub mod Relay
pub mod Draining
mod Tests
use xcm_auto_bank.Base.{
  ℕ, ◌+◌, ◌≡◌, refl, sym, ap, ◌∙◌, Bool, false, Option, some, List, [], ◌∷◌, ltb, ◌==◌,
  if◌then◌else◌,
}
use xcm_auto_bank.Base.Action.{ok}
use xcm_auto_bank.Base.Map.{lookup}
use xcm_auto_bank.Common.{Order, OrderBase, XcmpMessage}
use xcm_auto_bank.Frame.{Config, IsReservable, parachain}
use xcm_auto_bank.Money.{Pays}
use xcm_auto_bank.Pallet.{transact}
use xcm_auto_bank.Service.{ServiceConfig, received, order_received, done}
use xcm_auto_bank.Service.Closing.{Finishes, done_foreign}
use xcm_auto_bank.Service.Messages.{handle-Requests}
use xcm_auto_bank.Xchange.{order, on_done}
use xcm_auto_bank.Xchange.Escrow.{IsCovered}
use xcm_auto_bank.Xchange.Invariant.{IsWf}
use xcm_auto_bank.Xchange.Messages.{handle_decoded, on_message-done}
use xcm_auto_bank.Xchange.Payment.{on_done-Pays}
use xcm_auto_bank.Xchange.Placing.{order_ok_iff}
use xcm_auto_bank.Service as Serving
use xcm_auto_bank.Xchange as Exchange

module _ {L Q F O P L' Q' F' O' : Type 0} (T : Config L Q F O P)
    (U : ServiceConfig L' Q' F' O' P) where
  -- The two parachains use one encoding.
  pub record Agree : Type 0 where
    pub requests : (m : XcmpMessage P) → U.decode (T.encode m) ≡ some m
    pub answers : (m : XcmpMessage P) → T.decode (U.encode m) ≡ some m

  module _ (agree : Agree) where
    -- If the parachains use one encoding, a successful `order` hands one message to the router, for
    -- the parachain of the device, and the service pallet that it is delivered to receives exactly
    -- the order that was placed, in the name of its client and of the parachain that sent it.
    pub order_arrives :
        (origin : O) (o : OrderBase P) (s t : Exchange.Store L Q P) (sender sent_at max_weight : ℕ)
        (u : Serving.Store L' Q' P)
        → order T origin o s ≡ (ok tt, t)
        → (who : ℕ) × (dev : Exchange.DeviceProfile) × (bytes : List ℕ) × (T.ensure_signed origin
            ≡ ok who)
          × (lookup o.device s.devices ≡ some dev)
          × (t.queues
              ≡ (T.send_xcm s.queues
                  (record { parents = 1; interior = parachain dev.para_id })
                  (transact bytes)).1)
          × (Serving.handle_xcmp_messages U ((sender, sent_at, bytes) ∷ []) max_weight u
              ≡ (max_weight, (order_received U (received o who sender) o.device u).1))
    order_arrives origin o s t sender sent_at max_weight u h =
        let (who, dev, l₁, l₂, c, e) = (order_ok_iff T origin o s t).0 h in
        (
          who,
          dev,
          T.encode (XcmpMessage.new_order who o),
          c.signed,
          c.registered,
          ap (λ x. x.queues) e,
          handle-Requests U ((sender, sent_at, T.encode (XcmpMessage.new_order who o)) ∷ []) []
              ((sender, who, o) ∷ []) max_weight max_weight u
              (agree.requests (XcmpMessage.new_order who o), refl, tt) refl,
        )

    -- If the currency does as documented, and if the parachains use one encoding, a device
    -- completes an accepted order of the other parachain, and the order is open there in the name
    -- of the same client, not the device itself, in well-formed storage whose orders are covered by
    -- reserves: then `done` hands one message to the router, for the parachain of the order. Where
    -- that message is delivered and `on_done` returns `Ok`, the device is paid the fee, and the
    -- penalty goes back to it before the deadline and to the client from then on.
    pub done_settles :
        IsReservable T.currency
        → (s : Exchange.Store L Q P) (u : Serving.Store L' Q' P) (o o' : Order P)
          (dev : Exchange.DeviceProfile) (dev' : Serving.DeviceProfile) (origin : O')
          (device sender sent_at max_weight : ℕ) (onoff : Bool)
        → Finishes U u o' dev' origin device
        → (o'.paraid == U.self_para_id) ≡ false
        → IsWf s
        → IsCovered T s
        → lookup device s.orders ≡ some o
        → lookup device s.devices ≡ some dev
        → o.client ≡ o'.client
        → (o.client == device) ≡ false
        → (on_done T o.client device onoff s).0 ≡ ok tt
        → (bytes : List ℕ) × ((done U origin onoff u).1.queues
            ≡ (U.send_xcm u.queues
                (record { parents = 1; interior = parachain o'.paraid })
                (transact bytes)).1)
          × Pays T.currency s.ledger
              (Exchange.handle_xcmp_messages T
                ((sender, sent_at, bytes) ∷ [])
                max_weight
                s).1.ledger
              o.client
              device
              o.fee
              dev.penalty
              (if ltb s.now o.until then 0 else dev.penalty)
              (o.fee + (if ltb s.now o.until then dev.penalty else 0))
    done_settles laws s u o o' dev dev' origin device sender sent_at max_weight onoff f foreign w c
          k e same other_client ends =
        let m = XcmpMessage.order_done o'.client device onoff in
        let handled =
          handle_decoded T ((sender, sent_at, U.encode m) ∷ []) [] (m ∷ []) max_weight max_weight s
            (agree.answers m, tt) refl in
        let settled : (Exchange.handle_xcmp_messages T ((sender, sent_at, U.encode m) ∷ [])
              max_weight s).1
            ≡ (on_done T o.client device onoff s).1 =
          ap (λ r. r.1) handled
          ∙ on_message-done T o'.client device onoff s
          ∙ ap (λ a. (on_done T a device onoff s).1) (sym same) in
        (
          U.encode m,
          ap (λ r. r.1.queues) (done_foreign U u o' dev' origin device onoff f foreign),
          rw settled (on_done-Pays T laws s w c o dev device onoff k e other_client ends),
        )
