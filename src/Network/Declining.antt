-- ===== src/Network/Declining.antt =====
-- A device that declines the order of another parachain (pallets/xchange-service/src/lib.rs,
-- `accept`; pallets/xchange/src/lib.rs, `on_reject`).
use xcm_auto_bank.Base.{
  ℕ, ◌+◌, ◌≡◌, refl, sym, ap, ◌∙◌, Bool, true, false, some, List, [], ◌∷◌, ltb, ◌==◌, if◌then◌else◌,
}
use xcm_auto_bank.Base.Action.{ok}
use xcm_auto_bank.Base.Map.{lookup, remove}
use xcm_auto_bank.Common.{Order, XcmpMessage}
use xcm_auto_bank.Frame.{Config, IsReservable, parachain}
use xcm_auto_bank.Money.{Pays}
use xcm_auto_bank.Network.{Agree}
use xcm_auto_bank.Pallet.{transact}
use xcm_auto_bank.Service.{ServiceConfig, accept}
use xcm_auto_bank.Service.Closing.{Declines, decline_foreign}
use xcm_auto_bank.Xchange.{on_reject}
use xcm_auto_bank.Xchange.Escrow.{IsCovered}
use xcm_auto_bank.Xchange.Invariant.{IsWf}
use xcm_auto_bank.Xchange.Messages.{handle_decoded, on_message-reject}
use xcm_auto_bank.Xchange.Payment.{on_reject-Pays}
use xcm_auto_bank.Service as Serving
use xcm_auto_bank.Xchange as Exchange

module _ {L Q F O P L' Q' F' O' : Type 0} (T : Config L Q F O P) (U : ServiceConfig L' Q' F' O' P)
    (agree : Agree T U) where
  -- If the currency does as documented, and if the parachains use one encoding, a device declines
  -- an order of the other parachain, and the order is open there in the name of the same client,
  -- not the device itself, in well-formed storage whose orders are covered by reserves: then the
  -- decline takes the order out, moves no money, and hands one message to the router, for the
  -- parachain of the order. Where that message is delivered and `on_reject` returns `Ok`, the
  -- client has its fee back, and the penalty goes back to the device before the deadline and to the
  -- client from then on.
  pub decline_refunds :
      IsReservable T.currency
      → (s : Exchange.Store L Q P) (u : Serving.Store L' Q' P) (o o' : Order P)
        (dev : Exchange.DeviceProfile) (dev' : Serving.DeviceProfile) (origin : O')
        (device sender sent_at max_weight : ℕ) (onoff : Bool)
      → Declines U u o' dev' origin device
      → (o'.paraid == U.self_para_id) ≡ false
      → IsWf s
      → IsCovered T s
      → lookup device s.orders ≡ some o
      → lookup device s.devices ≡ some dev
      → o.client ≡ o'.client
      → (o.client == device) ≡ false
      → (on_reject T o.client device onoff s).0 ≡ ok tt
      → let v = (accept U origin true onoff u).1 in
        (bytes : List ℕ) × (v.queues
          ≡ (U.send_xcm u.queues
              (record { parents = 1; interior = parachain o'.paraid })
              (transact bytes)).1)
        × (v.orders ≡ remove device u.orders)
        × (v.ledger ≡ u.ledger)
        × Pays T.currency s.ledger
            (Exchange.handle_xcmp_messages T ((sender, sent_at, bytes) ∷ []) max_weight s).1.ledger
            o.client
            device
            o.fee
            dev.penalty
            (o.fee + (if ltb s.now o.until then 0 else dev.penalty))
            (if ltb s.now o.until then dev.penalty else 0)
  decline_refunds laws s u o o' dev dev' origin device sender sent_at max_weight onoff d foreign w c
        k e same other_client ends =
      let m = XcmpMessage.order_reject o'.client device onoff in
      let handled =
        handle_decoded T ((sender, sent_at, U.encode m) ∷ []) [] (m ∷ []) max_weight max_weight s
          (agree.answers m, tt) refl in
      let refunded : (Exchange.handle_xcmp_messages T ((sender, sent_at, U.encode m) ∷ [])
            max_weight s).1
          ≡ (on_reject T o.client device onoff s).1 =
        ap (λ r. r.1) handled
        ∙ on_message-reject T o'.client device onoff s
        ∙ ap (λ a. (on_reject T a device onoff s).1) (sym same) in
      let declined = decline_foreign U u o' dev' origin device onoff d foreign in
      (
        U.encode m,
        ap (λ r. r.1.queues) declined,
        ap (λ r. r.1.orders) declined,
        ap (λ r. r.1.ledger) declined,
        rw refunded (on_reject-Pays T laws s w c o dev device onoff k e other_client ends),
      )
