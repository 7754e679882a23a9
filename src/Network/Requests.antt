-- ===== src/Network/Requests.antt =====
-- Where the orders that a parachain serves for another one come from
-- (pallets/xchange-service/src/lib.rs, `handle_xcmp_messages`; pallets/xchange/src/lib.rs,
-- `order`).
use mathlib.Core.Path.{subst}
use xcm_auto_bank.Base.{ℕ, ◌≡◌, ◌≢◌, refl, sym, ap, ◌∙◌, inl, inr, none, some, List, [], ◌∷◌, arith}
use xcm_auto_bank.Base.Action.{ok}
use xcm_auto_bank.Base.Map.{lookup}
use xcm_auto_bank.Base.Member.{IsIn}
use xcm_auto_bank.Common.{Order, OrderBase, XcmpMessage}
use xcm_auto_bank.Frame.{Config}
use xcm_auto_bank.Network.{Agree}
use xcm_auto_bank.Network.Protocol.{Chains, ExchangeRule, ServiceRule, Step, Reach}
use xcm_auto_bank.Outbox.{Packet, to_sibling, to_sibling_inj, IsOutbox}
use xcm_auto_bank.Service.{ServiceConfig, received}
use xcm_auto_bank.Service.Arrivals.{Everywhere, Brings, Step-Everywhere}
use xcm_auto_bank.Service as Serving
use xcm_auto_bank.Service.Steps as Served
use xcm_auto_bank.Xchange.{DeviceProfile, order}
use xcm_auto_bank.Xchange as Exchange
use xcm_auto_bank.Xchange.Requesting.{AddsNone, Says, Step-Says}
use xcm_auto_bank.Xchange.Steps as Exchanged

module _ {L Q F O L' Q' F' O' P : Type 0} (T : Config L Q F O P) (U : ServiceConfig L' Q' F' O' P)
    (here : ℕ) (sent : Q → List Packet) (answered : Q' → List Packet)
    (z₀ : Chains L Q L' Q' P) where
  -- On the way from `z₀` to `z` the client has placed the order with a device of the service's
  -- parachain, and that call has returned `Ok`.
  pub record Placement (z : Chains L Q L' Q' P) (client : ℕ) (o : OrderBase P) : Type 0 where
    pub at : Chains L Q L' Q' P
    pub origin : O
    pub dev : DeviceProfile
    pub before : Reach T U here sent answered z₀ at
    pub signed : T.ensure_signed origin ≡ ok client
    pub registered : lookup o.device at.exchange.devices ≡ some dev
    pub is_there : dev.para_id ≡ U.self_para_id
    pub succeeds : (order T origin o at.exchange).0 ≡ ok tt
    pub after :
        Reach T U here sent answered (record at { exchange = (order T origin o at.exchange).1 }) z

  Placement-next :
      {z z' : Chains L Q L' Q' P} {client : ℕ} {o : OrderBase P}
      → Step T U here sent answered z z'
      → Placement z client o
      → Placement z' client o
  Placement-next st p = record {
    at = p.at;
    origin = p.origin;
    dev = p.dev;
    before = p.before;
    signed = p.signed;
    registered = p.registered;
    is_there = p.is_there;
    succeeds = p.succeeds;
    after = Reach.next p.after st;
  }

  -- Each request that waits was placed.
  abbrev pub Requested : Chains L Q L' Q' P → Type 0
  Requested z =
      (bytes : List ℕ) (client : ℕ) (o : OrderBase P)
      → IsIn (to_sibling U.self_para_id bytes) (sent z.exchange.queues)
      → U.decode bytes ≡ some (XcmpMessage.new_order client o)
      → Placement z client o

  -- The order of the device was placed on the exchange pallet's parachain, if it is from there.
  abbrev pub IsPlaced : Chains L Q L' Q' P → ℕ → Order P → Type 0
  IsPlaced z d o' =
      o'.paraid ≡ here
      → (o : OrderBase P) × (o' ≡ received o o'.client here)
        × (o.device ≡ d)
        × Placement z o'.client o

  module _ (outbox : IsOutbox T.send_xcm sent) (agree : Agree T U) (foreign : U.self_para_id ≢ here)
      (no_request : U.decode (T.encode_bytes (0x00 ∷ 0x20 ∷ [])) ≡ none) where
    adds_none :
        (bytes : List ℕ) (u : Serving.Store L' Q' P) {s t : Exchange.Store L Q P}
        (st : Exchanged.Step T s t)
        → ExchangeRule T U here sent answered u st
        → AddsNone T sent outbox (to_sibling U.self_para_id bytes) st
    adds_none bytes u (Exchanged.Step.tests origin) rule = tt
    adds_none bytes u (Exchanged.Step.orders origin o) rule = tt
    adds_none bytes u (Exchanged.Step.cancels origin device) rule = tt
    adds_none bytes u (Exchanged.Step.registers origin paraid penalty wcd onoff) rule = tt
    adds_none bytes u (Exchanged.Step.receives batch max_weight) rule = tt
    adds_none bytes u (Exchanged.Step.reaps who) rule = tt
    adds_none bytes u (Exchanged.Step.elsewhere now ledger queues events later) rule = rule bytes

    -- A request that a step hands over is of the order that it places.
    Says-placed :
        {z : Chains L Q L' Q' P} {t : Exchange.Store L Q P} (bytes : List ℕ) (client : ℕ)
        (o : OrderBase P) (st : Exchanged.Step T z.exchange t)
        → Reach T U here sent answered z₀ z
        → U.decode bytes ≡ some (XcmpMessage.new_order client o)
        → Says T sent outbox (to_sibling U.self_para_id bytes) st
        → Placement (record z { exchange = t }) client o
    Says-placed bytes client o (Exchanged.Step.tests origin) r e is =
        let (_, same) = to_sibling_inj _ _ _ _ is in absurd (ground (arith, e, no_request, same))
    Says-placed {z} bytes client o (Exchanged.Step.orders origin o') r e is =
        let (there, same) = to_sibling_inj _ _ _ _ is.is_request in
        let decoded : some (XcmpMessage.new_order client o)
            ≡ some (XcmpMessage.new_order is.who o') =
          sym e ∙ ap U.decode same ∙ agree.requests (XcmpMessage.new_order is.who o') in
        let who : client ≡ is.who = cc in
        let what : o ≡ o' = cc in
        rw (who, what)
          (record {
            at = z;
            origin = origin;
            dev = is.dev;
            before = r;
            signed = is.signed;
            registered = is.registered;
            is_there = sym there;
            succeeds = is.succeeds;
            after = Reach.start;
          })
    Says-placed bytes client o (Exchanged.Step.cancels origin device) r e is = absurd is
    Says-placed bytes client o (Exchanged.Step.registers origin paraid penalty wcd onoff) r e is =
        absurd is
    Says-placed bytes client o (Exchanged.Step.receives batch max_weight) r e is = absurd is
    Says-placed bytes client o (Exchanged.Step.reaps who) r e is = absurd is
    Says-placed bytes client o (Exchanged.Step.elsewhere now ledger queues events later) r e is =
        absurd is

    Step-Requested :
        {z z' : Chains L Q L' Q' P}
        → Reach T U here sent answered z₀ z
        → Step T U here sent answered z z'
        → Requested z
        → Requested z'
    Step-Requested {z} r (Step.exchanges st rule) h bytes client o i e =
        elim (Step-Says T sent outbox (to_sibling U.self_para_id bytes) st
          (adds_none bytes z.service st rule) i) [
            | inl before ↦ Placement-next (Step.exchanges st rule) (h bytes client o before e)
            | inr says ↦ Says-placed bytes client o st r e says
          ]
    Step-Requested r (Step.serves st rule) h bytes client o i e =
        Placement-next (Step.serves st rule) (h bytes client o i e)

    -- An order that a step of the service pallet brings from there was requested.
    Brings-IsPlaced :
        {z : Chains L Q L' Q' P} {t : Serving.Store L' Q' P} (st : Served.Step U z.service t)
        → ServiceRule T U here sent answered z.exchange st
        → Requested z
        → Brings U (IsPlaced z) st
    Brings-IsPlaced (Served.Step.orders origin o) rule h = λ who i own. absurd (foreign own)
    Brings-IsPlaced (Served.Step.receives batch max_weight) rule h =
        λ sender sent_at bytes client o i e from.
          let genuine = rule sent_at bytes (rw (← from) i) in
          (o, ap (λ p. received o client p) from, refl, h bytes client o genuine e)
    Brings-IsPlaced (Served.Step.cancels origin device) rule h = tt
    Brings-IsPlaced (Served.Step.accepts origin rejects onoff) rule h = tt
    Brings-IsPlaced (Served.Step.completes origin onoff) rule h = tt
    Brings-IsPlaced (Served.Step.registers origin penalty wcd onoff) rule h = tt
    Brings-IsPlaced (Served.Step.switches origin onoff) rule h = tt
    Brings-IsPlaced (Served.Step.reaps who) rule h = tt
    Brings-IsPlaced (Served.Step.elsewhere now ledger queues events later) rule h = tt

    abbrev IsHonest : Chains L Q L' Q' P → Type 0
    IsHonest z = Requested z × Everywhere U (IsPlaced z) z.service.orders

    Step-IsPlaced :
        {z z' : Chains L Q L' Q' P}
        → Step T U here sent answered z z'
        → IsHonest z
        → Everywhere U (IsPlaced z) z'.service.orders
    Step-IsPlaced (Step.exchanges st rule) (h, k) = k
    Step-IsPlaced {z} (Step.serves st rule) (h, k) =
        Step-Everywhere U (IsPlaced z) st (Brings-IsPlaced st rule h) k

    Step-IsHonest :
        {z z' : Chains L Q L' Q' P}
        → Reach T U here sent answered z₀ z
        → Step T U here sent answered z z'
        → IsHonest z
        → IsHonest z'
    Step-IsHonest r st h = (
      Step-Requested r st h.0,
      λ d o' e from.
          let (o, is, at, p) = Step-IsPlaced st h d o' e from in (o, is, at, Placement-next st p),
    )

    Reach-IsHonest :
        {z : Chains L Q L' Q' P} → IsHonest z₀ → Reach T U here sent answered z₀ z → IsHonest z
    Reach-IsHonest h Reach.start = h
    Reach-IsHonest h (Reach.next r st) = Step-IsHonest r st (Reach-IsHonest h r)

    -- If the router of the exchange pallet sends a message or refuses it, if nothing else on its
    -- parachain sends to the service pallet's one, if the parachains have different ids and use one
    -- encoding, and if the two bytes of `test` encode no message: let nothing wait at first and let
    -- the service pallet have no order. Then, in any interleaving of
    -- the two parachains, whatever is called with whatever result, and however late, out of order
    -- or often the messages are delivered: an order that the service pallet has from the other
    -- parachain was placed there before by a successful `order` that its client has signed, on this
    -- device, with the same deadline, payload and fee, and for this parachain.
    pub served_placed :
        (z : Chains L Q L' Q' P)
        → sent z₀.exchange.queues ≡ []
        → z₀.service.orders ≡ []
        → Reach T U here sent answered z₀ z
        → (d : ℕ) (o' : Order P) → lookup d z.service.orders ≡ some o'
        → o'.paraid ≡ here
        → (o : OrderBase P) × (o' ≡ received o o'.client here)
          × (o.device ≡ d)
          × Placement z o'.client o
    served_placed z nothing no_orders r =
        (Reach-IsHonest
          (
            λ bytes client o i e. absurd (subst (IsIn (to_sibling U.self_para_id bytes)) nothing i),
            λ d o' e from. absurd (ground (arith, e, no_orders)),
          )
          r).1
