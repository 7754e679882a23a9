-- ===== src/Network/Protocol.antt =====
-- Two parachains side by side: one with the exchange pallet (pallets/xchange/src/lib.rs) and one
-- with the service pallet (pallets/xchange-service/src/lib.rs). Any step of either may come next.
-- What one has handed to its router for the other is delivered as the call that it holds, perhaps
-- late, in any order, in any batch, more than once or never; nothing is delivered in its name that
-- it has not handed over.
use xcm_auto_bank.Base.{ℕ, ⊤, List}
use xcm_auto_bank.Base.Member.{IsIn}
use xcm_auto_bank.Frame.{Config}
use xcm_auto_bank.Outbox.{Packet, to_sibling}
use xcm_auto_bank.Service.{ServiceConfig}
use xcm_auto_bank.Service as Serving
use xcm_auto_bank.Service.Steps as Served
use xcm_auto_bank.Xchange as Exchange
use xcm_auto_bank.Xchange.Steps as Exchanged

-- The storage of both.
pub record Chains (L Q L' Q' P : Type 0) : Type 0 where
  pub exchange : Exchange.Store L Q P
  pub service : Serving.Store L' Q' P

-- `here` is the id of the exchange pallet's parachain; `sent` and `answered` are what waits in the
-- queues of the two routers.
module _ {L Q F O L' Q' F' O' P : Type 0} (T : Config L Q F O P) (U : ServiceConfig L' Q' F' O' P)
    (here : ℕ) (sent : Q → List Packet) (answered : Q' → List Packet) where
  -- What a batch holds in the name of the parachain `from` waits there for the parachain `to`.
  abbrev pub Genuine : ℕ → ℕ → List Packet → List (ℕ × ℕ × List ℕ) → Type 0
  Genuine from to waiting batch =
      (sent_at : ℕ) (bytes : List ℕ)
      → IsIn (from, sent_at, bytes) batch
      → IsIn (to_sibling to bytes) waiting

  -- The rest of a chain hands over nothing for the parachain `to`.
  abbrev pub Keeps : ℕ → List Packet → List Packet → Type 0
  Keeps to before after =
      (bytes : List ℕ) → IsIn (to_sibling to bytes) after → IsIn (to_sibling to bytes) before

  abbrev pub ExchangeRule :
      Serving.Store L' Q' P → {s t : Exchange.Store L Q P} → Exchanged.Step T s t → Type 0
  ExchangeRule u (Exchanged.Step.receives batch max_weight) =
      Genuine U.self_para_id here (answered u.queues) batch
  ExchangeRule u {s} (Exchanged.Step.elsewhere now ledger queues events later) =
      Keeps U.self_para_id (sent s.queues) (sent queues)
  ExchangeRule u _ = ⊤

  abbrev pub ServiceRule :
      Exchange.Store L Q P → {s t : Serving.Store L' Q' P} → Served.Step U s t → Type 0
  ServiceRule e (Served.Step.receives batch max_weight) =
      Genuine here U.self_para_id (sent e.queues) batch
  ServiceRule e {s} (Served.Step.elsewhere now ledger queues events later) =
      Keeps here (answered s.queues) (answered queues)
  ServiceRule e _ = ⊤

  pub data Step (z : Chains L Q L' Q' P) : Chains L Q L' Q' P → Type 0 where
    exchanges :
        {t : Exchange.Store L Q P} (st : Exchanged.Step T z.exchange t)
        → ExchangeRule z.service st
        → Step z (record z { exchange = t })
    serves :
        {t : Serving.Store L' Q' P} (st : Served.Step U z.service t)
        → ServiceRule z.exchange st
        → Step z (record z { service = t })

  pub data Reach (z : Chains L Q L' Q' P) : Chains L Q L' Q' P → Type 0 where
    start : Reach z z
    next : {y x : Chains L Q L' Q' P} → Reach z y → Step y x → Reach z x

  pub joined : {z y x : Chains L Q L' Q' P} → Reach z y → Reach y x → Reach z x
  joined r Reach.start = r
  joined r (Reach.next r' st) = Reach.next (joined r r') st

  -- The history of the exchange pallet alone.
  pub exchange_history :
      {z y : Chains L Q L' Q' P} → Reach z y → Exchanged.Reach T z.exchange y.exchange
  exchange_history Reach.start = Exchanged.Reach.here
  exchange_history (Reach.next r (Step.exchanges st rule)) =
      Exchanged.Reach.next (exchange_history r) st
  exchange_history (Reach.next r (Step.serves st rule)) = exchange_history r
