-- ===== src/Network/Ending.antt =====
-- How an order of the exchange pallet ends where its device's parachain answers
-- (pallets/xchange/src/lib.rs, `cancel` and `handle_xcmp_messages`).
use xcm_auto_bank.Base.{ℕ, ◌≤◌, ◌≡◌, ◌≢◌, ◌⊎◌, some, List}
use xcm_auto_bank.Base.Action.{ok}
use xcm_auto_bank.Base.Map.{lookup}
use xcm_auto_bank.Base.Member.{IsIn}
use xcm_auto_bank.Common.{Order, XcmpMessage, busy, timewait}
use xcm_auto_bank.Frame.{Config}
use xcm_auto_bank.Network.Answers.{IsAnswer, Verdict, Verdict-next}
use xcm_auto_bank.Network.Protocol.{Chains, Step, Reach}
use xcm_auto_bank.Outbox.{Packet}
use xcm_auto_bank.Service.{ServiceConfig}
use xcm_auto_bank.Xchange.{DeviceProfile, cancel, handle_xcmp_messages}

-- The order is open on the exchange pallet's parachain, and the device is busy or abandoned.
abbrev pub StillHeld : {L Q L' Q' P : Type 0} → ℕ → Order P → Chains L Q L' Q' P → Type 0
StillHeld d o z =
    (lookup d z.exchange.orders ≡ some o)
    × ((dev : DeviceProfile) × (lookup d z.exchange.devices ≡ some dev)
        × ((dev.state ≡ busy) ⊎ (dev.state ≡ timewait)))

module _ {L Q F O L' Q' F' O' P : Type 0} (T : Config L Q F O P) (U : ServiceConfig L' Q' F' O' P)
    (here : ℕ) (sent : Q → List Packet) (answered : Q' → List Packet) (d : ℕ) (o : Order P) where
  -- On the way from `z` to `y` the order's client cancels it from the deadline on, with success.
  pub record Cancelling (z y : Chains L Q L' Q' P) : Type 0 where
    pub at : Chains L Q L' Q' P
    pub origin : O
    pub before : Reach T U here sent answered z at
    pub is_due : o.until ≤ at.exchange.now
    pub signed : T.ensure_signed origin ≡ ok o.client
    pub succeeds : (cancel T origin d at.exchange).0 ≡ ok tt
    pub after :
        Reach T U here sent answered (record at { exchange = (cancel T origin d at.exchange).1 }) y

  -- Or a batch holds an answer for the device in the name of a third parachain.
  pub record Intrusion (z y : Chains L Q L' Q' P) : Type 0 where
    pub at : Chains L Q L' Q' P
    pub batch : List (ℕ × ℕ × List ℕ)
    pub max_weight : ℕ
    pub sender : ℕ
    pub sent_at : ℕ
    pub bytes : List ℕ
    pub message : XcmpMessage P
    pub before : Reach T U here sent answered z at
    pub is_in : IsIn (sender, sent_at, bytes) batch
    pub third : sender ≢ U.self_para_id
    pub decoded : T.decode bytes ≡ some message
    pub is_answer : IsAnswer d message
    pub after :
        Reach T U here sent answered
          (record at { exchange = (handle_xcmp_messages T batch max_weight at.exchange).1 })
          y

  -- How the order ends on the way from `z` to `y`, in a history that began at `z₀`.
  pub data Closure (z₀ z y : Chains L Q L' Q' P) : Type 0 where
    cancelled : Cancelling z y → Closure z₀ z y
    judged : Verdict T U here sent answered z₀ d y → Closure z₀ z y
    intruded : Intrusion z y → Closure z₀ z y

  pub Closure-next :
      {z₀ z y x : Chains L Q L' Q' P}
      → Step T U here sent answered y x
      → Closure z₀ z y
      → Closure z₀ z x
  Closure-next st (cancelled c) = cancelled (record {
    at = c.at;
    origin = c.origin;
    before = c.before;
    is_due = c.is_due;
    signed = c.signed;
    succeeds = c.succeeds;
    after = Reach.next c.after st;
  })
  Closure-next st (judged v) = judged (Verdict-next T U here sent answered _ d st v)
  Closure-next st (intruded c) = intruded (record {
    at = c.at;
    batch = c.batch;
    max_weight = c.max_weight;
    sender = c.sender;
    sent_at = c.sent_at;
    bytes = c.bytes;
    message = c.message;
    before = c.before;
    is_in = c.is_in;
    third = c.third;
    decoded = c.decoded;
    is_answer = c.is_answer;
    after = Reach.next c.after st;
  })
