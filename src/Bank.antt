-- ===== src/Bank.antt =====
-- A ledger and a configuration to run the pallets with: two balances for each account, a queue
-- that keeps what is sent, and messages as lists of numbers.
use xcm_auto_bank.Base.{
  ℕ, ◌+◌, ◌-◌, ◌<◌, ◌≡◌, min, Bool, true, Option, none, some, List, [], ◌∷◌, ◌++◌, leb, ◌==◌,
  if◌then◌else◌, arith,
}
use xcm_auto_bank.Base.Action.{Result, ok, err}
use xcm_auto_bank.Common.{XcmpMessage, busy, accepted}
use xcm_auto_bank.Frame.{Config, Currency, IsReservable, MultiLocation, Transact}
use xcm_auto_bank.Service.{ServiceConfig}

pub record Ledger : Type 0 where
  pub free : ℕ → ℕ
  pub reserved : ℕ → ℕ

pub data BankError : Type 0 where
  bad_origin insufficient_balance dead_account : BankError

abbrev pub put : (ℕ → ℕ) → ℕ → ℕ → ℕ → ℕ
put f a v b = if a == b then v else f b

abbrev pub Queues : Type 0
Queues = List (MultiLocation × List Transact)

-- Nothing can be paid to an account that has no balance.
abbrev pub bank : Currency Ledger BankError
bank = record {
  free_balance = λ l. l.free;
  reserved_balance = λ l. l.reserved;
  can_reserve = λ l a v. leb v (l.free a);
  reserve = λ l a v.
      if leb v (l.free a)
      then ok (record {
        free = put l.free a (l.free a - v);
        reserved = put l.reserved a (l.reserved a + v);
      })
      else err insufficient_balance;
  unreserve = λ l a v. record {
    free = put l.free a (l.free a + min v (l.reserved a));
    reserved = put l.reserved a (l.reserved a - v);
  };
  repatriate_reserved = λ l a b v.
      if l.free b + l.reserved b == 0
      then err dead_account
      else ok (record {
        free = put l.free b (l.free b + min v (l.reserved a));
        reserved = put l.reserved a (l.reserved a - v);
      });
}

pub bank-IsReservable : IsReservable bank
bank-IsReservable = record {
  can_reserve_ok = λ l a v h. (
    record { free = put l.free a (l.free a - v); reserved = put l.reserved a (l.reserved a + v) },
    ground arith,
  );
  can_reserve_other = λ l l' a b v w h n. ground arith;
  reserve_covered = λ l l' a v h. ground arith;
  reserve_reserved = λ l l' a v b h. ground arith;
  reserve_free = λ l l' a v b h. ground arith;
  unreserve_reserved = λ l a v b. ground arith;
  unreserve_free = λ l a v b. ground arith;
  repatriate_reserved_reserved = λ l l' a b v d h. ground arith;
  repatriate_reserved_free = λ l l' a b v d h. ground arith;
}

-- An account with a free balance can be paid, also after a release.
pub bank_pays :
    (l : Ledger) (client fee device value : ℕ)
    → 0 < l.free client
    → (l' : Ledger) × (bank.repatriate_reserved (bank.unreserve l client fee) device client value
        ≡ ok l')
bank_pays l client fee device value h =
    let m = bank.unreserve l client fee in
    (
      record {
        free = put m.free client (m.free client + min value (m.reserved device));
        reserved = put m.reserved device (m.reserved device - value);
      },
      ground arith,
    )

abbrev pub flag : Bool → ℕ
flag b = if b then 1 else 0

abbrev pub encode : XcmpMessage ℕ → List ℕ
encode (XcmpMessage.new_order client o) = 0 ∷ client ∷ o.until ∷ o.payload ∷ o.fee ∷ o.device ∷ []
encode (XcmpMessage.order_accept client device) = 1 ∷ client ∷ device ∷ []
encode (XcmpMessage.order_reject client device onoff) = 2 ∷ client ∷ device ∷ flag onoff ∷ []
encode (XcmpMessage.order_done client device onoff) = 3 ∷ client ∷ device ∷ flag onoff ∷ []

abbrev pub decode : List ℕ → Option (XcmpMessage ℕ)
decode (tag ∷ client ∷ until ∷ payload ∷ fee ∷ device ∷ []) =
    if tag == 0
    then some (
        XcmpMessage.new_order client
          (record { until = until; payload = payload; fee = fee; device = device }))
    else none
decode (tag ∷ client ∷ device ∷ []) =
    if tag == 1 then some (XcmpMessage.order_accept client device) else none
decode (tag ∷ client ∷ device ∷ onoff ∷ []) =
    if tag == 2
    then some (XcmpMessage.order_reject client device (onoff == 1))
    else if tag == 3
    then some (XcmpMessage.order_done client device (onoff == 1))
    else none
decode _ = none

-- An origin is the account that signed it.
abbrev pub signer : Option ℕ → Result BankError ℕ
signer none = err bad_origin
signer (some who) = ok who

abbrev pub chain : Config Ledger Queues BankError (Option ℕ) ℕ
chain = record {
  currency = bank;
  ensure_signed = signer;
  send_xcm = λ q to message. (true, q ++ (to, message) ∷ []);
  encode = encode;
  decode = decode;
  encode_bytes = λ bytes. bytes;
}

-- The parachain 7, where the payload says whether a device is busy or has accepted at once.
abbrev pub service_chain : ServiceConfig Ledger Queues BankError (Option ℕ) ℕ
service_chain = record {
  base = chain;
  self_para_id = 7;
  on_received = λ device o. some (if o.payload == 0 then busy else accepted);
}

-- Each account has 100 free and nothing reserved, but the accounts from 90 on do not exist.
abbrev pub funds : Ledger
funds = record { free = λ a. if leb 90 a then 0 else 100; reserved = λ _. 0 }
