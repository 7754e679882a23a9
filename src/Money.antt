-- ===== src/Money.antt =====
-- The moves of money that end an order in both pallets: the fee and the penalty
-- (pallets/xchange/src/lib.rs, pallets/xchange-service/src/lib.rs).
use xcm_auto_bank.Base.{
  ℕ, ◌+◌, ◌-◌, ◌≤◌, ◌<◌, ◌≡◌, ◌⊎◌, false, min, arith, ltb, ◌==◌, if◌then◌else◌,
}
use xcm_auto_bank.Base.Action.{ok}
use xcm_auto_bank.Frame.{Currency, IsReservable}

module _ {L F : Type 0} (c : Currency L F) where
  -- The penalty goes back to the device before the deadline, and to `beneficiary` from then on.
  abbrev pub PenaltyMoves : ℕ → ℕ → ℕ → ℕ → ℕ → L → L → Type 0
  PenaltyMoves now until device beneficiary penalty l l' =
      ((now < until) × (l' ≡ c.unreserve l device penalty))
      ⊎ ((until ≤ now) × (c.repatriate_reserved l device beneficiary penalty ≡ ok l'))

  -- From the ledger `l` to `l'` the client has paid `fee` out of its reserve, and the penalty has
  -- left the device's reserve; `to_client` and `to_device` have gone to their free balances, and
  -- no other account has changed.
  pub record Pays (l l' : L) (client device fee penalty to_client to_device : ℕ) : Type 0 where
    pub client_free : c.free_balance l' client ≡ c.free_balance l client + to_client
    pub device_free : c.free_balance l' device ≡ c.free_balance l device + to_device
    pub client_reserved : c.reserved_balance l' client + fee ≡ c.reserved_balance l client
    pub device_reserved : c.reserved_balance l' device + penalty ≡ c.reserved_balance l device
    pub others_free :
        (a : ℕ)
        → (client == a) ≡ false
        → (device == a) ≡ false
        → c.free_balance l' a ≡ c.free_balance l a
    pub others_reserved :
        (a : ℕ)
        → (client == a) ≡ false
        → (device == a) ≡ false
        → c.reserved_balance l' a ≡ c.reserved_balance l a

  module _ (laws : IsReservable c) where
    -- Either way the penalty leaves the device's reserve.
    pub PenaltyMoves-reserved :
        (now until device beneficiary penalty : ℕ) (l l' : L)
        → PenaltyMoves now until device beneficiary penalty l l'
        → (a : ℕ)
        → c.reserved_balance l' a
          ≡ (if device == a then c.reserved_balance l a - penalty else c.reserved_balance l a)
    PenaltyMoves-reserved now until device beneficiary penalty l l' moves a =
        grind (arith, laws.unreserve_reserved, laws.repatriate_reserved_reserved)

    PenaltyMoves-free :
        (now until device beneficiary penalty : ℕ) (l l' : L)
        → PenaltyMoves now until device beneficiary penalty l l'
        → (a : ℕ)
        → c.free_balance l' a ≡ (
            if (if ltb now until then device else beneficiary) == a
            then c.free_balance l a + min penalty (c.reserved_balance l device)
            else c.free_balance l a)
    PenaltyMoves-free now until device beneficiary penalty l l' moves a =
        grind (arith, laws.unreserve_free, laws.repatriate_reserved_free)

    module _ (now until client device fee penalty : ℕ) (l l₁ l₂ : L)
        (others : (client == device) ≡ false) (has_fee : fee ≤ c.reserved_balance l client)
        (has_penalty : penalty ≤ c.reserved_balance l device)
        (moves : PenaltyMoves now until device client penalty l₁ l₂) where
      -- The fee is moved to the device, and then the penalty.
      pub fee_then_penalty :
          c.repatriate_reserved l client device fee ≡ ok l₁
          → Pays l l₂ client device fee penalty
              (if ltb now until then 0 else penalty)
              (fee + (if ltb now until then penalty else 0))
      fee_then_penalty e =
          let reserved = PenaltyMoves-reserved now until device client penalty l₁ l₂ moves in
          let free = PenaltyMoves-free now until device client penalty l₁ l₂ moves in
          let r = λ (a : ℕ). laws.repatriate_reserved_reserved l l₁ client device fee a e in
          let f = λ (a : ℕ). laws.repatriate_reserved_free l l₁ client device fee a e in
          record {
            client_free = ground (arith, f client, free client, r device);
            device_free = ground (arith, f device, free device, r device);
            client_reserved = ground (arith, r client, reserved client);
            device_reserved = ground (arith, r device, reserved device);
            others_free = λ a n m. ground (arith, f a, free a);
            others_reserved = λ a n m. ground (arith, r a, reserved a);
          }

      -- The fee is released to the client, and then the penalty moves.
      pub refund_then_penalty :
          l₁ ≡ c.unreserve l client fee
          → Pays l l₂ client device fee penalty
              (fee + (if ltb now until then 0 else penalty))
              (if ltb now until then penalty else 0)
      refund_then_penalty e =
          let reserved = PenaltyMoves-reserved now until device client penalty l₁ l₂ moves in
          let free = PenaltyMoves-free now until device client penalty l₁ l₂ moves in
          let r = laws.unreserve_reserved l client fee in
          let f = laws.unreserve_free l client fee in
          record {
            client_free = ground (arith, f client, free client, r device);
            device_free = ground (arith, f device, free device, r device);
            client_reserved = ground (arith, r client, reserved client);
            device_reserved = ground (arith, r device, reserved device);
            others_free = λ a n m. ground (arith, f a, free a);
            others_reserved = λ a n m. ground (arith, r a, reserved a);
          }
