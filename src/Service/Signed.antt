-- ===== src/Service/Signed.antt =====
-- Calls and who signed them (pallets/xchange-service/src/lib.rs, `ensure_signed`).
use xcm_auto_bank.Base.{ℕ, ◌≡◌, refl, Bool, arith}
use xcm_auto_bank.Base.Action.{err}
use xcm_auto_bank.Common.{OrderBase}
use xcm_auto_bank.Pallet.{other}
use xcm_auto_bank.Service.{ServiceConfig, Store, order, cancel, accept, done, register, set_state}

module _ {L Q F O P : Type 0} (T : ServiceConfig L Q F O P) (s : Store L Q P) (origin : O) (f : F)
    (unsigned : T.ensure_signed origin ≡ err f) where
  pub order_unsigned : (o : OrderBase P) → order T origin o s ≡ (err (other f), s)
  unfolding order
  order_unsigned o = ground arith

  pub cancel_unsigned : (device : ℕ) → cancel T origin device s ≡ (err (other f), s)
  unfolding cancel
  cancel_unsigned device = ground arith

  pub accept_unsigned :
      (rejects onoff : Bool) → accept T origin rejects onoff s ≡ (err (other f), s)
  unfolding accept
  accept_unsigned rejects onoff = ground arith

  pub done_unsigned : (onoff : Bool) → done T origin onoff s ≡ (err (other f), s)
  unfolding done
  done_unsigned onoff = ground arith

  pub register_unsigned :
      (penalty wcd : ℕ) (onoff : Bool) → register T origin penalty wcd onoff s ≡ (err (other f), s)
  unfolding register
  register_unsigned penalty wcd onoff = ground arith

  pub set_state_unsigned : (onoff : Bool) → set_state T origin onoff s ≡ (err (other f), s)
  unfolding set_state
  set_state_unsigned onoff = ground arith

-- A call sees of its origin who signed it.
module _ {L Q F O P : Type 0} (T : ServiceConfig L Q F O P) (s : Store L Q P) (a b : O)
    (same : T.ensure_signed a ≡ T.ensure_signed b) where
  pub order_signed : (o : OrderBase P) → order T a o s ≡ order T b o s
  unfolding order
  order_signed o = rw same refl

  pub cancel_signed : (device : ℕ) → cancel T a device s ≡ cancel T b device s
  unfolding cancel
  cancel_signed device = rw same refl

  pub accept_signed :
      (rejects onoff : Bool) → accept T a rejects onoff s ≡ accept T b rejects onoff s
  unfolding accept
  accept_signed rejects onoff = rw same refl

  pub done_signed : (onoff : Bool) → done T a onoff s ≡ done T b onoff s
  unfolding done
  done_signed onoff = rw same refl

  pub register_signed :
      (penalty wcd : ℕ) (onoff : Bool)
      → register T a penalty wcd onoff s ≡ register T b penalty wcd onoff s
  unfolding register
  register_signed penalty wcd onoff = rw same refl

  pub set_state_signed : (onoff : Bool) → set_state T a onoff s ≡ set_state T b onoff s
  unfolding set_state
  set_state_signed onoff = rw same refl
