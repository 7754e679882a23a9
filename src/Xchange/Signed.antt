-- ===== src/Xchange/Signed.antt =====
-- Calls and who signed them (pallets/xchange/src/lib.rs, `ensure_signed`).
use xcm_auto_bank.Base.{ℕ, ◌≡◌, refl, Bool, arith}
use xcm_auto_bank.Base.Action.{err}
use xcm_auto_bank.Common.{OrderBase}
use xcm_auto_bank.Frame.{Config}
use xcm_auto_bank.Pallet.{other}
use xcm_auto_bank.Xchange.{Store, test, order, cancel, register}

module _ {L Q F O P : Type 0} (T : Config L Q F O P) (s : Store L Q P) (origin : O) (f : F)
    (unsigned : T.ensure_signed origin ≡ err f) where
  pub order_unsigned : (o : OrderBase P) → order T origin o s ≡ (err (other f), s)
  unfolding order
  order_unsigned o = ground arith

  pub cancel_unsigned : (device : ℕ) → cancel T origin device s ≡ (err (other f), s)
  unfolding cancel
  cancel_unsigned device = ground arith

  pub register_unsigned :
      (paraid penalty wcd : ℕ) (onoff : Bool)
      → register T origin paraid penalty wcd onoff s ≡ (err (other f), s)
  unfolding register
  register_unsigned paraid penalty wcd onoff = ground arith

-- A call sees of its origin who signed it.
module _ {L Q F O P : Type 0} (T : Config L Q F O P) (s : Store L Q P) (a b : O)
    (same : T.ensure_signed a ≡ T.ensure_signed b) where
  pub order_signed : (o : OrderBase P) → order T a o s ≡ order T b o s
  unfolding order
  order_signed o = rw same refl

  pub cancel_signed : (device : ℕ) → cancel T a device s ≡ cancel T b device s
  unfolding cancel
  cancel_signed device = rw same refl

  pub register_signed :
      (paraid penalty wcd : ℕ) (onoff : Bool)
      → register T a paraid penalty wcd onoff s ≡ register T b paraid penalty wcd onoff s
  unfolding register
  register_signed paraid penalty wcd onoff = rw same refl

  pub test_signed : test T a s ≡ test T b s
  unfolding test
  test_signed = refl
