-- ===== src/Frame.antt =====
-- What the pallets take from FRAME and XCM through `trait Config`: a reservable currency, the
-- signer of an origin, the codec of the messages and the sender of XCM. None of it is code of the
-- repository; the laws of the currency are those that `ReservableCurrency` documents.
use xcm_auto_bank.Base.{
  ℕ, ◌+◌, ◌-◌, ◌≤◌, ◌≡◌, Bool, true, false, Option, List, ◌==◌, if◌then◌else◌, min, ◌∙◌,
}
use xcm_auto_bank.Base.Action.{Result, ok, err}
use xcm_auto_bank.Common.{XcmpMessage}

-- `BodyId`: the executive, and the others by a number.
pub data BodyId : Type 0 where
  executive : BodyId
  body : ℕ → BodyId

-- The interiors that the code names: none, and one junction of a parachain or of a plurality. The
-- pallets build `(Parent, Parachain(id))`.
pub data Junction : Type 0 where
  here : Junction
  parachain : ℕ → Junction
  plurality : BodyId → Junction

pub record MultiLocation : Type 0 where
  pub parents : ℕ
  pub interior : Junction

-- `OriginKind`, which the sender of a call chooses.
pub data OriginKind : Type 0 where
  native sovereign_account superuser xcm : OriginKind

-- `Instruction::Transact`, the one instruction of each message.
pub record Transact : Type 0 where
  pub origin_type : OriginKind
  pub require_weight_at_most : ℕ
  pub call : List ℕ

-- `ReservableCurrency`: `L` is the state of all balances, `F` the errors.
pub record Currency (L F : Type 0) : Type 0 where
  pub free_balance : L → ℕ → ℕ
  pub reserved_balance : L → ℕ → ℕ
  pub can_reserve : L → ℕ → ℕ → Bool
  pub reserve : L → ℕ → ℕ → Result F L
  pub unreserve : L → ℕ → ℕ → L
  -- `repatriate_reserved(slashed, beneficiary, value, Free)`
  pub repatriate_reserved : L → ℕ → ℕ → ℕ → Result F L

-- The associated types and the functions of `T: Config`: `Q` is the state of the message queues,
-- `O` the origins and `P` the payloads.
pub record Config (L Q F O P : Type 0) : Type 0 where
  pub currency : Currency L F
  pub ensure_signed : O → Result F ℕ
  -- `T::XcmpMessageSender::send_xcm`, and whether it returned `Ok`
  pub send_xcm : Q → MultiLocation → List Transact → Bool × Q
  pub encode : XcmpMessage P → List ℕ
  pub decode : List ℕ → Option (XcmpMessage P)
  -- the encoding of a `Vec<u8>`
  pub encode_bytes : List ℕ → List ℕ

-- The documented behaviour of the currency.
pub record IsReservable {L F : Type 0} (c : Currency L F) : Type 0 where
  -- `can_reserve` tells whether `reserve` will succeed
  pub can_reserve_ok :
      (l : L) (a v : ℕ) → c.can_reserve l a v ≡ true → (l' : L) × (c.reserve l a v ≡ ok l')
  -- and depends on the account's own balance
  pub can_reserve_other :
      (l l' : L) (a b v w : ℕ)
      → c.reserve l a v ≡ ok l'
      → (a == b) ≡ false
      → c.can_reserve l' b w ≡ c.can_reserve l b w
  pub reserve_covered : (l l' : L) (a v : ℕ) → c.reserve l a v ≡ ok l' → v ≤ c.free_balance l a
  pub reserve_reserved :
      (l l' : L) (a v b : ℕ)
      → c.reserve l a v ≡ ok l'
      → c.reserved_balance l' b
        ≡ (if a == b then c.reserved_balance l b + v else c.reserved_balance l b)
  pub reserve_free :
      (l l' : L) (a v b : ℕ)
      → c.reserve l a v ≡ ok l'
      → c.free_balance l' b ≡ (if a == b then c.free_balance l b - v else c.free_balance l b)
  -- up to `v` goes back from the reserve
  pub unreserve_reserved :
      (l : L) (a v b : ℕ)
      → c.reserved_balance (c.unreserve l a v) b
        ≡ (if a == b then c.reserved_balance l b - v else c.reserved_balance l b)
  pub unreserve_free :
      (l : L) (a v b : ℕ)
      → c.free_balance (c.unreserve l a v) b ≡ (
          if a == b
          then c.free_balance l b + min v (c.reserved_balance l b)
          else c.free_balance l b)
  -- up to `v` goes from the reserve of `a` to the free balance of `b`
  pub repatriate_reserved_reserved :
      (l l' : L) (a b v d : ℕ)
      → c.repatriate_reserved l a b v ≡ ok l'
      → c.reserved_balance l' d
        ≡ (if a == d then c.reserved_balance l d - v else c.reserved_balance l d)
  pub repatriate_reserved_free :
      (l l' : L) (a b v d : ℕ)
      → c.repatriate_reserved l a b v ≡ ok l'
      → c.free_balance l' d ≡ (
          if b == d
          then c.free_balance l d + min v (c.reserved_balance l a)
          else c.free_balance l d)

-- A reserve that was announced is still possible after one on another account.
pub reserve_second :
    {L F : Type 0} (c : Currency L F) (laws : IsReservable c) (l l' : L) (a b v w : ℕ) (f : F)
    → c.reserve l a v ≡ ok l'
    → (a == b) ≡ false
    → c.can_reserve l b w ≡ true
    → c.reserve l' b w ≡ err f
    → ⊥
reserve_second c laws l l' a b v w f h ne can fails =
    let (l'', e) = laws.can_reserve_ok l' b w (laws.can_reserve_other l l' a b v w h ne ∙ can) in cc
