-- ===== src/Outbox.antt =====
-- What waits for the other parachains (`T::XcmpMessageSender` in pallets/xchange/src/lib.rs and
-- pallets/xchange-service/src/lib.rs; the router is no code of the repository).
use xcm_auto_bank.Base.{ℕ, suc, ◌≤◌, ◌≡◌, ◌⊎◌, inl, inr, Bool, List, [], ◌∷◌, ◌++◌, arith}
use xcm_auto_bank.Base.Member.{IsIn, count, IsIn-append, count-append}
use mathlib.Core.Path.{subst}
use xcm_auto_bank.Frame.{MultiLocation, parachain, Transact}
use xcm_auto_bank.Pallet.{transact}

abbrev pub Packet : Type 0
Packet = MultiLocation × List Transact

-- A call for the sibling parachain `para`.
abbrev pub to_sibling : ℕ → List ℕ → Packet
to_sibling para bytes = (record { parents = 1; interior = parachain para }, transact bytes)

pub to_sibling_inj : (a b : ℕ) (x y : List ℕ) → to_sibling a x ≡ to_sibling b y → (a ≡ b) × (x ≡ y)
to_sibling_inj a b x y e = (cc, cc)

module _ {Q : Type 0} (send : Q → MultiLocation → List Transact → Bool × Q) where
  -- Nothing is handed to the router, or one message of the kind `Kind` is.
  pub data Hands (q : Q) (Kind : Packet → Type 0) : Q → Type 0 where
    nothing : Hands q Kind q
    one : (p : Packet) → Kind p → Hands q Kind (send q p.0 p.1).1

  -- A queue that is known by an equation.
  pub Hands-nothing : {q q' : Q} {Kind : Packet → Type 0} → q' ≡ q → Hands q Kind q'
  Hands-nothing e = rw e nothing

  pub Hands-one :
      {q q' : Q} {Kind : Packet → Type 0} (p : Packet)
      → Kind p
      → q' ≡ (send q p.0 p.1).1
      → Hands q Kind q'
  Hands-one p kind e = rw e (one p kind)

  -- `SendXcm`: a message is put at the end of what waits, or refused, and then nothing changes.
  pub record IsOutbox (pending : Q → List Packet) : Type 0 where
    pub sends :
        (q : Q) (p : Packet)
        → (pending (send q p.0 p.1).1 ≡ pending q)
          ⊎ (pending (send q p.0 p.1).1 ≡ pending q ++ p ∷ [])

  module _ {pending : Q → List Packet} (outbox : IsOutbox pending) where
    -- What waits afterwards has waited before, or is the message.
    pub Hands-IsIn :
        {q q' : Q} {Kind : Packet → Type 0} (p : Packet)
        → Hands q Kind q'
        → IsIn p (pending q')
        → IsIn p (pending q) ⊎ Kind p
    Hands-IsIn p nothing i = inl i
    Hands-IsIn {q} {Kind = Kind} p (one p' kind) i = elim (outbox.sends q p') [
      | inl e ↦ inl (subst (IsIn p) e i)
      | inr e ↦ elim (IsIn-append p p' (pending q) (subst (IsIn p) e i)) [
        | inl before ↦ inl before
        | inr same ↦ inr (rw same kind)
      ]
    ]

    pub Hands-count :
        {q q' : Q} {Kind : Packet → Type 0}
        → Hands q Kind q'
        → count (pending q') ≤ suc (count (pending q))
    Hands-count nothing = omega arith
    Hands-count {q} (one p' kind) = elim (outbox.sends q p') [
      | inl e ↦ ground (arith, e)
      | inr e ↦ ground (arith, e, count-append p' (pending q))
    ]
