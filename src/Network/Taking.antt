-- ===== src/Network/Taking.antt =====
-- Packets that are taken out of a queue.
use xcm_auto_bank.Base.{
  ℕ, suc, ◌≡◌, refl, sym, ap, ◌∙◌, ◌⊎◌, inl, inr, List, [], ◌∷◌, ◌++◌, arith, ◌==◌, Bool-cases,
}
use xcm_auto_bank.Base.Member.{IsIn, count, count-middle}
use xcm_auto_bank.Frame.{
  Junction, OriginKind, native, sovereign_account, superuser, xcm, parachain, plurality, Transact,
}
use xcm_auto_bank.Outbox.{Packet, to_sibling}

-- A packet is taken out of a queue, wherever it stands.
pub record IsTaken (p : Packet) (before_queue after_queue : List Packet) : Type 0 where
  pub ahead : List Packet
  pub behind : List Packet
  pub was : before_queue ≡ ahead ++ p ∷ behind
  pub becomes : after_queue ≡ ahead ++ behind

pub IsTaken-count : {p : Packet} {l l' : List Packet} → IsTaken p l l' → count l ≡ suc (count l')
IsTaken-count {p} t =
    ap count t.was ∙ count-middle p t.ahead t.behind ∙ sym (ap (λ l. suc (count l)) t.becomes)

-- A packet is a call for the sibling parachain, or none.
abbrev IsFor : ℕ → Packet → Type 0
IsFor to p = (bytes : List ℕ) × (p ≡ to_sibling to bytes)

is_call :
    (to n m w : ℕ) (kind : OriginKind) (bytes : List ℕ)
    → let p : Packet = (
      record { parents = n; interior = parachain m },
      record { origin_type = kind; require_weight_at_most = w; call = bytes } ∷ [],
    ) in
      IsFor to p ⊎ (¬ IsFor to p)
is_call to n m w sovereign_account bytes = inr (λ k. ground arith)
is_call to n m w superuser bytes = inr (λ k. ground arith)
is_call to n m w xcm bytes = inr (λ k. ground arith)
is_call to n m w native bytes = elim (Bool-cases (n == 1)) [
  | inr e ↦ inr (λ k. ground arith)
  | inl e ↦ elim (Bool-cases (m == to)) [
    | inr e' ↦ inr (λ k. ground arith)
    | inl e' ↦ elim (Bool-cases (w == 0)) [
      | inr e'' ↦ inr (λ k. ground arith)
      | inl e'' ↦ inl (bytes, ground arith)
    ]
  ]
]

is_for :
    (to n : ℕ) (j : Junction) (calls : List Transact)
    → let p : Packet = (record { parents = n; interior = j }, calls) in IsFor to p ⊎ (¬ IsFor to p)
is_for to n (parachain m) (c ∷ []) = is_call to n m c.require_weight_at_most c.origin_type c.call
is_for to n Junction.here calls = inr (λ k. ground arith)
is_for to n (plurality b) calls = inr (λ k. ground arith)
is_for to n (parachain m) [] = inr (λ k. ground arith)
is_for to n (parachain m) (c ∷ d ∷ rest) = inr (λ k. ground arith)

-- In a queue there is a call for the sibling parachain, which can be taken out, or there is none.
pub take_out :
    (to : ℕ) (l : List Packet)
    → ((bytes : List ℕ) × (rest : List Packet) × IsTaken (to_sibling to bytes) l rest)
      ⊎ ((bytes : List ℕ) → ¬ IsIn (to_sibling to bytes) l)
take_out to [] = inr (λ bytes i. i)
take_out to (p ∷ l) = elim (is_for to p.0.parents p.0.interior p.1) [
  | inl (bytes, e) ↦
      inl (bytes, l, record { ahead = []; behind = l; was = ap (λ a. a ∷ l) e; becomes = refl })
  | inr n ↦ elim (take_out to l) [
    | inl (bytes, rest, t) ↦ inl (
      bytes,
      p ∷ rest,
      record {
        ahead = p ∷ t.ahead;
        behind = t.behind;
        was = ap (λ a. p ∷ a) t.was;
        becomes = ap (λ a. p ∷ a) t.becomes;
      },
    )
    | inr m ↦ inr (λ bytes i. elim i [ inl e ↦ n (bytes, sym e) | inr later ↦ m bytes later ])
  ]
]
