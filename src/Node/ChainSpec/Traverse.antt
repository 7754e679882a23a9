-- ===== src/Node/ChainSpec/Traverse.antt =====
-- What a traversal keeps of a list (node/src/chain_spec.rs derives the keys of a list of seeds).
use mathlib.Core.Path.{subst, subst⁻¹}
use xcm_auto_bank.Base.{
  suc, ◌≡◌, refl, ap, ◌∙◌, inl, inr, Option, some, List, [], ◌∷◌, map, arith, Option-cases,
  some_inj,
}
use xcm_auto_bank.Base.Member.{IsIn, count}
use xcm_auto_bank.Node.ChainSpec.{traverse}

pub IsIn-map : {A B : Type 0} (f : A → B) (a : A) (xs : List A) → IsIn a xs → IsIn (f a) (map f xs)
IsIn-map f a [] h = absurd h
IsIn-map f a (b ∷ rest) (inl e) = inl (ap f e)
IsIn-map f a (b ∷ rest) (inr h) = inr (IsIn-map f a rest h)

-- Each value of a traversal stems from an element, and each element has its value.
pub IsIn-traverse :
    {A B : Type 0} (f : A → Option B) (xs : List A) (bs : List B)
    → traverse f xs ≡ some bs
    → (b : B) → IsIn b bs
    → (a : A) × IsIn a xs × (f a ≡ some b)
unfolding traverse
IsIn-traverse f [] bs e b h = absurd (subst⁻¹ (IsIn b) (some_inj [] bs e) h)
IsIn-traverse f (a ∷ rest) bs e b h = elim (Option-cases (f a)) [
  | inl missing ↦ absurd (ground arith)
  | inr (v, value) ↦ elim (Option-cases (traverse f rest)) [
    | inl missing ↦ absurd (ground arith)
    | inr (vs, all) ↦ elim (subst (IsIn b) (some_inj bs (v ∷ vs) (ground arith)) h) [
      | inl same ↦ (a, inl refl, cc)
      | inr later ↦ let (c, i, k) = IsIn-traverse f rest vs all b later in (c, inr i, k)
    ]
  ]
]

pub traverse-IsIn :
    {A B : Type 0} (f : A → Option B) (xs : List A) (bs : List B)
    → traverse f xs ≡ some bs
    → (a : A) (b : B) → IsIn a xs
    → f a ≡ some b
    → IsIn b bs
unfolding traverse
traverse-IsIn f [] bs e a b h k = absurd h
traverse-IsIn f (x ∷ rest) bs e a b h k = elim (Option-cases (f x)) [
  | inl missing ↦ absurd (ground arith)
  | inr (v, value) ↦ elim (Option-cases (traverse f rest)) [
    | inl missing ↦ absurd (ground arith)
    | inr (vs, all) ↦ subst⁻¹ (IsIn b) (some_inj bs (v ∷ vs) (ground arith)) (elim h [
      | inl same ↦ inl (some_inj b v (cc))
      | inr later ↦ inr (traverse-IsIn f rest vs all a b later k)
    ])
  ]
]

pub count-traverse :
    {A B : Type 0} (f : A → Option B) (xs : List A) (bs : List B)
    → traverse f xs ≡ some bs
    → count bs ≡ count xs
unfolding traverse
count-traverse f [] bs e = ground (arith, some_inj [] bs e)
count-traverse f (x ∷ rest) bs e = elim (Option-cases (f x)) [
  | inl missing ↦ absurd (ground arith)
  | inr (v, value) ↦ elim (Option-cases (traverse f rest)) [
    | inl missing ↦ absurd (ground arith)
    | inr (vs, all) ↦
        ap count (some_inj bs (v ∷ vs) (ground arith)) ∙ ap suc (count-traverse f rest vs all)
  ]
]
