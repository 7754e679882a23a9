-- ===== src/Base/Member.antt =====
-- Members of a list, and how many there are.
use xcm_auto_bank.Base.{ℕ, suc, ◌≡◌, refl, ap, ◌⊎◌, inl, inr, List, [], ◌∷◌, ◌++◌}

abbrev pub IsIn : {A : Type 0} → A → List A → Type 0
IsIn a [] = ⊥
IsIn a (b ∷ rest) = (a ≡ b) ⊎ IsIn a rest

abbrev pub count : {A : Type 0} → List A → ℕ
count [] = 0
count (a ∷ rest) = suc (count rest)

pub IsIn-append : {A : Type 0} (a b : A) (xs : List A) → IsIn a (xs ++ b ∷ []) → IsIn a xs ⊎ (a ≡ b)
IsIn-append a b [] (inl e) = inr e
IsIn-append a b [] (inr h) = absurd h
IsIn-append a b (x ∷ rest) (inl e) = inl (inl e)
IsIn-append a b (x ∷ rest) (inr h) = elim (IsIn-append a b rest h) [
  | inl i ↦ inl (inr i)
  | inr e ↦ inr e
]

pub count-append : {A : Type 0} (a : A) (xs : List A) → count (xs ++ a ∷ []) ≡ suc (count xs)
count-append a [] = refl
count-append a (x ∷ rest) = ap suc (count-append a rest)

-- An element taken out of the middle.
pub count-middle :
    {A : Type 0} (a : A) (before after : List A)
    → count (before ++ a ∷ after) ≡ suc (count (before ++ after))
count-middle a [] after = refl
count-middle a (x ∷ rest) after = ap suc (count-middle a rest after)
