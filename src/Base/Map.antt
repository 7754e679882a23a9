-- ===== src/Base/Map.antt =====
-- A storage map keyed by account numbers (FRAME's `StorageMap` with `OptionQuery`), as an
-- association list.
use xcm_auto_bank.Base.{
  ℕ, ◌+◌, ◌≡◌, refl, Bool, true, false, Option, none, some, List, [], ◌∷◌, arith, ◌==◌,
  if◌then◌else◌,
}

abbrev pub StorageMap {ℓ} : Type ℓ → Type ℓ
StorageMap V = List (ℕ × V)

module _ {ℓ} {V : Type ℓ} where
  -- `Map::get(k)`
  abbrev pub lookup : ℕ → StorageMap V → Option V
  lookup k [] = none
  lookup k (e ∷ m) = if k == e.0 then some e.1 else lookup k m

  -- `Map::contains_key(k)`
  abbrev pub contains_key : ℕ → StorageMap V → Bool
  contains_key k m = elim (lookup k m) [ none ↦ false | some _ ↦ true ]

  -- `Map::insert(k, v)`
  unfoldable pub insert : ℕ → V → StorageMap V → StorageMap V
  insert k v [] = (k, v) ∷ []
  insert k v (e ∷ m) = if k == e.0 then (k, v) ∷ m else e ∷ insert k v m

  -- `Map::remove(k)`
  pub remove : ℕ → StorageMap V → StorageMap V
  remove k [] = []
  remove k (e ∷ m) = let rest = remove k m in if k == e.0 then rest else e ∷ rest

  pub lookup-insert :
      (j k : ℕ) (v : V) (m : StorageMap V)
      → lookup j (insert k v m) ≡ (if j == k then some v else lookup j m)
  unfolding insert
  lookup-insert j k v [] = ground arith
  lookup-insert j k v (e ∷ m) = ground (arith, lookup-insert j k v m)

  pub lookup-remove :
      (j k : ℕ) (m : StorageMap V) → lookup j (remove k m) ≡ (if j == k then none else lookup j m)
  unfolding remove
  lookup-remove j k [] = ground arith
  lookup-remove j k (e ∷ m) = ground (arith, lookup-remove j k m)

  -- Every key stands once.
  abbrev pub IsMap : StorageMap V → Type ℓ
  IsMap [] = Unit
  IsMap (e ∷ m) = (lookup e.0 m ≡ none) × IsMap m

  pub insert-IsMap : (k : ℕ) (v : V) (m : StorageMap V) → IsMap m → IsMap (insert k v m)
  unfolding insert
  insert-IsMap k v [] h = (refl, tt)
  insert-IsMap k v (e ∷ m) h = ground (arith, insert-IsMap k v m h.1, lookup-insert e.0 k v m)

  pub remove-IsMap : (k : ℕ) (m : StorageMap V) → IsMap m → IsMap (remove k m)
  unfolding remove
  remove-IsMap k [] h = tt
  remove-IsMap k (e ∷ m) h = ground (arith, remove-IsMap k m h.1, lookup-remove e.0 k m)

  -- The sum of a share over the entries.
  abbrev pub total : (ℕ → V → ℕ) → StorageMap V → ℕ
  total f [] = 0
  total f (e ∷ m) = f e.0 e.1 + total f m

  pub total-insert_new :
      (f : ℕ → V → ℕ) (k : ℕ) (v : V) (m : StorageMap V)
      → lookup k m ≡ none
      → total f (insert k v m) ≡ total f m + f k v
  unfolding insert
  total-insert_new f k v [] h = omega arith
  total-insert_new f k v (e ∷ m) h = ground (arith, total-insert_new f k v m)

  pub remove-none : (k : ℕ) (m : StorageMap V) → lookup k m ≡ none → remove k m ≡ m
  unfolding remove
  remove-none k [] h = refl
  remove-none k (e ∷ m) h = ground (arith, remove-none k m)

  pub total-remove :
      (f : ℕ → V → ℕ) (k : ℕ) (v : V) (m : StorageMap V)
      → IsMap m
      → lookup k m ≡ some v
      → total f (remove k m) + f k v ≡ total f m
  unfolding remove
  total-remove f k v [] d h = cc
  total-remove f k v (e ∷ m) d h = ground (arith, total-remove f k v m d.1, remove-none k m)

  -- Shares that agree on the keys that the map holds have the same sum.
  pub total-congr :
      (f g : ℕ → V → ℕ) (m : StorageMap V)
      → IsMap m
      → ((k : ℕ) (v : V) → lookup k m ≡ some v → f k v ≡ g k v)
      → total f m ≡ total g m
  total-congr f g [] d h = refl
  total-congr f g (e ∷ m) d h = ground (arith, h e.0 e.1, total-congr f g m d.1 tail)
    where
      tail : (k : ℕ) (v : V) → lookup k m ≡ some v → f k v ≡ g k v
      tail k v p = ground (arith, h k v)
