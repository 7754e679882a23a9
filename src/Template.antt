-- ===== src/Template.antt =====
-- The template pallet (pallets/template/src/lib.rs): one stored number.
mod Tests
use xcm_auto_bank.Base.{
  ℕ, zero, suc, ◌+◌, ◌-◌, ◌^◌, ◌≤◌, ◌<◌, ⊤, ◌≡◌, refl, ap, ◌∙◌, Option, none, some, List, [], ◌∷◌,
  ◌++◌, ltb, if◌then◌else◌, arith, inl, inr,
}
use xcm_auto_bank.Base.Action.{Result, ok, err, Action, gets, modify, raise, or_raise, ◌>>=◌, ◌>>◌}
use xcm_auto_bank.Pallet.{Failure, module_error, other, try}

pub data Event : Type 0 where
  something_stored : ℕ → ℕ → Event

pub data Error : Type 0 where
  none_value storage_overflow : Error

pub record Store : Type 0 where
  pub something : Option ℕ
  pub events : List Event

-- `u32::checked_add(1)`
abbrev pub checked_suc : ℕ → Option ℕ
checked_suc n = if ltb (n + 1) (2 ^ 32) then some (n + 1) else none

module _ {F O : Type 0} (ensure_signed : O → Result F ℕ) where
  -- `Pallet::do_something`
  pub do_something : O → ℕ → Action Store (Failure Error F) ⊤
  do_something origin something = do
    who ← try (ensure_signed origin)
    modify (λ s. record s { something = some something })
    modify (λ s. record s { events = s.events ++ Event.something_stored something who ∷ [] })

  -- `Pallet::cause_error`
  pub cause_error : O → Action Store (Failure Error F) ⊤
  cause_error origin = do
    who ← try (ensure_signed origin)
    stored ← gets (λ s. s.something)
    old ← or_raise stored (module_error none_value)
    new ← or_raise (checked_suc old) (module_error storage_overflow)
    modify (λ s. record s { something = some new })

  -- Without a signature neither call does anything.
  pub do_something_unsigned :
      (origin : O) (f : F)
      → ensure_signed origin ≡ err f
      → (something : ℕ) (s : Store) → do_something origin something s ≡ (err (other f), s)
  unfolding do_something
  do_something_unsigned origin f unsigned something s = ground arith

  pub cause_error_unsigned :
      (origin : O) (f : F)
      → ensure_signed origin ≡ err f
      → (s : Store) → cause_error origin s ≡ (err (other f), s)
  unfolding cause_error
  cause_error_unsigned origin f unsigned s = ground arith

  -- Of their origin they see who signed.
  module _ (a b : O) (same : ensure_signed a ≡ ensure_signed b) (s : Store) where
    pub do_something_signed :
        (something : ℕ) → do_something a something s ≡ do_something b something s
    unfolding do_something
    do_something_signed something = rw same refl

    pub cause_error_signed : cause_error a s ≡ cause_error b s
    unfolding cause_error
    cause_error_signed = rw same refl

  -- `cause_error` called `n` times by the same origin, whatever it returns.
  pub repeated : ℕ → O → Store → Store
  repeated zero origin s = s
  repeated (suc n) origin s = (cause_error origin (repeated n origin s)).1

  module _ (origin : O) (who : ℕ) (signed : ensure_signed origin ≡ ok who) where
    increments :
        (v : ℕ) (log : List Event)
        → (cause_error origin (record { something = some v; events = log })).1
          ≡ record { something = some (if ltb (v + 1) (2 ^ 32) then v + 1 else v); events = log }
    unfolding cause_error
    increments v log = ground arith

    repeated_lem :
        (n v : ℕ) (log : List Event)
        → v < 2 ^ 32
        → repeated n origin (record { something = some v; events = log }) ≡ record {
          something = some (if ltb (v + n) (2 ^ 32) then v + n else 2 ^ 32 - 1);
          events = log;
        }
    unfolding repeated
    repeated_lem zero v log h = ground arith
    repeated_lem (suc n) v log h =
        ap (λ t. (cause_error origin t).1) (repeated_lem n v log h)
        ∙ increments (if ltb (v + n) (2 ^ 32) then v + n else 2 ^ 32 - 1) log
        ∙ ground arith

    -- After a signed `do_something` with a `u32`, any number of calls of `cause_error` counts up
    -- from it by one each and stays at the largest `u32`, never wrapping; no event follows the
    -- first.
    pub cause_error_counts :
        (n v : ℕ) (s : Store)
        → v < 2 ^ 32
        → repeated n origin (do_something origin v s).1 ≡ record {
          something = some (if ltb (v + n) (2 ^ 32) then v + n else 2 ^ 32 - 1);
          events = s.events ++ Event.something_stored v who ∷ [];
        }
    unfolding do_something
    cause_error_counts n v s h =
        rw signed (repeated_lem n v (s.events ++ Event.something_stored v who ∷ []) h)
