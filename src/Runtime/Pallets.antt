-- ===== src/Runtime/Pallets.antt =====
-- The pallets of the runtime and their indices, the first byte of every call and event
-- (runtime/src/lib.rs, `construct_runtime!`).
use xcm_auto_bank.Base.{ℕ, ◌<◌, ◌≡◌, Option, none, some, List, [], ◌∷◌, ◌==◌, if◌then◌else◌, arith}

pub data PalletName : Type 0 where
  system parachain_system timestamp parachain_info : PalletName
  balances transaction_payment : PalletName
  authorship collator_selection session aura aura_ext : PalletName
  xcmp_queue polkadot_xcm cumulus_xcm dmp_queue : PalletName
  template_pallet xchange_pallet xchange_service spambot : PalletName

pub index : PalletName → ℕ
index system = 0
index parachain_system = 1
index timestamp = 2
index parachain_info = 3
index balances = 10
index transaction_payment = 11
index authorship = 20
index collator_selection = 21
index session = 22
index aura = 23
index aura_ext = 24
index xcmp_queue = 30
index polkadot_xcm = 31
index cumulus_xcm = 32
index dmp_queue = 33
index template_pallet = 91
index xchange_pallet = 92
index xchange_service = 93
index spambot = 94

-- The pallets in the order of the declaration.
abbrev pub all_pallets : List PalletName
all_pallets =
    system ∷ parachain_system ∷ timestamp ∷ parachain_info ∷ balances ∷ transaction_payment
    ∷ authorship ∷ collator_selection ∷ session ∷ aura ∷ aura_ext ∷ xcmp_queue ∷ polkadot_xcm
    ∷ cumulus_xcm ∷ dmp_queue ∷ template_pallet ∷ xchange_pallet ∷ xchange_service ∷ spambot ∷ []

-- The first pallet of a list that has the index, as a call is dispatched.
pub dispatched : ℕ → List PalletName → Option PalletName
dispatched n [] = none
dispatched n (p ∷ rest) = let later = dispatched n rest in if index p == n then some p else later

-- The index of every pallet is a byte, and leads back to the pallet: no two share one.
dispatched-index : (p : PalletName) → (dispatched (index p) all_pallets ≡ some p) × (index p < 256)
unfolding dispatched index
dispatched-index p = ground arith
