-- ===== src/Runtime/Origins.antt =====
-- What the sender of XCM becomes as the origin of a call (runtime/src/lib.rs, `LocationToAccountId`
-- and `XcmOriginToTransactDispatchOrigin`).
use xcm_auto_bank.Base.{ℕ, ◌≡◌, ◌∙◌, Option, none, some, List, [], ◌∷◌}
use xcm_auto_bank.Frame.{MultiLocation, parachain, OriginKind, native, sovereign_account}

-- A parachain as another one sees it.
abbrev pub sibling : ℕ → MultiLocation
sibling para = record { parents = 1; interior = parachain para }

abbrev pub Converter : Type 0 → Type 0
Converter O = MultiLocation → OriginKind → Option O

-- The conversions of the XCM builder, and what a tuple of conversions is.
pub record Converters (O : Type 0) : Type 0 where
  pub parent_is_default : MultiLocation → Option ℕ
  pub sibling_parachain_converts_via : MultiLocation → Option ℕ
  pub account_id32_aliases : MultiLocation → Option ℕ
  pub accounts : List (MultiLocation → Option ℕ) → MultiLocation → Option ℕ
  pub sovereign_signed_via_location : (MultiLocation → Option ℕ) → Converter O
  pub relay_chain_as_native : Converter O
  pub sibling_parachain_as_native : Converter O
  pub signed_account_id32_as_native : Converter O
  pub xcm_passthrough : Converter O
  pub origins : List (Converter O) → Converter O
  -- `cumulus_pallet_xcm::Origin::SiblingPara`
  pub sibling_para : ℕ → O
  -- `RawOrigin::Signed`
  pub signed : ℕ → O
  -- `Sibling::from(para).into_account()`
  pub sovereign_account_of : ℕ → ℕ

-- What they document: of a tuple the first conversion that succeeds counts, a sovereign account is
-- used for its own kind of origin and signs there, a sibling has the account that its id makes, and
-- each native conversion is for its own kind of sender.
pub record IsDocumented {O : Type 0} (c : Converters O) : Type 0 where
  pub origins_takes :
      (a : Converter O) (rest : List (Converter O)) (from : MultiLocation) (kind : OriginKind)
      (o : O)
      → a from kind ≡ some o
      → c.origins (a ∷ rest) from kind ≡ some o
  pub origins_skips :
      (a : Converter O) (rest : List (Converter O)) (from : MultiLocation) (kind : OriginKind)
      → a from kind ≡ none
      → c.origins (a ∷ rest) from kind ≡ c.origins rest from kind
  pub sovereign_not_native :
      (accounts : MultiLocation → Option ℕ) (from : MultiLocation)
      → c.sovereign_signed_via_location accounts from native ≡ none
  pub sovereign_signs :
      (accounts : MultiLocation → Option ℕ) (from : MultiLocation) (account : ℕ)
      → accounts from ≡ some account
      → c.sovereign_signed_via_location accounts from sovereign_account ≡ some (c.signed account)
  pub accounts_takes :
      (a : MultiLocation → Option ℕ) (rest : List (MultiLocation → Option ℕ)) (from : MultiLocation)
      (account : ℕ)
      → a from ≡ some account
      → c.accounts (a ∷ rest) from ≡ some account
  pub accounts_skips :
      (a : MultiLocation → Option ℕ) (rest : List (MultiLocation → Option ℕ)) (from : MultiLocation)
      → a from ≡ none
      → c.accounts (a ∷ rest) from ≡ c.accounts rest from
  pub parent_not_sibling : (para : ℕ) → c.parent_is_default (sibling para) ≡ none
  pub sibling_account :
      (para : ℕ)
      → c.sibling_parachain_converts_via (sibling para) ≡ some (c.sovereign_account_of para)
  pub relay_not_sibling : (para : ℕ) → c.relay_chain_as_native (sibling para) native ≡ none
  pub sibling_native :
      (para : ℕ) → c.sibling_parachain_as_native (sibling para) native ≡ some (c.sibling_para para)

module _ {O : Type 0} (c : Converters O) where
  -- `LocationToAccountId`
  abbrev pub location_to_account_id : MultiLocation → Option ℕ
  location_to_account_id =
      c.accounts
        (c.parent_is_default ∷ c.sibling_parachain_converts_via ∷ c.account_id32_aliases ∷ [])

  -- `XcmOriginToTransactDispatchOrigin`
  unfoldable pub xcm_origin_to_transact_dispatch_origin : Converter O
  xcm_origin_to_transact_dispatch_origin = c.origins (
      c.sovereign_signed_via_location location_to_account_id
      ∷ c.relay_chain_as_native
      ∷ c.sibling_parachain_as_native
      ∷ c.signed_account_id32_as_native
      ∷ c.xcm_passthrough
      ∷ [])

  -- A native call of a sibling has the sibling as its origin.
  pub origin_sibling :
      (para : ℕ)
      → IsDocumented c
      → xcm_origin_to_transact_dispatch_origin (sibling para) native ≡ some (c.sibling_para para)
  unfolding xcm_origin_to_transact_dispatch_origin
  origin_sibling para doc =
      doc.origins_skips _ _ (sibling para) native
        (doc.sovereign_not_native location_to_account_id (sibling para))
      ∙ doc.origins_skips _ _ (sibling para) native (doc.relay_not_sibling para)
      ∙ doc.origins_takes _ _ (sibling para) native (c.sibling_para para) (doc.sibling_native para)

  -- A call of the kind `SovereignAccount` is signed by the account of the sibling.
  pub origin_sovereign :
      (para : ℕ)
      → IsDocumented c
      → xcm_origin_to_transact_dispatch_origin (sibling para) sovereign_account
        ≡ some (c.signed (c.sovereign_account_of para))
  unfolding xcm_origin_to_transact_dispatch_origin
  origin_sovereign para doc =
      doc.origins_takes _ _ (sibling para) sovereign_account
        (c.signed (c.sovereign_account_of para))
        (doc.sovereign_signs location_to_account_id (sibling para) (c.sovereign_account_of para) (
          doc.accounts_skips _ _ (sibling para) (doc.parent_not_sibling para)
          ∙ doc.accounts_takes _ _ (sibling para) (c.sovereign_account_of para)
              (doc.sibling_account para)))
