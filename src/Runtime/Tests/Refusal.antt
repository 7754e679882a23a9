-- ===== src/Runtime/Tests/Refusal.antt =====
-- The theorems on an order's way and on calls of siblings at a concrete order.
use xcm_auto_bank.Base.{ℕ, ◌+◌, ◌≡◌, refl, false, some, none, Option, List, [], ◌∷◌, arith}
use xcm_auto_bank.Base.Map.{lookup, insert}
use xcm_auto_bank.Base.Action.{ok, err}
use xcm_auto_bank.Common.{convert_base}
use xcm_auto_bank.Bank.{bad_origin}
use xcm_auto_bank.Frame.{MultiLocation, Junction, parachain, OriginKind, native, sovereign_account}
use xcm_auto_bank.Runtime.Dispatch.{RuntimeError, dispatch}
use xcm_auto_bank.Runtime.Origins as Origins
use xcm_auto_bank.Runtime.Origins.{
  Converters, Converter, sibling, xcm_origin_to_transact_dispatch_origin,
}
use xcm_auto_bank.Runtime.Unsigned.{sibling_call_by_kind}
use xcm_auto_bank.Runtime.Refusal.{request, order_is_refused}
use xcm_auto_bank.Runtime.Tests.{barriers, barriers-IsDocumented}
use xcm_auto_bank.Runtime.Tests.Histories as Histories
use xcm_auto_bank.Runtime.Xcm.{barrier}
use xcm_auto_bank.Service.{register}
use xcm_auto_bank.Xchange as Exchange

accepts_it :
    (dispatch Histories.libraries Histories.orders_abroad (some 2) Histories.offering).0 ≡ ok tt
unfolding dispatch Exchange.order Exchange.register register convert_base insert
accepts_it = refl

-- The order of the account 2, in a history of two registrations.
order_is_refused_example :
    let t = (dispatch Histories.libraries Histories.orders_abroad (some 2) Histories.offering).1 in
    (who : ℕ) × (dev : Exchange.DeviceProfile) × (Histories.libraries.ensure_signed (some 2)
      ≡ ok who)
    × (lookup 1 Histories.offering.xchange_devices ≡ some dev)
    × (t.queues
        ≡ (Histories.routers.xcmp_queue Histories.offering.queues
            (sibling dev.para_id)
            (request Histories.libraries who Histories.request)).1)
    × (barrier barriers
          (sibling 7)
          (barriers.of_transact (request Histories.libraries who Histories.request))
          10
          0
        ≡ false)
order_is_refused_example =
    order_is_refused Histories.libraries barriers Histories.routers-IsDocumented
      barriers-IsDocumented (some 2) Histories.request Histories.offering 10 0 (omega arith)
      accepts_it

-- The first conversion that succeeds.
abbrev first : List (Converter (Option ℕ)) → Converter (Option ℕ)
first [] from kind = none
first (a ∷ rest) from kind =
    let later = first rest from kind in elim (a from kind) [ none ↦ later | some o ↦ some o ]

abbrev first_account : List (MultiLocation → Option ℕ) → MultiLocation → Option ℕ
first_account [] from = none
first_account (a ∷ rest) from =
    let later = first_account rest from in
    elim (a from) [ none ↦ later | some account ↦ some account ]

-- A sovereign account is used for its own kind of origin.
abbrev sovereign : Option ℕ → OriginKind → Option (Option ℕ)
sovereign (some account) sovereign_account = some (some account)
sovereign _ _ = none

-- The account of the parachain `n` has the number `1000 + n`.
abbrev account_of_sibling : Junction → Option ℕ
account_of_sibling (parachain n) = some (1000 + n)
account_of_sibling _ = none

-- Origins are accounts or unsigned, and the native origin of a sibling is unsigned.
abbrev converters : Converters (Option ℕ)
converters = record {
  parent_is_default = λ from. none;
  sibling_parachain_converts_via = λ from. account_of_sibling from.interior;
  account_id32_aliases = λ from. none;
  accounts = λ conversions from. first_account conversions from;
  sovereign_signed_via_location = λ accounts from kind. sovereign (accounts from) kind;
  relay_chain_as_native = λ from kind. none;
  sibling_parachain_as_native = λ from kind. some none;
  signed_account_id32_as_native = λ from kind. none;
  xcm_passthrough = λ from kind. none;
  origins = λ conversions from kind. first conversions from kind;
  sibling_para = λ para. none;
  signed = λ account. some account;
  sovereign_account_of = λ para. 1000 + para;
}

sovereign_not_native : (account : Option ℕ) → sovereign account native ≡ none
sovereign_not_native none = refl
sovereign_not_native (some account) = refl

converters-IsDocumented : Origins.IsDocumented converters
converters-IsDocumented = record {
  origins_takes = λ a rest from kind o e. ground arith;
  origins_skips = λ a rest from kind e. ground arith;
  sovereign_not_native = λ accounts from. sovereign_not_native (accounts from);
  sovereign_signs = λ accounts from account e. rw e refl;
  accounts_takes = λ a rest from account e. ground arith;
  accounts_skips = λ a rest from e. ground arith;
  parent_not_sibling = λ para. refl;
  sibling_account = λ para. refl;
  relay_not_sibling = λ para. refl;
  sibling_native = λ para. refl;
}

sibling_call_by_kind_example :
    ((origin : Option ℕ) × (xcm_origin_to_transact_dispatch_origin converters (sibling 8) native
        ≡ some origin)
      × (dispatch Histories.libraries Histories.orders_abroad origin Histories.offering
          ≡ (err (RuntimeError.library bad_origin), Histories.offering)))
    × ((origin : Option ℕ) × (xcm_origin_to_transact_dispatch_origin converters
            (sibling 8)
            sovereign_account
          ≡ some origin)
        × (Histories.libraries.ensure_signed origin ≡ ok 1008)
        × (dispatch Histories.libraries Histories.orders_abroad origin Histories.offering
            ≡ dispatch Histories.libraries Histories.orders_abroad (some 1008) Histories.offering))
sibling_call_by_kind_example =
    sibling_call_by_kind Histories.libraries converters converters-IsDocumented 8 bad_origin refl
      (λ account. refl) (some 1008) refl Histories.orders_abroad refl Histories.offering
