-- ===== src/Runtime/Wiring/Messages.antt =====
-- The configurations of the pallets that execute and queue XCM (runtime/src/lib.rs, `XcmConfig` and
-- the `Config` instances of the XCM helpers).
use xcm_auto_bank.Base.{ℕ, Bool, true, false, Option, none}
use xcm_auto_bank.Frame.{MultiLocation, here, parachain}
use xcm_auto_bank.Runtime.Constants.{
  unit_weight_cost, max_instructions, version_discovery_queue_size,
}
use xcm_auto_bank.Runtime.Origins.{
  Converter, Converters, location_to_account_id, xcm_origin_to_transact_dispatch_origin,
}
use xcm_auto_bank.Runtime.Pallets.{PalletName, balances, parachain_system, polkadot_xcm}
use xcm_auto_bank.Runtime.Routing.{Router, Routers, xcm_router}
use xcm_auto_bank.Runtime.Xcm.{Barriers, barrier}

-- `RelayLocation`
abbrev pub relay_location : MultiLocation
relay_location = record { parents = 1; interior = here }

-- `Ancestry`, for the id that `ParachainInfo` keeps.
abbrev pub ancestry : ℕ → MultiLocation
ancestry parachain_id = record { parents = 0; interior = parachain parachain_id }

-- `CurrencyAdapter`: the currency, the location of its asset, whose accounts it moves, and who
-- tracks what is teleported.
pub record AssetTransactor : Type 0 where
  pub currency : PalletName
  pub asset : MultiLocation
  pub accounts : MultiLocation → Option ℕ
  pub tracker : Option ℕ

-- `LocalAssetTransactor`
abbrev pub local_asset_transactor : {O : Type 0} → Converters O → AssetTransactor
local_asset_transactor c = record {
  currency = balances;
  asset = relay_location;
  accounts = location_to_account_id c;
  tracker = none;
}

-- What the XCM builder and the executor bring: `FixedWeightBounds` for a weight of each instruction
-- and a limit of their number, `NativeAsset`, `LocationInverter`, `SignedToAccountId32`; `M` are
-- the messages, `A` the assets, `W` the weighers, and `I` the inverters of locations.
pub record XcmLibraries (M A W I Q O : Type 0) : Type 0 where
  pub routers : Routers Q
  pub barriers : Barriers M
  pub converters : Converters O
  pub fixed_weight_bounds : ℕ → ℕ → W
  pub native_asset : A → MultiLocation → Bool
  pub location_inverter : MultiLocation → I
  pub signed_to_account_id32 : O → Option MultiLocation

-- `xcm_executor::Config`; the trader buys weight with one asset of one location, at a fee that is
-- the weight, and puts what it earns nowhere.
pub record ExecutorConfig (M A W I Q O : Type 0) : Type 0 where
  pub xcm_sender : Router Q
  pub asset_transactor : AssetTransactor
  pub origin_converter : Converter O
  pub is_reserve : A → MultiLocation → Bool
  pub is_teleporter : A → MultiLocation → Bool
  pub location_inverter : I
  pub may_execute : MultiLocation → M → ℕ → ℕ → Bool
  pub weigher : W
  pub weight_fee : ℕ → ℕ
  pub trader_asset : MultiLocation
  pub trader_currency : PalletName
  pub response_handler : PalletName
  pub asset_trap : PalletName
  pub asset_claims : PalletName
  pub subscription_service : PalletName

-- `pallet_xcm::Config`; `E` are the executors of XCM. A filter also reads the assets or the
-- message, which none of these looks at, and stands as a test of the origin.
pub record XcmPalletConfig (E W I Q O : Type 0) : Type 0 where
  pub executor : E
  pub send_origin : O → Option MultiLocation
  pub xcm_router_of : Router Q
  pub execute_origin : O → Option MultiLocation
  pub execute_filter : MultiLocation → Bool
  pub teleport_filter : MultiLocation → Bool
  pub reserve_transfer_filter : MultiLocation → Bool
  pub weigher : W
  pub location_inverter : I
  pub discovery_queue_size : ℕ

-- `cumulus_pallet_xcm::Config`
pub record CumulusXcmConfig (E : Type 0) : Type 0 where
  pub executor : E

-- `cumulus_pallet_xcmp_queue::Config`
pub record XcmpQueueConfig (E : Type 0) : Type 0 where
  pub executor : E
  pub channel_info : PalletName
  pub version_wrapper : Option PalletName

-- `cumulus_pallet_dmp_queue::Config`
pub record DmpQueueConfig (E O : Type 0) : Type 0 where
  pub executor : E
  pub may_execute_overweight : O → Bool

-- `cumulus_ping::Config`
pub record PingConfig (Q : Type 0) : Type 0 where
  pub xcm_sender : Router Q

module _ {M A W I Q O : Type 0} (X : XcmLibraries M A W I Q O) (parachain_id : ℕ) where
  abbrev pub ping_config : PingConfig Q
  ping_config = record { xcm_sender = λ q to m. xcm_router X.routers q to m }

  -- `XcmConfig`
  abbrev pub xcm_config : ExecutorConfig M A W I Q O
  xcm_config = record {
    xcm_sender = λ q to m. xcm_router X.routers q to m;
    asset_transactor = local_asset_transactor X.converters;
    origin_converter = λ from kind. xcm_origin_to_transact_dispatch_origin X.converters from kind;
    is_reserve = X.native_asset;
    is_teleporter = λ asset from. false;
    location_inverter = X.location_inverter (ancestry parachain_id);
    may_execute = λ from m max_weight credit. barrier X.barriers from m max_weight credit;
    weigher = X.fixed_weight_bounds unit_weight_cost max_instructions;
    weight_fee = λ weight. weight;
    trader_asset = relay_location;
    trader_currency = balances;
    response_handler = polkadot_xcm;
    asset_trap = polkadot_xcm;
    asset_claims = polkadot_xcm;
    subscription_service = polkadot_xcm;
  }

  -- `XcmExecutor<XcmConfig>` executes for all four pallets.
  abbrev pub Executor : Type 0
  Executor = ExecutorConfig M A W I Q O

  abbrev pub cumulus_xcm_config : CumulusXcmConfig Executor
  cumulus_xcm_config = record { executor = xcm_config }

  -- `VersionWrapper = ()`
  abbrev pub xcmp_queue_config : XcmpQueueConfig Executor
  xcmp_queue_config = record {
    executor = xcm_config;
    channel_info = parachain_system;
    version_wrapper = none;
  }

  -- `EnsureRoot` of the libraries.
  abbrev pub dmp_queue_config : (O → Bool) → DmpQueueConfig Executor O
  dmp_queue_config ensure_root = record {
    executor = xcm_config;
    may_execute_overweight = ensure_root;
  }

  -- `LocalOriginToLocation` for both origins; `Nothing` and `Everything` as filters.
  abbrev pub xcm_pallet_config : XcmPalletConfig Executor W I Q O
  xcm_pallet_config = record {
    executor = xcm_config;
    send_origin = X.signed_to_account_id32;
    xcm_router_of = λ q to m. xcm_router X.routers q to m;
    execute_origin = X.signed_to_account_id32;
    execute_filter = λ from. false;
    teleport_filter = λ from. true;
    reserve_transfer_filter = λ from. false;
    weigher = X.fixed_weight_bounds unit_weight_cost max_instructions;
    location_inverter = X.location_inverter (ancestry parachain_id);
    discovery_queue_size = version_discovery_queue_size;
  }
