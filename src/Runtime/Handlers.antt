-- ===== src/Runtime/Handlers.antt =====
-- Who is told in the runtime of reaped accounts and of the messages of other parachains
-- (runtime/src/lib.rs, `frame_system::Config` and `cumulus_pallet_parachain_system::Config`).
use xcm_auto_bank.Base.{ℕ, List, [], ◌∷◌}
use xcm_auto_bank.Runtime.Dispatch.{Libraries, xchange_config, service_config}
use xcm_auto_bank.Runtime.Pallets.{PalletName, xchange_pallet, xchange_service}
use xcm_auto_bank.Runtime.State.{
  RuntimeState, xchange_storage, put_xchange, service_storage, put_service,
}
use xcm_auto_bank.Service as Serving
use xcm_auto_bank.Xchange as Exchange

-- `OnKilledAccount`: nobody is told of a reaped account.
unfoldable pub killed_account_hooks : List PalletName
killed_account_hooks = []

-- `XcmpMessageHandler`
unfoldable pub xcmp_message_handler : PalletName
xcmp_message_handler = PalletName.xcmp_queue

module _ {L Q F O : Type 0} (K : Libraries L Q F O) where
  -- A pallet's hook for a reaped account; the other pallets have none here.
  pub on_killed_account : PalletName → ℕ → RuntimeState L Q → RuntimeState L Q
  on_killed_account xchange_pallet who s =
      put_xchange s (Exchange.on_killed_account (xchange_config K) who (xchange_storage s))
  on_killed_account xchange_service who s =
      put_service s (Serving.on_killed_account (service_config K) who (service_storage s))
  on_killed_account _ who s = s

  unfoldable pub reap : List PalletName → ℕ → RuntimeState L Q → RuntimeState L Q
  reap [] who s = s
  reap (p ∷ rest) who s = reap rest who (on_killed_account p who s)

  -- A pallet's handler for a batch of messages, without the weight that it reports. The handlers of
  -- the libraries have no part in the pallets' maps, and what they do to the rest is a step of
  -- their own.
  unfoldable pub handle_xcmp_messages :
      PalletName → List (ℕ × ℕ × List ℕ) → ℕ → RuntimeState L Q → RuntimeState L Q
  handle_xcmp_messages xchange_pallet batch max_weight s =
      put_xchange s
        (Exchange.handle_xcmp_messages (xchange_config K) batch max_weight (xchange_storage s)).1
  handle_xcmp_messages xchange_service batch max_weight s =
      put_service s
        (Serving.handle_xcmp_messages (service_config K) batch max_weight (service_storage s)).1
  handle_xcmp_messages _ batch max_weight s = s
