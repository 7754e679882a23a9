-- ===== src/Xchange.antt =====
-- The calls, the message handler and the hook of the exchange pallet (pallets/xchange/src/lib.rs),
-- where clients order from the devices of other parachains. The pallet's `Config` is a parameter.
mod Storage
pub mod Cases
pub mod Invariant
pub mod Placing
pub mod Refusing
pub mod Settlement
pub mod Escrow
pub mod Orderly
pub mod Payment
pub mod Cancel
pub mod Restoring
pub mod Overdue
pub mod Locked
pub mod Outcome
pub mod Messages
pub mod Steps
pub mod Signed
pub mod Clock
pub mod Sending
pub mod Requesting
mod Tests
pub use Storage.*
use xcm_auto_bank.Base.{
  ℕ, ⊤, Bool, not, ◌||◌, Option, none, some, List, [], ◌∷◌, ltb, leb, ◌==◌, if◌then◌else◌,
}
use xcm_auto_bank.Base.Action.{gets, or_raise, raise_if, ◌>>=◌, ◌>>◌}
use xcm_auto_bank.Base.Map.{lookup, contains_key, insert, remove}
use xcm_auto_bank.Common.{
  off, ready, busy, timewait, state_eq, Order, OrderBase, convert, convert_base, XcmpMessage,
}
use xcm_auto_bank.Frame.{Config}
use xcm_auto_bank.Pallet.{
  module_error, add_moment, try, deposit_event, set_device, set_order, remove_order, reserve,
  unreserve, repatriate_reserved, send_xcm,
}

module _ {L Q F O P : Type 0} (T : Config L Q F O P) where
  -- `Pallet::test`
  pub test : O → Call L Q F P ⊤
  test origin = do
    sent ← send_xcm T 200 (T.encode_bytes (0x00 ∷ 0x20 ∷ []))
    raise_if (not sent) (module_error cannot_reach_destination)

  -- `Pallet::order`
  unfoldable pub order : O → OrderBase P → Call L Q F P ⊤
  order origin o = do
    who ← try (T.ensure_signed origin)
    now ← gets (λ s. s.now)
    raise_if (leb o.until now) (module_error overdue)
    raise_if (← gets (λ s. contains_key o.device s.orders)) (module_error illegal_state)
    dev ← or_raise (← gets (λ s. lookup o.device s.devices)) (module_error no_device)
    raise_if (not (state_eq dev.state ready)) (module_error illegal_state)
    raise_if (ltb o.until (add_moment now dev.wcd)) (module_error bad_order_details)
    raise_if (not (← gets (λ s. T.currency.can_reserve s.ledger who o.fee)))
        (module_error device_low_bail)
    reserve T o.device dev.penalty
    reserve T who o.fee
    let booked = convert_base o who
    set_order o.device booked
    -- the result of sending is dropped
    send_xcm T dev.para_id (T.encode (XcmpMessage.new_order who (convert booked o.device)))
    set_device o.device (record dev { state = busy })
    deposit_event (Event.new_order who o.device)

  -- `Pallet::order_reject`
  unfoldable pub order_reject : ℕ → Order P → ℕ → ℕ → DeviceProfile → Call L Q F P ⊤
  order_reject who o now device dev = do
    unreserve T who o.fee
    if ltb now o.until
        then unreserve T device dev.penalty
        else repatriate_reserved T device o.client dev.penalty
    remove_order device
    set_device device dev
    deposit_event (Event.reject who device)

  -- `Pallet::cancel`
  pub cancel : O → ℕ → Call L Q F P ⊤
  cancel origin device = do
    who ← try (T.ensure_signed origin)
    o ← or_raise (← gets (λ s. lookup device s.orders)) (module_error no_order)
    now ← gets (λ s. s.now)
    raise_if (ltb now o.until || not (o.client == who)) (module_error prohibited)
    dev ← or_raise (← gets (λ s. lookup device s.devices)) (module_error no_device)
    order_reject who o now device dev

  -- `Pallet::register`
  unfoldable pub register : O → ℕ → ℕ → ℕ → Bool → Call L Q F P ⊤
  register origin paraid penalty wcd onoff = do
    id ← try (T.ensure_signed origin)
    raise_if (← gets (λ s. contains_key id s.orders)) (module_error device_exists)
    set_device id (record {
      penalty = penalty;
      wcd = wcd;
      para_id = paraid;
      state = if onoff then ready else off;
    })
    deposit_event (Event.new_device id)

  -- `Pallet::on_accept`
  pub on_accept : ℕ → ℕ → Call L Q F P ⊤
  on_accept who device = deposit_event (Event.accept who device)

  -- `Pallet::on_reject`
  unfoldable pub on_reject : ℕ → ℕ → Bool → Call L Q F P ⊤
  on_reject who device onoff = do
    o ← or_raise (← gets (λ s. lookup device s.orders)) (module_error no_order)
    now ← gets (λ s. s.now)
    dev ← or_raise (← gets (λ s. lookup device s.devices)) (module_error no_device)
    order_reject who o now device (record dev { state = if not onoff then off else ready })

  -- `Pallet::on_done`
  pub on_done : ℕ → ℕ → Bool → Call L Q F P ⊤
  on_done who device onoff = do
    o ← or_raise (← gets (λ s. lookup device s.orders)) (module_error no_order)
    now ← gets (λ s. s.now)
    dev ← or_raise (← gets (λ s. lookup device s.devices)) (module_error no_device)
    repatriate_reserved T who device o.fee
    if ltb now o.until
        then unreserve T device dev.penalty
        else repatriate_reserved T device who dev.penalty
    remove_order device
    set_device device (record dev { state = if not onoff then off else ready })
    deposit_event (Event.done who device)

  -- `OnKilledAccount::on_killed_account`
  pub on_killed_account : ℕ → Store L Q P → Store L Q P
  on_killed_account who s = elim (lookup who s.devices) [
    | none ↦ s
    | some dev ↦
        if state_eq dev.state off
        then record s { devices = remove who s.devices }
        else record s { devices = insert who (record dev { state = timewait }) s.devices }
  ]

  -- The arm of `handle_xcmp_messages` for one decoded message. Its results are dropped, and what a
  -- failed arm has written stays.
  pub on_message : XcmpMessage P → Store L Q P → Store L Q P
  unfolding on_accept on_reject on_done
  on_message (XcmpMessage.order_accept client device) s = (on_accept client device s).1
  on_message (XcmpMessage.order_reject client device onoff) s = (on_reject client device onoff s).1
  on_message (XcmpMessage.order_done client device onoff) s = (on_done client device onoff s).1
  on_message (XcmpMessage.new_order _ _) s = s

  -- `handle_xcmp_messages`: a batch of messages, each with its sender and the block that it was
  -- sent at. The result is the weight that was used.
  pub handle_xcmp_messages : List (ℕ × ℕ × List ℕ) → ℕ → Store L Q P → ℕ × Store L Q P
  handle_xcmp_messages [] max_weight s = (max_weight, s)
  handle_xcmp_messages ((sender, sent_at, bytes) ∷ rest) max_weight s = elim (T.decode bytes) [
    | none ↦ (0, s)
    | some m ↦ handle_xcmp_messages rest max_weight (on_message m s)
  ]
