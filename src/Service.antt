-- ===== src/Service.antt =====
-- The calls, the message handler and the hook of the service pallet
-- (pallets/xchange-service/src/lib.rs), where devices serve the orders of local clients and of
-- other parachains. The pallet's `Config` is a parameter.
mod Storage
pub mod Receiving
pub mod Cases
pub mod Invariant
pub mod Messages
pub mod Steps
pub mod Signed
pub mod Clock
pub mod Sending
pub mod Arrivals
pub mod Answering
pub mod Locked
pub mod Local
pub mod Closing
pub mod Refunds
pub mod Calls
pub mod Exact
pub mod Completing
pub mod Prompt
pub mod Lifecycle
pub mod Refinement
pub mod Simulation
pub mod Escrow
pub mod Settling
pub mod Solvency
mod Tests
pub use Storage.*
use xcm_auto_bank.Base.{
  ℕ, ⊤, Bool, true, false, not, ◌||◌, Option, none, some, List, [], ◌∷◌, ltb, leb, ◌==◌,
  if◌then◌else◌,
}
use xcm_auto_bank.Base.Action.{ok, err, pure, gets, or_raise, raise_if, raise, ◌>>=◌, ◌>>◌}
use xcm_auto_bank.Base.Map.{lookup, contains_key, remove}
use xcm_auto_bank.Common.{
  DeviceState, off, ready, busy, accepted, timewait, state_eq, Order, OrderBase, XcmpMessage,
}
use xcm_auto_bank.Pallet.{
  Failure, module_error, add_moment, try, deposit_event, set_device, set_order, remove_order,
  reserve, unreserve, repatriate_reserved, send_xcm,
}

-- The order that a request of `client` on the parachain `paraid` stands for.
abbrev pub received : {P : Type 0} → OrderBase P → ℕ → ℕ → Order P
received o client paraid = record {
  until = o.until;
  payload = o.payload;
  fee = o.fee;
  client = client;
  paraid = paraid;
}

-- The states that `set_state` leads to, `none` where it is refused.
abbrev pub next_state : Bool → DeviceState → Option DeviceState
next_state false ready = some off
next_state false off = some off
next_state true off = some ready
next_state _ _ = none

module _ {L Q F O P : Type 0} (T : ServiceConfig L Q F O P) where
  -- `Pallet::order_accept`
  unfoldable pub order_accept : Order P → ℕ → DeviceProfile → Call L Q F P ⊤
  order_accept o device dev = do
    set_device device (record dev { state = accepted })
    if o.paraid == T.self_para_id
        then pure tt
        else send_xcm T.base o.paraid (T.encode (XcmpMessage.order_accept o.client device))
          >> pure tt
    deposit_event (Event.accept device)

  -- `Pallet::order_received`, up to the answer of `OnReceived`: the profile in its new state.
  unfoldable pub check_order : Order P → ℕ → Call L Q F P DeviceProfile
  check_order o device = do
    now ← gets (λ s. s.now)
    raise_if (leb o.until now) (module_error overdue)
    raise_if (← gets (λ s. contains_key device s.orders)) (module_error illegal_state)
    dev ← or_raise (← gets (λ s. lookup device s.devices)) (module_error no_device)
    raise_if (not (state_eq dev.state ready)) (module_error illegal_state)
    raise_if (ltb o.until (add_moment now dev.wcd)) (module_error bad_order_details)
    state ← or_raise (T.on_received device o) (module_error illegal_state)
    pure (record dev { state = state })

  -- Its reserves, for an order of this parachain.
  unfoldable pub reserve_order : Order P → ℕ → DeviceProfile → Call L Q F P ⊤
  reserve_order o device dev =
      if o.paraid == T.self_para_id
      then (do
        raise_if (not (← gets (λ s. T.currency.can_reserve s.ledger o.client o.fee)))
            (module_error device_low_bail)
        reserve T.base device dev.penalty
        reserve T.base o.client o.fee)
      else pure tt

  -- And its writes.
  unfoldable pub book_order : Order P → ℕ → DeviceProfile → Call L Q F P ⊤
  unfolding order_accept
  book_order o device dev = do
    set_order device o
    deposit_event (Event.new_order device)
    if state_eq dev.state accepted then order_accept o device dev else set_device device dev

  -- `Pallet::order_received`
  unfoldable pub order_received : Order P → ℕ → Call L Q F P ⊤
  order_received o device = do
    dev ← check_order o device
    reserve_order o device dev
    book_order o device dev

  -- `Pallet::order`
  unfoldable pub order : O → OrderBase P → Call L Q F P ⊤
  order origin o = do
    who ← try (T.ensure_signed origin)
    order_received (received o who T.self_para_id) o.device

  -- `Pallet::order_reject`
  pub order_reject : Option (Order P) → ℕ → ℕ → DeviceProfile → Bool → Call L Q F P ⊤
  order_reject found now device dev onoff = do
    elim found [
      | none ↦ pure tt
      | some o ↦
          if o.paraid == T.self_para_id
          then (do
            unreserve T.base o.client o.fee
            if ltb now o.until
                then unreserve T.base device dev.penalty
                else repatriate_reserved T.base device o.client dev.penalty)
          else send_xcm T.base o.paraid (T.encode (XcmpMessage.order_reject o.client device onoff))
            >> pure tt
    ]
    remove_order device
    set_device device dev
    deposit_event (Event.reject device)

  -- `Pallet::order_done`
  pub order_done : Order P → ℕ → ℕ → DeviceProfile → Bool → Call L Q F P ⊤
  order_done o now device dev onoff = do
    set_device device (record dev { state = if onoff then ready else off })
    if o.paraid == T.self_para_id
        then (do
          repatriate_reserved T.base o.client device o.fee
          if ltb now o.until
              then unreserve T.base device dev.penalty
              else repatriate_reserved T.base device o.client dev.penalty)
        else send_xcm T.base o.paraid (T.encode (XcmpMessage.order_done o.client device onoff))
          >> pure tt
    deposit_event (Event.done device)

  -- `Pallet::cancel`
  pub cancel : O → ℕ → Call L Q F P ⊤
  cancel origin device = do
    who ← try (T.ensure_signed origin)
    o ← or_raise (← gets (λ s. lookup device s.orders)) (module_error no_order)
    now ← gets (λ s. s.now)
    raise_if (ltb now o.until || not (o.client == who)) (module_error prohibited)
    dev ← or_raise (← gets (λ s. lookup device s.devices)) (module_error no_device)
    order_reject (some o) now device dev false

  -- `Pallet::accept`
  pub accept : O → Bool → Bool → Call L Q F P ⊤
  accept origin rejects onoff = do
    id ← try (T.ensure_signed origin)
    found ← gets (λ s. lookup id s.orders)
    dev ← or_raise (← gets (λ s. lookup id s.devices)) (module_error no_device)
    now ← gets (λ s. s.now)
    if rejects
        then (do
          raise_if (not (state_eq dev.state busy || state_eq dev.state accepted))
              (module_error illegal_state)
          order_reject found now id (record dev { state = if onoff then ready else off }) onoff)
        else (do
          raise_if (not (state_eq dev.state busy)) (module_error illegal_state)
          o ← or_raise found (module_error no_order)
          raise_if (leb o.until now) (module_error overdue)
          order_accept o id dev)

  -- `Pallet::done`: the order is taken out before the transfers.
  pub done : O → Bool → Call L Q F P ⊤
  done origin onoff = do
    id ← try (T.ensure_signed origin)
    dev ← or_raise (← gets (λ s. lookup id s.devices)) (module_error no_device)
    raise_if (not (state_eq dev.state accepted)) (module_error illegal_state)
    found ← gets (λ s. lookup id s.orders)
    remove_order id
    o ← or_raise found (module_error no_order)
    now ← gets (λ s. s.now)
    order_done o now id dev onoff

  -- `Pallet::register`
  unfoldable pub register : O → ℕ → ℕ → Bool → Call L Q F P ⊤
  register origin penalty wcd onoff = do
    id ← try (T.ensure_signed origin)
    raise_if (← gets (λ s. contains_key id s.orders)) (module_error device_exists)
    set_device id (record { penalty = penalty; wcd = wcd; state = if onoff then ready else off })
    deposit_event (Event.new_device id)

  -- `Pallet::set_state`
  pub set_state : O → Bool → Call L Q F P ⊤
  set_state origin onoff = do
    id ← try (T.ensure_signed origin)
    dev ← or_raise (← gets (λ s. lookup id s.devices)) (module_error no_device)
    state ← or_raise (next_state onoff dev.state) (module_error illegal_state)
    set_device id (record dev { state = state })

  -- `OnKilledAccount::on_killed_account`
  pub on_killed_account : ℕ → Store L Q P → Store L Q P
  on_killed_account who s = elim (lookup who s.devices) [
    | none ↦ s
    | some dev ↦ if state_eq dev.state off then record s { devices = remove who s.devices } else s
  ]

  -- `handle_xcmp_messages`: a batch of messages, each with its sender and the block that it was
  -- sent at. The result is the weight that was used. What `order_received` returns is only logged.
  pub handle_xcmp_messages : List (ℕ × ℕ × List ℕ) → ℕ → Store L Q P → ℕ × Store L Q P
  handle_xcmp_messages [] max_weight s = (max_weight, s)
  handle_xcmp_messages ((sender, sent_at, bytes) ∷ rest) max_weight s = elim (T.decode bytes) [
    | some (XcmpMessage.new_order client o) ↦
        handle_xcmp_messages rest max_weight
          (order_received (received o client sender) o.device s).1
    | _ ↦ (0, s)
  ]
