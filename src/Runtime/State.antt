-- ===== src/Runtime/State.antt =====
-- The storage of the runtime as far as the repository's pallets have a part in it, and what each of
-- them sees of it (runtime/src/lib.rs, `construct_runtime!`). In the runtime a payload is a number.
use xcm_auto_bank.Base.{ℕ, Option, List, [], ◌++◌, map}
use xcm_auto_bank.Base.Map.{StorageMap}
use xcm_auto_bank.Common.{Order}
use xcm_auto_bank.Service as Serving
use xcm_auto_bank.Template as Template
use xcm_auto_bank.Xchange as Exchange

-- `Event`
pub data RuntimeEvent : Type 0 where
  template_pallet : Template.Event → RuntimeEvent
  xchange_pallet : Exchange.Event → RuntimeEvent
  xchange_service : Serving.Event → RuntimeEvent

-- Each pallet has maps of its own. The clock, the balances, the queues and the events are shared.
pub record RuntimeState (L Q : Type 0) : Type 0 where
  pub something : Option ℕ
  pub xchange_devices : StorageMap Exchange.DeviceProfile
  pub xchange_orders : StorageMap (Order ℕ)
  pub service_devices : StorageMap Serving.DeviceProfile
  pub service_orders : StorageMap (Order ℕ)
  pub now : ℕ
  pub ledger : L
  pub queues : Q
  pub events : List RuntimeEvent

module _ {L Q : Type 0} where
  -- A pallet starts without an event of its own; what it deposits follows those of the runtime.
  abbrev pub xchange_storage : RuntimeState L Q → Exchange.Store L Q ℕ
  xchange_storage s = record {
    devices = s.xchange_devices;
    orders = s.xchange_orders;
    now = s.now;
    ledger = s.ledger;
    queues = s.queues;
    events = [];
  }

  abbrev pub put_xchange : RuntimeState L Q → Exchange.Store L Q ℕ → RuntimeState L Q
  put_xchange s t = record s {
    xchange_devices = t.devices;
    xchange_orders = t.orders;
    now = t.now;
    ledger = t.ledger;
    queues = t.queues;
    events = s.events ++ map RuntimeEvent.xchange_pallet t.events;
  }

  abbrev pub service_storage : RuntimeState L Q → Serving.Store L Q ℕ
  service_storage s = record {
    devices = s.service_devices;
    orders = s.service_orders;
    now = s.now;
    ledger = s.ledger;
    queues = s.queues;
    events = [];
  }

  abbrev pub put_service : RuntimeState L Q → Serving.Store L Q ℕ → RuntimeState L Q
  put_service s t = record s {
    service_devices = t.devices;
    service_orders = t.orders;
    now = t.now;
    ledger = t.ledger;
    queues = t.queues;
    events = s.events ++ map RuntimeEvent.xchange_service t.events;
  }

  abbrev pub template_storage : RuntimeState L Q → Template.Store
  template_storage s = record { something = s.something; events = [] }

  abbrev pub put_template : RuntimeState L Q → Template.Store → RuntimeState L Q
  put_template s t = record s {
    something = t.something;
    events = s.events ++ map RuntimeEvent.template_pallet t.events;
  }
