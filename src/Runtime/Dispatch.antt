-- ===== src/Runtime/Dispatch.antt =====
-- The calls of the repository's pallets in the runtime, and the configurations of the pallets
-- (runtime/src/lib.rs, the `Config` instances and `construct_runtime!`).
use xcm_auto_bank.Base.{ℕ, ⊤, Bool, Option, List}
use xcm_auto_bank.Base.Action.{Result, ok, err}
use xcm_auto_bank.Common.{OrderBase, XcmpMessage}
use xcm_auto_bank.Frame.{Config, Currency}
use xcm_auto_bank.Pallet.{Failure, module_error, other}
use xcm_auto_bank.Runtime.{on_received}
use xcm_auto_bank.Runtime.Routing.{Routers, send_xcm}
use xcm_auto_bank.Runtime.State.{
  RuntimeState, xchange_storage, put_xchange, service_storage, put_service, template_storage,
  put_template,
}
use xcm_auto_bank.Service.{ServiceConfig}
use xcm_auto_bank.Service as Serving
use xcm_auto_bank.Template as Template
use xcm_auto_bank.Xchange as Exchange

-- What the pallets are configured with and the repository does not define: `Balances`,
-- `ensure_signed`, the routers of XCM, the codecs, and the id that `ParachainInfo` keeps.
pub record Libraries (L Q F O : Type 0) : Type 0 where
  pub balances : Currency L F
  pub ensure_signed : O → Result F ℕ
  pub routers : Routers Q
  pub encode : XcmpMessage ℕ → List ℕ
  pub decode : List ℕ → Option (XcmpMessage ℕ)
  pub encode_bytes : List ℕ → List ℕ
  pub parachain_id : ℕ

-- The calls that the pallets declare.
pub data TemplateCall : Type 0 where
  do_something : ℕ → TemplateCall
  cause_error : TemplateCall

pub data XchangeCall : Type 0 where
  test : XchangeCall
  order : OrderBase ℕ → XchangeCall
  cancel : ℕ → XchangeCall
  register : ℕ → ℕ → ℕ → Bool → XchangeCall

pub data ServiceCall : Type 0 where
  order : OrderBase ℕ → ServiceCall
  cancel : ℕ → ServiceCall
  accept : Bool → Bool → ServiceCall
  done set_state : Bool → ServiceCall
  register : ℕ → ℕ → Bool → ServiceCall

-- `Call`
pub data RuntimeCall : Type 0 where
  template_pallet : TemplateCall → RuntimeCall
  xchange_pallet : XchangeCall → RuntimeCall
  xchange_service : ServiceCall → RuntimeCall

-- `DispatchError`: an error of one of the pallets, or another.
pub data RuntimeError (F : Type 0) : Type 0 where
  template_pallet : Template.Error → RuntimeError F
  xchange_pallet : Exchange.Error → RuntimeError F
  xchange_service : Serving.Error → RuntimeError F
  library : F → RuntimeError F

-- The error of a pallet as one of the runtime.
abbrev pub raised :
    {X F : Type 0} → (X → RuntimeError F) → Result (Failure X F) ⊤ → Result (RuntimeError F) ⊤
raised wrap (ok tt) = ok tt
raised wrap (err (module_error e)) = err (wrap e)
raised wrap (err (other f)) = err (RuntimeError.library f)

module _ {L Q F O : Type 0} (K : Libraries L Q F O) where
  -- `impl pallet_xchange::Config for Runtime`
  abbrev pub xchange_config : Config L Q F O ℕ
  xchange_config = record {
    currency = K.balances;
    ensure_signed = K.ensure_signed;
    send_xcm = λ q to m. send_xcm K.routers q to m;
    encode = K.encode;
    decode = K.decode;
    encode_bytes = K.encode_bytes;
  }

  -- `impl pallet_xchange_service::Config for Runtime`
  abbrev pub service_config : ServiceConfig L Q F O ℕ
  service_config = record {
    base = record {
      currency = K.balances;
      ensure_signed = K.ensure_signed;
      send_xcm = λ q to m. send_xcm K.routers q to m;
      encode = K.encode;
      decode = K.decode;
      encode_bytes = K.encode_bytes;
    };
    self_para_id = K.parachain_id;
    on_received = λ device o. on_received device o;
  }

  abbrev pub call_template :
      TemplateCall → O → Template.Store → Result (Failure Template.Error F) ⊤ × Template.Store
  call_template (TemplateCall.do_something n) origin =
      Template.do_something K.ensure_signed origin n
  call_template TemplateCall.cause_error origin = Template.cause_error K.ensure_signed origin

  abbrev pub call_xchange : XchangeCall → O → Exchange.Call L Q F ℕ ⊤
  call_xchange XchangeCall.test origin = Exchange.test xchange_config origin
  call_xchange (XchangeCall.order o) origin = Exchange.order xchange_config origin o
  call_xchange (XchangeCall.cancel device) origin = Exchange.cancel xchange_config origin device
  call_xchange (XchangeCall.register paraid penalty wcd onoff) origin =
      Exchange.register xchange_config origin paraid penalty wcd onoff

  abbrev pub call_service : ServiceCall → O → Serving.Call L Q F ℕ ⊤
  call_service (ServiceCall.order o) origin = Serving.order service_config origin o
  call_service (ServiceCall.cancel device) origin = Serving.cancel service_config origin device
  call_service (ServiceCall.accept rejects onoff) origin =
      Serving.accept service_config origin rejects onoff
  call_service (ServiceCall.done onoff) origin = Serving.done service_config origin onoff
  call_service (ServiceCall.set_state onoff) origin = Serving.set_state service_config origin onoff
  call_service (ServiceCall.register penalty wcd onoff) origin =
      Serving.register service_config origin penalty wcd onoff

  -- A call of one of the three pallets, on the storage of the runtime. `BaseCallFilter` lets every
  -- call pass.
  unfoldable pub dispatch :
      RuntimeCall → O → RuntimeState L Q → Result (RuntimeError F) ⊤ × RuntimeState L Q
  dispatch (RuntimeCall.template_pallet c) origin s =
      let r = call_template c origin (template_storage s) in
      (raised RuntimeError.template_pallet r.0, put_template s r.1)
  dispatch (RuntimeCall.xchange_pallet c) origin s =
      let r = call_xchange c origin (xchange_storage s) in
      (raised RuntimeError.xchange_pallet r.0, put_xchange s r.1)
  dispatch (RuntimeCall.xchange_service c) origin s =
      let r = call_service c origin (service_storage s) in
      (raised RuntimeError.xchange_service r.0, put_service s r.1)
