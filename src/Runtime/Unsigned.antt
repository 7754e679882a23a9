-- ===== src/Runtime/Unsigned.antt =====
-- Calls of the runtime's pallets by their signature, and those of siblings (runtime/src/lib.rs,
-- `construct_runtime!`).
use xcm_auto_bank.Base.{ℕ, ◌≡◌, refl, sym, ◌∙◌, Bool, true, false, some, arith, append-nil}
use xcm_auto_bank.Base.Action.{ok, err}
use xcm_auto_bank.Pallet.{other}
use xcm_auto_bank.Frame.{native, sovereign_account}
use xcm_auto_bank.Runtime.Dispatch.{
  Libraries, RuntimeCall, RuntimeError, TemplateCall, XchangeCall, ServiceCall, xchange_config,
  service_config, call_template, call_xchange, call_service, dispatch,
}
use xcm_auto_bank.Runtime.Origins.{
  Converters, IsDocumented, sibling, xcm_origin_to_transact_dispatch_origin, origin_sibling,
  origin_sovereign,
}
use xcm_auto_bank.Runtime.State.{RuntimeState, xchange_storage, service_storage, template_storage}
use xcm_auto_bank.Service.Signed as ServiceSigned
use xcm_auto_bank.Template as Template
use xcm_auto_bank.Xchange.Signed as ExchangeSigned

abbrev pub is_test : RuntimeCall → Bool
is_test (RuntimeCall.xchange_pallet XchangeCall.test) = true
is_test _ = false

module _ {L Q F O : Type 0} (K : Libraries L Q F O) where
  module _ (s : RuntimeState L Q) (origin : O) (f : F)
      (unsigned : K.ensure_signed origin ≡ err f) where
    call_template_unsigned :
        (c : TemplateCall)
        → call_template K c origin (template_storage s) ≡ (err (other f), template_storage s)
    call_template_unsigned (TemplateCall.do_something n) =
        Template.do_something_unsigned K.ensure_signed origin f unsigned n (template_storage s)
    call_template_unsigned TemplateCall.cause_error =
        Template.cause_error_unsigned K.ensure_signed origin f unsigned (template_storage s)

    call_xchange_unsigned :
        (c : XchangeCall)
        → is_test (RuntimeCall.xchange_pallet c) ≡ false
        → call_xchange K c origin (xchange_storage s) ≡ (err (other f), xchange_storage s)
    call_xchange_unsigned XchangeCall.test h = absurd (ground arith)
    call_xchange_unsigned (XchangeCall.order o) h =
        ExchangeSigned.order_unsigned (xchange_config K) (xchange_storage s) origin f unsigned o
    call_xchange_unsigned (XchangeCall.cancel device) h =
        ExchangeSigned.cancel_unsigned (xchange_config K) (xchange_storage s) origin f unsigned
          device
    call_xchange_unsigned (XchangeCall.register paraid penalty wcd onoff) h =
        ExchangeSigned.register_unsigned (xchange_config K) (xchange_storage s) origin f unsigned
          paraid penalty wcd onoff

    call_service_unsigned :
        (c : ServiceCall)
        → call_service K c origin (service_storage s) ≡ (err (other f), service_storage s)
    call_service_unsigned (ServiceCall.order o) =
        ServiceSigned.order_unsigned (service_config K) (service_storage s) origin f unsigned o
    call_service_unsigned (ServiceCall.cancel device) =
        ServiceSigned.cancel_unsigned (service_config K) (service_storage s) origin f unsigned
          device
    call_service_unsigned (ServiceCall.accept rejects onoff) =
        ServiceSigned.accept_unsigned (service_config K) (service_storage s) origin f unsigned
          rejects onoff
    call_service_unsigned (ServiceCall.done onoff) =
        ServiceSigned.done_unsigned (service_config K) (service_storage s) origin f unsigned onoff
    call_service_unsigned (ServiceCall.set_state onoff) =
        ServiceSigned.set_state_unsigned (service_config K) (service_storage s) origin f unsigned
          onoff
    call_service_unsigned (ServiceCall.register penalty wcd onoff) =
        ServiceSigned.register_unsigned (service_config K) (service_storage s) origin f unsigned
          penalty wcd onoff

    dispatch_unsigned :
        (c : RuntimeCall)
        → is_test c ≡ false
        → dispatch K c origin s ≡ (err (RuntimeError.library f), s)
    unfolding dispatch
    dispatch_unsigned (RuntimeCall.template_pallet c) h =
        rw (call_template_unsigned c, append-nil s.events) refl
    dispatch_unsigned (RuntimeCall.xchange_pallet c) h =
        rw (call_xchange_unsigned c h, append-nil s.events) refl
    dispatch_unsigned (RuntimeCall.xchange_service c) h =
        rw (call_service_unsigned c, append-nil s.events) refl

  -- Calls see of their origin who signed it.
  module _ (s : RuntimeState L Q) (origin origin' : O)
      (same : K.ensure_signed origin ≡ K.ensure_signed origin') where
    call_template_signed :
        (c : TemplateCall)
        → call_template K c origin (template_storage s)
          ≡ call_template K c origin' (template_storage s)
    call_template_signed (TemplateCall.do_something n) =
        Template.do_something_signed K.ensure_signed origin origin' same (template_storage s) n
    call_template_signed TemplateCall.cause_error =
        Template.cause_error_signed K.ensure_signed origin origin' same (template_storage s)

    call_xchange_signed :
        (c : XchangeCall)
        → call_xchange K c origin (xchange_storage s) ≡ call_xchange K c origin' (xchange_storage s)
    call_xchange_signed XchangeCall.test =
        ExchangeSigned.test_signed (xchange_config K) (xchange_storage s) origin origin' same
    call_xchange_signed (XchangeCall.order o) =
        ExchangeSigned.order_signed (xchange_config K) (xchange_storage s) origin origin' same o
    call_xchange_signed (XchangeCall.cancel device) =
        ExchangeSigned.cancel_signed (xchange_config K) (xchange_storage s) origin origin' same
          device
    call_xchange_signed (XchangeCall.register paraid penalty wcd onoff) =
        ExchangeSigned.register_signed (xchange_config K) (xchange_storage s) origin origin' same
          paraid penalty wcd onoff

    call_service_signed :
        (c : ServiceCall)
        → call_service K c origin (service_storage s) ≡ call_service K c origin' (service_storage s)
    call_service_signed (ServiceCall.order o) =
        ServiceSigned.order_signed (service_config K) (service_storage s) origin origin' same o
    call_service_signed (ServiceCall.cancel device) =
        ServiceSigned.cancel_signed (service_config K) (service_storage s) origin origin' same
          device
    call_service_signed (ServiceCall.accept rejects onoff) =
        ServiceSigned.accept_signed (service_config K) (service_storage s) origin origin' same
          rejects onoff
    call_service_signed (ServiceCall.done onoff) =
        ServiceSigned.done_signed (service_config K) (service_storage s) origin origin' same onoff
    call_service_signed (ServiceCall.set_state onoff) =
        ServiceSigned.set_state_signed (service_config K) (service_storage s) origin origin' same
          onoff
    call_service_signed (ServiceCall.register penalty wcd onoff) =
        ServiceSigned.register_signed (service_config K) (service_storage s) origin origin' same
          penalty wcd onoff

    dispatch_signed : (c : RuntimeCall) → dispatch K c origin s ≡ dispatch K c origin' s
    unfolding dispatch
    dispatch_signed (RuntimeCall.template_pallet c) = rw (call_template_signed c) refl
    dispatch_signed (RuntimeCall.xchange_pallet c) = rw (call_xchange_signed c) refl
    dispatch_signed (RuntimeCall.xchange_service c) = rw (call_service_signed c) refl

  -- If the conversions of origins do as documented, and if `ensure_signed` refuses the origin of a
  -- sibling parachain as such and returns the account that signed: the kind of origin that a
  -- sibling parachain chooses for a call by XCM decides. A call of the kind `Native`, as the
  -- pallets send theirs, has an origin that nobody signed: every call of the pallets but `test`
  -- fails with that refusal and changes nothing. A call of the kind `SovereignAccount` is signed by
  -- the sibling's account here: it does what the call does for any other origin that this account
  -- has signed.
  pub sibling_call_by_kind :
      (c : Converters O)
      → IsDocumented c
      → (para : ℕ) (f : F) → K.ensure_signed (c.sibling_para para) ≡ err f
      → ((account : ℕ) → K.ensure_signed (c.signed account) ≡ ok account)
      → (signed : O) → K.ensure_signed signed ≡ ok (c.sovereign_account_of para)
      → (call : RuntimeCall) → is_test call ≡ false
      → (s : RuntimeState L Q)
      → ((origin : O) × (xcm_origin_to_transact_dispatch_origin c (sibling para) native
            ≡ some origin)
          × (dispatch K call origin s ≡ (err (RuntimeError.library f), s)))
        × ((origin : O) × (xcm_origin_to_transact_dispatch_origin c (sibling para) sovereign_account
              ≡ some origin)
            × (K.ensure_signed origin ≡ ok (c.sovereign_account_of para))
            × (dispatch K call origin s ≡ dispatch K call signed s))
  sibling_call_by_kind c doc para f unsigned signs signed by call h s =
      let account = c.sovereign_account_of para in
      (
        (
          c.sibling_para para,
          origin_sibling c para doc,
          dispatch_unsigned s (c.sibling_para para) f unsigned call h,
        ),
        (
          c.signed account,
          origin_sovereign c para doc,
          signs account,
          dispatch_signed s (c.signed account) signed (signs account ∙ sym by) call,
        ),
      )
