-- ===== src/Call/Dialog.antt =====
-- sip/router.rs: `handle_ack`, `handle_bye` and `handle_cancel`.
use minghe.Prelude.{
  Bool, false, ◌&&◌, ◌||◌, not, [], ◌∷◌, Option, none, some, list_eq, if◌then◌else◌, codes, ◌==◌,
}
use minghe.Prelude.Dict.{get, insert}
use minghe.Text.{Text, panics, returns, is_empty}
use minghe.Parser.Header.{extract_call_id}
use minghe.Parser.Fields.{extract_from_tag}
use minghe.Transport.{ConnectionSink, transport}
use minghe.Outbound.{build_outbound_request, registered_contact_uri}
use minghe.Call.{
  CallInfo, terminated, Router, Env, Sends, Handled, respond, set_calls, cleanup_call,
}
use minghe.Call.Invite.{or_blank}

abbrev pub contact_or : Env → Router → Text → Option Text → Text
contact_or e s extension (some contact) = contact
contact_or e s extension none = registered_contact_uri e.now extension s.domain s.registrar

-- The request as it goes to the other side, if that can be reached.
abbrev pub forwarded : Env → Router → Text → Text → Option ConnectionSink → Sends
forwarded e s request target none = []
forwarded e s request target (some sink) =
    (sink, build_outbound_request e.branch request target s.domain [] (transport sink)) ∷ []

abbrev pub ack_call : Env → Text → Option CallInfo → Router → Handled (Unit {0})
ack_call e request none s = (s, [], returns tt)
ack_call e request (some call) s = (
  s,
  forwarded e s request (contact_or e s call.callee_ext call.callee_remote_contact)
      call.callee_sink,
  returns tt,
)

abbrev pub ack_id : Env → Text → Option Text → Router → Handled (Unit {0})
ack_id e request none s = (s, [], returns tt)
ack_id e request (some call_id) s =
    if s.poisoned then (s, [], panics) else ack_call e request (get call_id s.active_calls) s

unfoldable pub handle_ack : Env → Text → Router → Handled (Unit {0})
handle_ack e request s = ack_id e request (extract_call_id request) s

abbrev pub no_call : Env → Text → Text
no_call e request = respond e request 481 (codes "Call/Transaction Does Not Exist")

-- The request's tag is that of a side, or the connection is that of a side.
abbrev tag_is : Text → Option Text → Bool
tag_is tag none = false
tag_is tag (some other) = other == tag

abbrev pub from_caller_tag : Text → CallInfo → Bool
from_caller_tag tag call = not (is_empty tag) && tag == call.caller_tag

abbrev pub from_callee_tag : Text → CallInfo → Bool
from_callee_tag tag call = not (is_empty tag) && tag_is tag call.callee_tag

abbrev pub is_extension : Text → Text → Bool
is_extension from_extension ext = not (is_empty from_extension) && from_extension == ext

abbrev pub caller_side : Text → Text → CallInfo → Bool
caller_side tag from_extension call =
    from_caller_tag tag call || is_extension from_extension call.caller_ext

abbrev pub callee_side : Text → Text → CallInfo → Bool
callee_side tag from_extension call =
    from_callee_tag tag call || is_extension from_extension call.callee_ext

-- What is sent to the other side of a call that a side ends.
abbrev pub bye_sends : Env → Text → Text → Text → CallInfo → Router → Sends
bye_sends e request tag from_extension call s =
    if caller_side tag from_extension call && not (callee_side tag from_extension call)
    then forwarded e s request (contact_or e s call.callee_ext call.callee_remote_contact)
        call.callee_sink
    else forwarded e s request (contact_or e s call.caller_ext call.caller_remote_contact)
        (some call.caller_sink)

abbrev pub bye_call : Env → Text → Text → Text → Option CallInfo → Router → Handled Text
bye_call e request call_id from_extension none s = (s, [], returns (no_call e request))
bye_call e request call_id from_extension (some call) s =
    let tag = or_blank (extract_from_tag request) in
    if caller_side tag from_extension call || callee_side tag from_extension call
    then (
      cleanup_call call_id s,
      bye_sends e request tag from_extension call s,
      returns (respond e request 200 (codes "OK")),
    )
    else (s, [], returns (no_call e request))

abbrev pub bye_id : Env → Text → Text → Option Text → Router → Handled Text
bye_id e request from_extension none s = (s, [], returns (no_call e request))
bye_id e request from_extension (some call_id) s =
    if s.poisoned
    then (s, [], panics)
    else bye_call e request call_id from_extension (get call_id s.active_calls) s

unfoldable pub handle_bye : Env → Text → Text → Router → Handled Text
handle_bye e request from_extension s = bye_id e request from_extension (extract_call_id request) s

-- What a CANCEL sends: itself to the callee, and the end of the INVITE to the caller.
abbrev pub cancel_sends : Env → Text → CallInfo → Option ConnectionSink → Router → Sends
cancel_sends e request call none s = []
cancel_sends e request call (some sink) s =
    (
      sink,
      build_outbound_request e.branch request
          (contact_or e s call.callee_ext call.callee_remote_contact) s.domain [] (transport sink),
    )
    ∷ (call.caller_sink, respond e call.original_invite 487 (codes "Request Terminated"))
    ∷ []

abbrev pub cancel_call : Env → Text → Text → Option CallInfo → Router → Handled Text
cancel_call e request call_id none s = (s, [], returns (no_call e request))
cancel_call e request call_id (some call) s =
    if from_caller_tag (or_blank (extract_from_tag request)) call
    then (
      cleanup_call call_id
          (set_calls (insert call_id (record call { state = terminated }) s.active_calls) s),
      cancel_sends e request call call.callee_sink s,
      returns (respond e request 200 (codes "OK")),
    )
    else (s, [], returns (no_call e request))

abbrev pub cancel_id : Env → Text → Option Text → Router → Handled Text
cancel_id e request none s = (s, [], returns (no_call e request))
cancel_id e request (some call_id) s =
    if s.poisoned
    then (s, [], panics)
    else cancel_call e request call_id (get call_id s.active_calls) s

unfoldable pub handle_cancel : Env → Text → Router → Handled Text
handle_cancel e request s = cancel_id e request (extract_call_id request) s
