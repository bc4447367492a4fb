-- ===== src/Message/Request.antt =====
-- sip/message.rs, `handle_message`: a MESSAGE request, which goes to its callee at once or is kept.
pub mod Outcomes
use minghe.Prelude.{
  ℕ, Bool, true, false, ◌&&◌, ◌||◌, not, List, [], ◌∷◌, Option, none, some, list_eq, if◌then◌else◌,
  codes, ◌==◌, ltb, leb, length, ◌^◌,
}
use minghe.Text.{Text, Outcome, panics, returns, is_empty, trim, parse_uint}
use minghe.Parser.Header.{◌>>=◌}
use minghe.Parser.Fields.{extract_body}
use minghe.Registrar.State.{RegistrarService}
use minghe.Transport.{ConnectionSink, Outlets, transport, get_outbound}
use minghe.Outbound.{build_outbound_request_with_from, server_contact_uri, registered_contact_uri}
use minghe.Call.{Env, Sends, respond}
use minghe.Call.Invite.{or_blank, callee_of}
use minghe.Message.{
  Offline, StoreOutcome, stored, rate_limited, quota_exceeded, capacity_full, store_offline_message,
}

abbrev pub max_message_body_len : ℕ
max_message_body_len = 4096

abbrev pub max_message_request_len : ℕ
max_message_request_len = 8192

pub record MessageService : Type 0 where
  pub registrar : RegistrarService
  pub domain : Text
  pub outlets : Outlets
  pub range_start : ℕ
  pub range_end : ℕ
  pub offline : Offline

abbrev in_range : MessageService → Option ℕ → Bool
in_range s none = false
in_range s (some num) = leb s.range_start num && leb num s.range_end

unfoldable pub is_valid_extension : MessageService → Text → Bool
is_valid_extension s extension = in_range s (parse_uint (2 ^ 32) extension)

abbrev pub Answered : Type 0
Answered = MessageService × Sends × Outcome Text

abbrev pub refused : Env → Text → MessageService → ℕ → Text → Answered
refused e request s status reason = (s, [], returns (respond e request status reason))

-- `store_offline_message`, and the answer to its outcome.
abbrev pub stored_answer : Env → Text → StoreOutcome → Text
stored_answer e request stored = respond e request 200 (codes "OK")
stored_answer e request rate_limited = respond e request 503 (codes "Service Unavailable")
stored_answer e request quota_exceeded = respond e request 503 (codes "Service Unavailable")
stored_answer e request capacity_full = respond e request 503 (codes "Service Unavailable")

unfoldable pub keep_message : Env → Text → Text → Text → Sends → MessageService → Answered
keep_message e request from_ext callee sent s =
    let (offline, outcome) = store_offline_message e.now callee from_ext request s.offline in
    (record s { offline = offline }, sent, returns (stored_answer e request outcome))

-- The request with the authenticated caller as its sender and its contact.
unfoldable pub forwarded_message : Env → Text → Text → Text → ConnectionSink → MessageService → Text
forwarded_message e request from_ext callee sink s =
    let own = server_contact_uri from_ext s.domain (transport sink) in
    build_outbound_request_with_from e.branch request
      (registered_contact_uri e.now callee s.domain s.registrar) s.domain own own (transport sink)

abbrev pub send_message :
    Env → Text → Text → Text → Option ConnectionSink → MessageService → Answered
send_message e request from_ext callee none s = keep_message e request from_ext callee [] s
send_message e request from_ext callee (some sink) s =
    let message = forwarded_message e request from_ext callee sink s in
    if e.delivers sink message
    then (s, (sink, message) ∷ [], returns (respond e request 200 (codes "OK")))
    else keep_message e request from_ext callee ((sink, message) ∷ []) s

unfoldable pub message_to : Env → Text → Text → Text → MessageService → Answered
unfolding is_valid_extension
message_to e request from_ext callee s =
    let body = or_blank (extract_body request) in
    if is_empty callee || callee == from_ext
    then refused e request s 400 (codes "Bad Request")
    else if not (is_valid_extension s callee)
    then refused e request s 404 (codes "Not Found")
    else if is_empty (trim body)
    then refused e request s 400 (codes "Bad Request")
    else if ltb max_message_body_len (length body)
    then refused e request s 413 (codes "Message Too Large")
    else send_message e request from_ext callee (get_outbound e.now callee s.registrar s.outlets) s

abbrev pub message_called : Env → Text → Text → Outcome Text → MessageService → Answered
message_called e request from_ext panics s = (s, [], panics)
message_called e request from_ext (returns callee) s = message_to e request from_ext callee s

unfoldable pub handle_message : Env → Text → Text → MessageService → Answered
handle_message e request from_ext s =
    if is_empty from_ext
    then refused e request s 403 (codes "Forbidden")
    else if ltb max_message_request_len (length request)
    then refused e request s 413 (codes "Message Too Large")
    else message_called e request from_ext (callee_of request) s
