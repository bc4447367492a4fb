-- ===== src/Server/Dispatch.antt =====
-- sip/server.rs, `process_sip_message`.
use minghe.Prelude.{
  ℕ, Bool, false, ◌&&◌, [], ◌∷◌, ◌++◌, Option, none, some, list_eq, if◌then◌else◌, codes, nat_beq,
  ◌==◌,
}
use minghe.Text.{Text, Outcome, panics, returns, is_empty, trim}
use minghe.Parser.Header.{
  ◌>>=◌, extract_extension, extract_method, extract_status_code, is_request, is_response,
}
use minghe.Parser.Fields.{extract_uri_from_header, extract_cseq_method, extract_expires}
use minghe.Parser.Response.{build_response_with_headers}
use minghe.Registrar.State.{Transport, tls, udp}
use minghe.Registrar.Register.{Call, handle_register}
use minghe.Transport.{ConnectionSink}
use minghe.Call.{Router, Env, Sends, Handled, respond, register_writer, unregister_writer}
use minghe.Call.Invite.{or_blank, handle_invite}
use minghe.Call.Response.{handle_callee_response}
use minghe.Call.Dialog.{handle_ack, handle_bye, handle_cancel}
use minghe.Message.Request.{MessageService, Answered, handle_message}
use minghe.Server.{
  ServerState, set_router, set_connection_extension, clear_connection_extension,
  get_connection_extension,
}

-- The environment of the router, and what a REGISTER takes besides.
pub record Surroundings : Type 0 where
  pub env : Env
  pub nonce : Text
  pub md5_hex : Text → Text

-- A datagram or a message of a stream, its sender and the way back.
pub record Incoming : Type 0 where
  pub text : Text
  pub peer_addr : Text
  pub sink : ConnectionSink
  pub transport : Transport

abbrev pub Processed : Type 0
Processed = ServerState × Sends × Outcome (Unit {0})

-- The answer of a handler goes back to the sender.
abbrev pub reply : ConnectionSink → ServerState → Sends → Outcome Text → Processed
reply sink st sent panics = (st, sent, panics)
reply sink st sent (returns response) = (st, sent ++ ((sink, response) ∷ []), returns tt)

abbrev pub replied : ConnectionSink → ServerState → Handled Text → Processed
replied sink st (router, sent, answer) = reply sink (set_router router st) sent answer

abbrev pub quiet : ServerState → Handled (Unit {0}) → Processed
quiet st (router, sent, answer) = (set_router router st, sent, answer)

abbrev pub is_zero : Option ℕ → Bool
is_zero none = false
is_zero (some n) = nat_beq n 0

abbrev pub is_ok : Option ℕ → Bool
is_ok none = false
is_ok (some n) = nat_beq n 200

abbrev with_writer : Transport → Text → ConnectionSink → Router → Router
with_writer tls ext sink router = register_writer ext sink router
with_writer udp ext sink router = router

-- What a successful REGISTER changes in the server.
unfoldable pub associate : Incoming → Text → ServerState → ServerState
associate m ext st =
    if is_zero (extract_expires m.text)
    then (let cleared = clear_connection_extension m.peer_addr st in
        set_router (unregister_writer ext cleared.router) cleared)
    else (let known = set_connection_extension m.peer_addr ext st in
        record known {
          router = with_writer m.transport ext m.sink known.router;
          deliveries = ext ∷ known.deliveries;
        })

abbrev extension_in : Option Text → Outcome (Option Text)
extension_in none = returns none
extension_in (some uri) = extract_extension uri

unfoldable pub registered_extension : Text → Outcome (Option Text)
registered_extension text = extract_uri_from_header text (codes "To") >>= extension_in

abbrev pub associated : Incoming → Text → Outcome (Option Text) → ServerState → Processed
associated m response panics st = (st, [], panics)
associated m response (returns none) st = (st, (m.sink, response) ∷ [], returns tt)
associated m response (returns (some ext)) st =
    (associate m ext st, (m.sink, response) ∷ [], returns tt)

abbrev pub after_register : Incoming → Outcome Text → ServerState → Processed
after_register m panics st = (st, [], panics)
after_register m (returns response) st =
    if is_ok (extract_status_code response)
    then associated m response (registered_extension m.text) st
    else (st, (m.sink, response) ∷ [], returns tt)

abbrev pub register_call : Surroundings → Incoming → Call
register_call w m = record {
  now = w.env.now;
  ip = w.env.ip_of m.peer_addr;
  from_addr = m.peer_addr;
  transport = m.transport;
  nonce = w.nonce;
  tag = w.env.tag;
  md5_hex = w.md5_hex;
}

unfoldable pub process_register : Surroundings → Incoming → ServerState → Processed
process_register w m st =
    let (registrar, answer) = handle_register (register_call w m) m.text st.router.registrar in
    after_register m answer (set_router (record st.router { registrar = registrar }) st)

-- The message service shares the registrations and the ways out with the router.
abbrev pub message_service : ServerState → MessageService
message_service st = record {
  registrar = st.router.registrar;
  domain = st.router.domain;
  outlets = st.router.outlets;
  range_start = st.range_start;
  range_end = st.range_end;
  offline = st.offline;
}

abbrev pub messaged : ConnectionSink → ServerState → Answered → Processed
messaged sink st (service, sent, answer) =
    reply sink (record st { offline = service.offline }) sent answer

-- The extension that the connection has been authenticated for.
abbrev pub connection_ext : Incoming → ServerState → Text
connection_ext m st = or_blank (get_connection_extension m.peer_addr st)

-- The cases of `match method.as_str()`.
pub data Method : Type 0 where
  register_method invite_method ack_method bye_method cancel_method : Method
  message_method options_method other_method : Method

unfoldable pub method_of : Text → Method
method_of method =
    if method == codes "REGISTER"
    then register_method
    else if method == codes "INVITE"
    then invite_method
    else if method == codes "ACK"
    then ack_method
    else if method == codes "BYE"
    then bye_method
    else if method == codes "CANCEL"
    then cancel_method
    else if method == codes "MESSAGE"
    then message_method
    else if method == codes "OPTIONS"
    then options_method
    else other_method

unfoldable pub process_request : Surroundings → Incoming → Method → ServerState → Processed
process_request w m register_method st = process_register w m st
process_request w m invite_method st = replied m.sink st (
    handle_invite w.env m.text m.sink m.peer_addr (get_connection_extension m.peer_addr st)
      st.router)
process_request w m ack_method st = quiet st (handle_ack w.env m.text st.router)
process_request w m bye_method st =
    replied m.sink st (handle_bye w.env m.text (connection_ext m st) st.router)
process_request w m cancel_method st = replied m.sink st (handle_cancel w.env m.text st.router)
process_request w m message_method st =
    messaged m.sink st (handle_message w.env m.text (connection_ext m st) (message_service st))
process_request w m options_method st = reply m.sink st [] (
    returns (
      build_response_with_headers w.env.tag m.text 200 (codes "OK") (
        (codes "Allow", codes "INVITE, ACK, BYE, CANCEL, REGISTER, OPTIONS, MESSAGE")
        ∷ (codes "Accept", codes "application/sdp")
        ∷ [])))
process_request w m other_method st =
    reply m.sink st [] (returns (respond w.env m.text 405 (codes "Method Not Allowed")))

abbrev pub is_invite : Option Text → Bool
is_invite none = false
is_invite (some method) = method == codes "INVITE"

abbrev pub requested : Surroundings → Incoming → Option Text → ServerState → Processed
requested w m none st = (st, [], returns tt)
requested w m (some method) st = process_request w m (method_of method) st

unfoldable pub process_sip_message : Surroundings → Incoming → ServerState → Processed
process_sip_message w m st =
    if is_empty (trim m.text)
    then (st, [], returns tt)
    else if is_request m.text
    then requested w m (extract_method m.text) st
    else if is_response m.text && is_invite (extract_cseq_method m.text)
    then quiet st (handle_callee_response w.env m.text st.router)
    else (st, [], returns tt)
