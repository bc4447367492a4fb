-- ===== src/Call/Invite.antt =====
-- sip/router.rs, `handle_invite`.
pub mod Authority
use minghe.Prelude.{
  ℕ, Bool, true, false, ◌&&◌, not, List, [], ◌∷◌, Option, none, some, list_eq, if◌then◌else◌, codes,
  ◌==◌,
}
use minghe.Prelude.Dict.{Dict, get, insert}
use minghe.Text.{Text, Outcome, panics, returns, is_empty}
use minghe.Parser.Header.{◌>>=◌, extract_call_id, extract_contact_uri, extract_extension}
use minghe.Parser.Fields.{extract_uri_from_header, extract_from_tag, extract_body}
use minghe.Registrar.State.{RegistrarService, Registration, tls, udp}
use minghe.Registrar.Blocking.{is_blocked, record_failure}
use minghe.Registrar.Table.{is_registered, lookup}
use minghe.Relay.{RelaySession, create_session}
use minghe.Srtp.Suite.{aes_cm_128_hmac_sha1_80, aead_aes_128_gcm}
use minghe.Srtp.Packet.{SrtpCryptoSuite}
use minghe.Srtp.Sdes.{sdp_name, to_sdes_key}
use minghe.Sdp.{SdpCrypto, rewrite_sdp_with_cryptos, extract_srtp_crypto_from_sdp}
use minghe.Sdp.Media.{extract_audio_media_addr_from_sdp}
use minghe.Transport.{ConnectionSink, stream, datagram, transport, get_outbound}
use minghe.Outbound.{
  rebuild_request_with_sdp, build_outbound_request, server_contact_uri, registered_contact_uri,
  extract_called_extension,
}
use minghe.Call.{
  CallInfo, trying, Router, Env, Sends, Handled, respond, fresh_suite, set_calls, has_active_call,
  cleanup_call,
}

abbrev pub or_blank : Option Text → Text
or_blank none = []
or_blank (some text) = text

abbrev extension_of : Option Text → Outcome (Option Text)
extension_of none = returns none
extension_of (some uri) = extract_extension uri

-- The extension in the From header.
unfoldable pub caller_of : Text → Outcome Text
caller_of request = extract_uri_from_header request (codes "From") >>= extension_of >>= λ ext.
    returns (or_blank ext)

unfoldable pub callee_of : Text → Outcome Text
callee_of request = extract_called_extension request >>= λ ext. returns (or_blank ext)

abbrev same_ip : Env → Text → Option Registration → Bool
same_ip e from_addr none = false
same_ip e from_addr (some reg) = e.ip_of reg.transport_addr == e.ip_of from_addr

-- The connection is that of the caller, or, over UDP, its address is.
abbrev pub is_identified :
    Env → Text → ConnectionSink → Text → Option Text → RegistrarService → Bool
is_identified e caller sink from_addr (some ext) registrar = ext == caller
is_identified e caller (stream tx) from_addr none registrar = false
is_identified e caller (datagram peer) from_addr none registrar =
    same_ip e from_addr (lookup e.now caller registrar)

unfoldable pub is_authorised :
    Env → Text → ConnectionSink → Text → Option Text → RegistrarService → Bool
is_authorised e caller sink from_addr connection_ext registrar =
    not (is_empty caller)
    && (is_registered e.now caller registrar
        && is_identified e caller sink from_addr connection_ext registrar)

-- What `record_failure` leaves.
abbrev pub count_failure : Env → Text → Router → Router
count_failure e ip s = record s { registrar = (record_failure e.now ip s.registrar).0 }

-- The offer to the callee has two suites of the server.
abbrev pub callee_cryptos : Env → List SdpCrypto
callee_cryptos e =
    record {
      tag = 1;
      suite = sdp_name (fresh_suite e 1 aes_cm_128_hmac_sha1_80).suite;
      key_b64 = to_sdes_key e.base64 (fresh_suite e 1 aes_cm_128_hmac_sha1_80);
    }
    ∷ record {
      tag = 2;
      suite = sdp_name (fresh_suite e 2 aead_aes_128_gcm).suite;
      key_b64 = to_sdes_key e.base64 (fresh_suite e 2 aead_aes_128_gcm);
    }
    ∷ []

-- What the handler knows when it has a session for the call.
pub record Offer : Type 0 where
  pub request : Text
  pub call_id : Text
  pub caller_ext : Text
  pub callee_ext : Text
  pub caller_sink : ConnectionSink
  pub callee_sink : ConnectionSink
  pub body : Text
  pub crypto_tag : ℕ
  pub crypto : SrtpCryptoSuite

unfoldable pub callee_invite : Env → Offer → ℕ → Router → Text
callee_invite e o callee_port s =
    let new_sdp = rewrite_sdp_with_cryptos s.media_addr callee_port (callee_cryptos e) o.body in
    build_outbound_request e.branch (rebuild_request_with_sdp o.request new_sdp)
      (registered_contact_uri e.now o.callee_ext s.domain s.registrar) s.domain
      (server_contact_uri o.caller_ext s.domain (transport o.callee_sink)) (transport o.callee_sink)

unfoldable pub call_info : Env → Offer → RelaySession → Option Text → CallInfo
call_info e o session contact = record {
  call_id = o.call_id;
  caller_ext = o.caller_ext;
  callee_ext = o.callee_ext;
  caller_tag = or_blank (extract_from_tag o.request);
  callee_tag = none;
  caller_remote_contact = contact;
  callee_remote_contact = none;
  state = trying;
  original_invite = o.request;
  caller_sink = o.caller_sink;
  callee_sink = some o.callee_sink;
  caller_remote_crypto = some o.crypto;
  caller_remote_crypto_tag = o.crypto_tag;
  caller_local_crypto = some (fresh_suite e 0 o.crypto.suite);
  callee_remote_crypto = none;
  callee_local_crypto = some (fresh_suite e 1 aes_cm_128_hmac_sha1_80);
  callee_local_crypto_gcm = some (fresh_suite e 2 aead_aes_128_gcm);
  caller_media_addr = extract_audio_media_addr_from_sdp e.addresses o.body;
  callee_media_addr = none;
  caller_relay_port = session.caller_port;
  callee_relay_port = session.callee_port;
  relay_started = false;
}

-- The call is entered and offered to the callee.
abbrev pub place_call : Env → Offer → RelaySession → Outcome (Option Text) → Router → Handled Text
place_call e o session panics s = (s, [], panics)
place_call e o session (returns contact) s =
    let invite = callee_invite e o session.callee_port s in
    let placed = set_calls (insert o.call_id (call_info e o session contact) s.active_calls) s in
    if e.delivers o.callee_sink invite
    then (placed, (o.callee_sink, invite) ∷ [], returns (respond e o.request 100 (codes "Trying")))
    else (
      cleanup_call o.call_id placed,
      (o.callee_sink, invite) ∷ [],
      returns (respond e o.request 500 (codes "Internal Server Error")),
    )

abbrev pub with_session : Env → Offer → Option RelaySession → Router → Handled Text
with_session e o none s = (s, [], returns (respond e o.request 503 (codes "Service Unavailable")))
with_session e o (some session) s = place_call e o session (extract_contact_uri o.request) s

unfoldable pub open_session : Env → Offer → Router → Handled Text
open_session e o s =
    let (session, media) = create_session o.call_id s.media_manager in
    with_session e o session (record s { media_manager = media })

-- The checks on the callee and the description, of which each ends the handler with its answer.
abbrev pub with_crypto :
    Env
    → Text
    → Text
    → Text
    → Text
    → ConnectionSink
    → ConnectionSink
    → Text
    → Option (ℕ × SrtpCryptoSuite)
    → Router
    → Handled Text
with_crypto e request call_id caller callee sink callee_sink body none s =
    (s, [], returns (respond e request 488 (codes "Not Acceptable Here")))
with_crypto e request call_id caller callee sink callee_sink body (some (crypto_tag, crypto)) s =
    open_session e
      (record {
        request = request;
        call_id = call_id;
        caller_ext = caller;
        callee_ext = callee;
        caller_sink = sink;
        callee_sink = callee_sink;
        body = body;
        crypto_tag = crypto_tag;
        crypto = crypto;
      })
      s

abbrev pub with_body :
    Env
    → Text
    → Text
    → Text
    → Text
    → ConnectionSink
    → ConnectionSink
    → Option Text
    → Router
    → Handled Text
with_body e request call_id caller callee sink callee_sink none s =
    (s, [], returns (respond e request 488 (codes "Not Acceptable Here")))
with_body e request call_id caller callee sink callee_sink (some body) s =
    with_crypto e request call_id caller callee sink callee_sink body
      (extract_srtp_crypto_from_sdp e.crypto e.base64 body) s

abbrev pub with_sink :
    Env → Text → Text → Text → Text → ConnectionSink → Option ConnectionSink → Router → Handled Text
with_sink e request call_id caller callee sink none s =
    (s, [], returns (respond e request 480 (codes "Temporarily Unavailable")))
with_sink e request call_id caller callee sink (some callee_sink) s =
    with_body e request call_id caller callee sink callee_sink (extract_body request) s

-- The warning before the 404 prints the To header, and reading it may panic.
abbrev pub not_found : Env → Text → Outcome (Option Text) → Router → Handled Text
not_found e request panics s = (s, [], panics)
not_found e request (returns to) s = (s, [], returns (respond e request 404 (codes "Not Found")))

unfoldable pub reach_callee :
    Env → Text → Text → Text → Text → ConnectionSink → Router → Handled Text
reach_callee e request call_id caller callee sink s =
    if is_registered e.now callee s.registrar
    then with_sink e request call_id caller callee sink
        (get_outbound e.now callee s.registrar s.outlets) s
    else not_found e request (extract_uri_from_header request (codes "To")) s

-- An old call of the same Call-ID is cleaned up first.
unfoldable pub invite_callee : Env → Text → Text → Text → ConnectionSink → Router → Handled Text
invite_callee e request caller callee sink s =
    let call_id = or_blank (extract_call_id request) in
    if s.poisoned
    then (s, [], panics)
    else reach_callee e request call_id caller callee sink
        (if has_active_call call_id s then cleanup_call call_id s else s)

abbrev pub invite_from :
    Env
    → Text
    → ConnectionSink
    → Text
    → Option Text
    → Outcome Text
    → Outcome Text
    → Router
    → Handled Text
invite_from e request sink from_addr connection_ext panics callee s = (s, [], panics)
invite_from e request sink from_addr connection_ext (returns caller) panics s = (s, [], panics)
invite_from e request sink from_addr connection_ext (returns caller) (returns callee) s =
    if is_authorised e caller sink from_addr connection_ext s.registrar
    then invite_callee e request caller callee sink s
    else (
      count_failure e (e.ip_of from_addr) s,
      [],
      returns (respond e request 403 (codes "Forbidden")),
    )

unfoldable pub handle_invite :
    Env → Text → ConnectionSink → Text → Option Text → Router → Handled Text
handle_invite e request sink from_addr connection_ext s =
    if is_blocked s.registrar (e.ip_of from_addr)
    then (s, [], returns (respond e request 403 (codes "Forbidden")))
    else invite_from e request sink from_addr connection_ext (caller_of request) (callee_of request)
        s
