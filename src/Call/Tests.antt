-- ===== src/Call/Tests.antt =====
-- A router with one call, and the theorems on requests and responses at concrete texts.
use minghe.Prelude.{
  ℕ, ◌≡◌, ◌≢◌, ◌⊎◌, refl, Bool, true, false, List, [], ◌∷◌, ◌++◌, Option, none, some, list_eq,
  codes, replicate, arith,
}
use minghe.Prelude.Dict.{Dict, get, insert}
use minghe.Text.{Text, Outcome, panics, returns}
use minghe.Parser.Header.{extract_call_id, extract_contact_uri, extract_status_code}
use minghe.Parser.Fields.{extract_body, extract_to_tag}
use minghe.Registrar.State.{RegistrarService, Registration, tls}
use minghe.Relay.{MediaRelayManager}
use minghe.Srtp.Suite.{SrtpSuite, aes_cm_128_hmac_sha1_80, aead_aes_128_gcm, salt_len}
use minghe.Srtp.Toy.{toy}
use minghe.Srtp.Packet.{SrtpCryptoSuite, new_with_suite}
use minghe.Sdp.{extract_srtp_crypto_from_sdp, callee_answer_crypto_is_offered}
use minghe.Transport.{ConnectionSink, stream}
use minghe.Call.{CallInfo, CallState, trying, Router, Env}
use minghe.Call.Invite.{handle_invite}
use minghe.Call.Invite.Authority.{Guarded, handle_invite-Guarded}
use minghe.Call.Response.{or_new, answer_contact}
use minghe.Call.Steps.{Steps}
use minghe.Call.Sessions.{IsCoupled, IsTidy}
use minghe.Call.Keys.{IsSecure}
use minghe.Call.Runs.{
  Event, invite, response, bye, handle, run, new, NoPanic, handle-Steps, run-IsSecure,
  run-IsCoupled, run-IsTidy,
}
use minghe.Call.Endings.{Ends, handle-Ends}
use minghe.Call.Poison.{handle_callee_response-freezes}

abbrev alice : Text
alice = codes "1001"

abbrev bob : Text
bob = codes "1002"

abbrev registered : Text → Registration
registered ext = record {
  extension = ext;
  contact = codes "sip:phone";
  expires_at = 900;
  transport_addr = codes "10.0.0.1:5060";
  transport = tls;
}

abbrev registrar : RegistrarService
registrar = record {
  registrations = (alice, registered alice) ∷ (bob, registered bob) ∷ [];
  domain = codes "pbx";
  default_password = codes "secret";
  passwords = [];
  range_start = 1000;
  range_end = 1999;
  ip_block = record {
    enabled = true;
    max_failures = 3;
    window_secs = 60;
    max_failed_ips = 50;
    max_blocked_ips = 50;
  };
  insecure_extensions = [];
  failed_ips = [];
  blocked_ips = [];
  issued_nonces = [];
}

abbrev pool : MediaRelayManager
pool = record {
  port_start = 20000;
  port_end = 20100;
  next_port = 20000;
  sessions = [];
  shutdown_senders = [];
}

-- The key of every description is the same.
abbrev env : Env
env = record {
  now = 200;
  ip_of = λ addr. codes "10.0.0.1";
  tag = codes "t";
  branch = codes "z9hG4bK1";
  crypto = toy;
  base64 = record { encode = λ bytes. codes "a2V5"; decode = λ text. some (replicate 30 1) };
  addresses = record { parse_ip = λ host. some host; socket_addr = λ ip port. ip };
  draw = λ n suite. (replicate 16 n, replicate (salt_len suite) n);
  delivers = λ sink text. true;
  channel = 7;
}

abbrev invite_text : Text
invite_text =
    codes "INVITE sip:1002@pbx SIP/2.0\r\nFrom: <sip:1001@pbx>;tag=a\r\nTo: <sip:1002@pbx>\r\n"
    ++ codes
        "Call-ID: c1\r\n\r\nm=audio 4000 RTP/SAVP 0\r\na=crypto:1 AES_CM_128_HMAC_SHA1_80 inline:a2V5\r\n"

abbrev keys : ℕ → SrtpSuite → SrtpCryptoSuite
keys n suite = new_with_suite toy suite (replicate 16 n) (replicate (salt_len suite) n)

abbrev call : CallInfo
call = record {
  call_id = codes "c1";
  caller_ext = alice;
  callee_ext = bob;
  caller_tag = codes "a";
  callee_tag = none;
  caller_remote_contact = none;
  callee_remote_contact = none;
  state = trying;
  original_invite = invite_text;
  caller_sink = stream 1;
  callee_sink = some (stream 2);
  caller_remote_crypto = some (keys 1 aes_cm_128_hmac_sha1_80);
  caller_remote_crypto_tag = 1;
  caller_local_crypto = some (keys 2 aes_cm_128_hmac_sha1_80);
  callee_remote_crypto = none;
  callee_local_crypto = some (keys 3 aes_cm_128_hmac_sha1_80);
  callee_local_crypto_gcm = some (keys 4 aead_aes_128_gcm);
  caller_media_addr = none;
  callee_media_addr = none;
  caller_relay_port = 20000;
  callee_relay_port = 20002;
  relay_started = false;
}

abbrev router : Router
router = record {
  active_calls = (codes "c1", call) ∷ [];
  poisoned = false;
  registrar = registrar;
  media_manager = pool;
  domain = codes "pbx";
  media_addr = codes "192.0.2.1";
  outlets = record {
    connection_writers = (alice, stream 1) ∷ (bob, stream 2) ∷ [];
    udp_socket = false;
  };
  tasks = [];
}

abbrev events : List (Env × Event)
events =
    (env, invite invite_text (stream 1) (codes "10.0.0.1:5060") (some alice))
    ∷ (env, bye (codes "BYE sip:1002@pbx SIP/2.0\r\nCall-ID: c1\r\n") alice)
    ∷ []

run-IsSecure_example :
    IsSecure (run events (new registrar pool (codes "pbx") (codes "192.0.2.1") false))
run-IsSecure_example = run-IsSecure events registrar pool (codes "pbx") (codes "192.0.2.1") false

run-IsCoupled_example :
    IsCoupled (run events (new registrar pool (codes "pbx") (codes "192.0.2.1") false))
run-IsCoupled_example = run-IsCoupled events registrar pool (codes "pbx") (codes "192.0.2.1") false

handle-Steps_example :
    let event = invite invite_text (stream 1) (codes "10.0.0.1:5060") (some alice) in
    Steps (handle env event router).1 router (handle env event router).0
handle-Steps_example =
    handle-Steps env (invite invite_text (stream 1) (codes "10.0.0.1:5060") (some alice)) router tt

handle_invite-Guarded_example :
    Guarded env invite_text
      (stream 1)
      (codes "10.0.0.1:5060")
      (some alice)
      router
      (handle_invite env invite_text (stream 1) (codes "10.0.0.1:5060") (some alice) router)
handle_invite-Guarded_example =
    handle_invite-Guarded env invite_text (stream 1) (codes "10.0.0.1:5060") (some alice) router

abbrev hang_up : Event
hang_up = bye (codes "BYE sip:1002@pbx SIP/2.0\r\nFrom: <sip:1001@pbx>;tag=a\r\nCall-ID: c1\r\n") []

has_call : get (codes "c1") router.active_calls ≡ some call
unfolding get
has_call = refl

hung_up : get (codes "c1") (handle env hang_up router).0.active_calls ≡ none
unfolding get minghe.Call.Dialog.handle_bye extract_call_id minghe.Text.find_map minghe.Text.lines
    minghe.Text.starts_with minghe.Text.trim minghe.Text.lower minghe.Text.is_empty
    minghe.Parser.Fields.extract_from_tag minghe.Text.find minghe.Text.take_until
    minghe.Call.cleanup_call minghe.Prelude.Dict.remove
hung_up = refl

handle-Ends_example : Ends env router (codes "c1") call hang_up
handle-Ends_example = handle-Ends env router (codes "c1") call has_call hang_up hung_up

abbrev single : List (Env × Event)
single = (env, invite invite_text (stream 1) (codes "10.0.0.1:5060") (some alice)) ∷ []

quiet : NoPanic single (new registrar pool (codes "pbx") (codes "192.0.2.1") false)
unfolding minghe.Call.Dialog.handle_cancel extract_call_id minghe.Text.find_map minghe.Text.lines
    minghe.Text.starts_with minghe.Text.trim minghe.Text.lower new get handle_invite
    minghe.Registrar.Blocking.is_blocked minghe.Call.Invite.caller_of
    minghe.Parser.Fields.extract_uri_from_header minghe.Parser.Header.for_lines
    minghe.Parser.Header.between_brackets minghe.Text.find minghe.Parser.Header.extract_extension
    minghe.Call.Invite.callee_of minghe.Outbound.extract_called_extension
    minghe.Parser.Header.extract_request_uri minghe.Text.split_whitespace minghe.Text.take_until
    minghe.Call.Invite.is_authorised minghe.Registrar.Table.is_registered
    minghe.Registrar.Table.lookup minghe.Call.Invite.invite_callee minghe.Call.Invite.call_info
    minghe.Call.Invite.callee_invite minghe.Call.Invite.open_session minghe.Call.Invite.reach_callee
    minghe.Call.cleanup_call minghe.Call.has_active_call minghe.Outbound.rebuild_request_with_sdp
    extract_body minghe.Parser.Fields.extract_from_tag extract_contact_uri
    minghe.Parser.Response.build_response minghe.Parser.Response.copied_headers
    minghe.Parser.Response.decimal minghe.Prelude.Dict.insert minghe.Prelude.Dict.remove
    minghe.Prelude.Dict.retain_values minghe.Registrar.Blocking.record_failure
    minghe.Relay.remove_session minghe.Sdp.Media.extract_audio_media_addr_from_sdp minghe.Sdp.choose
    extract_srtp_crypto_from_sdp minghe.Sdp.read_line minghe.Srtp.Cipher.counter_block
    minghe.Srtp.Cipher.prf_blocks minghe.Srtp.Cipher.prf_derive minghe.Srtp.Cipher.xor_at
    minghe.Srtp.Packet.derive_session_keys new_with_suite minghe.Srtp.Sdes.from_sdes_with_suite
    minghe.Srtp.Sdes.from_sdp_name minghe.Srtp.Sdes.parse_crypto_attribute
    minghe.Srtp.Sdes.split_once minghe.Srtp.Sdes.to_sdes_key minghe.Text.digits_value
    minghe.Text.is_digit minghe.Text.is_empty minghe.Text.is_whitespace minghe.Text.parse_uint
    minghe.Text.trim_start minghe.Text.upper minghe.Transport.get_outbound
quiet = (refl, tt)

run-IsTidy_example :
    IsTidy (run single (new registrar pool (codes "pbx") (codes "192.0.2.1") false))
run-IsTidy_example =
    run-IsTidy single registrar pool (codes "pbx") (codes "192.0.2.1") false refl quiet

abbrev evil : Text
evil = codes "SIP/2.0 200 OK\r\nContact: >x<\r\nCall-ID: c1\r\n"

evil_id : extract_call_id evil ≡ some (codes "c1")
unfolding extract_call_id minghe.Text.find_map minghe.Text.lines minghe.Text.starts_with
    minghe.Text.trim minghe.Text.lower
evil_id = refl

evil_status : extract_status_code evil ≡ some 200
unfolding extract_status_code minghe.Text.lines minghe.Text.starts_with minghe.Text.trim
    minghe.Text.split_whitespace minghe.Text.parse_uint
evil_status = refl

evil_contact : extract_contact_uri evil ≡ panics
unfolding extract_contact_uri minghe.Text.lines minghe.Text.starts_with minghe.Text.trim
    minghe.Text.lower minghe.Text.find
evil_contact = refl

handle_callee_response-freezes_example :
    (run events (handle env (response evil) router).0).active_calls
    ≡ insert
        (codes "c1")
        (record call { callee_tag = or_new call.callee_tag (extract_to_tag evil) })
        router.active_calls
handle_callee_response-freezes_example =
    handle_callee_response-freezes env evil (codes "c1") call router evil_id evil_status refl
      has_call refl evil_contact events

abbrev answer_body : Text
answer_body = codes "m=audio 4002 RTP/SAVP 0\r\na=crypto:1 AES_CM_128_HMAC_SHA1_80 inline:a2V5\r\n"

abbrev answer : Text
answer = codes "SIP/2.0 200 OK\r\nCall-ID: c1\r\n\r\n" ++ answer_body

answer_silent : answer_contact answer none ≡ returns none
unfolding extract_contact_uri minghe.Text.lines minghe.Text.starts_with minghe.Text.trim
    minghe.Text.lower
answer_silent = refl

answer_has_body : extract_body answer ≡ some answer_body
unfolding extract_body minghe.Text.find
answer_has_body = refl

abbrev answer_crypto : SrtpCryptoSuite
answer_crypto = new_with_suite toy aes_cm_128_hmac_sha1_80 (replicate 16 1) (replicate 14 1)

answer_keys :
    extract_srtp_crypto_from_sdp env.crypto env.base64 answer_body ≡ some (1, answer_crypto)
unfolding extract_srtp_crypto_from_sdp minghe.Text.lines minghe.Sdp.read_line
    minghe.Text.starts_with minghe.Text.trim minghe.Text.lower
    minghe.Srtp.Sdes.parse_crypto_attribute minghe.Srtp.Sdes.split_once minghe.Text.parse_uint
    minghe.Text.is_empty minghe.Text.take_until minghe.Srtp.Sdes.from_sdp_name minghe.Text.upper
    minghe.Srtp.Sdes.from_sdes_with_suite new_with_suite
answer_keys = refl

answer_offered : callee_answer_crypto_is_offered 1 aes_cm_128_hmac_sha1_80 ≡ true
unfolding callee_answer_crypto_is_offered
answer_offered = refl
