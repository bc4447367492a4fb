-- ===== src/Call/Response.antt =====
-- sip/router.rs, `handle_callee_response` and `start_media_relay`.
use minghe.Prelude.{
  ℕ, Bool, true, false, ◌&&◌, ◌||◌, not, [], ◌∷◌, Option, none, some, list_eq, if◌then◌else◌, codes,
  nat_beq, leb,
}
use minghe.Prelude.Dict.{get, insert}
use minghe.Text.{Text, Outcome, panics, returns}
use minghe.Parser.Header.{extract_call_id, extract_contact_uri, extract_status_code}
use minghe.Parser.Fields.{extract_to_tag, extract_body}
use minghe.Relay.{register_shutdown}
use minghe.Srtp.Suite.{SrtpSuite, aes_cm_128_hmac_sha1_80, aead_aes_128_gcm}
use minghe.Srtp.Packet.{SrtpCryptoSuite}
use minghe.Srtp.Sdes.{sdp_name, to_sdes_key}
use minghe.Sdp.{
  SdpCrypto, rewrite_sdp_with_cryptos, extract_srtp_crypto_from_sdp,
  callee_answer_crypto_is_offered,
}
use minghe.Sdp.Media.{
  extract_audio_media_addr_from_sdp, ensure_answer_crypto_not_last_line, fill_missing_rtpmap,
}
use minghe.Transport.{transport}
use minghe.Outbound.{server_contact_uri}
use minghe.Outbound.Answer.{build_forwarded_invite_response, reason_phrase}
use minghe.Call.{
  CallInfo, ringing, established, terminated, RelayTask, Router, Env, Handled, respond, set_calls,
  cleanup_call,
}

-- `if call.callee_tag.is_none() { … }`
abbrev pub or_new : Option Text → Option Text → Option Text
or_new none new = new
or_new (some old) new = some old

-- The `if let` chain on the description of a 200.
abbrev answer_crypto : Env → Option Text → Option (ℕ × SrtpCryptoSuite)
answer_crypto e none = none
answer_crypto e (some body) = extract_srtp_crypto_from_sdp e.crypto e.base64 body

abbrev answer_addr : Env → Option Text → Option Text
answer_addr e none = none
answer_addr e (some body) = extract_audio_media_addr_from_sdp e.addresses body

abbrev pub take_crypto : Env → Option Text → Option (ℕ × SrtpCryptoSuite) → CallInfo → CallInfo
take_crypto e body none call = record call { state = terminated }
take_crypto e body (some (tag, crypto)) call =
    if callee_answer_crypto_is_offered tag crypto.suite
    then record call {
      callee_remote_crypto = some crypto;
      callee_media_addr = answer_addr e body;
      state = established;
    }
    else record call { state = terminated }

-- The contact of a 200, which is read only when there is none yet.
abbrev pub answer_contact : Text → Option Text → Outcome (Option Text)
answer_contact response (some old) = returns (some old)
answer_contact response none = extract_contact_uri response

abbrev pub with_tag : Text → CallInfo → CallInfo
with_tag response call = record call {
  callee_tag = or_new call.callee_tag (extract_to_tag response);
}

-- A 200 on a call that has its tag: a panic leaves the call at that.
abbrev pub accepted : Env → Text → Outcome (Option Text) → CallInfo → CallInfo × Outcome (Unit {0})
accepted e response panics call = (call, panics)
accepted e response (returns contact) call = (
  take_crypto e (extract_body response) (answer_crypto e (extract_body response))
      (record call { callee_remote_contact = contact }),
  returns tt,
)

-- The `match status_code` under the lock: the call as it is left in the table, and whether that is
-- in a panic.
unfoldable pub update_call : Env → ℕ → Text → CallInfo → CallInfo × Outcome (Unit {0})
update_call e status response call =
    if nat_beq status 180 || nat_beq status 183
    then (record (with_tag response call) { state = ringing }, returns tt)
    else if nat_beq status 200
    then accepted e response (answer_contact response call.callee_remote_contact)
        (with_tag response call)
    else if leb 400 status
    then (record call { state = terminated }, returns tt)
    else (call, returns tt)

abbrev reason_of : ℕ → Text → Text
reason_of status other =
    if nat_beq status 100
    then codes "Trying"
    else if nat_beq status 180
    then codes "Ringing"
    else if nat_beq status 183
    then codes "Session Progress"
    else if nat_beq status 200
    then codes "OK"
    else other

abbrev reason_of_failure : ℕ → Text → Text
reason_of_failure status other =
    if nat_beq status 404
    then codes "Not Found"
    else if nat_beq status 486
    then codes "Busy Here"
    else if nat_beq status 487
    then codes "Request Terminated"
    else if nat_beq status 603
    then codes "Decline"
    else other

-- The description for the caller: the server's address, port and key.
unfoldable pub caller_sdp : Env → CallInfo → SrtpCryptoSuite → Text → Router → Text
caller_sdp e call crypto body s =
    let offered : SdpCrypto = record {
      tag = call.caller_remote_crypto_tag;
      suite = sdp_name crypto.suite;
      key_b64 = to_sdes_key e.base64 crypto;
    } in
    fill_missing_rtpmap (
      ensure_answer_crypto_not_last_line
        (rewrite_sdp_with_cryptos s.media_addr call.caller_relay_port (offered ∷ []) body))

-- The response for the caller; there is none if a description has no key to go with it.
abbrev pub with_description :
    Env → ℕ → Text → CallInfo → Text → Option SrtpCryptoSuite → Router → Option Text
with_description e status response call body none s = none
with_description e status response call body (some crypto) s = some (
    build_forwarded_invite_response call.original_invite response status
      (reason_of status (reason_phrase response))
      (server_contact_uri call.callee_ext s.domain (transport call.caller_sink))
      (caller_sdp e call crypto body s))

abbrev pub forwarded_response : Env → ℕ → Text → CallInfo → Option Text → Router → Option Text
forwarded_response e status response call none s = some (
    build_forwarded_invite_response call.original_invite response status
      (reason_of status (reason_of_failure status (reason_phrase response)))
      (server_contact_uri call.callee_ext s.domain (transport call.caller_sink)) [])
forwarded_response e status response call (some body) s =
    with_description e status response call body call.caller_local_crypto s

-- The own keys that go with the suite of the callee.
abbrev pub or_aes : Option SrtpCryptoSuite → Option SrtpCryptoSuite → Option SrtpCryptoSuite
or_aes none other = other
or_aes (some crypto) other = some crypto

abbrev of_suite : SrtpSuite → CallInfo → Option SrtpCryptoSuite
of_suite aes_cm_128_hmac_sha1_80 call = call.callee_local_crypto
of_suite aead_aes_128_gcm call = or_aes call.callee_local_crypto_gcm call.callee_local_crypto

abbrev pub encrypt_for_callee : Option SrtpCryptoSuite → CallInfo → Option SrtpCryptoSuite
encrypt_for_callee none call = call.callee_local_crypto
encrypt_for_callee (some remote) call = of_suite remote.suite call

unfoldable pub relay_task : Text → CallInfo → RelayTask
relay_task call_id call = record {
  call_id = call_id;
  caller_port = call.caller_relay_port;
  callee_port = call.callee_relay_port;
  caller_decrypt_crypto = call.caller_remote_crypto;
  callee_encrypt_crypto = encrypt_for_callee call.callee_remote_crypto call;
  callee_decrypt_crypto = call.callee_remote_crypto;
  caller_encrypt_crypto = call.caller_local_crypto;
  caller_media_addr = call.caller_media_addr;
  callee_media_addr = call.callee_media_addr;
}

unfoldable pub start_media_relay : Env → Text → Router → Router
unfolding relay_task
start_media_relay e call_id s = elim (get call_id s.active_calls) [
  | none ↦ s
  | some call ↦ record s {
    media_manager = register_shutdown call_id e.channel s.media_manager;
    tasks = relay_task call_id call ∷ s.tasks;
  }
]

abbrev pub has_key : Option SrtpCryptoSuite → Bool
has_key none = false
has_key (some crypto) = true

-- The start of the relay behind a 200, once.
unfoldable pub start_once : Env → Text → CallInfo → Router → Router
unfolding start_media_relay
start_once e call_id call s =
    if not call.relay_started && has_key call.callee_remote_crypto
    then start_media_relay e call_id
        (set_calls (insert call_id (record call { relay_started = true }) s.active_calls) s)
    else s

-- After the forwarding: a failure cleans up, a 200 starts the relay.
unfoldable pub conclude_response : Env → ℕ → Text → CallInfo → Router → Router
unfolding start_once
conclude_response e status call_id call s =
    if leb 400 status
    then cleanup_call call_id s
    else if nat_beq status 200
    then start_once e call_id call s
    else s

abbrev pub forward_response : Env → ℕ → Text → CallInfo → Option Text → Router → Handled (Unit {0})
forward_response e status call_id call none s = (
  cleanup_call call_id s,
  (call.caller_sink, respond e call.original_invite 500 (codes "Internal Server Error")) ∷ [],
  returns tt,
)
forward_response e status call_id call (some text) s =
    (conclude_response e status call_id call s, (call.caller_sink, text) ∷ [], returns tt)

-- Behind the lock: `call` is as the update has left it. A panic under the lock poisons it.
abbrev pub respond_to_caller :
    Env → ℕ → Text → Text → CallInfo × Outcome (Unit {0}) → Router → Handled (Unit {0})
respond_to_caller e status response call_id (call, panics) s =
    (record (set_calls (insert call_id call s.active_calls) s) { poisoned = true }, [], panics)
respond_to_caller e status response call_id (call, returns done) s =
    let stored = set_calls (insert call_id call s.active_calls) s in
    if nat_beq status 200 && not (has_key call.callee_remote_crypto)
    then (
      cleanup_call call_id stored,
      (call.caller_sink, respond e call.original_invite 488 (codes "Not Acceptable Here")) ∷ [],
      returns tt,
    )
    else forward_response e status call_id call
        (forwarded_response e status response call (extract_body response) s) stored

abbrev pub response_call : Env → ℕ → Text → Text → Option CallInfo → Router → Handled (Unit {0})
response_call e status response call_id none s = (s, [], returns tt)
response_call e status response call_id (some call) s =
    respond_to_caller e status response call_id (update_call e status response call) s

abbrev pub response_status : Env → Text → Text → Option ℕ → Router → Handled (Unit {0})
response_status e response call_id none s = (s, [], returns tt)
response_status e response call_id (some status) s =
    if s.poisoned
    then (s, [], panics)
    else response_call e status response call_id (get call_id s.active_calls) s

abbrev pub response_id : Env → Text → Option Text → Router → Handled (Unit {0})
response_id e response none s = (s, [], returns tt)
response_id e response (some call_id) s =
    response_status e response call_id (extract_status_code response) s

unfoldable pub handle_callee_response : Env → Text → Router → Handled (Unit {0})
handle_callee_response e response s = response_id e response (extract_call_id response) s
