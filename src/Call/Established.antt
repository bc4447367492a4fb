-- ===== src/Call/Established.antt =====
-- The steps of the handler of a 200, and what one with a key leads to.
use minghe.Prelude.{
  ℕ, ◌≡◌, refl, ap, ◌∙◌, Bool, true, false, [], ◌∷◌, Option, some, list_eq, if◌then◌else◌, arith,
  codes, list_beq_iff,
}
use minghe.Prelude.Dict.{Dict, get, insert, get-insert}
use minghe.Text.{Text, Outcome, panics, returns}
use minghe.Parser.Header.{extract_call_id, extract_status_code}
use minghe.Parser.Fields.{extract_body, extract_to_tag}
use minghe.Srtp.Packet.{SrtpCryptoSuite}
use minghe.Sdp.{extract_srtp_crypto_from_sdp, callee_answer_crypto_is_offered}
use minghe.Sdp.Media.{extract_audio_media_addr_from_sdp}
use minghe.Transport.{transport}
use minghe.Outbound.{server_contact_uri}
use minghe.Outbound.Answer.{build_forwarded_invite_response}
use minghe.Call.{CallInfo, established, terminated, Router, Env, Handled, set_calls}
use minghe.Call.Response.{
  or_new, with_tag, answer_contact, update_call, forwarded_response, forward_response, caller_sdp,
  start_media_relay, start_once, conclude_response, respond_to_caller, response_call,
  response_status, response_id, handle_callee_response, relay_task,
}

-- The call as a 200 with a key leaves it.
abbrev pub confirmed : Env → Text → Text → Option Text → SrtpCryptoSuite → CallInfo → CallInfo
confirmed e response body contact crypto call = record call {
  callee_tag = or_new call.callee_tag (extract_to_tag response);
  callee_remote_contact = contact;
  callee_remote_crypto = some crypto;
  callee_media_addr = extract_audio_media_addr_from_sdp e.addresses body;
  state = established;
}

update_confirms :
    (e : Env) (response body : Text) (contact : Option Text) (tag : ℕ) (crypto : SrtpCryptoSuite)
    (call : CallInfo)
    → answer_contact response call.callee_remote_contact ≡ returns contact
    → extract_body response ≡ some body
    → extract_srtp_crypto_from_sdp e.crypto e.base64 body ≡ some (tag, crypto)
    → callee_answer_crypto_is_offered tag crypto.suite ≡ true
    → update_call e 200 response call ≡ (confirmed e response body contact crypto call, returns tt)
unfolding update_call
update_confirms e response body contact tag crypto call has_contact has_body found offered =
    rw (has_contact, has_body, found, offered) refl

get_inserted :
    (id : Text) (call : CallInfo) (calls : Dict Text CallInfo)
    → get id (insert id call calls) ≡ some call
get_inserted id call calls = ground (arith, get-insert id id call calls, list_beq_iff id id)

-- An answer without a key that fits.
abbrev pub HasNoKey : Env → Text → Type 0
HasNoKey e response =
    (body : Text) (tag : ℕ) (crypto : SrtpCryptoSuite)
    → extract_body response ≡ some body
    → extract_srtp_crypto_from_sdp e.crypto e.base64 body ≡ some (tag, crypto)
    → callee_answer_crypto_is_offered tag crypto.suite ≡ false

-- The call as such an answer leaves it.
abbrev pub closed : Text → Option Text → CallInfo → CallInfo
closed response contact call = record (with_tag response call) {
  callee_remote_contact = contact;
  state = terminated;
}

pub update_panics :
    (e : Env) (response : Text) (call : CallInfo)
    → answer_contact response call.callee_remote_contact ≡ panics
    → update_call e 200 response call ≡ (with_tag response call, panics)
unfolding update_call
update_panics e response call unreadable = rw unreadable refl

relay_starts :
    (e : Env) (id : Text) (call : CallInfo) (s : Router)
    → get id s.active_calls ≡ some call
    → ((start_media_relay e id s).active_calls ≡ s.active_calls)
      × ((start_media_relay e id s).tasks ≡ relay_task id call ∷ s.tasks)
unfolding start_media_relay
relay_starts e id call s present = (ground arith, ground arith)

module _ (e : Env) (response id : Text) (call : CallInfo) (s : Router) where
  -- A 200 of a known call on a sound lock comes to what the update of the call leaves.
  pub response-respond :
      (u : CallInfo × Outcome (Unit {0}))
      → extract_call_id response ≡ some id
      → extract_status_code response ≡ some 200
      → s.poisoned ≡ false
      → get id s.active_calls ≡ some call
      → update_call e 200 response call ≡ u
      → handle_callee_response e response s ≡ respond_to_caller e 200 response id u s
  unfolding handle_callee_response
  response-respond u named ok fine present update =
      ap (λ (name : Option Text). response_id e response name s) named
      ∙ ap (λ (status : Option ℕ). response_status e response id status s) ok
      ∙ ap
          (λ (b : Bool).
            if b
            then (s, [], panics)
            else response_call e 200 response id (get id s.active_calls) s)
          fine
      ∙ ap (λ (c : Option CallInfo). response_call e 200 response id c s) present
      ∙ ap (λ (c : CallInfo × Outcome (Unit {0})). respond_to_caller e 200 response id c s) update

module _ (e : Env) (response id body : Text) (contact : Option Text) (tag : ℕ)
    (crypto own : SrtpCryptoSuite) (call : CallInfo) (s : Router) where
  abbrev pub answered : CallInfo
  answered = confirmed e response body contact crypto call

  abbrev pub relayed : CallInfo
  relayed = record answered { relay_started = true }

  abbrev pub answer_text : Text
  answer_text =
      build_forwarded_invite_response call.original_invite response 200 (codes "OK")
        (server_contact_uri call.callee_ext s.domain (transport call.caller_sink))
        (caller_sdp e answered own body s)

  abbrev stored : Router
  stored = set_calls (insert id answered s.active_calls) s

  started :
      call.relay_started ≡ false
      → start_once e id answered stored
        ≡ start_media_relay e id (set_calls (insert id relayed stored.active_calls) stored)
  unfolding start_once
  started stopped = rw stopped refl

  answer_forwarded :
      call.caller_local_crypto ≡ some own
      → extract_body response ≡ some body
      → forwarded_response e 200 response answered (extract_body response) s ≡ some answer_text
  answer_forwarded has_own has_body = rw (has_body, has_own) refl

  pub confirmed_response :
      answer_contact response call.callee_remote_contact ≡ returns contact
      → extract_body response ≡ some body
      → extract_srtp_crypto_from_sdp e.crypto e.base64 body ≡ some (tag, crypto)
      → callee_answer_crypto_is_offered tag crypto.suite ≡ true
      → call.caller_local_crypto ≡ some own
      → call.relay_started ≡ false
      → let (after, sent, answer) =
          respond_to_caller e 200 response id (update_call e 200 response call) s in
        (get id after.active_calls ≡ some relayed)
        × (after.tasks ≡ relay_task id relayed ∷ s.tasks)
        × (sent ≡ (call.caller_sink, answer_text) ∷ [])
  unfolding conclude_response
  confirmed_response has_contact has_body found offered has_own stopped =
      let placed = set_calls (insert id relayed stored.active_calls) stored in
      let here = get_inserted id relayed stored.active_calls in
      let (calls, tasks) = relay_starts e id relayed placed here in
      let update =
        update_confirms e response body contact tag crypto call has_contact has_body found
          offered in
      let it : respond_to_caller e 200 response id (update_call e 200 response call) s
          ≡ (start_media_relay e id placed, (call.caller_sink, answer_text) ∷ [], returns tt) =
        ap (λ (c : CallInfo × Outcome (Unit {0})). respond_to_caller e 200 response id c s) update
        ∙ ap (λ (t : Option Text). forward_response e 200 id answered t stored)
            (answer_forwarded has_own has_body)
        ∙ ap (λ (t : Router). (t, (call.caller_sink, answer_text) ∷ [], returns tt))
            (started stopped) in
      (
        ap (λ (r : Handled (Unit {0})). get id r.0.active_calls) it ∙ ap (get id) calls ∙ here,
        ap (λ (r : Handled (Unit {0})). r.0.tasks) it ∙ tasks,
        ap (λ (r : Handled (Unit {0})). r.1) it,
      )
