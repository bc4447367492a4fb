-- ===== src/Call/Handlers.antt =====
-- Each handler is a sequence of the steps.
use minghe.Prelude.{
  ℕ, ◌≡◌, refl, Bool, true, false, Option, none, some, list_eq, if-both, arith, codes,
}
use minghe.Prelude.Dict.{get}
use minghe.Text.{Text, Outcome, panics, returns}
use minghe.Parser.Header.{extract_call_id, extract_contact_uri}
use minghe.Parser.Fields.{extract_body, extract_uri_from_header}
use minghe.Relay.{RelaySession, MediaRelayManager, create_session}
use minghe.Srtp.Suite.{aes_cm_128_hmac_sha1_80, aead_aes_128_gcm}
use minghe.Srtp.Packet.{SrtpCryptoSuite, new_with_suite}
use minghe.Sdp.{extract_srtp_crypto_from_sdp}
use minghe.Transport.{ConnectionSink, get_outbound}
use minghe.Call.{
  CallInfo, terminated, Router, Env, Handled, fresh_suite, cleanup_call, has_active_call,
}
use minghe.Call.Invite.{
  Offer, call_info, place_call, with_session, open_session, with_crypto, with_body, with_sink,
  reach_callee, invite_callee, invite_from, handle_invite, caller_of, callee_of, or_blank,
  not_found,
}
use minghe.Call.Dialog.{
  handle_ack, ack_id, ack_call, handle_bye, bye_id, bye_call, handle_cancel, cancel_id, cancel_call,
}
use minghe.Call.Steps.{
  IsNew, counts, ends, exhausts, abandons, places, updates, Steps, stays, then_step,
}
use minghe.Call.Evolution.{update-Evolves}

abbrev pub is_panic {ℓ} : {A : Type ℓ} → Outcome A → Bool
is_panic panics = true
is_panic (returns a) = false

-- The router of a result is reached from `s`.
abbrev pub Reached {ℓ} : {A : Type ℓ} → Router → Handled A → Type 0
Reached s (t, sent, answer) = Steps (is_panic answer) s t

module _ (e : Env) where
  call_info-IsNew :
      (o : Offer) (session : RelaySession) (contact : Option Text)
      → IsNew session (call_info e o session contact)
  unfolding call_info new_with_suite minghe.Srtp.Packet.derive_session_keys
  call_info-IsNew o session contact = record {
    state = refl;
    offered = record {
      caller_keys = (o.crypto, fresh_suite e 0 o.crypto.suite, refl, refl, refl);
      callee_keys = (
        fresh_suite e 1 aes_cm_128_hmac_sha1_80,
        fresh_suite e 2 aead_aes_128_gcm,
        refl,
        refl,
        refl,
        refl,
      );
    };
    unanswered = refl;
    stopped = refl;
    caller_port = refl;
    callee_port = refl;
  }

  module _ (first : Router) where
    abbrev Before : Router → Type 0
    Before s = (b : Bool) → Steps b first s

    placed-Reached :
        (o : Offer) (session : RelaySession) (media : MediaRelayManager)
        (contact : Outcome (Option Text)) (s : Router)
        → Before s
        → create_session o.call_id s.media_manager ≡ (some session, media)
        → Reached first (place_call e o session contact (record s { media_manager = media }))
    placed-Reached o session media panics s before h =
        then_step (before true) (abandons o.call_id session media h refl)
    placed-Reached o session media (returns contact) s before h =
        let new = call_info-IsNew o session contact in
        let placed = places o.call_id session media (call_info e o session contact) h new in
        if-both (Reached first) (e.delivers o.callee_sink _) _ _
          (λ sent. then_step (before false) placed)
          (λ lost. then_step (then_step (before false) placed) (ends o.call_id))

    session-Reached :
        (o : Offer) (s : Router) (r : Option RelaySession × MediaRelayManager)
        → Before s
        → create_session o.call_id s.media_manager ≡ r
        → Reached first (with_session e o r.0 (record s { media_manager = r.1 }))
    session-Reached o s (none, media) before h =
        then_step (before false) (exhausts o.call_id media h)
    session-Reached o s (some session, media) before h =
        placed-Reached o session media (extract_contact_uri o.request) s before h

    crypto-Reached :
        (request call_id caller callee : Text) (sink callee_sink : ConnectionSink) (body : Text)
        (found : Option (ℕ × SrtpCryptoSuite)) (s : Router)
        → Before s
        → Reached first (with_crypto e request call_id caller callee sink callee_sink body found s)
    unfolding open_session
    crypto-Reached request call_id caller callee sink callee_sink body none s before = before false
    crypto-Reached request call_id caller callee sink callee_sink body (some (tag, crypto)) s
          before =
        session-Reached _ s (create_session call_id s.media_manager) before refl

    body-Reached :
        (request call_id caller callee : Text) (sink callee_sink : ConnectionSink)
        (body : Option Text) (s : Router)
        → Before s
        → Reached first (with_body e request call_id caller callee sink callee_sink body s)
    body-Reached request call_id caller callee sink callee_sink none s before = before false
    body-Reached request call_id caller callee sink callee_sink (some body) s before =
        crypto-Reached request call_id caller callee sink callee_sink body
          (extract_srtp_crypto_from_sdp e.crypto e.base64 body) s before

    sink-Reached :
        (request call_id caller callee : Text) (sink : ConnectionSink)
        (callee_sink : Option ConnectionSink) (s : Router)
        → Before s
        → Reached first (with_sink e request call_id caller callee sink callee_sink s)
    sink-Reached request call_id caller callee sink none s before = before false
    sink-Reached request call_id caller callee sink (some callee_sink) s before =
        body-Reached request call_id caller callee sink callee_sink (extract_body request) s before

    offline-Reached :
        (request : Text) (to : Outcome (Option Text)) (s : Router)
        → Before s
        → Reached first (not_found e request to s)
    offline-Reached request panics s before = before true
    offline-Reached request (returns to) s before = before false

    callee-Reached :
        (request call_id caller callee : Text) (sink : ConnectionSink) (s : Router)
        → Before s
        → Reached first (reach_callee e request call_id caller callee sink s)
    unfolding reach_callee
    callee-Reached request call_id caller callee sink s before =
        if-both (Reached first) _ _ _
          (λ online.
            sink-Reached request call_id caller callee sink
              (get_outbound e.now callee s.registrar s.outlets) s before)
          (λ offline.
            offline-Reached request (extract_uri_from_header request (codes "To")) s before)

  invited-Reached :
      (request caller callee : Text) (sink : ConnectionSink) (s : Router)
      → Reached s (invite_callee e request caller callee sink s)
  unfolding invite_callee
  invited-Reached request caller callee sink s =
      let id = or_blank (extract_call_id request) in
      if-both (Reached s) s.poisoned _ _ (λ p. stays)
        (λ p. callee-Reached s request id caller callee sink _ (
          if-both (λ (t : Router). (b : Bool) → Steps b s t) (has_active_call id s)
            (cleanup_call id s) s (λ old b. then_step stays (ends id)) (λ new b. stays)))

  invite_from-Reached :
      (request : Text) (sink : ConnectionSink) (from_addr : Text) (connection_ext : Option Text)
      (caller callee : Outcome Text) (s : Router)
      → Reached s (invite_from e request sink from_addr connection_ext caller callee s)
  invite_from-Reached request sink from_addr connection_ext panics callee s = stays
  invite_from-Reached request sink from_addr connection_ext (returns caller) panics s = stays
  invite_from-Reached request sink from_addr connection_ext (returns caller) (returns callee) s =
      if-both (Reached s) _ _ _ (λ allowed. invited-Reached request caller callee sink s)
        (λ refused. then_step stays (counts e.now (e.ip_of from_addr)))

  pub handle_invite-Reached :
      (request : Text) (sink : ConnectionSink) (from_addr : Text) (connection_ext : Option Text)
      (s : Router)
      → Reached s (handle_invite e request sink from_addr connection_ext s)
  unfolding handle_invite
  handle_invite-Reached request sink from_addr connection_ext s =
      if-both (Reached s) _ _ _ (λ blocked. stays)
        (λ free.
          invite_from-Reached request sink from_addr connection_ext (caller_of request)
            (callee_of request) s)

  pub handle_ack-Reached : (request : Text) (s : Router) → Reached s (handle_ack e request s)
  unfolding handle_ack
  handle_ack-Reached request s = go (extract_call_id request)
    where
      found : (call : Option CallInfo) → Reached s (ack_call e request call s)
      found none = stays
      found (some call) = stays

      go : (id : Option Text) → Reached s (ack_id e request id s)
      go none = stays
      go (some id) =
          if-both (Reached s) s.poisoned _ _ (λ p. stays) (λ p. found (get id s.active_calls))

  pub handle_bye-Reached :
      (request from_extension : Text) (s : Router)
      → Reached s (handle_bye e request from_extension s)
  unfolding handle_bye
  handle_bye-Reached request from_extension s = go (extract_call_id request)
    where
      found :
          (id : Text) (call : Option CallInfo)
          → Reached s (bye_call e request id from_extension call s)
      found id none = stays
      found id (some call) =
          if-both (Reached s) _ _ _ (λ side. then_step stays (ends id)) (λ stranger. stays)

      go : (id : Option Text) → Reached s (bye_id e request from_extension id s)
      go none = stays
      go (some id) =
          if-both (Reached s) s.poisoned _ _ (λ p. stays) (λ p. found id (get id s.active_calls))

  pub handle_cancel-Reached : (request : Text) (s : Router) → Reached s (handle_cancel e request s)
  unfolding handle_cancel
  handle_cancel-Reached request s = go (extract_call_id request)
    where
      found :
          (id : Text) (call : Option CallInfo)
          → get id s.active_calls ≡ call
          → Reached s (cancel_call e request id call s)
      found id none h = stays
      found id (some call) h =
          if-both (Reached s) _ _ _
            (λ own.
              then_step
                (then_step stays (
                  updates id call (record call { state = terminated }) h
                    (update-Evolves e terminated call call.callee_tag
                      (λ k. absurd (ground arith)))))
                (ends id))
            (λ stranger. stays)

      go : (id : Option Text) → Reached s (cancel_id e request id s)
      go none = stays
      go (some id) =
          if-both (Reached s) s.poisoned _ _ (λ p. stays)
            (λ p. found id (get id s.active_calls) refl)
