-- ===== src/Call/Endings.antt =====
-- Who can end a call.
use minghe.Prelude.{
  ℕ, ◌≡◌, refl, sym, ap, ◌∙◌, subst, true, false, ◌||◌, ◌&&◌, not, Option, none, some, list_eq,
  list_beq_iff, ◌==◌, inl, inr, if-both, Option-cases, Bool-cases, arith, leb, nat_beq,
}
use minghe.Prelude.Dict.{get, insert, get-insert}
use minghe.Text.{Text, Outcome, panics, returns}
use minghe.Parser.Header.{extract_call_id, extract_status_code}
use minghe.Parser.Fields.{extract_from_tag, extract_body}
use minghe.Transport.{ConnectionSink}
use minghe.Call.{
  CallInfo, terminated, Router, Env, Handled, Sends, set_calls, cleanup_call, register_writer,
  unregister_writer,
}
use minghe.Call.Invite.{or_blank, handle_invite}
use minghe.Call.Invite.Authority.{IsAllowed, Guarded, handle_invite-Guarded}
use minghe.Call.Response.{
  has_key, update_call, forwarded_response, forward_response, conclude_response, start_once,
  start_media_relay, respond_to_caller, response_call, response_status, response_id,
  handle_callee_response,
}
use minghe.Call.Dialog.{
  caller_side, callee_side, from_caller_tag, handle_bye, bye_id, bye_call, handle_cancel, cancel_id,
  cancel_call, handle_ack, ack_id, ack_call,
}
use minghe.Call.Sessions.{get-cleanup_call}
use minghe.Call.Runs.{
  Event, invite, response, ack, bye, cancel, writer, no_writer, registrations, handle,
}

-- The events that may end the call of an identifier.
pub data Ends (e : Env) (s : Router) (id : Text) (call : CallInfo) : Event → Type 0 where
  hangs_up :
      {request from_extension : Text}
      → extract_call_id request ≡ some id
      → (caller_side (or_blank (extract_from_tag request)) from_extension call
          || callee_side (or_blank (extract_from_tag request)) from_extension call)
        ≡ true
      → Ends e s id call (bye request from_extension)
  cancels :
      {request : Text}
      → extract_call_id request ≡ some id
      → from_caller_tag (or_blank (extract_from_tag request)) call ≡ true
      → Ends e s id call (cancel request)
  answers : {text : Text} → extract_call_id text ≡ some id → Ends e s id call (response text)
  invites :
      {request : Text} {sink : ConnectionSink} {from_addr : Text} {connection_ext : Option Text}
      {caller : Text}
      → IsAllowed e request sink from_addr connection_ext caller s
      → Ends e s id call (invite request sink from_addr connection_ext)

module _ (e : Env) (s : Router) (id : Text) (call : CallInfo)
    (present : get id s.active_calls ≡ some call) where
  -- The call is gone only if `P`.
  abbrev Gone {ℓ} : {A : Type ℓ} → Type 0 → Handled A → Type 0
  Gone P (t, sent, answer) = get id t.active_calls ≡ none → P

  still : {P : Type 0} → get id s.active_calls ≡ none → P
  still h = absurd (ground arith)

  -- A clean-up of another identifier leaves the call.
  cleaned-Gone :
      (other : Text) (t : Router)
      → get id t.active_calls ≡ some call
      → get id (cleanup_call other t).active_calls ≡ none
      → other ≡ id
  cleaned-Gone other t here h = ground (arith, get-cleanup_call other id t, list_beq_iff other id)

  bye-Ends :
      (request from_extension other : Text) (found : Option CallInfo)
      → extract_call_id request ≡ some other
      → get other s.active_calls ≡ found
      → Gone
          (Ends e s id call (bye request from_extension))
          (bye_call e request other from_extension found s)
  bye-Ends request from_extension other none named here = still
  bye-Ends request from_extension other (some c) named here =
      let tag = or_blank (extract_from_tag request) in
      if-both (Gone (Ends e s id call (bye request from_extension)))
        (caller_side tag from_extension c || callee_side tag from_extension c) _ _
        (λ side h.
          let same = cleaned-Gone other s present h in
          let it : c ≡ call = ground (arith, ap (λ (i : Text). get i s.active_calls) same) in
          hangs_up (named ∙ ap (λ (i : Text). some i) same) (
            subst
              (λ (d : CallInfo).
                (caller_side tag from_extension d || callee_side tag from_extension d) ≡ true)
              it side))
        (λ stranger. still)

  cancel-Ends :
      (request other : Text) (found : Option CallInfo)
      → extract_call_id request ≡ some other
      → get other s.active_calls ≡ found
      → Gone (Ends e s id call (cancel request)) (cancel_call e request other found s)
  cancel-Ends request other none named here = still
  cancel-Ends request other (some c) named here =
      let tag = or_blank (extract_from_tag request) in
      let ended : CallInfo = record c { state = terminated } in
      if-both (Gone (Ends e s id call (cancel request))) (from_caller_tag tag c) _ _
        (λ own h. elim (Bool-cases (other == id)) [
          | inl same ↦
              let same = (list_beq_iff other id).0 same in
              let it : c ≡ call = ground (arith, ap (λ (i : Text). get i s.active_calls) same) in
              cancels (named ∙ ap (λ (i : Text). some i) same)
                (subst (λ (d : CallInfo). from_caller_tag tag d ≡ true) it own)
          | inr differs ↦ absurd (
              ground (
                arith,
                get-cleanup_call other id (set_calls (insert other ended s.active_calls) s),
                get-insert other id ended s.active_calls,
              ))
        ])
        (λ stranger. still)

  -- Behind the update of a call, only that call is touched.
  relayed_calls :
      (other : Text) (t : Router) → (start_media_relay e other t).active_calls ≡ t.active_calls
  unfolding start_media_relay
  relayed_calls other t = elim (Option-cases (get other t.active_calls)) [
    | inl absent ↦ ground arith
    | inr (c, here) ↦ ground arith
  ]

  module _ (other : Text) (differs : (other == id) ≡ false) where
    abbrev Here : Router → Type 0
    Here t = get id t.active_calls ≡ some call

    inserted-Here :
        (c : CallInfo) (t : Router) → Here t → Here (set_calls (insert other c t.active_calls) t)
    inserted-Here c t h = ground (arith, get-insert other id c t.active_calls)

    cleaned-Here : (t : Router) → Here t → Here (cleanup_call other t)
    cleaned-Here t h = ground (arith, get-cleanup_call other id t)

    started-Here : (c : CallInfo) (t : Router) → Here t → Here (start_once e other c t)
    unfolding start_once
    started-Here c t h =
        let after = set_calls (insert other (record c { relay_started = true }) t.active_calls) t in
        if-both Here (not c.relay_started && has_key c.callee_remote_crypto) _ _
          (λ starts.
            ap (get id) (relayed_calls other after)
            ∙ inserted-Here (record c { relay_started = true }) t h)
          (λ runs. h)

    concluded-Here :
        (status : ℕ) (c : CallInfo) (t : Router)
        → Here t
        → Here (conclude_response e status other c t)
    unfolding conclude_response
    concluded-Here status c t h =
        if-both Here (leb 400 status) _ _ (λ fails. cleaned-Here t h)
          (λ fine. if-both Here (nat_beq status 200) _ _ (λ ok. started-Here c t h) (λ on. h))

    forwarded-Here :
        (status : ℕ) (c : CallInfo) (text : Option Text) (t : Router)
        → Here t
        → Here (forward_response e status other c text t).0
    forwarded-Here status c none t h = cleaned-Here t h
    forwarded-Here status c (some text) t h = concluded-Here status c t h

    responded-Here :
        (status : ℕ) (text : Text) (new : CallInfo × Outcome (Unit {0}))
        → Here (respond_to_caller e status text other new s).0
    responded-Here status text (c, panics) = inserted-Here c s present
    responded-Here status text (c, returns done) =
        let stored = set_calls (insert other c s.active_calls) s in
        if-both (λ (r : Handled (Unit {0})). Here r.0)
          (nat_beq status 200 && not (has_key c.callee_remote_crypto)) _ _
          (λ keyless. cleaned-Here stored (inserted-Here c s present))
          (λ fine.
            forwarded-Here status c (forwarded_response e status text c (extract_body text) s)
              stored (inserted-Here c s present))

  respond-Ends :
      (text other : Text) (status : ℕ) (new : CallInfo × Outcome (Unit {0}))
      → extract_call_id text ≡ some other
      → Gone (Ends e s id call (response text)) (respond_to_caller e status text other new s)
  respond-Ends text other status new named h = elim (Bool-cases (other == id)) [
    | inl same ↦ answers (named ∙ ap (λ (i : Text). some i) ((list_beq_iff other id).0 same))
    | inr differs ↦ absurd (ground (arith, responded-Here other differs status text new))
  ]

  byes :
      (request from_extension : Text) (name : Option Text)
      → extract_call_id request ≡ name
      → Gone
          (Ends e s id call (bye request from_extension))
          (bye_id e request from_extension name s)
  byes request from_extension none named = still
  byes request from_extension (some other) named =
      if-both (Gone (Ends e s id call (bye request from_extension))) s.poisoned _ _ (λ p. still)
        (λ p. bye-Ends request from_extension other (get other s.active_calls) named refl)

  cancellations :
      (request : Text) (name : Option Text)
      → extract_call_id request ≡ name
      → Gone (Ends e s id call (cancel request)) (cancel_id e request name s)
  cancellations request none named = still
  cancellations request (some other) named =
      if-both (Gone (Ends e s id call (cancel request))) s.poisoned _ _ (λ p. still)
        (λ p. cancel-Ends request other (get other s.active_calls) named refl)

  found-Ends :
      (text other : Text) (status : ℕ) (found : Option CallInfo)
      → extract_call_id text ≡ some other
      → Gone (Ends e s id call (response text)) (response_call e status text other found s)
  found-Ends text other status none named = still
  found-Ends text other status (some c) named =
      respond-Ends text other status (update_call e status text c) named

  status-Ends :
      (text other : Text) (status : Option ℕ)
      → extract_call_id text ≡ some other
      → Gone (Ends e s id call (response text)) (response_status e text other status s)
  status-Ends text other none named = still
  status-Ends text other (some status) named =
      if-both (Gone (Ends e s id call (response text))) s.poisoned _ _ (λ p. still)
        (λ p. found-Ends text other status (get other s.active_calls) named)

  responses :
      (text : Text) (name : Option Text)
      → extract_call_id text ≡ name
      → Gone (Ends e s id call (response text)) (response_id e text name s)
  responses text none named = still
  responses text (some other) named = status-Ends text other (extract_status_code text) named

  acks :
      (request : Text) (name : Option Text)
      → (ack_id e request name s).0.active_calls ≡ s.active_calls
  acks request none = refl
  acks request (some other) =
      if-both (λ (r : Handled (Unit {0})). r.0.active_calls ≡ s.active_calls) s.poisoned _ _
        (λ p. refl) (λ p. acked (get other s.active_calls))
    where
      acked :
          (found : Option CallInfo) → (ack_call e request found s).0.active_calls ≡ s.active_calls
      acked none = refl
      acked (some c) = refl

  -- A call that an event ends is ended by a BYE of its Call-ID with the tag or from the connection
  -- of a side, by a CANCEL of its Call-ID with the tag of the caller, by a response of its Call-ID,
  -- whoever sends it, or by an INVITE of an allowed caller.
  pub handle-Ends :
      (event : Event) → get id (handle e event s).0.active_calls ≡ none → Ends e s id call event
  unfolding handle_bye handle_cancel handle_callee_response handle_ack register_writer
      unregister_writer Guarded
  handle-Ends (invite request sink from_addr connection_ext) h =
      allowed (handle_invite e request sink from_addr connection_ext s).0 _ _ h
        (handle_invite-Guarded e request sink from_addr connection_ext s)
    where
      allowed :
          (t : Router) (sent : Sends) (answer : Outcome Text)
          → get id t.active_calls ≡ none
          → Guarded e request sink from_addr connection_ext s (t, sent, answer)
          → Ends e s id call (invite request sink from_addr connection_ext)
      allowed t sent answer h (inl (same, quiet)) = still (ap (get id) (sym same) ∙ h)
      allowed t sent answer h (inr (caller, callee, may, enters)) = invites may
  handle-Ends (response text) h = responses text (extract_call_id text) refl h
  handle-Ends (ack request) h =
      still (ap (get id) (sym (acks request (extract_call_id request))) ∙ h)
  handle-Ends (bye request from_extension) h =
      byes request from_extension (extract_call_id request) refl h
  handle-Ends (cancel request) h = cancellations request (extract_call_id request) refl h
  handle-Ends (writer extension sink) h = still h
  handle-Ends (no_writer extension) h = still h
  handle-Ends (registrations registrar) h = still h
