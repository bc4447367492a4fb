-- ===== src/Call/Invite/Authority.antt =====
-- Who can enter a call.
use minghe.Prelude.{
  ℕ, ◌≡◌, ◌⊎◌, refl, sym, ap, ◌∙◌, subst, true, false, [], Option, none, some, list_eq,
  list_beq_iff, ◌==◌, inl, inr, if◌then◌else◌, if-both, Option-cases, Bool-cases, arith, codes,
}
use minghe.Prelude.Dict.{get, insert, get-insert}
use minghe.Text.{Text, Outcome, panics, returns}
use minghe.Parser.Header.{extract_call_id, extract_contact_uri}
use minghe.Parser.Fields.{extract_body, extract_uri_from_header}
use minghe.Registrar.Blocking.{is_blocked}
use minghe.Registrar.Table.{is_registered}
use minghe.Relay.{RelaySession, create_session}
use minghe.Srtp.Packet.{SrtpCryptoSuite}
use minghe.Sdp.{extract_srtp_crypto_from_sdp}
use minghe.Transport.{ConnectionSink, get_outbound}
use minghe.Call.{CallInfo, trying, Router, Env, Handled, set_calls, cleanup_call, has_active_call}
use minghe.Call.Invite.{
  Offer, call_info, callee_invite, place_call, with_session, open_session, with_crypto, with_body,
  with_sink, not_found, reach_callee, invite_callee, invite_from, handle_invite, caller_of,
  callee_of, or_blank, is_authorised,
}
use minghe.Call.Sessions.{get-cleanup_call}

-- The sender is not blocked, and is the registered caller of the From header.
pub record IsAllowed (e : Env) (request : Text) (sink : ConnectionSink) (from_addr : Text)
    (connection_ext : Option Text) (caller : Text) (s : Router) : Type 0 where
  pub free : is_blocked s.registrar (e.ip_of from_addr) ≡ false
  pub named : caller_of request ≡ returns caller
  pub authorised : is_authorised e caller sink from_addr connection_ext s.registrar ≡ true

-- The entry is the one that this request makes, for a callee that is registered.
pub record IsEntered (e : Env) (request call_id caller callee : Text) (sink : ConnectionSink)
    (s : Router) (id : Text) (call : CallInfo) : Type 0 where
  pub own_id : id ≡ call_id
  pub from_caller : call.caller_ext ≡ caller
  pub to_callee : call.callee_ext ≡ callee
  pub back_to : call.caller_sink ≡ sink
  pub tries : call.state ≡ trying
  pub online : is_registered e.now callee s.registrar ≡ true

module _ (e : Env) (request call_id caller callee : Text) (sink : ConnectionSink) (s : Router) where
  -- Every call afterwards was there before, or is the new one.
  pub Enters : Handled Text → Type 0
  Enters (t, sent, answer) =
      (id : Text) (call : CallInfo)
      → get id t.active_calls ≡ some call
      → (get id s.active_calls ≡ some call)
        ⊎ IsEntered e request call_id caller callee sink s id call

  abbrev Kept : Router → Type 0
  Kept t =
      (id : Text) (call : CallInfo)
      → get id t.active_calls ≡ some call
      → get id s.active_calls ≡ some call

  abbrev offer : ConnectionSink → Text → ℕ → SrtpCryptoSuite → Offer
  offer callee_sink body crypto_tag crypto = record {
    request = request;
    call_id = call_id;
    caller_ext = caller;
    callee_ext = callee;
    caller_sink = sink;
    callee_sink = callee_sink;
    body = body;
    crypto_tag = crypto_tag;
    crypto = crypto;
  }

  module _ (online : is_registered e.now callee s.registrar ≡ true) (callee_sink : ConnectionSink)
      (body : Text) where
    place-Enters :
        (tag : ℕ) (crypto : SrtpCryptoSuite) (session : RelaySession)
        (contact : Outcome (Option Text)) (t : Router)
        → Kept t
        → Enters (place_call e (offer callee_sink body tag crypto) session contact t)
    unfolding Enters call_info
    place-Enters tag crypto session panics t kept = λ id call h. inl (kept id call h)
    place-Enters tag crypto session (returns contact) t kept =
        let o = offer callee_sink body tag crypto in
        let new = call_info e o session contact in
        let placed = set_calls (insert call_id new t.active_calls) t in
        let entered : (id : Text) (call : CallInfo)
            → get id placed.active_calls ≡ some call
            → (get id s.active_calls ≡ some call)
              ⊎ IsEntered e request call_id caller callee sink s id call =
          λ id call h. elim (Bool-cases (call_id == id)) [
            | inl same ↦ inr (
                let it : new ≡ call = ground (arith, get-insert call_id id new t.active_calls) in
                subst (IsEntered e request call_id caller callee sink s id) it (record {
                  own_id = ground (arith, list_beq_iff call_id id);
                  from_caller = refl;
                  to_callee = refl;
                  back_to = refl;
                  tries = refl;
                  online = online;
                }))
            | inr other ↦
                inl (kept id call (ground (arith, get-insert call_id id new t.active_calls)))
          ] in
        if-both Enters (e.delivers callee_sink (callee_invite e o session.callee_port t)) _ _
          (λ sent. entered)
          (λ lost id call h. entered id call (ground (arith, get-cleanup_call call_id id placed)))

    session-Enters :
        (tag : ℕ) (crypto : SrtpCryptoSuite) (session : Option RelaySession) (t : Router)
        → Kept t
        → Enters (with_session e (offer callee_sink body tag crypto) session t)
    unfolding Enters
    session-Enters tag crypto none t kept = λ id call h. inl (kept id call h)
    session-Enters tag crypto (some session) t kept =
        place-Enters tag crypto session (extract_contact_uri request) t kept

    crypto-Enters :
        (found : Option (ℕ × SrtpCryptoSuite)) (t : Router)
        → Kept t
        → Enters (with_crypto e request call_id caller callee sink callee_sink body found t)
    unfolding Enters open_session
    crypto-Enters none t kept = λ id call h. inl (kept id call h)
    crypto-Enters (some (tag, crypto)) t kept =
        let (session, media) = create_session call_id t.media_manager in
        session-Enters tag crypto session (record t { media_manager = media }) kept

  body-Enters :
      (online : is_registered e.now callee s.registrar ≡ true) (callee_sink : ConnectionSink)
      (body : Option Text) (t : Router)
      → Kept t
      → Enters (with_body e request call_id caller callee sink callee_sink body t)
  unfolding Enters
  body-Enters online callee_sink none t kept = λ id call h. inl (kept id call h)
  body-Enters online callee_sink (some body) t kept =
      crypto-Enters online callee_sink body (extract_srtp_crypto_from_sdp e.crypto e.base64 body) t
        kept

  sink-Enters :
      (online : is_registered e.now callee s.registrar ≡ true) (callee_sink : Option ConnectionSink)
      (t : Router)
      → Kept t
      → Enters (with_sink e request call_id caller callee sink callee_sink t)
  unfolding Enters
  sink-Enters online none t kept = λ id call h. inl (kept id call h)
  sink-Enters online (some callee_sink) t kept =
      body-Enters online callee_sink (extract_body request) t kept

  offline-Enters :
      (to : Outcome (Option Text)) (t : Router) → Kept t → Enters (not_found e request to t)
  unfolding Enters
  offline-Enters panics t kept = λ id call h. inl (kept id call h)
  offline-Enters (returns to) t kept = λ id call h. inl (kept id call h)

  callee-Enters :
      (t : Router)
      → t.registrar ≡ s.registrar
      → Kept t
      → Enters (reach_callee e request call_id caller callee sink t)
  unfolding reach_callee Enters
  callee-Enters t same kept =
      if-both Enters (is_registered e.now callee t.registrar) _ _
        (λ online.
          sink-Enters (sym (ap (is_registered e.now callee) same) ∙ online)
            (get_outbound e.now callee t.registrar t.outlets) t kept)
        (λ offline. offline-Enters (extract_uri_from_header request (codes "To")) t kept)

cleaned_registrar : (id : Text) (s : Router) → (cleanup_call id s).registrar ≡ s.registrar
unfolding cleanup_call
cleaned_registrar id s = elim (Option-cases (get id s.active_calls)) [
  | inl absent ↦ ground arith
  | inr (call, present) ↦ ground arith
]

-- The old call of the same Call-ID is out of the way.
module _ (e : Env) (request : Text) (sink : ConnectionSink) (caller callee : Text)
    (s : Router) where
  abbrev own_id : Text
  own_id = or_blank (extract_call_id request)

  freed : Router
  freed = if has_active_call own_id s then cleanup_call own_id s else s

  freed-keeps : (Kept e request own_id caller callee sink s freed) × (freed.registrar ≡ s.registrar)
  unfolding freed
  freed-keeps =
      if-both
        (λ (t : Router). Kept e request own_id caller callee sink s t × (t.registrar ≡ s.registrar))
        (has_active_call own_id s) (cleanup_call own_id s) s
        (λ old.
          (λ id call h. ground (arith, get-cleanup_call own_id id s), cleaned_registrar own_id s))
        (λ new. (λ id call h. h, refl))

  invited-Enters :
      Enters e request own_id caller callee sink s (invite_callee e request caller callee sink s)
  unfolding invite_callee freed Enters
  invited-Enters =
      let (kept, same) = freed-keeps in
      if-both (Enters e request own_id caller callee sink s) s.poisoned _ _ (λ p id call h. inl h)
        (λ p. callee-Enters e request own_id caller callee sink s freed same kept)

module _ (e : Env) (request : Text) (sink : ConnectionSink) (from_addr : Text)
    (connection_ext : Option Text) (s : Router) where
  -- Nothing changes in the calls and nothing is sent, or the sender was allowed to.
  unfoldable pub Guarded : Handled Text → Type 0
  Guarded (t, sent, answer) =
      ((t.active_calls ≡ s.active_calls) × (sent ≡ []))
      ⊎ ((caller callee : Text) × IsAllowed e request sink from_addr connection_ext caller s
          × Enters e request (or_blank (extract_call_id request)) caller callee sink s
              (t, sent, answer))

  from-Guarded :
      (caller callee : Outcome Text)
      → is_blocked s.registrar (e.ip_of from_addr) ≡ false
      → caller_of request ≡ caller
      → Guarded (invite_from e request sink from_addr connection_ext caller callee s)
  unfolding Guarded
  from-Guarded panics callee free named = inl (refl, refl)
  from-Guarded (returns caller) panics free named = inl (refl, refl)
  from-Guarded (returns caller) (returns callee) free named =
      if-both Guarded (is_authorised e caller sink from_addr connection_ext s.registrar) _ _
        (λ may. inr (
          caller,
          callee,
          record { free = free; named = named; authorised = may },
          invited-Enters e request sink caller callee s,
        ))
        (λ may_not. inl (refl, refl))

  -- An INVITE changes no call and sends nothing, or its sender is not blocked, is the registered
  -- caller that the From header names, by the connection or over UDP by the address; then every call
  -- afterwards was there before or is the one of the request, from this caller to a callee that is
  -- registered.
  pub handle_invite-Guarded : Guarded (handle_invite e request sink from_addr connection_ext s)
  unfolding handle_invite Guarded
  handle_invite-Guarded =
      if-both Guarded (is_blocked s.registrar (e.ip_of from_addr)) _ _ (λ blocked. inl (refl, refl))
        (λ free. from-Guarded (caller_of request) (callee_of request) free refl)
