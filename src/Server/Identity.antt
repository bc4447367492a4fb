-- ===== src/Server/Identity.antt =====
-- How a connection comes by its extension.
use minghe.Prelude.{
  ◌≡◌, ◌⊎◌, inl, inr, refl, ap, ◌∙◌, true, ◌&&◌, Option, none, some, list_eq, list_beq_iff,
  if◌then◌else◌, if-both, Bool-cases, codes, ◌==◌, arith,
}
use minghe.Prelude.Dict.{get}
use minghe.Text.{Text, Outcome, panics, returns, is_empty, trim}
use minghe.Parser.Header.{extract_method, extract_status_code, is_request, is_response}
use minghe.Parser.Fields.{extract_cseq_method, extract_expires}
use minghe.Registrar.Register.{handle_register}
use minghe.Call.{Sends}
use minghe.Call.Invite.{handle_invite}
use minghe.Call.Dialog.{handle_bye, handle_cancel}
use minghe.Message.Request.{handle_message}
use minghe.Server.{ServerState, put_extension, get_connection_extension, set_router}
use minghe.Server.Dispatch.{
  Surroundings, Incoming, Processed, reply, is_zero, is_ok, associate, associated,
  registered_extension, after_register, register_call, process_register, process_request, Method,
  register_method, invite_method, ack_method, bye_method, cancel_method, message_method,
  options_method, other_method, method_of, requested, is_invite, process_sip_message,
  connection_ext, message_service,
}

-- The message is a REGISTER that the registrar answers with 200, and the connection gets the
-- extension of its To header, or loses its own if the request expires at once.
pub record IsAssociated (w : Surroundings) (m : Incoming) (st after : ServerState) : Type 0 where
  pub method : extract_method m.text ≡ some (codes "REGISTER")
  pub response : Text
  pub answered :
      (handle_register (register_call w m) m.text st.router.registrar).1 ≡ returns response
  pub ok : is_ok (extract_status_code response) ≡ true
  pub extension : Text
  pub named : registered_extension m.text ≡ returns (some extension)
  pub connections :
      after.connections
      ≡ put_extension m.peer_addr
          (if is_zero (extract_expires m.text) then none else some extension)
          (get m.peer_addr st.connections)
          st.connections

module _ (w : Surroundings) (m : Incoming) (st : ServerState) where
  unfoldable pub Identified : Processed → Type 0
  Identified (after, sent, answer) =
      (after.connections ≡ st.connections) ⊎ IsAssociated w m st after

  replied-Identified :
      (t : ServerState) (sent : Sends) (answer : Outcome Text)
      → t.connections ≡ st.connections
      → Identified (reply m.sink t sent answer)
  unfolding Identified
  replied-Identified t sent panics same = inl same
  replied-Identified t sent (returns response) same = inl same

  associate-connections :
      (ext : Text) (t : ServerState)
      → t.connections ≡ st.connections
      → (associate m ext t).connections
        ≡ put_extension m.peer_addr
            (if is_zero (extract_expires m.text) then none else some ext)
            (get m.peer_addr st.connections)
            st.connections
  unfolding associate minghe.Server.set_connection_extension
      minghe.Server.clear_connection_extension
  associate-connections ext t same = elim (Bool-cases (is_zero (extract_expires m.text))) [
    | inl now ↦ rw (now, same) refl
    | inr later ↦ rw (later, same) refl
  ]

  associated-Identified :
      (response : Text) (ext : Outcome (Option Text)) (t : ServerState)
      → t.connections ≡ st.connections
      → extract_method m.text ≡ some (codes "REGISTER")
      → (handle_register (register_call w m) m.text st.router.registrar).1 ≡ returns response
      → is_ok (extract_status_code response) ≡ true
      → registered_extension m.text ≡ ext
      → Identified (associated m response ext t)
  unfolding Identified
  associated-Identified response panics t same method answered ok named = inl same
  associated-Identified response (returns none) t same method answered ok named = inl same
  associated-Identified response (returns (some ext)) t same method answered ok named =
      inr (record {
        method = method;
        response = response;
        answered = answered;
        ok = ok;
        extension = ext;
        named = named;
        connections = associate-connections ext t same;
      })

  register-Identified :
      (answer : Outcome Text) (t : ServerState)
      → t.connections ≡ st.connections
      → extract_method m.text ≡ some (codes "REGISTER")
      → (handle_register (register_call w m) m.text st.router.registrar).1 ≡ answer
      → Identified (after_register m answer t)
  unfolding Identified
  register-Identified panics t same method answered = inl same
  register-Identified (returns response) t same method answered =
      if-both Identified (is_ok (extract_status_code response)) _ _
        (λ ok.
          associated-Identified response (registered_extension m.text) t same method answered ok
            refl)
        (λ refused. inl same)

  request-Identified :
      (method : Method)
      → (method ≡ register_method → extract_method m.text ≡ some (codes "REGISTER"))
      → Identified (process_request w m method st)
  unfolding process_request process_register Identified
  request-Identified register_method e =
      register-Identified (handle_register (register_call w m) m.text st.router.registrar).1
        (set_router
          (record st.router {
            registrar = (handle_register (register_call w m) m.text st.router.registrar).0;
          })
          st)
        refl (e refl) refl
  request-Identified invite_method e =
      let (router, sent, answer) =
        handle_invite w.env m.text m.sink m.peer_addr (get_connection_extension m.peer_addr st)
          st.router in
      replied-Identified (set_router router st) sent answer refl
  request-Identified ack_method e = inl refl
  request-Identified bye_method e =
      let (router, sent, answer) = handle_bye w.env m.text (connection_ext m st) st.router in
      replied-Identified (set_router router st) sent answer refl
  request-Identified cancel_method e =
      let (router, sent, answer) = handle_cancel w.env m.text st.router in
      replied-Identified (set_router router st) sent answer refl
  request-Identified message_method e =
      let (service, sent, answer) =
        handle_message w.env m.text (connection_ext m st) (message_service st) in
      replied-Identified (record st { offline = service.offline }) sent answer refl
  request-Identified options_method e = inl refl
  request-Identified other_method e = inl refl

  method_of-register :
      (method : Text) → method_of method ≡ register_method → method ≡ codes "REGISTER"
  unfolding method_of
  method_of-register method h = elim (Bool-cases (method == codes "REGISTER")) [
    | inl is ↦ (list_beq_iff method (codes "REGISTER")).0 is
    | inr is_not ↦ absurd (ground arith)
  ]

  requested-Identified :
      (method : Option Text) → extract_method m.text ≡ method → Identified (requested w m method st)
  unfolding Identified
  requested-Identified none e = inl refl
  requested-Identified (some method) e =
      request-Identified (method_of method)
        (λ h. e ∙ ap (λ (t : Text). some t) (method_of-register method h))

  -- A message leaves the extensions of all connections as they are, or is a REGISTER that the
  -- registrar answers with 200, after which only its own connection may have another extension: that
  -- of its To header, or none if it expires at once.
  pub process_sip_message-Identified : Identified (process_sip_message w m st)
  unfolding process_sip_message Identified
  process_sip_message-Identified =
      if-both Identified (is_empty (trim m.text)) _ _ (λ blank. inl refl)
        (λ text.
          if-both Identified (is_request m.text) _ _
            (λ asks. requested-Identified (extract_method m.text) refl)
            (λ no_request.
              if-both Identified (is_response m.text && is_invite (extract_cseq_method m.text)) _ _
                (λ answers. inl refl) (λ other. inl refl)))
