-- ===== src/Call/Poison.antt =====
-- What a panic under the lock of the calls leaves.
use minghe.Prelude.{
  ℕ, ◌≡◌, refl, ap, ◌∙◌, true, false, List, [], ◌∷◌, Option, none, some, list_eq, if◌then◌else◌,
  if-both, arith,
}
use minghe.Prelude.Dict.{get, insert}
use minghe.Text.{Text, Outcome, panics, returns}
use minghe.Parser.Header.{extract_call_id, extract_contact_uri, extract_status_code}
use minghe.Registrar.Blocking.{is_blocked}
use minghe.Transport.{ConnectionSink}
use minghe.Call.{CallInfo, Router, Env, Handled, register_writer, unregister_writer, set_calls}
use minghe.Call.Invite.{
  caller_of, callee_of, is_authorised, invite_callee, invite_from, handle_invite,
}
use minghe.Parser.Fields.{extract_to_tag}
use minghe.Call.Established.{response-respond, update_panics}
use minghe.Call.Response.{
  or_new, with_tag, answer_contact, response_status, response_id, handle_callee_response,
}
use minghe.Call.Dialog.{handle_ack, ack_id, handle_bye, bye_id, handle_cancel, cancel_id}
use minghe.Call.Runs.{
  Event, invite, response, ack, bye, cancel, writer, no_writer, registrations, handle, run,
}

module _ (e : Env) (s : Router) (poison : s.poisoned ≡ true) where
  -- The calls are as they were, and the lock stays poisoned.
  abbrev Frozen {ℓ} : {A : Type ℓ} → Handled A → Type 0
  Frozen (t, sent, answer) = (t.active_calls ≡ s.active_calls) × (t.poisoned ≡ true)

  -- A test of the lock takes its first branch.
  locked {ℓ} : {A : Type ℓ} (x y : Handled A) → Frozen x → Frozen (if s.poisoned then x else y)
  locked x y h = if-both Frozen s.poisoned x y (λ p. h) (λ p. absurd (ground arith))

  byes :
      (request from_extension : Text) (name : Option Text)
      → Frozen (bye_id e request from_extension name s)
  byes request from_extension none = (refl, poison)
  byes request from_extension (some id) = locked _ _ (refl, poison)

  cancellations : (request : Text) (name : Option Text) → Frozen (cancel_id e request name s)
  cancellations request none = (refl, poison)
  cancellations request (some id) = locked _ _ (refl, poison)

  acks : (request : Text) (name : Option Text) → Frozen (ack_id e request name s)
  acks request none = (refl, poison)
  acks request (some id) = locked _ _ (refl, poison)

  statuses : (text id : Text) (status : Option ℕ) → Frozen (response_status e text id status s)
  statuses text id none = (refl, poison)
  statuses text id (some status) = locked _ _ (refl, poison)

  responses : (text : Text) (name : Option Text) → Frozen (response_id e text name s)
  responses text none = (refl, poison)
  responses text (some id) = statuses text id (extract_status_code text)

  invited :
      (request caller callee : Text) (sink : ConnectionSink)
      → Frozen (invite_callee e request caller callee sink s)
  unfolding invite_callee
  invited request caller callee sink = locked _ _ (refl, poison)

  invites :
      (request : Text) (sink : ConnectionSink) (from_addr : Text) (connection_ext : Option Text)
      (caller callee : Outcome Text)
      → Frozen (invite_from e request sink from_addr connection_ext caller callee s)
  invites request sink from_addr connection_ext panics callee = (refl, poison)
  invites request sink from_addr connection_ext (returns caller) panics = (refl, poison)
  invites request sink from_addr connection_ext (returns caller) (returns callee) =
      if-both Frozen (is_authorised e caller sink from_addr connection_ext s.registrar) _ _
        (λ may. invited request caller callee sink) (λ may_not. (refl, poison))

  handle-frozen :
      (event : Event)
      → ((handle e event s).0.active_calls ≡ s.active_calls)
        × ((handle e event s).0.poisoned ≡ true)
  unfolding handle_bye handle_cancel handle_callee_response handle_ack handle_invite register_writer
      unregister_writer
  handle-frozen (invite request sink from_addr connection_ext) =
      if-both Frozen (is_blocked s.registrar (e.ip_of from_addr)) _ _ (λ blocked. (refl, poison))
        (λ free.
          invites request sink from_addr connection_ext (caller_of request) (callee_of request))
  handle-frozen (response text) = responses text (extract_call_id text)
  handle-frozen (ack request) = acks request (extract_call_id request)
  handle-frozen (bye request from_extension) = byes request from_extension (extract_call_id request)
  handle-frozen (cancel request) = cancellations request (extract_call_id request)
  handle-frozen (writer extension sink) = (refl, poison)
  handle-frozen (no_writer extension) = (refl, poison)
  handle-frozen (registrations registrar) = (refl, poison)

run-frozen :
    (events : List (Env × Event)) (s : Router)
    → s.poisoned ≡ true
    → (run events s).active_calls ≡ s.active_calls
unfolding run
run-frozen [] s poison = refl
run-frozen ((e, event) ∷ events) s poison =
    let (same, still) = handle-frozen e s poison event in
    run-frozen events (handle e event s).0 still ∙ same

-- A 200 response of the Call-ID of a call that has no contact of the callee yet, with a Contact
-- header on which the reading of the contact panics, on a router whose lock is sound: the call gets
-- the tag of the response if it has none, and that is the last thing that happens to the calls:
-- whatever comes afterwards, none is entered, changed or ended.
pub handle_callee_response-freezes :
    (e : Env) (text id : Text) (call : CallInfo) (s : Router)
    → extract_call_id text ≡ some id
    → extract_status_code text ≡ some 200
    → s.poisoned ≡ false
    → get id s.active_calls ≡ some call
    → call.callee_remote_contact ≡ none
    → extract_contact_uri text ≡ panics
    → (events : List (Env × Event))
    → (run events (handle e (response text) s).0).active_calls
      ≡ insert id
          (record call { callee_tag = or_new call.callee_tag (extract_to_tag text) })
          s.active_calls
unfolding run
handle_callee_response-freezes e text id call s named ok fine present none_yet panic events =
    let update =
      update_panics e text call
        (ap (λ (c : Option Text). answer_contact text c) none_yet ∙ panic) in
    let it =
      response-respond e text id call s (with_tag text call, panics) named ok fine present update in
    ap (λ (r : Handled (Unit {0})). (run events r.0).active_calls) it
    ∙ run-frozen events
        (record (set_calls (insert id (with_tag text call) s.active_calls) s) { poisoned = true })
        refl
