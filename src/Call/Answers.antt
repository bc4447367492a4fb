-- ===== src/Call/Answers.antt =====
-- The handler of responses is a sequence of the steps.
use minghe.Prelude.{
  ℕ, ◌≡◌, refl, true, false, Option, none, some, list_eq, list_beq_iff, inl, inr, if-both, arith,
  leb, nat_beq,
}
use minghe.Prelude.Dict.{Dict, get, insert, get-insert}
use minghe.Text.{Text, Outcome, panics, returns}
use minghe.Parser.Header.{extract_call_id, extract_status_code}
use minghe.Parser.Fields.{extract_body}
use minghe.Call.{CallInfo, Router, Env, set_calls}
use minghe.Call.Response.{
  has_key, update_call, forwarded_response, forward_response, conclude_response, start_once,
  respond_to_caller, response_call, response_status, response_id, handle_callee_response,
}
use minghe.Call.Steps.{Evolves, ends, updates, relays, poisons, Steps, stays, then_step}
use minghe.Call.Handlers.{Reached}
use minghe.Call.Evolution.{update_call-Evolves}

module _ (e : Env) where
  get_inserted :
      (id : Text) (call : CallInfo) (calls : Dict Text CallInfo)
      → get id (insert id call calls) ≡ some call
  get_inserted id call calls = ground (arith, get-insert id id call calls, list_beq_iff id id)

  started-Evolves :
      (call : CallInfo)
      → has_key call.callee_remote_crypto ≡ true
      → Evolves call (record call { relay_started = true })
  started-Evolves call key = record {
    caller_port = refl;
    callee_port = refl;
    caller_remote = refl;
    caller_local = refl;
    callee_local = refl;
    callee_local_gcm = refl;
    answered = λ k. k;
    started = λ k. inr key;
    confirmed = λ k. inl k;
  }

  module _ (id : Text) (call : CallInfo) (first s : Router) (before : Steps false first s)
      (present : get id s.active_calls ≡ some call) where
    start_once-Steps : Steps false first (start_once e id call s)
    unfolding start_once
    start_once-Steps =
        if-both (Steps false first) _ _ _
          (λ starts.
            let key : has_key call.callee_remote_crypto ≡ true = ground arith in
            let started : CallInfo = record call { relay_started = true } in
            then_step
              (then_step before (updates id call started present (started-Evolves call key)))
              (relays e id started (get_inserted id started s.active_calls) key))
          (λ runs. before)

    conclude_response-Steps :
        (status : ℕ) → Steps false first (conclude_response e status id call s)
    unfolding conclude_response
    conclude_response-Steps status =
        if-both (Steps false first) (leb 400 status) _ _ (λ fails. then_step before (ends id))
          (λ no_failure.
            if-both (Steps false first) (nat_beq status 200) _ _ (λ ok. start_once-Steps)
              (λ provisional. before))

    forward-Reached :
        (status : ℕ) (text : Option Text) → Reached first (forward_response e status id call text s)
    forward-Reached status none = then_step before (ends id)
    forward-Reached status (some text) = conclude_response-Steps status

  respond-Reached :
      (status : ℕ) (response id : Text) (old : CallInfo) (new : CallInfo × Outcome (Unit {0}))
      (s : Router)
      → get id s.active_calls ≡ some old
      → Evolves old new.0
      → Reached s (respond_to_caller e status response id new s)
  respond-Reached status response id old (new, panics) s h u =
      then_step (then_step stays (updates id old new h u)) (poisons refl)
  respond-Reached status response id old (new, returns done) s h u =
      let before = then_step stays (updates id old new h u) in
      if-both (Reached s) _ _ _ (λ keyless. then_step before (ends id))
        (λ fine.
          forward-Reached id new s (set_calls (insert id new s.active_calls) s) before
            (get_inserted id new s.active_calls) status
            (forwarded_response e status response new (extract_body response) s))

  pub handle_callee_response-Reached :
      (response : Text) (s : Router) → Reached s (handle_callee_response e response s)
  unfolding handle_callee_response
  handle_callee_response-Reached response s = go (extract_call_id response)
    where
      found :
          (id : Text) (status : ℕ) (call : Option CallInfo)
          → get id s.active_calls ≡ call
          → Reached s (response_call e status response id call s)
      found id status none h = stays
      found id status (some call) h =
          respond-Reached status response id call (update_call e status response call) s h
            (update_call-Evolves e status response call)

      with_status :
          (id : Text) (status : Option ℕ) → Reached s (response_status e response id status s)
      with_status id none = stays
      with_status id (some status) =
          if-both (Reached s) s.poisoned _ _ (λ p. stays)
            (λ p. found id status (get id s.active_calls) refl)

      go : (id : Option Text) → Reached s (response_id e response id s)
      go none = stays
      go (some id) = with_status id (extract_status_code response)
