-- ===== src/Call/Evolution.antt =====
-- What a response does to its call is one of the updates that the relation allows.
use minghe.Prelude.{
  ℕ, ◌≡◌, ◌≢◌, refl, ◌||◌, Option, none, some, list_eq, inl, inr, if-both, arith, leb, nat_beq,
}
use minghe.Text.{Text, Outcome, panics, returns}
use minghe.Parser.Fields.{extract_to_tag, extract_body}
use minghe.Srtp.Packet.{SrtpCryptoSuite}
use minghe.Sdp.{callee_answer_crypto_is_offered}
use minghe.Call.{CallInfo, CallState, ringing, established, terminated, Env}
use minghe.Call.Response.{or_new, update_call, accepted, take_crypto, answer_contact, with_tag}
use minghe.Call.Steps.{Evolves}

module _ (e : Env) where
  pub update-Evolves :
      (state : CallState) (call : CallInfo) (tag : Option Text)
      → (state ≡ established → call.state ≡ established)
      → Evolves call (record call { state = state; callee_tag = tag })
  update-Evolves state call tag h = record {
    caller_port = refl;
    callee_port = refl;
    caller_remote = refl;
    caller_local = refl;
    callee_local = refl;
    callee_local_gcm = refl;
    answered = λ k. k;
    started = λ k. inl k;
    confirmed = λ k. inl (h k);
  }

  ended-Evolves :
      (call : CallInfo) (tag contact : Option Text)
      → Evolves call
          (record call { callee_tag = tag; callee_remote_contact = contact; state = terminated })
  ended-Evolves call tag contact = record {
    caller_port = refl;
    callee_port = refl;
    caller_remote = refl;
    caller_local = refl;
    callee_local = refl;
    callee_local_gcm = refl;
    answered = λ k. k;
    started = λ k. inl k;
    confirmed = λ k. absurd (ground arith);
  }

  answered-Evolves :
      (call : CallInfo) (tag contact addr : Option Text) (crypto : SrtpCryptoSuite)
      → Evolves call (record call {
        callee_tag = tag;
        callee_remote_contact = contact;
        callee_remote_crypto = some crypto;
        callee_media_addr = addr;
        state = established;
      })
  answered-Evolves call tag contact addr crypto = record {
    caller_port = refl;
    callee_port = refl;
    caller_remote = refl;
    caller_local = refl;
    callee_local = refl;
    callee_local_gcm = refl;
    answered = λ k. refl;
    started = λ k. inl k;
    confirmed = λ k. inr refl;
  }

  crypto-Evolves :
      (body : Option Text) (found : Option (ℕ × SrtpCryptoSuite)) (call : CallInfo)
      (tag contact : Option Text)
      → Evolves call (
          take_crypto e body found
            (record call { callee_tag = tag; callee_remote_contact = contact }))
  crypto-Evolves body none call tag contact = ended-Evolves call tag contact
  crypto-Evolves body (some (n, crypto)) call tag contact =
      if-both (Evolves call) (callee_answer_crypto_is_offered n crypto.suite) _ _
        (λ offered. answered-Evolves call tag contact _ crypto)
        (λ other. ended-Evolves call tag contact)

  accepted-Evolves :
      (response : Text) (contact : Outcome (Option Text)) (call : CallInfo)
      → Evolves call (accepted e response contact (with_tag response call)).0
  accepted-Evolves response panics call =
      update-Evolves call.state call (or_new call.callee_tag (extract_to_tag response)) (λ k. k)
  accepted-Evolves response (returns contact) call =
      crypto-Evolves (extract_body response) _ call _ contact

  unchanged-Evolves : (call : CallInfo) → Evolves call call
  unchanged-Evolves call = update-Evolves call.state call call.callee_tag (λ k. k)

  ringing-differs : ringing ≢ established
  ringing-differs k = ground arith

  pub update_call-Evolves :
      (status : ℕ) (response : Text) (call : CallInfo)
      → Evolves call (update_call e status response call).0
  unfolding update_call
  update_call-Evolves status response call =
      let Good = λ (r : CallInfo × Outcome (Unit {0})). Evolves call r.0 in
      if-both Good (nat_beq status 180 || nat_beq status 183) _ _
        (λ rings.
          update-Evolves ringing call (or_new call.callee_tag (extract_to_tag response))
            (λ k. absurd (ringing-differs k)))
        (λ other.
          if-both Good (nat_beq status 200) _ _
            (λ ok.
              accepted-Evolves response (answer_contact response call.callee_remote_contact) call)
            (λ no_ok.
              if-both Good (leb 400 status) _ _
                (λ fails.
                  update-Evolves terminated call call.callee_tag (λ k. absurd (ground arith)))
                (λ provisional. unchanged-Evolves call)))
