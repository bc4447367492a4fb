-- ===== src/Call/Outcomes.antt =====
-- What a 200 does to a call that no one has answered yet.
use minghe.Prelude.{ℕ, ◌≡◌, true, false, [], ◌∷◌, Option, some, list_eq, codes, none, ◌⊎◌}
use minghe.Prelude.Dict.{get, insert}
use minghe.Text.{Text, panics, returns}
use minghe.Parser.Fields.{extract_body}
use minghe.Srtp.Packet.{SrtpCryptoSuite}
use minghe.Sdp.{extract_srtp_crypto_from_sdp, callee_answer_crypto_is_offered}
use minghe.Call.{CallInfo, Router, Env, Handled, respond}
use minghe.Call.Response.{with_tag, answer_contact, update_call, respond_to_caller, relay_task}
use minghe.Call.Established.{HasNoKey, relayed, answer_text}

module _ (e : Env) (response id : Text) (own : SrtpCryptoSuite) (call : CallInfo) (s : Router) where
  -- The answer has a key that fits: the relay starts once with the keys of the answer, and the caller
  -- gets the answer with the server's own key.
  pub record IsEstablished (r : Handled (Unit {0})) : Type 0 where
    pub contact : Option Text
    pub body : Text
    pub tag : ℕ
    pub crypto : SrtpCryptoSuite
    pub has_contact : answer_contact response call.callee_remote_contact ≡ returns contact
    pub has_body : extract_body response ≡ some body
    pub found : extract_srtp_crypto_from_sdp e.crypto e.base64 body ≡ some (tag, crypto)
    pub offered : callee_answer_crypto_is_offered tag crypto.suite ≡ true
    pub calls :
        get id r.0.active_calls ≡ some (relayed e response id body contact tag crypto own call s)
    pub tasks :
        r.0.tasks
        ≡ relay_task id (relayed e response id body contact tag crypto own call s) ∷ s.tasks
    pub sent :
        r.1 ≡ (call.caller_sink, answer_text e response id body contact tag crypto own call s) ∷ []

  -- The answer has none: the call is over, no relay starts, and the caller gets a 488.
  pub record IsRejected (r : Handled (Unit {0})) : Type 0 where
    pub contact : Option Text
    pub has_contact : answer_contact response call.callee_remote_contact ≡ returns contact
    pub no_key : HasNoKey e response
    pub calls : get id r.0.active_calls ≡ none
    pub tasks : r.0.tasks ≡ s.tasks
    pub sent :
        r.1
        ≡ (call.caller_sink, respond e call.original_invite 488 (codes "Not Acceptable Here")) ∷ []

  -- The handler panics on the contact: the call keeps what was written, and the lock is lost.
  pub record IsPoisoned (r : Handled (Unit {0})) : Type 0 where
    pub unreadable : answer_contact response call.callee_remote_contact ≡ panics
    pub calls : r.0.active_calls ≡ insert id (with_tag response call) s.active_calls
    pub tasks : r.0.tasks ≡ s.tasks
    pub poisoned : r.0.poisoned ≡ true
    pub sent : r.1 ≡ []

  abbrev pub Answers : Handled (Unit {0}) → Type 0
  Answers r = IsEstablished r ⊎ IsRejected r ⊎ IsPoisoned r

  module _ (contact : Option Text)
      (has_contact : answer_contact response call.callee_remote_contact ≡ returns contact)
      (unanswered : call.callee_remote_crypto ≡ none)
      (has_own : call.caller_local_crypto ≡ some own) (stopped : call.relay_started ≡ false) where
    abbrev Done : Type 0
    Done = Answers (respond_to_caller e 200 response id (update_call e 200 response call) s)
