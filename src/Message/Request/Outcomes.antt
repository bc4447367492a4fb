-- ===== src/Message/Request/Outcomes.antt =====
-- What becomes of a MESSAGE request.
use minghe.Prelude.{
  ◌≡◌, ◌≢◌, ◌≤◌, ◌<◌, ◌⊎◌, inl, inr, refl, true, false, ◌||◌, not, [], ◌∷◌, Option, none, some,
  list_eq, if-both, codes, ◌==◌, ltb, length, arith,
}
use minghe.Text.{Text, Outcome, panics, returns, is_empty, trim}
use minghe.Parser.Fields.{extract_body}
use minghe.Transport.{ConnectionSink, get_outbound}
use minghe.Call.{Env, Sends, respond}
use minghe.Call.Invite.{or_blank, callee_of}
use minghe.Message.{
  StoreOutcome, stored, rate_limited, quota_exceeded, capacity_full, store_offline_message,
}
use minghe.Message.Request.{
  MessageService, is_valid_extension, Answered, stored_answer, keep_message, forwarded_message,
  send_message, message_to, message_called, handle_message, max_message_body_len,
  max_message_request_len,
}

-- The request is one that the service takes: from an authenticated sender to another extension of
-- the range, of bounded length and with a body.
pub record IsTaken (request from_ext callee : Text) (s : MessageService) : Type 0 where
  pub authenticated : is_empty from_ext ≡ false
  pub bounded : length request ≤ max_message_request_len
  pub called : callee_of request ≡ returns callee
  pub named : is_empty callee ≡ false
  pub another : (callee == from_ext) ≡ false
  pub valid : is_valid_extension s callee ≡ true
  pub has_body : is_empty (trim (or_blank (extract_body request))) ≡ false
  pub body_bounded : length (or_blank (extract_body request)) ≤ max_message_body_len

module _ (e : Env) (request from_ext : Text) (s : MessageService) where
  -- The message has reached a way out of the callee, and nothing is kept.
  pub record IsDelivered (callee : Text) (r : Answered) : Type 0 where
    pub sink : ConnectionSink
    pub way_out : get_outbound e.now callee s.registrar s.outlets ≡ some sink
    pub delivers : e.delivers sink (forwarded_message e request from_ext callee sink s) ≡ true
    pub sent : r.1 ≡ (sink, forwarded_message e request from_ext callee sink s) ∷ []
    pub kept : r.0 ≡ s
    pub ok : r.2 ≡ returns (respond e request 200 (codes "OK"))

  -- The message is handed to the store, and the answer is 200 exactly when it was stored.
  pub record IsKept (callee : Text) (r : Answered) : Type 0 where
    pub offline :
        r.0
        ≡ record s { offline = (store_offline_message e.now callee from_ext request s.offline).0 }
    pub answer :
        (((store_offline_message e.now callee from_ext request s.offline).1 ≡ stored)
          × (r.2 ≡ returns (respond e request 200 (codes "OK"))))
        ⊎ (((store_offline_message e.now callee from_ext request s.offline).1 ≢ stored)
            × (r.2 ≡ returns (respond e request 503 (codes "Service Unavailable"))))

  -- Why the service does not take the request, with the answer to it.
  pub data Reason : Outcome Text → Type 0 where
    no_sender :
        is_empty from_ext ≡ true → Reason (returns (respond e request 403 (codes "Forbidden")))
    long_request :
        max_message_request_len < length request
        → Reason (returns (respond e request 413 (codes "Message Too Large")))
    no_reading : callee_of request ≡ panics → Reason panics
    no_callee :
        {callee : Text}
        → callee_of request ≡ returns callee
        → (is_empty callee || callee == from_ext) ≡ true
        → Reason (returns (respond e request 400 (codes "Bad Request")))
    unknown_callee :
        {callee : Text}
        → callee_of request ≡ returns callee
        → is_valid_extension s callee ≡ false
        → Reason (returns (respond e request 404 (codes "Not Found")))
    no_text :
        is_empty (trim (or_blank (extract_body request))) ≡ true
        → Reason (returns (respond e request 400 (codes "Bad Request")))
    long_text :
        max_message_body_len < length (or_blank (extract_body request))
        → Reason (returns (respond e request 413 (codes "Message Too Large")))

  -- Nothing is kept and nothing is sent.
  pub record IsRefused (r : Answered) : Type 0 where
    pub kept : r.0 ≡ s
    pub quiet : r.1 ≡ []
    pub reason : Reason r.2

  pub Decided : Answered → Type 0
  Decided r =
      IsRefused r
      ⊎ ((callee : Text) × IsTaken request from_ext callee s
          × (IsDelivered callee r ⊎ IsKept callee r))

  refuses : {answer : Outcome Text} → Reason answer → Decided (s, [], answer)
  unfolding Decided
  refuses why = inl (record { kept = refl; quiet = refl; reason = why })

  keep_message-IsKept :
      (callee : Text) (sent : Sends) → IsKept callee (keep_message e request from_ext callee sent s)
  unfolding keep_message
  keep_message-IsKept callee sent = record {
    offline = refl;
    answer = answers (store_offline_message e.now callee from_ext request s.offline).1;
  }
    where
      answers :
          (o : StoreOutcome)
          → ((o ≡ stored)
              × (returns (stored_answer e request o)
                  ≡ returns (respond e request 200 (codes "OK"))))
            ⊎ ((o ≢ stored)
                × (returns (stored_answer e request o)
                    ≡ returns (respond e request 503 (codes "Service Unavailable"))))
      answers stored = inl (refl, refl)
      answers rate_limited = inr ((λ h. ground arith), refl)
      answers quota_exceeded = inr ((λ h. ground arith), refl)
      answers capacity_full = inr ((λ h. ground arith), refl)

  sent-Decided :
      (callee : Text) (sink : Option ConnectionSink)
      → get_outbound e.now callee s.registrar s.outlets ≡ sink
      → IsTaken request from_ext callee s
      → Decided (send_message e request from_ext callee sink s)
  unfolding Decided
  sent-Decided callee none way t = inr (callee, t, inr (keep_message-IsKept callee []))
  sent-Decided callee (some sink) way t =
      let message = forwarded_message e request from_ext callee sink s in
      if-both Decided (e.delivers sink message) _ _
        (λ d. inr (
          callee,
          t,
          inl (record {
            sink = sink;
            way_out = way;
            delivers = d;
            sent = refl;
            kept = refl;
            ok = refl;
          }),
        ))
        (λ lost. inr (callee, t, inr (keep_message-IsKept callee ((sink, message) ∷ []))))

  to-Decided :
      (callee : Text)
      → is_empty from_ext ≡ false
      → length request ≤ max_message_request_len
      → callee_of request ≡ returns callee
      → Decided (message_to e request from_ext callee s)
  unfolding message_to Decided
  to-Decided callee authenticated bounded called =
      let body = or_blank (extract_body request) in
      if-both Decided (is_empty callee || callee == from_ext) _ _
        (λ bad. refuses (no_callee called bad))
        (λ other.
          if-both Decided (not (is_valid_extension s callee)) _ _
            (λ unknown. refuses (unknown_callee called (ground arith)))
            (λ known.
              if-both Decided (is_empty (trim body)) _ _ (λ blank. refuses (no_text blank))
                (λ text.
                  if-both Decided (ltb max_message_body_len (length body)) _ _
                    (λ long. refuses (long_text (ground arith)))
                    (λ short.
                      sent-Decided callee (get_outbound e.now callee s.registrar s.outlets) refl
                        (record {
                          authenticated = authenticated;
                          bounded = bounded;
                          called = called;
                          named = ground arith;
                          another = ground arith;
                          valid = ground arith;
                          has_body = text;
                          body_bounded = ground arith;
                        })))))

  called-Decided :
      (callee : Outcome Text)
      → is_empty from_ext ≡ false
      → length request ≤ max_message_request_len
      → callee_of request ≡ callee
      → Decided (message_called e request from_ext callee s)
  unfolding Decided
  called-Decided panics authenticated bounded called = refuses (no_reading called)
  called-Decided (returns callee) authenticated bounded called =
      to-Decided callee authenticated bounded called

  -- A MESSAGE request is one that the service takes, and then it is delivered by the way out of its
  -- callee and answered with 200, or handed to the store and answered with 200 if it was stored and
  -- 503 if not; or it changes nothing and is sent nowhere, for one of these reasons: no
  -- authenticated sender (403), over 8192 bytes (413), no callee but the sender (400), a callee
  -- outside the range (404), no text (400), a text over 4096 bytes (413), or a callee on whose
  -- reading the handler panics.
  pub handle_message-Decided : Decided (handle_message e request from_ext s)
  unfolding handle_message Decided
  handle_message-Decided =
      if-both Decided (is_empty from_ext) _ _ (λ unknown. refuses (no_sender unknown))
        (λ authenticated.
          if-both Decided (ltb max_message_request_len (length request)) _ _
            (λ long. refuses (long_request (ground arith)))
            (λ bounded. called-Decided (callee_of request) authenticated (ground arith) refl))
