-- ===== src/Srtp/Packet/Failures.antt =====
-- What a refused packet leaves behind.
use minghe.Prelude.{ℕ, ◌+◌, ◌-◌, ◌≤◌, ◌≢◌, ◌≡◌, ap, sym, ◌∙◌, List, ◌++◌, none, arith}
use minghe.Prelude.{length, take, drop, nat_eq}
use minghe.Prelude.Dict.{get, length-insert_absent}
use minghe.Srtp.Suite.{
  SrtpError, SrtpSuite, aes_cm_128_hmac_sha1_80, aead_aes_128_gcm, authentication_failed, Result,
  ok, err, suite_tag_len,
}
use minghe.Srtp.Header.{RtpHeader, parse, total_header_len}
use minghe.Srtp.Cipher.{Crypto, compute_auth_tag}
use minghe.Srtp.Cipher.Laws.{constant_time_eq_iff}
use minghe.Srtp.Rollover.{estimate_roc}
use minghe.Srtp.Packet.{
  SrtpCryptoSuite, stream_state, set_state, stream_state_mut, conclude, unseal, unprotect_rtp,
  unprotect_parsed,
}
use minghe.Srtp.Packet.Sealing.{stream_state-mut, suite-mut, auth_key-mut, unprotect_front}

conclude_err :
    (c : Crypto) (s s' : SrtpCryptoSuite) (h : RtpHeader) (roc : ℕ) (r : Result (List ℕ))
    (e : SrtpError)
    → conclude c s h roc r ≡ (s', err e)
    → s' ≡ s
unfolding conclude
conclude_err c s s' h roc (ok x) e eq = absurd (ground arith)
conclude_err c s s' h roc (err x) e eq =
    sym (ap (λ (t : SrtpCryptoSuite × Result (List ℕ)). t.0) eq)

unprotect_parsed-err :
    (c : Crypto) (s s' : SrtpCryptoSuite) (packet front back : List ℕ) (r : Result RtpHeader)
    (e : SrtpError) (j : ℕ)
    → unprotect_parsed c s packet front back r ≡ (s', err e)
    → stream_state s' j ≡ stream_state s j
unfolding unprotect_parsed
unprotect_parsed-err c s s' packet front back (err x) e j eq = ground arith
unprotect_parsed-err c s s' packet front back (ok h) e j eq =
    ground (arith, stream_state-mut s h.ssrc j, conclude_err c (stream_state_mut s h.ssrc) s' h)

-- A packet that is refused, for whatever reason, moves no stream.
pub unprotect-err_keeps :
    (c : Crypto) (s s' : SrtpCryptoSuite) (packet : List ℕ) (e : SrtpError)
    → unprotect_rtp c s packet ≡ (s', err e)
    → (j : ℕ) → stream_state s' j ≡ stream_state s j
unfolding unprotect_rtp
unprotect-err_keeps c s s' packet e eq j =
    let cut = length packet - suite_tag_len s.suite in
    ground (
      arith,
      unprotect_parsed-err c s s' packet (take cut packet) (drop cut packet)
          (parse (take cut packet)) e j,
    )

new_stream_roc :
    (s : SrtpCryptoSuite) (k sequence : ℕ)
    → get k s.stream_states ≡ none
    → estimate_roc (stream_state (stream_state_mut s k) k) sequence ≡ 0
unfolding estimate_roc
new_stream_roc s k sequence new = rw (stream_state-mut s k k) (unfold stream_state in rw new)

length-mut_new :
    (s : SrtpCryptoSuite) (k : ℕ)
    → get k s.stream_states ≡ none
    → length (stream_state_mut s k).stream_states ≡ length s.stream_states + 1
unfolding stream_state_mut set_state
length-mut_new s k new = length-insert_absent k (stream_state s k) s.stream_states new

unseal_wrong :
    (c : Crypto) (t : SrtpCryptoSuite) (k : SrtpSuite) (h : RtpHeader) (roc : ℕ)
    (packet front tag : List ℕ)
    → k ≡ aes_cm_128_hmac_sha1_80
    → tag ≢ compute_auth_tag c t.session_auth_key front roc
    → unseal c t k h roc packet front tag ≡ err authentication_failed
unfolding unseal
unseal_wrong c t aes_cm_128_hmac_sha1_80 h roc packet front tag e wrong =
    ground (arith, constant_time_eq_iff (compute_auth_tag c t.session_auth_key front roc) tag)
unseal_wrong c t aead_aes_128_gcm h roc packet front tag e wrong = absurd (ground arith)

refused_adds_entry :
    (c : Crypto) (s : SrtpCryptoSuite) (packet front tag : List ℕ) (h : RtpHeader)
    → s.suite ≡ aes_cm_128_hmac_sha1_80
    → get h.ssrc s.stream_states ≡ none
    → tag ≢ compute_auth_tag c s.session_auth_key front 0
    → let t = stream_state_mut s h.ssrc in
      let roc = estimate_roc (stream_state t h.ssrc) h.sequence_number in
      let r = conclude c t h roc (unseal c t t.suite h roc packet front tag) in
      (r.1 ≡ err authentication_failed) × (length r.0.stream_states ≡ length s.stream_states + 1)
unfolding conclude
refused_adds_entry c s packet front tag h aes new wrong =
    let t = stream_state_mut s h.ssrc in
    let refused =
      unseal_wrong c t t.suite h 0 packet front tag (suite-mut s h.ssrc ∙ aes)
        (rw (auth_key-mut s h.ssrc) wrong) in
    ground
      (arith, new_stream_roc s h.ssrc h.sequence_number new, refused, length-mut_new s h.ssrc new)

-- Under the suite with HMAC, a packet with a header that fits and a wrong tag, under a stream
-- number never seen before, is refused, and leaves one more entry in the table of streams.
pub unprotect_forged :
    (c : Crypto) (s : SrtpCryptoSuite) (front tag : List ℕ) (h : RtpHeader)
    → s.suite ≡ aes_cm_128_hmac_sha1_80
    → length tag ≡ 10
    → parse front ≡ ok h
    → total_header_len h ≤ length front
    → get h.ssrc s.stream_states ≡ none
    → tag ≢ compute_auth_tag c s.session_auth_key front 0
    → let (t, answer) = unprotect_rtp c s (front ++ tag) in
      (answer ≡ err authentication_failed) × (length t.stream_states ≡ length s.stream_states + 1)
unprotect_forged c s front tag h aes len parsed fits new wrong =
    let back : length tag ≡ suite_tag_len s.suite = rw aes len in
    rw (unprotect_front c s front tag h back parsed fits)
      (refused_adds_entry c s (front ++ tag) front tag h aes new wrong)
