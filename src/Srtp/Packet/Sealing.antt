-- ===== src/Srtp/Packet/Sealing.antt =====
-- What a protected packet consists of, and what the receiver makes of its parts.
use native.Mathlib.Decide.{dec_lt}
use minghe.Prelude.{ℕ, ◌-◌, ◌≤◌, ◌≡◌, refl, sym, ap, ◌∙◌, List, ◌++◌, append_assoc, arith}
use minghe.Prelude.{
  length, take, drop, length-take, length-drop, length-append, take-append, drop-append,
  take-append-drop, Option-cases, ◌==◌, nat_eq, if◌then◌else◌, inl, inr,
}
use minghe.Prelude.Dict.{get-insert}
use minghe.Srtp.Suite.{
  SrtpSuite, aes_cm_128_hmac_sha1_80, aead_aes_128_gcm, Result, ok, err, suite_tag_len,
}
use minghe.Srtp.Header.{RtpHeader, parse, total_header_len}
use minghe.Srtp.Header.Laws.{parse-total_ge}
use minghe.Srtp.Rollover.{
  SrtpStreamState, estimate_roc, packet_index, update_stream_state_after_success,
}
use minghe.Srtp.Cipher.{Crypto, IsLawful, aes_cm_encrypt, gcm_iv, compute_auth_tag}
use minghe.Srtp.Cipher.Laws.{
  aes_cm_encrypt_twice, length-aes_cm_encrypt, constant_time_eq_iff, length-compute_auth_tag,
}
use minghe.Srtp.Packet.{
  SrtpCryptoSuite, stream_state, set_state, stream_state_mut, seal, unseal, conclude, protect_rtp,
  protect_parsed, unprotect_rtp,
}

pub stream_state-set_state :
    (k j : ℕ) (x : SrtpStreamState) (s : SrtpCryptoSuite)
    → stream_state (set_state k x s) j ≡ (if k == j then x else stream_state s j)
unfolding stream_state set_state
stream_state-set_state k j x s = simp get-insert (ground arith)

-- `or_default` changes no state that can be read.
pub stream_state-mut :
    (s : SrtpCryptoSuite) (k j : ℕ) → stream_state (stream_state_mut s k) j ≡ stream_state s j
unfolding stream_state_mut
stream_state-mut s k j = simp stream_state-set_state (ground arith)

pub suite-mut : (s : SrtpCryptoSuite) (k : ℕ) → (stream_state_mut s k).suite ≡ s.suite
unfolding set_state stream_state_mut
suite-mut s k = refl

pub auth_key-mut :
    (s : SrtpCryptoSuite) (k : ℕ) → (stream_state_mut s k).session_auth_key ≡ s.session_auth_key
unfolding set_state stream_state_mut
auth_key-mut s k = refl

module _ (c : Crypto) where
  pub unprotect_front :
      (r : SrtpCryptoSuite) (front back : List ℕ) (h : RtpHeader)
      → length back ≡ suite_tag_len r.suite
      → parse front ≡ ok h
      → total_header_len h ≤ length front
      → let t = stream_state_mut r h.ssrc in
        let roc = estimate_roc (stream_state t h.ssrc) h.sequence_number in
        unprotect_rtp c r (front ++ back)
        ≡ conclude c t h roc (unseal c t t.suite h roc (front ++ back) front back)
  unfolding unprotect_rtp
  unprotect_front r front back h tag parsed fits =
      let start : length (front ++ back) - suite_tag_len r.suite ≡ length front =
        omega (arith, length-append front back) in
      rw
        (
          start,
          take-append (length front) front back refl,
          drop-append (length front) front back refl,
          parsed,
        )
        (ground (arith, length-append front back, parse-total_ge front h parsed))

-- A protected packet: the header as it was, a body as long as the payload, the tag behind, and the
-- receiver's step gives the payload back.
pub record IsSealed (c : Crypto) (u : SrtpCryptoSuite) (k : SrtpSuite) (h : RtpHeader) (roc : ℕ)
    (head payload q : List ℕ) : Type 0 where
  pub body : List ℕ
  pub tag : List ℕ
  pub parts : q ≡ (head ++ body) ++ tag
  pub body_len : length body ≡ length payload
  pub tag_len : length tag ≡ suite_tag_len k
  pub opens : unseal c u k h roc q (head ++ body) tag ≡ ok (head ++ payload)

module _ (c : Crypto) (l : IsLawful c) (t u : SrtpCryptoSuite) (h : RtpHeader) (roc : ℕ)
    (head payload : List ℕ) (header : length head ≡ total_header_len h)
    (keys : t.session_key ≡ u.session_key) (salts : t.session_salt ≡ u.session_salt)
    (auth_keys : t.session_auth_key ≡ u.session_auth_key) where
  seal_aes :
      (q : List ℕ)
      → seal c t aes_cm_128_hmac_sha1_80 h roc head payload ≡ ok q
      → IsSealed c u aes_cm_128_hmac_sha1_80 h roc head payload q
  unfolding seal unseal
  seal_aes q e =
      let index = packet_index roc h.sequence_number in
      let enc = aes_cm_encrypt c t.session_key t.session_salt h.ssrc index payload in
      let tag = compute_auth_tag c t.session_auth_key (head ++ enc) roc in
      record {
        body = enc;
        tag = tag;
        parts = ground arith;
        body_len = length-aes_cm_encrypt c l t.session_key t.session_salt h.ssrc index payload;
        tag_len = length-compute_auth_tag c l t.session_auth_key (head ++ enc) roc;
        opens = rw (
          ← keys,
          ← salts,
          ← auth_keys,
          (constant_time_eq_iff tag tag).1 refl,
          take-append (total_header_len h) head enc header,
          drop-append (total_header_len h) head enc header,
          aes_cm_encrypt_twice c l t.session_key t.session_salt h.ssrc index payload,
        );
      }

  seal_gcm :
      (q : List ℕ)
      → seal c t aead_aes_128_gcm h roc head payload ≡ ok q
      → IsSealed c u aead_aes_128_gcm h roc head payload q
  unfolding seal unseal
  seal_gcm q e =
      let iv = gcm_iv t.session_salt h.ssrc roc h.sequence_number in
      elim (Option-cases (c.gcm_encrypt t.session_key iv head payload)) [
        | inl failed ↦ absurd (ground arith)
        | inr (text, sealed) ↦
            let whole : q ≡ head ++ text = ground arith in
            let long = l.sealed_len t.session_key iv head payload text sealed in
            record {
              body = take (length payload) text;
              tag = drop (length payload) text;
              parts =
                  whole
                  ∙ sym (
                      append_assoc head _ _
                      ∙ ap (◌++◌ head) (take-append-drop (length payload) text));
              body_len = omega (arith, length-take (length payload) text);
              tag_len = omega (arith, length-drop (length payload) text);
              opens =
                  rw
                    (
                      whole,
                      take-append (total_header_len h) head text header,
                      drop-append (total_header_len h) head text header,
                    )
                    (ground (arith, l.opens t.session_key iv head payload text sealed));
            }
      ]

  pub seal-IsSealed :
      (k : SrtpSuite) (q : List ℕ)
      → seal c t k h roc head payload ≡ ok q
      → IsSealed c u k h roc head payload q
  seal-IsSealed aes_cm_128_hmac_sha1_80 q e = seal_aes q e
  seal-IsSealed aead_aes_128_gcm q e = seal_gcm q e

-- What a successful call of `protect_rtp` went through.
pub record Protected (c : Crypto) (s s' : SrtpCryptoSuite) (p q : List ℕ) : Type 0 where
  pub header : RtpHeader
  pub parsed : parse p ≡ ok header
  pub fits : total_header_len header ≤ length p
  pub sealed :
      seal c
        (stream_state_mut s header.ssrc)
        s.suite
        header
        (estimate_roc (stream_state s header.ssrc) header.sequence_number)
        (take (total_header_len header) p)
        (drop (total_header_len header) p)
      ≡ ok q
  pub after :
      s'
      ≡ set_state header.ssrc
          (update_stream_state_after_success
            (stream_state s header.ssrc)
            header.sequence_number
            (estimate_roc (stream_state s header.ssrc) header.sequence_number))
          (stream_state_mut s header.ssrc)

conclude_ok :
    (s s' : SrtpCryptoSuite) (h : RtpHeader) (roc : ℕ) (r : Result (List ℕ)) (q : List ℕ)
    (c : Crypto)
    → conclude c s h roc r ≡ (s', ok q)
    → (r ≡ ok q)
      × (s'
          ≡ set_state h.ssrc
              (update_stream_state_after_success (stream_state s h.ssrc) h.sequence_number roc)
              s)
unfolding conclude
conclude_ok s s' h roc (ok x) q c e = (
  cc (ap (λ (t : SrtpCryptoSuite × Result (List ℕ)). t.1) e),
  sym (ap (λ (t : SrtpCryptoSuite × Result (List ℕ)). t.0) e),
)
conclude_ok s s' h roc (err x) q c e = absurd (ground arith)

protect_parsed-Protected :
    (c : Crypto) (s s' : SrtpCryptoSuite) (p q : List ℕ) (h : RtpHeader)
    → parse p ≡ ok h
    → protect_parsed c s p (ok h) ≡ (s', ok q)
    → Protected c s s' p q
unfolding protect_parsed
protect_parsed-Protected c s s' p q h eq e = elim (dec_lt (length p) (total_header_len h)) [
  | yes short ↦ absurd (ground arith)
  | no long ↦
      let t = stream_state_mut s h.ssrc in
      let roc = estimate_roc (stream_state t h.ssrc) h.sequence_number in
      let done : conclude c t h roc
            (seal c t t.suite h roc (take (total_header_len h) p) (drop (total_header_len h) p))
          ≡ (s', ok q) =
        ground arith in
      let parts = conclude_ok t s' h roc _ q c done in
      let same = stream_state-mut s h.ssrc h.ssrc in
      record {
        header = h;
        parsed = eq;
        fits = omega arith;
        sealed = rw same at parts.0;
        after = rw same at parts.1;
      }
]

pub protect-Protected :
    (c : Crypto) (s s' : SrtpCryptoSuite) (p q : List ℕ)
    → protect_rtp c s p ≡ (s', ok q)
    → Protected c s s' p q
unfolding protect_rtp
protect-Protected c s s' p q e = go (parse p) refl
  where
    go : (r : Result RtpHeader) → parse p ≡ r → Protected c s s' p q
    go (err x) eq = absurd (ground arith)
    go (ok h) eq = protect_parsed-Protected c s s' p q h eq (ground arith)
