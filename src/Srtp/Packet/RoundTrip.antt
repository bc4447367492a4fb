-- ===== src/Srtp/Packet/RoundTrip.antt =====
-- What one side protects, the other side, with the same keys and streams, gets back.
use minghe.Prelude.{ℕ, ◌≤◌, ◌≡◌, refl, sym, subst, ap, ◌∙◌, List, [], ◌∷◌, ◌++◌, arith}
use minghe.Prelude.{length, take, drop, length-take, length-append, take-append-drop, nat_eq}
use minghe.Srtp.Suite.{SrtpSuite, ok, suite_tag_len}
use minghe.Srtp.Header.{RtpHeader, parse, total_header_len}
use minghe.Srtp.Header.Laws.{parse-prefix}
use minghe.Srtp.Rollover.{estimate_roc, update_stream_state_after_success}
use minghe.Srtp.Cipher.{Crypto, IsLawful}
use minghe.Srtp.Packet.{
  SrtpCryptoSuite, stream_state, set_state, stream_state_mut, seal, unseal, conclude, protect_rtp,
  unprotect_rtp,
}
use minghe.Srtp.Packet.Sealing.{
  stream_state-set_state, stream_state-mut, suite-mut, unprotect_front, seal-IsSealed,
  protect-Protected,
}

-- Two suites with the same keys, whose streams stand at the same point.
pub record InSync (s r : SrtpCryptoSuite) : Type 0 where
  pub suites : s.suite ≡ r.suite
  pub keys : s.session_key ≡ r.session_key
  pub salts : s.session_salt ≡ r.session_salt
  pub auth_keys : s.session_auth_key ≡ r.session_auth_key
  pub streams : (ssrc : ℕ) → stream_state s ssrc ≡ stream_state r ssrc

-- The suite after a packet of this header with this counter.
abbrev advance : SrtpCryptoSuite → RtpHeader → ℕ → SrtpCryptoSuite
advance s h roc =
    set_state h.ssrc
      (update_stream_state_after_success (stream_state s h.ssrc) h.sequence_number roc)
      (stream_state_mut s h.ssrc)

advance-InSync :
    (s r : SrtpCryptoSuite) (h : RtpHeader) (roc : ℕ)
    → InSync s r
    → InSync (advance s h roc) (advance r h roc)
unfolding set_state stream_state_mut
advance-InSync s r h roc y = record {
  suites = y.suites;
  keys = y.keys;
  salts = y.salts;
  auth_keys = y.auth_keys;
  streams = λ j. simp stream_state-set_state (ground (arith, y.streams j, y.streams h.ssrc));
}

mut-InSync :
    (s r : SrtpCryptoSuite) (k : ℕ)
    → InSync s r
    → InSync (stream_state_mut s k) (stream_state_mut r k)
unfolding set_state stream_state_mut
mut-InSync s r k y = record {
  suites = y.suites;
  keys = y.keys;
  salts = y.salts;
  auth_keys = y.auth_keys;
  streams = λ j. simp stream_state-set_state (ground (arith, y.streams j, y.streams k));
}

conclude-advance :
    (c : Crypto) (r : SrtpCryptoSuite) (h : RtpHeader) (roc : ℕ) (p : List ℕ)
    → conclude c (stream_state_mut r h.ssrc) h roc (ok p) ≡ (advance r h roc, ok p)
unfolding conclude
conclude-advance c r h roc p = rw (stream_state-mut r h.ssrc h.ssrc)

conclude_opens :
    (c : Crypto) (t : SrtpCryptoSuite) (h : RtpHeader) (guess roc : ℕ) (k : SrtpSuite)
    (q whole front tag p : List ℕ)
    → guess ≡ roc
    → t.suite ≡ k
    → q ≡ whole
    → unseal c t k h roc q front tag ≡ ok p
    → conclude c t h guess (unseal c t t.suite h guess whole front tag) ≡ conclude c t h roc (ok p)
conclude_opens c t h guess roc k q whole front tag p e₁ e₂ e₃ e₄ = cc

module _ (c : Crypto) (l : IsLawful c) (s r : SrtpCryptoSuite) (y : InSync s r) (p q : List ℕ) where
  unprotect_sealed :
      (h : RtpHeader) (roc : ℕ)
      → parse p ≡ ok h
      → total_header_len h ≤ length p
      → estimate_roc (stream_state s h.ssrc) h.sequence_number ≡ roc
      → seal c
          (stream_state_mut s h.ssrc)
          s.suite
          h
          roc
          (take (total_header_len h) p)
          (drop (total_header_len h) p)
        ≡ ok q
      → unprotect_rtp c r q ≡ (advance r h roc, ok p)
  unprotect_sealed h roc parsed fits counter sealed =
      let n = total_header_len h in
      let k = h.ssrc in
      let m = mut-InSync s r k y in
      let t = stream_state_mut r k in
      let header : length (take n p) ≡ n = omega (arith, length-take n p) in
      let x =
        seal-IsSealed c l (stream_state_mut s k) t h roc (take n p) (drop n p) header m.keys m.salts
          m.auth_keys s.suite q sealed in
      let front = take n p ++ x.body in
      let same_roc : estimate_roc (stream_state t k) h.sequence_number ≡ roc =
        cc (stream_state-mut r k k, y.streams k) in
      let same_suite : t.suite ≡ s.suite = suite-mut r k ∙ sym y.suites in
      ap (unprotect_rtp c r) x.parts
      ∙ unprotect_front c r front x.tag h (x.tag_len ∙ ap suite_tag_len y.suites)
          (parse-prefix p x.body h parsed fits) (omega (arith, length-append (take n p) x.body))
      ∙ conclude_opens c t h _ roc s.suite q (front ++ x.tag) front x.tag p same_roc same_suite
          x.parts (x.opens ∙ ap ok (take-append-drop n p))
      ∙ conclude-advance c r h roc p

-- Under a lawful cipher, a packet that one side protects with success is unprotected by the other
-- side, if the two are in sync, to the same bytes, and the two sides are in sync again.
pub protect-unprotect :
    (c : Crypto)
    → IsLawful c
    → (s r s' : SrtpCryptoSuite) (p q : List ℕ) → InSync s r
    → protect_rtp c s p ≡ (s', ok q)
    → (r' : SrtpCryptoSuite) × (unprotect_rtp c r q ≡ (r', ok p)) × InSync s' r'
protect-unprotect c l s r s' p q y e =
    let x = protect-Protected c s s' p q e in
    let roc = estimate_roc (stream_state s x.header.ssrc) x.header.sequence_number in
    (
      advance r x.header roc,
      unprotect_sealed c l s r y p q x.header roc x.parsed x.fits refl x.sealed,
      subst (λ (z : SrtpCryptoSuite). InSync z (advance r x.header roc)) (sym x.after)
          (advance-InSync s r x.header roc y),
    )

-- A side protects a list of packets, each of them with success.
pub data Sends (c : Crypto) (s : SrtpCryptoSuite)
    : List (List ℕ) → SrtpCryptoSuite → List (List ℕ) → Type 0 where
  nothing : Sends c s [] s []
  sends :
      {p q : List ℕ} {ps qs : List (List ℕ)} {t u : SrtpCryptoSuite}
      → Sends c s ps t qs
      → protect_rtp c t p ≡ (u, ok q)
      → Sends c s (p ∷ ps) u (q ∷ qs)

-- A side unprotects a list of packets, each of them with success. The latest packet is the head.
pub data Receives (c : Crypto) (s : SrtpCryptoSuite)
    : List (List ℕ) → SrtpCryptoSuite → List (List ℕ) → Type 0 where
  nothing : Receives c s [] s []
  receives :
      {p q : List ℕ} {ps qs : List (List ℕ)} {t u : SrtpCryptoSuite}
      → Receives c s qs t ps
      → unprotect_rtp c t q ≡ (u, ok p)
      → Receives c s (q ∷ qs) u (p ∷ ps)

-- Under a lawful cipher and from two sides in sync, a whole sequence of packets, of any streams,
-- that one side protects with success arrives as it was sent when nothing is lost or reordered,
-- and the two sides stay in sync.
pub Sends-Receives :
    (c : Crypto)
    → IsLawful c
    → (s r s' : SrtpCryptoSuite) (ps qs : List (List ℕ)) → InSync s r
    → Sends c s ps s' qs
    → (r' : SrtpCryptoSuite) × Receives c r qs r' ps × InSync s' r'
Sends-Receives c l s r s' ps qs y Sends.nothing = (r, Receives.nothing, y)
Sends-Receives c l s r s' ps qs y (sends {p = p} {q = q} {ps = before} {qs = sent} {t = t} m e) =
    let (v, got, sync) = Sends-Receives c l s r t before sent y m in
    let (w, last, again) = protect-unprotect c l t v s' p q sync e in (w, receives got last, again)
