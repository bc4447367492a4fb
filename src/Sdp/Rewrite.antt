-- ===== src/Sdp/Rewrite.antt =====
-- What a rewritten description says: the relay's address and the server's keys, and no others.
use minghe.Prelude.{
  ℕ, ◌≡◌, refl, subst, ◌⊎◌, inl, inr, true, false, ◌&&◌, not, List, [], ◌∷◌, ◌++◌, map, arith, All,
  if-both, drop, codes,
}
use minghe.Text.{Text, lower, trim, to_lowercase, is_whitespace, starts_with, split_whitespace}
use minghe.Text.Trim.{trim-first}
use minghe.Parser.Header.{begins}
use minghe.Srtp.Sdes.{crypto_line}
use minghe.Sdp.{
  SdpCrypto, to_line, begins_any, should_strip_for_sdes_srtp, Rewriting, crypto_lines,
  close_section, open_section, connection_line, audio_line, rewrite_line, last_section,
  rewrite_lines,
}

-- The line stands in the list.
abbrev pub Has : Text → List Text → Type 0
Has line [] = ⊥
Has line (l ∷ rest) = (line ≡ l) ⊎ Has line rest

-- No attribute to strip begins with the first byte of a connection or a media line.
strip-c : (s : Text) → should_strip_for_sdes_srtp (b'c' ∷ s) ≡ false
unfolding should_strip_for_sdes_srtp starts_with lower
strip-c s = let (t, e) = trim-first b'c' s (unfold is_whitespace in refl) in rw e refl

strip-m : (s : Text) → should_strip_for_sdes_srtp (b'm' ∷ s) ≡ false
unfolding should_strip_for_sdes_srtp starts_with lower
strip-m s = let (t, e) = trim-first b'm' s (unfold is_whitespace in refl) in rw e refl

-- The prefixes of the attributes of other keys and of other ways to negotiate them or the transport.
abbrev pub foreign : List Text
foreign =
    codes "a=crypto:"
    ∷ codes "a=fingerprint:"
    ∷ codes "a=setup:"
    ∷ codes "a=connection:"
    ∷ codes "a=key-mgmt:"
    ∷ codes "a=ice-ufrag:"
    ∷ codes "a=ice-pwd:"
    ∷ codes "a=ice-options:"
    ∷ codes "a=candidate:"
    ∷ codes "a=end-of-candidates"
    ∷ codes "a=remote-candidates:"
    ∷ codes "a=rtcp:"
    ∷ codes "a=rtcp-mux"
    ∷ codes "a=rtcp-rsize"
    ∷ []

-- The line, whatever its case and the spaces around it, begins with none of them.
abbrev pub IsClean : Text → Type 0
IsClean line = All (λ p. starts_with p (to_lowercase (trim line)) ≡ false) foreign

begins_none :
    (prefixes : List Text) (s : Text)
    → begins_any prefixes s ≡ false
    → All (λ p. starts_with p s ≡ false) prefixes
begins_none [] s h = tt
begins_none (p ∷ prefixes) s h = (ground arith, begins_none prefixes s (ground arith))

unstripped-IsClean : (line : Text) → should_strip_for_sdes_srtp line ≡ false → IsClean line
unfolding should_strip_for_sdes_srtp
unstripped-IsClean line h = begins_none foreign (to_lowercase (trim line)) h

-- A line that a result with the given key lines and connection line may hold.
pub record IsOwn (keys : List Text) (connection line : Text) : Type 0 where
  pub no_others : IsClean line ⊎ Has line keys
  pub address : begins "c=" line ≡ true → line ≡ connection

Has-All :
    (keys : List Text) (connection : Text) (P : List Text)
    → ((l : Text) → Has l P → Has l keys)
    → All (λ l. begins "c=" l ≡ false) P
    → All (IsOwn keys connection) P
Has-All keys connection [] h n = tt
Has-All keys connection (l ∷ P) h n = (
  record { no_others = inr (h l (inl refl)); address = λ e. absurd (ground (arith, n.0)) },
  Has-All keys connection P (λ x k. h x (inr k)) n.1,
)

media_line-IsOwn : (keys : List Text) (connection rest : Text) → IsOwn keys connection (b'm' ∷ rest)
unfolding starts_with
media_line-IsOwn keys connection rest = record {
  no_others = inl (unstripped-IsClean (b'm' ∷ rest) (strip-m rest));
  address = λ e. absurd (ground arith);
}

media-IsOwn :
    (keys : List Text) (connection line : Text)
    → begins "m=audio" line ≡ true
    → IsOwn keys connection line
unfolding starts_with
media-IsOwn keys connection [] h = absurd (ground arith)
media-IsOwn keys connection (c ∷ rest) h =
    let e : b'm' ≡ c = ground arith in
    subst (λ x. IsOwn keys connection (x ∷ rest)) e (media_line-IsOwn keys connection rest)

kept-IsOwn :
    (keys : List Text) (connection line : Text)
    → begins "c=" line ≡ false
    → should_strip_for_sdes_srtp line ≡ false
    → IsOwn keys connection line
kept-IsOwn keys connection line c s = record {
  no_others = inl (unstripped-IsClean line s);
  address = λ e. absurd (ground (arith, c));
}

All-append {ℓ} : (P : Text → Type ℓ) (xs ys : List Text) → All P xs → All P ys → All P (xs ++ ys)
All-append P [] ys h k = k
All-append P (x ∷ xs) ys h k = (h.0, All-append P xs ys h.1 k)

to_line-no_c : (cs : List SdpCrypto) → All (λ l. begins "c=" l ≡ false) (map to_line cs)
unfolding to_line crypto_line starts_with
to_line-no_c [] = tt
to_line-no_c (c ∷ cs) = (refl, to_line-no_c cs)

module _ (addr : Text) (port : ℕ) (crypto : SdpCrypto) (cryptos : List SdpCrypto) where
  abbrev keys : List Text
  keys = crypto_lines addr port (crypto ∷ cryptos)

  abbrev connection : Text
  connection = connection_line addr port (crypto ∷ cryptos)

  abbrev Own : List Text → Type 0
  Own out = All (IsOwn keys connection) out

  keys-Own : Own keys
  unfolding crypto_lines
  keys-Own = Has-All keys connection keys (λ l h. h) (to_line-no_c (crypto ∷ cryptos))

  close-Own :
      (st : Rewriting) (line : Text) → Own (close_section addr port (crypto ∷ cryptos) st line)
  unfolding close_section
  close-Own st line =
      if-both Own (begins "m=" line && (st.in_audio && (not st.crypto_inserted && true))) _ _
        (λ e. keys-Own) (λ e. tt)

  audio-Own :
      (st : Rewriting) (line : Text) (parts : List Text)
      → IsOwn keys connection line
      → Own (audio_line addr port (crypto ∷ cryptos) st line parts).1
  unfolding audio_line
  audio-Own st line [] h = (h, tt)
  audio-Own st line (a ∷ []) h = (h, tt)
  audio-Own st line (a ∷ b ∷ []) h = (h, tt)
  audio-Own st line (a ∷ b ∷ c ∷ []) h = (h, tt)
  audio-Own st line (a ∷ b ∷ c ∷ d ∷ rest) h = (media_line-IsOwn keys connection _, tt)

  line-Own :
      (st : Rewriting) (line : Text) → Own (rewrite_line addr port (crypto ∷ cryptos) st line).1
  unfolding rewrite_line
  line-Own st line =
      let Good = λ (r : Rewriting × List Text). Own r.1 in
      if-both Good (begins "c=" line) _ _
        (λ c. (
          record {
            no_others = inl (unstripped-IsClean connection (strip-c (drop 1 connection)));
            address = λ e. refl;
          },
          tt,
        ))
        (λ no_c.
          if-both Good (begins "m=audio" line) _ _
            (λ m. audio-Own st line (split_whitespace line) (media-IsOwn keys connection line m))
            (λ no_m.
              if-both Good (st.in_audio && begins "a=crypto" line) _ _
                (λ a. if-both Own st.crypto_inserted _ _ (λ done. tt) (λ first. keys-Own))
                (λ no_a.
                  if-both Good (true && should_strip_for_sdes_srtp line) _ _ (λ s. tt)
                    (λ keep. (kept-IsOwn keys connection line no_c keep, tt)))))

  last-Own : (st : Rewriting) → Own (last_section addr port (crypto ∷ cryptos) st)
  unfolding last_section
  last-Own st =
      if-both Own (st.in_audio && (st.found_audio && (not st.crypto_inserted && true))) _ _
        (λ e. keys-Own) (λ e. tt)

  -- Every line of the result that begins, in any case and after any spaces, with a=crypto:,
  -- a=fingerprint:, a=setup:, a=connection:, a=key-mgmt:, a=ice-ufrag:, a=ice-pwd:, a=ice-options:,
  -- a=candidate:, a=end-of-candidates, a=remote-candidates:, a=rtcp:, a=rtcp-mux or a=rtcp-rsize is
  -- one of the server's key lines, and every line that begins with c= names the relay. The server
  -- has at least one key.
  pub rewrite_lines-IsOwn :
      (st : Rewriting) (ls : List Text)
      → All (IsOwn keys connection) (rewrite_lines addr port (crypto ∷ cryptos) st ls)
  unfolding rewrite_lines
  rewrite_lines-IsOwn st [] = last-Own st
  rewrite_lines-IsOwn st (line ∷ rest) =
      let opened = open_section addr port (crypto ∷ cryptos) st line in
      let (after, out) = rewrite_line addr port (crypto ∷ cryptos) opened line in
      All-append (IsOwn keys connection) (close_section addr port (crypto ∷ cryptos) st line) _
        (close-Own st line)
        (All-append (IsOwn keys connection) out _ (line-Own opened line)
          (rewrite_lines-IsOwn after rest))
