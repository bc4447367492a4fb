-- ===== src/Sdp/Presence.antt =====
-- The server's key lines are in the rewritten description of a call with audio.
use minghe.Prelude.{
  ℕ, ◌≡◌, refl, ap, sym, subst, ◌∙◌, true, false, ◌&&◌, List, [], ◌∷◌, ◌++◌, arith, append_assoc,
  append-nil, if-both, codes, Bool-cases, inl, inr,
}
use minghe.Text.{Text, starts_with, split_whitespace}
use minghe.Parser.Header.{begins}
use minghe.Sdp.{
  SdpCrypto, should_strip_for_sdes_srtp, Rewriting, crypto_lines, close_section, open_section,
  audio_line, rewrite_line, last_section, rewrite_lines,
}

-- The lines stand in the list, one behind another.
abbrev pub Contains : List Text → List Text → Type 0
Contains keys out = (before : List Text) × (behind : List Text) × (out ≡ before ++ (keys ++ behind))

Contains-behind : (keys front out : List Text) → Contains keys out → Contains keys (front ++ out)
Contains-behind keys front out (before, behind, e) = (
  front ++ before,
  behind,
  ap (λ t. front ++ t) e ∙ sym (append_assoc front before (keys ++ behind)),
)

audio-media : (line : Text) → begins "m=audio" line ≡ true → begins "m=" line ≡ true
unfolding starts_with
audio-media [] h = absurd (ground arith)
audio-media (a ∷ []) h = absurd (ground arith)
audio-media (a ∷ b ∷ line) h = ground arith

audio-no_c : (line : Text) → begins "m=audio" line ≡ true → begins "c=" line ≡ false
unfolding starts_with
audio-no_c [] h = refl
audio-no_c (a ∷ line) h = ground arith

module _ (addr : Text) (port : ℕ) (crypto : SdpCrypto) (cryptos : List SdpCrypto) where
  abbrev cs : List SdpCrypto
  cs = crypto ∷ cryptos

  abbrev pub keys : List Text
  keys = crypto_lines addr port cs

  -- An audio section whose keys are still to come.
  record IsPending (st : Rewriting) : Type 0 where
    audio : st.in_audio ≡ true
    found : st.found_audio ≡ true
    missing : st.crypto_inserted ≡ false

  -- A line of such a section either brings the keys or leaves them to come.
  pending_line :
      (st : Rewriting) (line : Text) (rest : List Text)
      → IsPending st
      → begins "m=" line ≡ false
      → ((s : Rewriting) → IsPending s → Contains keys (rewrite_lines addr port cs s rest))
      → let (after, out) = rewrite_line addr port cs st line in
        Contains keys (out ++ rewrite_lines addr port cs after rest)
  unfolding rewrite_line
  pending_line st line rest p no_m later =
      let Good =
        λ (r : Rewriting × List Text). Contains keys (r.1 ++ rewrite_lines addr port cs r.0 rest) in
      if-both Good (begins "c=" line) _ _
        (λ c.
          Contains-behind keys ((codes "c=IN IP4 " ++ addr) ∷ [])
            (rewrite_lines addr port cs st rest) (later st p))
        (λ no_c.
          if-both Good (begins "m=audio" line) _ _
            (λ m. absurd (ground (arith, audio-media line m)))
            (λ no_audio.
              if-both Good (st.in_audio && begins "a=crypto" line) _ _
                (λ a. (
                  [],
                  rewrite_lines addr port cs (record st { crypto_inserted = true }) rest,
                  rw p.missing refl,
                ))
                (λ no_a.
                  if-both Good (true && should_strip_for_sdes_srtp line) _ _ (λ s. later st p)
                    (λ keep.
                      Contains-behind keys (line ∷ []) (rewrite_lines addr port cs st rest)
                        (later st p)))))

  close_section-keys :
      (st : Rewriting) (line : Text)
      → IsPending st
      → begins "m=" line ≡ true
      → close_section addr port cs st line ≡ keys
  unfolding close_section
  close_section-keys st line p media = rw (media, p.audio, p.missing) refl

  -- A line inside a section is rewritten where it stands.
  other_line :
      (st : Rewriting) (line : Text) (rest : List Text)
      → begins "m=" line ≡ false
      → rewrite_lines addr port cs st (line ∷ rest) ≡ (
          let (after, out) = rewrite_line addr port cs st line in
          out ++ rewrite_lines addr port cs after rest)
  unfolding rewrite_lines close_section open_section
  other_line st line rest other = rw other refl

  pending-Contains :
      (ls : List Text) (st : Rewriting)
      → IsPending st
      → Contains keys (rewrite_lines addr port cs st ls)
  unfolding rewrite_lines
  pending-Contains [] st p =
      ([], [], unfold last_section in rw (p.audio, p.found, p.missing) (sym (append-nil keys)))
  pending-Contains (line ∷ rest) st p = elim (Bool-cases (begins "m=" line)) [
    | inl media ↦
        let (after, out) = rewrite_line addr port cs (open_section addr port cs st line) line in
        (
          [],
          out ++ rewrite_lines addr port cs after rest,
          rw (close_section-keys st line p media) refl,
        )
    | inr other ↦
        subst (Contains keys) (sym (other_line st line rest other))
          (pending_line st line rest p other (λ s q. pending-Contains rest s q))
  ]

  audio_line-IsPending :
      (st : Rewriting) (line media p proto format : Text) (formats : List Text)
      → st.in_audio ≡ true
      → st.crypto_inserted ≡ false
      → IsPending (audio_line addr port cs st line (media ∷ p ∷ proto ∷ format ∷ formats)).0
  unfolding audio_line
  audio_line-IsPending st line media p proto format formats a i = record {
    audio = a;
    found = refl;
    missing = i;
  }

  audio-IsPending :
      (st : Rewriting) (line media p proto format : Text) (formats : List Text)
      → begins "m=audio" line ≡ true
      → split_whitespace line ≡ media ∷ p ∷ proto ∷ format ∷ formats
      → IsPending (rewrite_line addr port cs (open_section addr port cs st line) line).0
  unfolding rewrite_line open_section
  audio-IsPending st line media p proto format formats m parts =
      rw (audio-no_c line m, m, parts, audio-media line m)
        (audio_line-IsPending (record st { in_audio = true; crypto_inserted = false }) line media p
          proto format formats refl refl)

  -- An audio line with its four parts, wherever it stands, gets the keys of the server.
  pub rewrite_lines-Contains :
      (before behind : List Text) (st : Rewriting) (line media p proto format : Text)
      (formats : List Text)
      → begins "m=audio" line ≡ true
      → split_whitespace line ≡ media ∷ p ∷ proto ∷ format ∷ formats
      → Contains keys (rewrite_lines addr port cs st (before ++ (line ∷ behind)))
  unfolding rewrite_lines
  rewrite_lines-Contains [] behind st line media p proto format formats m parts =
      let opened = open_section addr port cs st line in
      let (after, out) = rewrite_line addr port cs opened line in
      Contains-behind keys (close_section addr port cs st line)
        (out ++ rewrite_lines addr port cs after behind)
        (Contains-behind keys out (rewrite_lines addr port cs after behind) (
          pending-Contains behind after
            (audio-IsPending st line media p proto format formats m parts)))
  rewrite_lines-Contains (l ∷ before) behind st line media p proto format formats m parts =
      let (after, out) = rewrite_line addr port cs (open_section addr port cs st l) l in
      let rest = rewrite_lines addr port cs after (before ++ (line ∷ behind)) in
      Contains-behind keys (close_section addr port cs st l) (out ++ rest) (
        Contains-behind keys out rest
          (rewrite_lines-Contains before behind after line media p proto format formats m parts))
