-- ===== src/Sdp/Choice.antt =====
-- Which keys of a description the server takes.
use minghe.Prelude.{
  ℕ, ◌^◌, ◌<◌, ◌≡◌, refl, ap, sym, ◌∙◌, true, false, List, [], ◌∷◌, Option, none, some, All, length,
  codes, if◌then◌else◌, Bool-cases, inl, inr,
}
use minghe.Text.{Text, find_map, trim, to_lowercase, starts_with, lines}
use minghe.Srtp.Suite.{SrtpSuite, ok, salt_len}
use minghe.Srtp.Cipher.{Crypto}
use minghe.Srtp.Packet.{SrtpCryptoSuite, new_with_suite}
use minghe.Srtp.Sdes.{
  Base64, IsBase64, crypto_line, sdp_name, from_sdes_with_suite, to_sdp_crypto_line,
  parse_crypto_attribute,
}
use minghe.Srtp.Sdes.Lines.{trim-line, line_parts, front, parse-crypto_line}
use minghe.Srtp.Sdes.Keys.{from_sdp_name-sdp_name, from_sdes-to_sdes_key, to_sdes_key-starts}
use minghe.Sdp.{
  read_line, parsed_line, named_suite, tagged, is_aes, kept_or, choose,
  extract_srtp_crypto_from_sdp,
}

-- The keys of a line, if their suite is the preferred one.
abbrev pub preferred : Option (ℕ × SrtpCryptoSuite) → Option (ℕ × SrtpCryptoSuite)
preferred none = none
preferred (some found) = if is_aes found.1.suite then some found else none

abbrev pub or_else {ℓ} : {A : Type ℓ} → Option A → Option A → Option A
or_else none second = second
or_else (some a) second = some a

module _ (c : Crypto) (b : Base64) where
  abbrev pub first_aes : List Text → Option (ℕ × SrtpCryptoSuite)
  first_aes ls = find_map (λ line. preferred (read_line c b line)) ls

  abbrev pub first_any : List Text → Option (ℕ × SrtpCryptoSuite)
  first_any ls = find_map (read_line c b) ls

  choose-priority :
      (fallback : Option (ℕ × SrtpCryptoSuite)) (ls : List Text)
      → choose c b fallback ls ≡ or_else (first_aes ls) (or_else fallback (first_any ls))
  unfolding choose find_map
  choose-priority none [] = refl
  choose-priority (some found) [] = refl
  choose-priority fallback (line ∷ rest) =
      step fallback rest (read_line c b line) (λ f. choose-priority f rest)
    where
      step :
          (fallback : Option (ℕ × SrtpCryptoSuite)) (rest : List Text)
          (o : Option (ℕ × SrtpCryptoSuite))
          → ((f : Option (ℕ × SrtpCryptoSuite))
              → choose c b f rest ≡ or_else (first_aes rest) (or_else f (first_any rest)))
          → (elim o [
            | none ↦ choose c b fallback rest
            | some found ↦ elim (is_aes found.1.suite) [
              | true ↦ some found
              | false ↦ choose c b (kept_or fallback found) rest
            ]
          ])
            ≡ or_else
                (elim (preferred o) [ none ↦ first_aes rest | some f ↦ some f ])
                (or_else fallback (elim o [ none ↦ first_any rest | some f ↦ some f ]))
      step fallback rest none later = later fallback
      step none rest (some found) later = elim (Bool-cases (is_aes found.1.suite)) [
        | inl aes ↦ rw aes refl
        | inr other ↦ rw other (later (some found))
      ]
      step (some kept) rest (some found) later = elim (Bool-cases (is_aes found.1.suite)) [
        | inl aes ↦ rw aes refl
        | inr other ↦ rw other (later (some kept))
      ]

  -- The keys that are taken from a description: those of the first readable line of the suite
  -- AES_CM_128_HMAC_SHA1_80, wherever it stands, else those of the first readable line.
  pub extract_srtp_crypto_from_sdp-priority :
      (sdp : Text)
      → extract_srtp_crypto_from_sdp c b sdp
        ≡ or_else (first_aes (lines sdp)) (first_any (lines sdp))
  unfolding extract_srtp_crypto_from_sdp
  extract_srtp_crypto_from_sdp-priority sdp = choose-priority none (lines sdp)

  crypto_prefix :
      (tag : ℕ) (k : SrtpSuite) (key : Text)
      → starts_with (codes "a=crypto") (to_lowercase (crypto_line tag (sdp_name k) key)) ≡ true
  unfolding starts_with front minghe.Text.lower
  crypto_prefix tag k key = rw (line_parts tag k key) refl

  read_written :
      (tag : ℕ) (k : SrtpSuite) (key line : Text) (s : SrtpCryptoSuite)
      → trim line ≡ line
      → starts_with (codes "a=crypto") (to_lowercase line) ≡ true
      → parse_crypto_attribute line ≡ ok (tag, sdp_name k, key)
      → from_sdes_with_suite c b k key ≡ ok s
      → read_line c b line ≡ some (tag, s)
  unfolding read_line
  read_written tag k key line s t p e r =
      rw (t, p)
        (ap (parsed_line c b) e
          ∙ ap (named_suite c b tag key) (from_sdp_name-sdp_name k)
          ∙ ap (tagged tag) r)

-- A key line that the server writes with a tag of 32 bits, for the key and salt that it drew, is
-- read to the same tag and the same suite and keys by a peer with the same ciphers.
pub read_line-to_sdp_crypto_line :
    (c : Crypto) (b : Base64) (k : SrtpSuite) (key salt : List ℕ) (tag : ℕ)
    → IsBase64 b
    → length key ≡ 16
    → length salt ≡ salt_len k
    → All (λ x. x < 256) key
    → All (λ x. x < 256) salt
    → tag < 2 ^ 32
    → read_line c b (to_sdp_crypto_line b (new_with_suite c k key salt) tag)
      ≡ some (tag, new_with_suite c k key salt)
unfolding to_sdp_crypto_line new_with_suite
read_line-to_sdp_crypto_line c b k key salt tag lawful kl sl kr sr fits =
    let s = new_with_suite c k key salt in
    let (first, rest, e, h) = to_sdes_key-starts c b lawful k key salt kl sl kr sr in
    let back = from_sdes-to_sdes_key c b lawful k key salt kl sl kr sr in
    ap (λ t. read_line c b (crypto_line tag (sdp_name k) t)) e
    ∙ read_written c b tag k (first ∷ rest) (crypto_line tag (sdp_name k) (first ∷ rest)) s
        (trim-line tag k first rest h) (crypto_prefix c b tag k (first ∷ rest))
        (parse-crypto_line tag k first rest fits h) (sym (ap (from_sdes_with_suite c b k) e) ∙ back)
