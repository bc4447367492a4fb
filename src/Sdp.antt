-- ===== src/Sdp.antt =====
-- The session descriptions: sdp rewriting of sip/parser.rs and the helpers of sip/router.rs that
-- read and mend a description.
pub mod Media
pub mod Rewrite
pub mod Presence
pub mod Choice
mod Tests
use minghe.Prelude.{
  ℕ, ◌+◌, ◌^◌, Bool, true, false, ◌&&◌, ◌||◌, not, List, [], ◌∷◌, ◌++◌, Option, none, some, map,
}
use minghe.Prelude.{ltb, leb, nat_beq, if◌then◌else◌, length, codes, is_nil}
use minghe.Text.{Text, lines, trim, to_lowercase, starts_with, split_whitespace}
use minghe.Parser.Header.{begins}
use minghe.Parser.Response.{decimal, crlf}
use minghe.Srtp.Suite.{SrtpSuite, aes_cm_128_hmac_sha1_80, aead_aes_128_gcm, Result, ok, err}
use minghe.Srtp.Cipher.{Crypto}
use minghe.Srtp.Packet.{SrtpCryptoSuite}
use minghe.Srtp.Sdes.{
  Base64, crypto_line, parse_crypto_attribute, from_sdp_name, from_sdes_with_suite,
}

pub record SdpCrypto : Type 0 where
  pub tag : ℕ
  pub suite : Text
  pub key_b64 : Text

pub to_line : SdpCrypto → Text
to_line c = crypto_line c.tag c.suite c.key_b64

-- `parts.join(separator)`
abbrev pub join : Text → List Text → Text
join separator [] = []
join separator (part ∷ []) = part
join separator (part ∷ next ∷ parts) = part ++ (separator ++ join separator (next ∷ parts))

-- One of the prefixes fits.
abbrev pub begins_any : List Text → Text → Bool
begins_any [] s = false
begins_any (p ∷ prefixes) s = starts_with p s || begins_any prefixes s

-- The attributes that do not fit to keys in the description.
abbrev pub stripped : List Text
stripped =
    codes "a=crypto:"
    ∷ codes "a=fingerprint:"
    ∷ codes "a=setup:"
    ∷ codes "a=connection:"
    ∷ codes "a=key-mgmt:"
    ∷ codes "a=ice-ufrag:"
    ∷ codes "a=ice-pwd:"
    ∷ codes "a=ice-options:"
    ∷ codes "a=candidate:"
    ∷ codes "a=end-of-candidates"
    ∷ codes "a=remote-candidates:"
    ∷ codes "a=rtcp:"
    ∷ codes "a=rtcp-mux"
    ∷ codes "a=rtcp-rsize"
    ∷ []

pub should_strip_for_sdes_srtp : Text → Bool
should_strip_for_sdes_srtp line = begins_any stripped (to_lowercase (trim line))

-- The variables of the loop.
pub record Rewriting : Type 0 where
  pub in_audio : Bool
  pub found_audio : Bool
  pub crypto_inserted : Bool

module _ (relay_addr : Text) (relay_port : ℕ) (cryptos : List SdpCrypto) where
  abbrev pub has_crypto : Bool
  has_crypto = not (is_nil cryptos)

  pub crypto_lines : List Text
  crypto_lines = map to_line cryptos

  -- At an `m=` line: the keys of an audio section that has none yet.
  pub close_section : Rewriting → Text → List Text
  close_section st line =
      if begins "m=" line && (st.in_audio && (not st.crypto_inserted && has_crypto))
      then crypto_lines
      else []

  pub open_section : Rewriting → Text → Rewriting
  open_section st line =
      if begins "m=" line
      then record st { in_audio = begins "m=audio" line; crypto_inserted = false }
      else st

  abbrev pub connection_line : Text
  connection_line = codes "c=IN IP4 " ++ relay_addr

  -- `m=audio <port> <proto> <formats...>`
  pub audio_line : Rewriting → Text → List Text → Rewriting × List Text
  audio_line st line (media ∷ port ∷ proto ∷ format ∷ formats) =
      let proto' = if has_crypto then codes "RTP/SAVP" else proto in
      (
        record st { found_audio = true },
        (codes "m=audio "
              ++ (decimal relay_port
                  ++ (codes " " ++ (proto' ++ (codes " " ++ join (codes " ") (format ∷ formats))))))
            ∷ [],
      )
  audio_line st line parts = (st, line ∷ [])

  -- The rest of the loop's body.
  pub rewrite_line : Rewriting → Text → Rewriting × List Text
  unfolding audio_line
  rewrite_line st line =
      if begins "c=" line
      then (st, connection_line ∷ [])
      else if begins "m=audio" line
      then audio_line st line (split_whitespace line)
      else if st.in_audio && begins "a=crypto" line
      then (record st { crypto_inserted = true }, if st.crypto_inserted then [] else crypto_lines)
      else if has_crypto && should_strip_for_sdes_srtp line
      then (st, [])
      else (st, line ∷ [])

  -- After the loop.
  pub last_section : Rewriting → List Text
  last_section st =
      if st.in_audio && (st.found_audio && (not st.crypto_inserted && has_crypto))
      then crypto_lines
      else []

  pub rewrite_lines : Rewriting → List Text → List Text
  rewrite_lines st [] = last_section st
  rewrite_lines st (line ∷ rest) =
      let (after, out) = rewrite_line (open_section st line) line in
      close_section st line ++ (out ++ rewrite_lines after rest)

  pub rewrite_sdp_with_cryptos : Text → Text
  unfolding rewrite_lines
  rewrite_sdp_with_cryptos sdp =
      join crlf (
        rewrite_lines (record { in_audio = false; found_audio = false; crypto_inserted = false })
          (lines sdp))
      ++ crlf

-- One line of `extract_srtp_crypto_from_sdp`: its tag and suite, if it can be read.
abbrev pub tagged : ℕ → Result SrtpCryptoSuite → Option (ℕ × SrtpCryptoSuite)
tagged tag (ok crypto) = some (tag, crypto)
tagged tag (err e) = none

abbrev pub named_suite :
    Crypto → Base64 → ℕ → Text → Option SrtpSuite → Option (ℕ × SrtpCryptoSuite)
named_suite c b tag key none = none
named_suite c b tag key (some suite) = tagged tag (from_sdes_with_suite c b suite key)

abbrev pub parsed_line : Crypto → Base64 → Result (ℕ × Text × Text) → Option (ℕ × SrtpCryptoSuite)
parsed_line c b (err e) = none
parsed_line c b (ok (tag, suite, key)) = named_suite c b tag key (from_sdp_name suite)

unfoldable pub read_line : Crypto → Base64 → Text → Option (ℕ × SrtpCryptoSuite)
read_line c b line =
    let trimmed = trim line in
    let lower = to_lowercase trimmed in
    if begins "a=crypto" lower || begins "crypto:" lower
    then parsed_line c b (parse_crypto_attribute trimmed)
    else none

abbrev pub is_aes : SrtpSuite → Bool
is_aes aes_cm_128_hmac_sha1_80 = true
is_aes aead_aes_128_gcm = false

-- What the loop does with a line: stop with an AES suite, keep the first of another kind.
abbrev pub kept_or :
    Option (ℕ × SrtpCryptoSuite) → ℕ × SrtpCryptoSuite → Option (ℕ × SrtpCryptoSuite)
kept_or none found = some found
kept_or (some fallback) found = some fallback

unfoldable pub choose :
    Crypto → Base64 → Option (ℕ × SrtpCryptoSuite) → List Text → Option (ℕ × SrtpCryptoSuite)
choose c b fallback [] = fallback
choose c b fallback (line ∷ rest) = elim (read_line c b line) [
  | none ↦ choose c b fallback rest
  | some found ↦ elim (is_aes found.1.suite) [
    | true ↦ some found
    | false ↦ choose c b (kept_or fallback found) rest
  ]
]

unfoldable pub extract_srtp_crypto_from_sdp : Crypto → Base64 → Text → Option (ℕ × SrtpCryptoSuite)
unfolding choose
extract_srtp_crypto_from_sdp c b sdp = choose c b none (lines sdp)

unfoldable pub callee_answer_crypto_is_offered : ℕ → SrtpSuite → Bool
callee_answer_crypto_is_offered tag aes_cm_128_hmac_sha1_80 = nat_beq tag 1
callee_answer_crypto_is_offered tag aead_aes_128_gcm = nat_beq tag 2
