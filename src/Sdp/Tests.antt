-- ===== src/Sdp/Tests.antt =====
-- Descriptions and key lines at concrete texts.
use minghe.Prelude.{
  ℕ, ◌+◌, ◌*◌, ◌/◌, ◌%◌, ◌-◌, ◌<◌, ◌≡◌, ◌≢◌, refl, ap, ◌∙◌, true, false, List, [], ◌∷◌, some, codes,
  replicate, zero, suc, arith, All,
}
use minghe.Text.{Text, split_whitespace, lines}
use minghe.Parser.Header.{begins}
use minghe.Srtp.Suite.{aes_cm_128_hmac_sha1_80}
use minghe.Srtp.Toy.{toy}
use minghe.Srtp.Packet.{new_with_suite}
use minghe.Srtp.Sdes.{Base64, IsBase64, in_alphabet, to_sdp_crypto_line}
use minghe.Sdp.{
  SdpCrypto, Rewriting, rewrite_lines, crypto_lines, connection_line, read_line,
  extract_srtp_crypto_from_sdp,
}
use minghe.Sdp.Rewrite.{IsOwn, rewrite_lines-IsOwn}
use minghe.Sdp.Presence.{Contains, rewrite_lines-Contains}
use minghe.Sdp.Choice.{
  or_else, first_aes, first_any, extract_srtp_crypto_from_sdp-priority,
  read_line-to_sdp_crypto_line,
}

-- Each byte as two letters from A to P.
encode_letters : List ℕ → Text
encode_letters [] = []
encode_letters (x ∷ xs) = (b'A' + x / 16 % 16) ∷ (b'A' + x % 16) ∷ encode_letters xs

decode_letters : Text → List ℕ
decode_letters [] = []
decode_letters (a ∷ []) = []
decode_letters (a ∷ b ∷ s) = ((a - b'A') * 16 + (b - b'A')) ∷ decode_letters s

abbrev letters : Base64
letters = record { encode = encode_letters; decode = λ text. some (decode_letters text) }

letters-alphabet : (bytes : List ℕ) → All (λ c. in_alphabet c ≡ true) (encode_letters bytes)
unfolding encode_letters
letters-alphabet [] = tt
letters-alphabet (x ∷ xs) = (ground arith, (ground arith, letters-alphabet xs))

letters-not_empty : (bytes : List ℕ) → bytes ≢ [] → encode_letters bytes ≢ []
unfolding encode_letters
letters-not_empty [] n e = n refl
letters-not_empty (x ∷ xs) n e = ground arith

letters-back :
    (bytes : List ℕ) → All (λ x. x < 256) bytes → decode_letters (encode_letters bytes) ≡ bytes
unfolding encode_letters decode_letters
letters-back [] h = refl
letters-back (x ∷ xs) h =
    ap (λ y. y ∷ decode_letters (encode_letters xs)) (omega (arith, h.0))
    ∙ ap (λ ys. x ∷ ys) (letters-back xs h.1)

letters-IsBase64 : IsBase64 letters
letters-IsBase64 = record {
  alphabet = letters-alphabet;
  not_empty = letters-not_empty;
  decodes = λ bytes h. ap (λ b. some b) (letters-back bytes h);
}

small : (n x : ℕ) → x < 256 → All (λ y. y < 256) (replicate n x)
small zero x h = tt
small (suc n) x h = (h, small n x h)

read_line-to_sdp_crypto_line_example :
    read_line toy letters (
      to_sdp_crypto_line letters
        (new_with_suite toy aes_cm_128_hmac_sha1_80 (replicate 16 1) (replicate 14 2))
        1)
    ≡ some (1, new_with_suite toy aes_cm_128_hmac_sha1_80 (replicate 16 1) (replicate 14 2))
read_line-to_sdp_crypto_line_example =
    read_line-to_sdp_crypto_line toy letters aes_cm_128_hmac_sha1_80 (replicate 16 1)
      (replicate 14 2) 1 letters-IsBase64 refl refl (small 16 1 (omega arith))
      (small 14 2 (omega arith)) (omega arith)

abbrev offer : Text
offer = codes "m=audio 4000 RTP/SAVP 0\r\na=crypto:1 AES_CM_128_HMAC_SHA1_80 inline:a2V5\r\n"

extract_srtp_crypto_from_sdp-priority_example :
    extract_srtp_crypto_from_sdp toy letters offer
    ≡ or_else (first_aes toy letters (lines offer)) (first_any toy letters (lines offer))
extract_srtp_crypto_from_sdp-priority_example =
    extract_srtp_crypto_from_sdp-priority toy letters offer

abbrev key : SdpCrypto
key = record { tag = 1; suite = codes "AES_CM_128_HMAC_SHA1_80"; key_b64 = codes "a2V5" }

abbrev start : Rewriting
start = record { in_audio = false; found_audio = false; crypto_inserted = false }

abbrev audio : Text
audio = codes "m=audio 4000 RTP/AVP 0"

audio_begins : begins "m=audio" audio ≡ true
unfolding minghe.Text.starts_with
audio_begins = refl

audio_parts :
    split_whitespace audio ≡ codes "m=audio" ∷ codes "4000" ∷ codes "RTP/AVP" ∷ codes "0" ∷ []
unfolding split_whitespace
audio_parts = refl

rewrite_lines-Contains_example : Contains (crypto_lines (codes "192.0.2.1") 20000 (key ∷ [])) (
    rewrite_lines
      (codes "192.0.2.1")
      20000
      (key ∷ [])
      start
      (codes "v=0" ∷ audio ∷ codes "a=rtcp-mux" ∷ []))
rewrite_lines-Contains_example =
    rewrite_lines-Contains (codes "192.0.2.1") 20000 key [] (codes "v=0" ∷ [])
      (codes "a=rtcp-mux" ∷ []) start audio (codes "m=audio") (codes "4000") (codes "RTP/AVP")
      (codes "0") [] audio_begins audio_parts

rewrite_lines-IsOwn_example :
    All
      (IsOwn
        (crypto_lines (codes "192.0.2.1") 20000 (key ∷ []))
        (connection_line (codes "192.0.2.1") 20000 (key ∷ [])))
      (rewrite_lines (codes "192.0.2.1") 20000 (key ∷ []) start (audio ∷ codes "a=rtcp-mux" ∷ []))
rewrite_lines-IsOwn_example =
    rewrite_lines-IsOwn (codes "192.0.2.1") 20000 key [] start (audio ∷ codes "a=rtcp-mux" ∷ [])
