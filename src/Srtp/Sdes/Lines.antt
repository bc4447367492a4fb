-- ===== src/Srtp/Sdes/Lines.antt =====
-- An `a=crypto` line is read back as it was written.
use minghe.Prelude.{
  ℕ, ◌^◌, ◌<◌, ◌≡◌, refl, ap, sym, ◌∙◌, true, false, [], ◌∷◌, ◌++◌, some, arith, append_assoc, All,
  nat_beq, codes,
}
use minghe.Text.{Text, trim, starts_with, take_until, is_empty, is_whitespace, is_digit}
use minghe.Text.Trim.{Solid, trim_behind}
use minghe.Parser.Response.{decimal}
use minghe.Parser.Response.Numbers.{Digits, decimal-Digits, parse_uint-decimal}
use minghe.Srtp.Suite.{SrtpSuite, aes_cm_128_hmac_sha1_80, aead_aes_128_gcm, ok}
use minghe.Srtp.Sdes.{
  in_alphabet, sdp_name, split_once, crypto_line, parse_rest, parse_parts, parse_tag, parse_key,
  parse_crypto_attribute,
}

abbrev pub Alphabet : Text → Type 0
Alphabet s = All (λ c. in_alphabet c ≡ true) s

-- A text without the byte is what stands before the first one.
split_once-first :
    (c : ℕ) (before behind : Text)
    → All (λ x. nat_beq x c ≡ false) before
    → split_once c (before ++ (c ∷ behind)) ≡ some (before, behind)
unfolding split_once
split_once-first c [] behind h = ground arith
split_once-first c (x ∷ before) behind h = rw (split_once-first c before behind h.1) (ground arith)

pub Alphabet-Solid : (s : Text) → Alphabet s → Solid s
unfolding is_whitespace
Alphabet-Solid [] h = tt
Alphabet-Solid (c ∷ s) h = (ground arith, Alphabet-Solid s h.1)

take_until-Alphabet : (s : Text) → Alphabet s → take_until (λ c. nat_beq c b'|') s ≡ s
unfolding take_until
take_until-Alphabet [] h = refl
take_until-Alphabet (c ∷ s) h = ground (arith, take_until-Alphabet s h.1)

Digits-no_space : (s : Text) → Digits s → All (λ x. nat_beq x b' ' ≡ false) s
unfolding is_digit
Digits-no_space [] h = tt
Digits-no_space (c ∷ s) h = (ground arith, Digits-no_space s h.1)

name-no_space : (k : SrtpSuite) → All (λ x. nat_beq x b' ' ≡ false) (sdp_name k)
name-no_space aes_cm_128_hmac_sha1_80 = ground arith
name-no_space aead_aes_128_gcm = ground arith

parse_key-inline :
    (tag : ℕ) (name : Text) (c : ℕ) (key : Text)
    → Alphabet (c ∷ key)
    → parse_key tag name (codes "inline:" ++ (c ∷ key)) ≡ ok (tag, name, c ∷ key)
unfolding starts_with is_empty
parse_key-inline tag name c key h = ground (arith, take_until-Alphabet (c ∷ key) h)

-- The parts of a line, behind `crypto:`.
parse_rest-parts :
    (tag : ℕ) (k : SrtpSuite) (c : ℕ) (key : Text)
    → tag < 2 ^ 32
    → Alphabet (c ∷ key)
    → parse_rest (
        split_once b' '
          (decimal tag ++ (b' ' ∷ (sdp_name k ++ (b' ' ∷ (codes "inline:" ++ (c ∷ key)))))))
      ≡ ok (tag, sdp_name k, c ∷ key)
parse_rest-parts tag k c key fits h =
    let inline = codes "inline:" ++ (c ∷ key) in
    ap parse_rest (
      split_once-first b' ' (decimal tag) (sdp_name k ++ (b' ' ∷ inline))
        (Digits-no_space (decimal tag) (decimal-Digits tag)))
    ∙ ap (parse_parts (decimal tag)) (split_once-first b' ' (sdp_name k) inline (name-no_space k))
    ∙ ap (λ o. parse_tag o (sdp_name k) inline) (parse_uint-decimal (2 ^ 32) tag fits)
    ∙ parse_key-inline tag (sdp_name k) c key h

unfoldable pub front : ℕ → SrtpSuite → Text
front tag k = codes "=crypto:" ++ (decimal tag ++ (codes " " ++ (sdp_name k ++ codes " inline:")))

pub line_parts :
    (tag : ℕ) (k : SrtpSuite) (key : Text)
    → crypto_line tag (sdp_name k) key ≡ b'a' ∷ (front tag k ++ key)
unfolding front crypto_line
line_parts tag k key = simp append_assoc

pub trim-line :
    (tag : ℕ) (k : SrtpSuite) (c : ℕ) (key : Text)
    → Alphabet (c ∷ key)
    → trim (crypto_line tag (sdp_name k) (c ∷ key)) ≡ crypto_line tag (sdp_name k) (c ∷ key)
trim-line tag k c key h =
    let e = line_parts tag k (c ∷ key) in
    ap trim e
    ∙ trim_behind b'a' c (front tag k) key (unfold is_whitespace in refl)
        (Alphabet-Solid (c ∷ key) h)
    ∙ sym e

parse_trimmed :
    (tag : ℕ) (k : SrtpSuite) (key : Text)
    → trim (crypto_line tag (sdp_name k) key) ≡ crypto_line tag (sdp_name k) key
    → parse_crypto_attribute (crypto_line tag (sdp_name k) key)
      ≡ parse_rest (
          split_once b' '
            (decimal tag ++ (b' ' ∷ (sdp_name k ++ (b' ' ∷ (codes "inline:" ++ key))))))
unfolding parse_crypto_attribute
parse_trimmed tag k key e = rw e (unfold crypto_line starts_with in refl)

-- A line with a tag of 32 bits and a key in Base64 is read back to its three parts.
pub parse-crypto_line :
    (tag : ℕ) (k : SrtpSuite) (c : ℕ) (key : Text)
    → tag < 2 ^ 32
    → Alphabet (c ∷ key)
    → parse_crypto_attribute (crypto_line tag (sdp_name k) (c ∷ key))
      ≡ ok (tag, sdp_name k, c ∷ key)
parse-crypto_line tag k c key fits h =
    parse_trimmed tag k (c ∷ key) (trim-line tag k c key h) ∙ parse_rest-parts tag k c key fits h
