-- ===== src/Srtp/Sdes/Keys.antt =====
-- A peer that reads the line of a side has the keys of that side.
use minghe.Prelude.{
  ℕ, ◌-◌, ◌<◌, ◌≡◌, ◌≢◌, refl, ap, ◌∙◌, List, [], ◌∷◌, ◌++◌, some, arith, All, take-append,
  drop-append, length, length-append, replicate,
}
use minghe.Text.{Text, trim}
use minghe.Text.Trim.{trim-Solid}
use minghe.Srtp.Suite.{SrtpSuite, aes_cm_128_hmac_sha1_80, aead_aes_128_gcm, ok, salt_len}
use minghe.Srtp.Cipher.{Crypto}
use minghe.Srtp.Packet.{new_with_suite}
use minghe.Srtp.Sdes.{
  Base64, IsBase64, sdp_name, from_sdp_name, to_sdes_key, from_sdes_with_suite, suite_of_bytes,
}
use minghe.Srtp.Sdes.Lines.{Alphabet, Alphabet-Solid}

-- `copy_from_slice` and the salt of a suite give back what the generator drew.
key_bytes :
    (c : Crypto) (b : Base64) (k : SrtpSuite) (key salt : List ℕ)
    → length salt ≡ salt_len k
    → to_sdes_key b (new_with_suite c k key salt) ≡ b.encode (key ++ salt)
unfolding to_sdes_key new_with_suite
key_bytes c b k key salt h =
    ap (λ t. b.encode (key ++ t)) (take-append (salt_len k) salt (replicate (14 - salt_len k) 0) h)

read_bytes :
    (c : Crypto) (k : SrtpSuite) (key salt : List ℕ)
    → length key ≡ 16
    → length salt ≡ salt_len k
    → suite_of_bytes c k (some (key ++ salt)) ≡ ok (new_with_suite c k key salt)
read_bytes c k key salt hk hs =
    rw (take-append 16 key salt hk, drop-append 16 key salt hk)
      (ground (arith, length-append key salt))

All-append :
    (xs ys : List ℕ) → All (λ x. x < 256) xs → All (λ x. x < 256) ys → All (λ x. x < 256) (xs ++ ys)
All-append [] ys h k = k
All-append (x ∷ xs) ys h k = (h.0, All-append xs ys h.1 k)

pub from_sdp_name-sdp_name : (k : SrtpSuite) → from_sdp_name (sdp_name k) ≡ some k
unfolding from_sdp_name minghe.Text.upper
from_sdp_name-sdp_name aes_cm_128_hmac_sha1_80 = refl
from_sdp_name-sdp_name aead_aes_128_gcm = refl

module _ (c : Crypto) (b : Base64) (lawful : IsBase64 b) (k : SrtpSuite) (key salt : List ℕ)
    (key_len : length key ≡ 16) (salted : length salt ≡ salt_len k)
    (key_range : All (λ x. x < 256) key) (salt_range : All (λ x. x < 256) salt) where
  -- The SDES key of a suite gives the same suite back.
  pub from_sdes-to_sdes_key :
      from_sdes_with_suite c b k (to_sdes_key b (new_with_suite c k key salt))
      ≡ ok (new_with_suite c k key salt)
  unfolding from_sdes_with_suite
  from_sdes-to_sdes_key =
      let bytes = key ++ salt in
      let e = key_bytes c b k key salt salted in
      ap (λ t. suite_of_bytes c k (b.decode (trim t))) e
      ∙ ap (λ t. suite_of_bytes c k (b.decode t))
          (trim-Solid (b.encode bytes) (Alphabet-Solid (b.encode bytes) (lawful.alphabet bytes)))
      ∙ ap (suite_of_bytes c k) (lawful.decodes bytes (All-append key salt key_range salt_range))
      ∙ read_bytes c k key salt key_len salted

  -- The SDES key is a text of the alphabet of Base64, and not empty.
  pub to_sdes_key-starts :
      (first : ℕ) × (rest : Text) × (to_sdes_key b (new_with_suite c k key salt) ≡ first ∷ rest)
      × Alphabet (first ∷ rest)
  to_sdes_key-starts =
      let bytes = key ++ salt in
      let e = key_bytes c b k key salt salted in
      go (b.encode bytes) e (lawful.alphabet bytes) (
        lawful.not_empty bytes
          (λ none_left. absurd (ground (arith, ap length none_left, length-append key salt))))
    where
      go :
          (t : Text)
          → to_sdes_key b (new_with_suite c k key salt) ≡ t
          → Alphabet t
          → t ≢ []
          → (first : ℕ) × (rest : Text) × (to_sdes_key b (new_with_suite c k key salt)
              ≡ first ∷ rest)
            × Alphabet (first ∷ rest)
      go [] e h n = absurd (n refl)
      go (first ∷ rest) e h n = (first, rest, e, h)
