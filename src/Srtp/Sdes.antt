-- ===== src/Srtp/Sdes.antt =====
-- media/srtp.rs: keys as text, in the `inline:` form of SDES and in `a=crypto` lines. Base64 comes
-- from the crate base64: it is a parameter.

pub mod Lines
pub mod Keys
use minghe.Prelude.{
  ℕ, ◌+◌, ◌-◌, ◌^◌, ◌<◌, ◌≡◌, ◌≢◌, Bool, true, ◌||◌, ◌&&◌, List, [], ◌∷◌, ◌++◌, Option, none, some,
}
use minghe.Prelude.{
  All, ltb, leb, nat_beq, if◌then◌else◌, length, take, drop, codes, ◌==◌, list_eq, replicate,
}
use minghe.Text.{Text, trim, to_uppercase, starts_with, take_until, parse_uint, is_empty}
use minghe.Parser.Response.{decimal}
use minghe.Srtp.Suite.{
  SrtpSuite, aes_cm_128_hmac_sha1_80, aead_aes_128_gcm, Result, ok, err, invalid_sdes_key,
  base64_decode_error, crypto_attribute_parse_error, key_length, master_key_len, salt_len,
}
use minghe.Srtp.Cipher.{Crypto}
use minghe.Srtp.Packet.{SrtpCryptoSuite, new_with_suite}

-- `BASE64.encode` and `BASE64.decode`.
pub record Base64 : Type 0 where
  pub encode : List ℕ → Text
  pub decode : Text → Option (List ℕ)

-- `A-Z a-z 0-9 + / =`
abbrev pub in_alphabet : ℕ → Bool
in_alphabet c =
    (leb b'A' c && leb c b'Z')
    || (leb b'a' c && leb c b'z')
    || (leb b'0' c && leb c b'9')
    || nat_beq c b'+'
    || nat_beq c b'/'
    || nat_beq c b'='

-- What the crate documents: texts of the alphabet, which decode to the bytes that they stand for.
pub record IsBase64 (b : Base64) : Type 0 where
  pub alphabet : (bytes : List ℕ) → All (λ c. in_alphabet c ≡ true) (b.encode bytes)
  pub not_empty : (bytes : List ℕ) → bytes ≢ [] → b.encode bytes ≢ []
  pub decodes : (bytes : List ℕ) → All (λ x. x < 256) bytes → b.decode (b.encode bytes) ≡ some bytes

abbrev pub sdp_name : SrtpSuite → Text
sdp_name aes_cm_128_hmac_sha1_80 = codes "AES_CM_128_HMAC_SHA1_80"
sdp_name aead_aes_128_gcm = codes "AEAD_AES_128_GCM"

unfoldable pub from_sdp_name : Text → Option SrtpSuite
from_sdp_name name =
    let upper = to_uppercase name in
    if upper == codes "AES_CM_128_HMAC_SHA1_80"
    then some aes_cm_128_hmac_sha1_80
    else if upper == codes "AEAD_AES_128_GCM"
    then some aead_aes_128_gcm
    else none

-- The decoded bytes, of which the number is checked.
abbrev pub suite_of_bytes : Crypto → SrtpSuite → Option (List ℕ) → Result SrtpCryptoSuite
suite_of_bytes c suite none = err base64_decode_error
suite_of_bytes c suite (some decoded) =
    let expected_len = master_key_len + salt_len suite in
    if nat_beq (length decoded) expected_len
    then ok (new_with_suite c suite (take master_key_len decoded) (drop master_key_len decoded))
    else err (invalid_sdes_key (key_length expected_len (length decoded)))

unfoldable pub from_sdes_with_suite : Crypto → Base64 → SrtpSuite → Text → Result SrtpCryptoSuite
from_sdes_with_suite c b suite base64_key_salt =
    suite_of_bytes c suite (b.decode (trim base64_key_salt))

pub from_sdes : Crypto → Base64 → Text → Result SrtpCryptoSuite
from_sdes c b base64_key_salt = from_sdes_with_suite c b aes_cm_128_hmac_sha1_80 base64_key_salt

unfoldable pub to_sdes_key : Base64 → SrtpCryptoSuite → Text
to_sdes_key b s = b.encode (s.master_key ++ take (salt_len s.suite) s.master_salt)

-- `SdpCrypto::to_line` and the end of `to_sdp_crypto_line`.
unfoldable pub crypto_line : ℕ → Text → Text → Text
crypto_line tag suite key =
    codes "a=crypto:" ++ (decimal tag ++ (codes " " ++ (suite ++ (codes " inline:" ++ key))))

unfoldable pub to_sdp_crypto_line : Base64 → SrtpCryptoSuite → ℕ → Text
unfolding crypto_line
to_sdp_crypto_line b s tag = crypto_line tag (sdp_name s.suite) (to_sdes_key b s)

pub to_sdes_attribute : Base64 → SrtpCryptoSuite → Text
to_sdes_attribute b s = to_sdp_crypto_line b s 1

-- The text before the first byte `c`, and the text behind it, if there is one.
abbrev pub put_front : ℕ → Option (Text × Text) → Option (Text × Text)
put_front x none = none
put_front x (some (before, behind)) = some (x ∷ before, behind)

unfoldable pub split_once : ℕ → Text → Option (Text × Text)
split_once c [] = none
split_once c (x ∷ s) =
    let further = put_front x (split_once c s) in if nat_beq x c then some ([], s) else further

-- The three parts `TAG`, `SUITE` and `inline:KEY`.
abbrev pub parse_key : ℕ → Text → Text → Result (ℕ × Text × Text)
parse_key tag suite key_part =
    let key = take_until (λ c. nat_beq c b'|') (drop 7 key_part) in
    if starts_with (codes "inline:") key_part
    then (if is_empty key then err crypto_attribute_parse_error else ok (tag, suite, key))
    else err crypto_attribute_parse_error

abbrev pub parse_tag : Option ℕ → Text → Text → Result (ℕ × Text × Text)
parse_tag none suite key_part = err crypto_attribute_parse_error
parse_tag (some tag) suite key_part = parse_key tag suite key_part

abbrev pub parse_parts : Text → Option (Text × Text) → Result (ℕ × Text × Text)
parse_parts tag none = err crypto_attribute_parse_error
parse_parts tag (some (suite, key_part)) = parse_tag (parse_uint (2 ^ 32) tag) suite key_part

abbrev pub parse_rest : Option (Text × Text) → Result (ℕ × Text × Text)
parse_rest none = err crypto_attribute_parse_error
parse_rest (some (tag, behind)) = parse_parts tag (split_once b' ' behind)

unfoldable pub parse_crypto_attribute : Text → Result (ℕ × Text × Text)
parse_crypto_attribute line =
    let trimmed = trim line in
    let content = if starts_with (codes "a=") trimmed then drop 2 trimmed else trimmed in
    if starts_with (codes "crypto:") content
    then parse_rest (split_once b' ' (drop 7 content))
    else err crypto_attribute_parse_error
