-- ===== src/Srtp/Suite.antt =====
-- media/srtp.rs: the cipher suites, their lengths, and the errors. The text that an error carries
-- is replaced by the reason that the source formats into it.
use minghe.Prelude.{ℕ, list_eq}

pub data SrtpSuite : Type 0 where
  aes_cm_128_hmac_sha1_80 aead_aes_128_gcm : SrtpSuite

pub data Reason : Type 0 where
  too_short : ℕ → Reason
  bad_version : ℕ → Reason
  csrc_incomplete extension_incomplete header_overrun : Reason
  key_length : ℕ → ℕ → Reason

pub data SrtpError : Type 0 where
  invalid_sdes_key : Reason → SrtpError
  invalid_rtp_packet : Reason → SrtpError
  authentication_failed encryption_failed base64_decode_error : SrtpError
  crypto_attribute_parse_error : SrtpError

pub data Result {ℓ} (A : Type ℓ) : Type ℓ where
  ok : A → Result A
  err : SrtpError → Result A

abbrev pub master_key_len : ℕ
master_key_len = 16

abbrev pub master_salt_len : ℕ
master_salt_len = 14

abbrev pub gcm_salt_len : ℕ
gcm_salt_len = 12

abbrev pub auth_tag_len : ℕ
auth_tag_len = 10

abbrev pub gcm_auth_tag_len : ℕ
gcm_auth_tag_len = 16

abbrev pub session_key_len : ℕ
session_key_len = 16

abbrev pub session_salt_len : ℕ
session_salt_len = 14

abbrev pub label_cipher_key : ℕ
label_cipher_key = 0

abbrev pub label_auth_key : ℕ
label_auth_key = 1

abbrev pub label_salt : ℕ
label_salt = 2

abbrev pub session_auth_key_len : ℕ
session_auth_key_len = 20

abbrev pub rtp_header_min_len : ℕ
rtp_header_min_len = 12

-- `SrtpSuite::auth_tag_len`
abbrev pub suite_tag_len : SrtpSuite → ℕ
suite_tag_len aes_cm_128_hmac_sha1_80 = auth_tag_len
suite_tag_len aead_aes_128_gcm = gcm_auth_tag_len

abbrev pub salt_len : SrtpSuite → ℕ
salt_len aes_cm_128_hmac_sha1_80 = master_salt_len
salt_len aead_aes_128_gcm = gcm_salt_len
