-- ===== src/Srtp/Toy.antt =====
-- A toy cipher that does what the crates document, and a packet, for the tests.
use minghe.Prelude.{
  ℕ, false, ◌-◌, ◌≤◌, ◌≡◌, refl, List, [], ◌∷◌, ◌++◌, none, some, arith, length, take, replicate,
  length-append, take-append,
}
use minghe.Srtp.Suite.{ok}
use minghe.Srtp.Header.{RtpHeader, parse, total_header_len}
use minghe.Srtp.Cipher.{Crypto, IsLawful}

abbrev pub toy : Crypto
toy = record {
  encrypt_block = λ key block. replicate 16 7;
  hmac_sha1 = λ key message. replicate 20 9;
  gcm_encrypt = λ key nonce aad message. some (message ++ replicate 16 0);
  gcm_decrypt = λ key nonce aad text. some (take (length text - 16) text);
}

toy-opens :
    (message text : List ℕ)
    → some (message ++ replicate 16 0) ≡ some text
    → some (take (length text - 16) text) ≡ some message
toy-opens message text e = ground (
  arith,
  take-append (length message) message (replicate 16 0) refl,
  length-append message (replicate 16 0),
)

pub toy-IsLawful : IsLawful toy
toy-IsLawful = record {
  block_len = λ key block. refl;
  hash_len = λ key message. refl;
  sealed_len =
      λ key nonce aad message text e. ground (arith, length-append message (replicate 16 0));
  opens = λ key nonce aad message text e. toy-opens message text e;
}

abbrev pub packet : List ℕ
packet = 128 ∷ 0 ∷ 0 ∷ 7 ∷ 0 ∷ 0 ∷ 0 ∷ 1 ∷ 0 ∷ 0 ∷ 0 ∷ 5 ∷ 170 ∷ 187 ∷ []

abbrev pub header : RtpHeader
header = record {
  version = 2;
  padding = false;
  extension = false;
  csrc_count = 0;
  sequence_number = 7;
  timestamp = 1;
  ssrc = 5;
  extension_length = none;
}

pub parsed : parse packet ≡ ok header
unfolding parse minghe.Srtp.Header.version_of minghe.Srtp.Header.csrc_end
    minghe.Srtp.Header.has_extension minghe.Srtp.Header.fields
parsed = refl

pub fits : total_header_len header ≤ length packet
unfolding total_header_len
fits = ground arith
