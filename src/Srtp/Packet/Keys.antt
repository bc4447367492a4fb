-- ===== src/Srtp/Packet/Keys.antt =====
-- The lengths of the session keys.
use minghe.Prelude.{
  ℕ, ◌-◌, ◌≡◌, refl, List, ◌++◌, arith, length, length-take, replicate, length-append,
}
use minghe.Srtp.Suite.{SrtpSuite, aes_cm_128_hmac_sha1_80, aead_aes_128_gcm, salt_len}
use minghe.Srtp.Cipher.{Crypto, IsLawful, prf_derive}
use minghe.Srtp.Cipher.Laws.{length-prf_derive}
use minghe.Srtp.Packet.{auth_key, new_with_suite}

length-auth_key :
    (c : Crypto)
    → IsLawful c
    → (k : SrtpSuite) (key salt old : List ℕ) → length old ≡ 20
    → length (auth_key c k key salt old) ≡ 20
length-auth_key c l aes_cm_128_hmac_sha1_80 key salt old h = length-prf_derive c l key salt 1 20
length-auth_key c l aead_aes_128_gcm key salt old h = h

length-padded :
    (k : SrtpSuite) (salt : List ℕ)
    → length salt ≡ salt_len k
    → length (salt ++ replicate (14 - salt_len k) 0) ≡ 14
length-padded aes_cm_128_hmac_sha1_80 salt h = omega (arith, length-append salt (replicate 0 0))
length-padded aead_aes_128_gcm salt h = omega (arith, length-append salt (replicate 2 0))

-- A suite made from random bytes of the right number has a master key and a session key of 16
-- bytes, a master salt and a session salt of 14, and an authentication key of 20.
pub new_with_suite-lengths :
    (c : Crypto)
    → IsLawful c
    → (k : SrtpSuite) (key salt : List ℕ) → length key ≡ 16
    → length salt ≡ salt_len k
    → let s = new_with_suite c k key salt in
      (length s.master_key ≡ 16)
      × (length s.master_salt ≡ 14)
      × (length s.session_key ≡ 16)
      × (length s.session_salt ≡ 14)
      × (length s.session_auth_key ≡ 20)
unfolding new_with_suite
new_with_suite-lengths c l k key salt drawn salted =
    let padded = salt ++ replicate (14 - salt_len k) 0 in
    (
      drawn,
      length-padded k salt salted,
      length-prf_derive c l key padded 0 16,
      omega (
        arith,
        length-take 14 (prf_derive c key padded 2 16),
        length-prf_derive c l key padded 2 16,
      ),
      length-auth_key c l k key padded (replicate 20 0) refl,
    )
