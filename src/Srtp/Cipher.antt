-- ===== src/Srtp/Cipher.antt =====
-- media/srtp.rs: the key derivation, the counter mode, the GCM nonce and the authentication tag.
-- The block cipher, the hash and GCM come from other crates: they are the fields of `Crypto`.
pub mod Laws
use minghe.Prelude.{
  ℕ, zero, suc, ◌+◌, ◌-◌, ◌*◌, ◌/◌, ◌%◌, ◌<◌, ◌≡◌, min, bit_xor, bit_or, Bool, true, false,
}
use minghe.Prelude.{List, [], ◌∷◌, ◌++◌, Option, none, some, length, take, drop, replicate, nat_beq}
use minghe.Prelude.{if◌then◌else◌}
use minghe.Srtp.Suite.{
  Result, ok, err, encryption_failed, authentication_failed, auth_tag_len, gcm_auth_tag_len,
  session_auth_key_len, SrtpSuite, aes_cm_128_hmac_sha1_80, aead_aes_128_gcm,
}

-- crates `aes`, `hmac` with `sha1`, and `aes_gcm`. The arguments of the last two are the key, the
-- nonce, the associated data and the message; `none` is their error.
pub record Crypto : Type 0 where
  pub encrypt_block : List ℕ → List ℕ → List ℕ
  pub hmac_sha1 : List ℕ → List ℕ → List ℕ
  pub gcm_encrypt : List ℕ → List ℕ → List ℕ → List ℕ → Option (List ℕ)
  pub gcm_decrypt : List ℕ → List ℕ → List ℕ → List ℕ → Option (List ℕ)

-- What the crates document: the lengths of a block, a hash and a GCM text, and that GCM decrypts
-- what it encrypts under the same key, nonce and associated data.
pub record IsLawful (c : Crypto) : Type 0 where
  pub block_len : (key block : List ℕ) → length (c.encrypt_block key block) ≡ 16
  pub hash_len : (key message : List ℕ) → length (c.hmac_sha1 key message) ≡ 20
  pub sealed_len :
      (key nonce aad message text : List ℕ)
      → c.gcm_encrypt key nonce aad message ≡ some text
      → length text ≡ length message + gcm_auth_tag_len
  pub opens :
      (key nonce aad message text : List ℕ)
      → c.gcm_encrypt key nonce aad message ≡ some text
      → c.gcm_decrypt key nonce aad text ≡ some message

-- `to_be_bytes`, the low `k` bytes of it.
unfoldable pub be_bytes : ℕ → ℕ → List ℕ
be_bytes zero n = []
be_bytes (suc k) n = be_bytes k (n / 256) ++ (n % 256 ∷ [])

-- `x ^ y` byte by byte, as far as both go.
unfoldable pub xor_bytes : List ℕ → List ℕ → List ℕ
xor_bytes [] ys = []
xor_bytes (x ∷ xs) [] = []
xor_bytes (x ∷ xs) (y ∷ ys) = bit_xor x y ∷ xor_bytes xs ys

-- `block[i] ^= x`
unfoldable pub xor_at : ℕ → ℕ → List ℕ → List ℕ
xor_at i x [] = []
xor_at zero x (b ∷ block) = bit_xor b x ∷ block
xor_at (suc i) x (b ∷ block) = b ∷ xor_at i x block

-- The counter goes into the last two bytes of the block.
unfoldable pub counter_block : List ℕ → ℕ → List ℕ
unfolding xor_at
counter_block iv counter = xor_at 15 (counter % 256) (xor_at 14 (counter / 256 % 256) iv)

-- A 16-byte block that begins with the salt.
abbrev pub salted_iv : List ℕ → List ℕ
salted_iv salt = take 14 salt ++ (0 ∷ 0 ∷ [])

unfoldable pub aes_cm_iv : List ℕ → ℕ → ℕ → List ℕ
unfolding be_bytes xor_bytes
aes_cm_iv session_salt ssrc index =
    xor_bytes ((0 ∷ 0 ∷ 0 ∷ 0 ∷ []) ++ be_bytes 4 ssrc ++ be_bytes 6 index) (take 14 session_salt)
    ++ (0 ∷ 0 ∷ [])

unfoldable pub gcm_iv : List ℕ → ℕ → ℕ → ℕ → List ℕ
unfolding be_bytes xor_bytes
gcm_iv session_salt ssrc roc sequence =
    xor_bytes ((0 ∷ 0 ∷ []) ++ be_bytes 4 ssrc ++ be_bytes 4 roc ++ be_bytes 2 sequence)
      (take 12 session_salt)

module _ (c : Crypto) where
  -- The loop of `prf_derive` and `prf_derive_auth`: `left` bytes are still to be filled, and each
  -- round fills at least one, so `left` rounds suffice.
  unfoldable pub prf_blocks : ℕ → List ℕ → List ℕ → ℕ → ℕ → List ℕ
  unfolding counter_block
  prf_blocks zero key iv counter left = []
  prf_blocks (suc rounds) key iv counter left =
      let block = c.encrypt_block key (counter_block iv (counter % 65536)) in
      let rest = prf_blocks rounds key iv (counter + 1) (left - min 16 left) in
      if nat_beq left 0 then [] else take (min 16 left) block ++ rest

  unfoldable pub prf_derive : List ℕ → List ℕ → ℕ → ℕ → List ℕ
  unfolding prf_blocks
  prf_derive master_key master_salt label len =
      prf_blocks len master_key (xor_at 7 label (salted_iv master_salt)) 0 len

  -- `for block_idx in 0..block_count`; `rest` is the data from `block_idx * 16` on.
  unfoldable pub ctr_blocks : ℕ → List ℕ → List ℕ → ℕ → List ℕ → List ℕ
  unfolding counter_block xor_bytes
  ctr_blocks zero key iv block_idx rest = []
  ctr_blocks (suc blocks) key iv block_idx rest =
      xor_bytes (take 16 rest) (c.encrypt_block key (counter_block iv (block_idx % 65536)))
      ++ ctr_blocks blocks key iv (block_idx + 1) (drop 16 rest)

  unfoldable pub aes_cm_encrypt : List ℕ → List ℕ → ℕ → ℕ → List ℕ → List ℕ
  unfolding ctr_blocks aes_cm_iv
  aes_cm_encrypt session_key session_salt ssrc index [] = []
  aes_cm_encrypt session_key session_salt ssrc index (b ∷ bytes) =
      ctr_blocks ((length (b ∷ bytes) + 15) / 16) session_key (aes_cm_iv session_salt ssrc index) 0
        (b ∷ bytes)

  unfoldable pub compute_auth_tag : List ℕ → List ℕ → ℕ → List ℕ
  unfolding be_bytes
  compute_auth_tag session_auth_key authenticated_portion roc =
      take auth_tag_len (c.hmac_sha1 session_auth_key (authenticated_portion ++ be_bytes 4 roc))

-- `diff |= x ^ y` over the pairs.
difference : ℕ → List ℕ → List ℕ → ℕ
difference diff [] ys = diff
difference diff (x ∷ xs) [] = diff
difference diff (x ∷ xs) (y ∷ ys) = difference (bit_or diff (bit_xor x y)) xs ys

unfoldable pub constant_time_eq : List ℕ → List ℕ → Bool
unfolding difference
constant_time_eq a b = if nat_beq (length a) (length b) then nat_beq (difference 0 a b) 0 else false
