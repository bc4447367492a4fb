-- ===== src/Srtp/Cipher/Laws.antt =====
-- Counter mode is its own inverse; the derived keys are complete; the comparison in constant time
-- decides equality.
use mathlib.Core.List.{append-nil}
use native.Mathlib.Decide.{dec_le}
use minghe.Prelude.Xor.{xor-xor, xor_zero_iff, or_zero_iff}
use minghe.Prelude.{
  ℕ, zero, suc, ◌+◌, ◌-◌, ◌*◌, ◌/◌, ◌%◌, ◌≤◌, ◌≡◌, refl, ap, ◌∙◌, ◌↔◌, ◌⊎◌, inl, inr, sym, min,
  bit_xor, bit_or, true, arith,
}
use minghe.Prelude.{List, [], ◌∷◌, ◌++◌, length, take, drop}
use minghe.Prelude.{
  length-take, length-drop, length-append, take-append, drop-append, take-append-drop,
}
use minghe.Srtp.Cipher.{
  Crypto, IsLawful, xor_at, salted_iv, xor_bytes, counter_block, prf_blocks, prf_derive, ctr_blocks,
  aes_cm_iv, aes_cm_encrypt, difference, constant_time_eq, compute_auth_tag, be_bytes,
}

length-xor_bytes : (xs ys : List ℕ) → length xs ≤ length ys → length (xor_bytes xs ys) ≡ length xs
unfolding xor_bytes
length-xor_bytes [] ys h = refl
length-xor_bytes (x ∷ xs) [] h = absurd (omega arith)
length-xor_bytes (x ∷ xs) (y ∷ ys) h = ap suc (length-xor_bytes xs ys (omega arith))

xor_bytes_twice : (xs ys : List ℕ) → length xs ≤ length ys → xor_bytes (xor_bytes xs ys) ys ≡ xs
unfolding xor_bytes
xor_bytes_twice [] ys h = refl
xor_bytes_twice (x ∷ xs) [] h = absurd (omega arith)
xor_bytes_twice (x ∷ xs) (y ∷ ys) h = cc (xor-xor x y, xor_bytes_twice xs ys (omega arith))

take_all : (n : ℕ) (xs : List ℕ) → length xs ≤ n → (take n xs ≡ xs) × (drop n xs ≡ [])
take_all zero [] h = (refl, refl)
take_all zero (x ∷ xs) h = absurd (omega arith)
take_all (suc n) [] h = (refl, refl)
take_all (suc n) (x ∷ xs) h = let r = take_all n xs (omega arith) in (ap (◌∷◌ x) r.0, r.1)

nil_of_length : (xs : List ℕ) → length xs ≡ 0 → xs ≡ []
nil_of_length [] h = refl
nil_of_length (x ∷ xs) h = absurd (omega arith)

-- A front part that is full, or that nothing follows, is cut off whole.
cut_front :
    (n : ℕ) (front back : List ℕ)
    → (length front ≡ n) ⊎ ((length front ≤ n) × (length back ≡ 0))
    → (take n (front ++ back) ≡ front) × (drop n (front ++ back) ≡ back)
cut_front n front back (inl full) = (take-append n front back full, drop-append n front back full)
cut_front n front back (inr (short, none_left)) =
    let r = take_all n front short in rw (nil_of_length back none_left, append-nil front) r

module _ (c : Crypto) (l : IsLawful c) (key iv : List ℕ) where
  prf_blocks_full :
      (rounds counter left : ℕ)
      → left ≤ rounds
      → length (prf_blocks c rounds key iv counter left) ≡ left
  unfolding prf_blocks
  prf_blocks_full zero counter left h = omega arith
  prf_blocks_full (suc rounds) counter left h =
      let block = c.encrypt_block key (counter_block iv (counter % 65536)) in
      ground (
        arith,
        l.block_len key (counter_block iv (counter % 65536)),
        length-append (take (min 16 left) block)
            (prf_blocks c rounds key iv (counter + 1) (left - min 16 left)),
        length-take (min 16 left) block,
        prf_blocks_full rounds (counter + 1) (left - min 16 left),
      )

  length-ctr_blocks :
      (blocks i : ℕ) (rest : List ℕ)
      → length rest ≤ blocks * 16
      → length (ctr_blocks c blocks key iv i rest) ≡ length rest
  unfolding ctr_blocks
  length-ctr_blocks zero i rest h = omega arith
  length-ctr_blocks (suc blocks) i rest h =
      let block = c.encrypt_block key (counter_block iv (i % 65536)) in
      omega (
        arith,
        length-append (xor_bytes (take 16 rest) block)
            (ctr_blocks c blocks key iv (i + 1) (drop 16 rest)),
        length-xor_bytes (take 16 rest) block
            (omega (arith, length-take 16 rest, l.block_len key (counter_block iv (i % 65536)))),
        length-take 16 rest,
        length-drop 16 rest,
        length-ctr_blocks blocks (i + 1) (drop 16 rest) (omega (arith, length-drop 16 rest)),
      )

  ctr_blocks_twice :
      (blocks i : ℕ) (rest : List ℕ)
      → length rest ≤ blocks * 16
      → ctr_blocks c blocks key iv i (ctr_blocks c blocks key iv i rest) ≡ rest
  unfolding ctr_blocks
  ctr_blocks_twice zero i rest h = sym (nil_of_length rest (omega arith))
  ctr_blocks_twice (suc blocks) i rest h =
      let block = c.encrypt_block key (counter_block iv (i % 65536)) in
      let front = xor_bytes (take 16 rest) block in
      let back = ctr_blocks c blocks key iv (i + 1) (drop 16 rest) in
      let fits : length (take 16 rest) ≤ length block =
        omega (arith, length-take 16 rest, l.block_len key (counter_block iv (i % 65536))) in
      let back_len =
        length-ctr_blocks blocks (i + 1) (drop 16 rest) (omega (arith, length-drop 16 rest)) in
      let front_len = length-xor_bytes (take 16 rest) block fits in
      let cut = cut_front 16 front back (elim (dec_le 16 (length rest)) [
        | yes full ↦ inl (omega (arith, length-take 16 rest))
        | no short ↦ inr (omega (arith, length-take 16 rest), omega (arith, length-drop 16 rest))
      ]) in
      rw
        (
          cut.0,
          cut.1,
          xor_bytes_twice (take 16 rest) block fits,
          ctr_blocks_twice blocks (i + 1) (drop 16 rest) (omega (arith, length-drop 16 rest)),
        )
        (take-append-drop 16 rest)

-- The block count of `aes_cm_encrypt` covers the data.
blocks_cover : (n : ℕ) → n ≤ (n + 15) / 16 * 16
blocks_cover n = omega arith

pub length-aes_cm_encrypt :
    (c : Crypto)
    → IsLawful c
    → (key salt : List ℕ) (ssrc index : ℕ) (bytes : List ℕ)
    → length (aes_cm_encrypt c key salt ssrc index bytes) ≡ length bytes
unfolding aes_cm_encrypt
length-aes_cm_encrypt c l key salt ssrc index [] = refl
length-aes_cm_encrypt c l key salt ssrc index (b ∷ bytes) =
    length-ctr_blocks c l key (aes_cm_iv salt ssrc index) ((length (b ∷ bytes) + 15) / 16) 0
      (b ∷ bytes) (blocks_cover (length (b ∷ bytes)))

-- The early return on empty data agrees with the loop of no rounds.
aes_cm_encrypt-ctr :
    (c : Crypto) (key salt : List ℕ) (ssrc index : ℕ) (bytes : List ℕ)
    → aes_cm_encrypt c key salt ssrc index bytes
      ≡ ctr_blocks c ((length bytes + 15) / 16) key (aes_cm_iv salt ssrc index) 0 bytes
unfolding aes_cm_encrypt
aes_cm_encrypt-ctr c key salt ssrc index [] = refl
aes_cm_encrypt-ctr c key salt ssrc index (b ∷ bytes) = refl

-- Encrypting twice at one packet index gives the data back, under any block cipher with blocks of
-- 16 bytes.
pub aes_cm_encrypt_twice :
    (c : Crypto)
    → IsLawful c
    → (key salt : List ℕ) (ssrc index : ℕ) (bytes : List ℕ)
    → aes_cm_encrypt c key salt ssrc index (aes_cm_encrypt c key salt ssrc index bytes) ≡ bytes
aes_cm_encrypt_twice c l key salt ssrc index bytes =
    let iv = aes_cm_iv salt ssrc index in
    let once = aes_cm_encrypt c key salt ssrc index bytes in
    aes_cm_encrypt-ctr c key salt ssrc index once
    ∙ rw
        (
          length-aes_cm_encrypt c l key salt ssrc index bytes,
          aes_cm_encrypt-ctr c key salt ssrc index bytes,
        )
        (ctr_blocks_twice c l key iv ((length bytes + 15) / 16) 0 bytes
          (blocks_cover (length bytes)))

-- The key derivation fills the whole key.
pub length-prf_derive :
    (c : Crypto)
    → IsLawful c
    → (key salt : List ℕ) (label len : ℕ) → length (prf_derive c key salt label len) ≡ len
unfolding prf_derive
length-prf_derive c l key salt label len =
    prf_blocks_full c l key (xor_at 7 label (salted_iv salt)) len 0 len (omega arith)

difference_zero :
    (d : ℕ) (xs ys : List ℕ)
    → length xs ≡ length ys
    → (difference d xs ys ≡ 0) ↔ ((d ≡ 0) × (xs ≡ ys))
unfolding difference
difference_zero d [] [] h = (λ e. (e, refl), λ e. e.0)
difference_zero d [] (y ∷ ys) h = absurd (omega arith)
difference_zero d (x ∷ xs) [] h = absurd (omega arith)
difference_zero d (x ∷ xs) (y ∷ ys) h = ground (
  arith,
  difference_zero (bit_or d (bit_xor x y)) xs ys,
  or_zero_iff d (bit_xor x y),
  xor_zero_iff x y,
)

-- The comparison in constant time holds exactly for equal byte strings.
pub constant_time_eq_iff : (a b : List ℕ) → (constant_time_eq a b ≡ true) ↔ (a ≡ b)
unfolding constant_time_eq
constant_time_eq_iff a b = ground (arith, difference_zero 0 a b, λ (e : a ≡ b). ap length e)

pub length-compute_auth_tag :
    (c : Crypto)
    → IsLawful c
    → (key portion : List ℕ) (roc : ℕ) → length (compute_auth_tag c key portion roc) ≡ 10
unfolding compute_auth_tag
length-compute_auth_tag c l key portion roc = omega (
  arith,
  length-take 10 (c.hmac_sha1 key (portion ++ be_bytes 4 roc)),
  l.hash_len key (portion ++ be_bytes 4 roc),
)
