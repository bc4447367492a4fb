-- ===== src/Srtp/Packet.antt =====
-- media/srtp.rs, `SrtpCryptoSuite`: the keys and the stream states of one direction, and the two
-- operations on packets. A call returns the suite that it leaves behind, also when it fails.
pub mod Sealing
pub mod RoundTrip
pub mod Keys
pub mod Failures
pub mod Tests
use minghe.Prelude.{ℕ, ◌+◌, ◌-◌, ◌≡◌, Bool, Eq, nat_eq, List, [], ◌∷◌, ◌++◌, Option, none, some}
use minghe.Prelude.{replicate, length, take, drop, ltb, if◌then◌else◌}
use minghe.Prelude.Dict.{Dict, get, insert}
use minghe.Srtp.Suite.{
  SrtpSuite, aes_cm_128_hmac_sha1_80, aead_aes_128_gcm, Result, ok, err, invalid_rtp_packet,
  too_short, header_overrun, authentication_failed, encryption_failed, suite_tag_len,
  rtp_header_min_len, session_key_len, session_salt_len, session_auth_key_len, master_salt_len,
  salt_len, label_cipher_key, label_auth_key, label_salt,
}
use minghe.Srtp.Header.{RtpHeader, parse, total_header_len}
use minghe.Srtp.Rollover.{
  SrtpStreamState, initial, estimate_roc, packet_index, update_stream_state_after_success,
}
use minghe.Srtp.Cipher.{
  Crypto, prf_derive, aes_cm_encrypt, gcm_iv, compute_auth_tag, constant_time_eq,
}

pub record SrtpCryptoSuite : Type 0 where
  pub suite : SrtpSuite
  pub master_key : List ℕ
  pub master_salt : List ℕ
  pub session_key : List ℕ
  pub session_salt : List ℕ
  pub session_auth_key : List ℕ
  pub stream_states : Dict ℕ SrtpStreamState

abbrev pub no_keys : SrtpSuite → List ℕ → List ℕ → SrtpCryptoSuite
no_keys suite master_key master_salt = record {
  suite = suite;
  master_key = master_key;
  master_salt = master_salt;
  session_key = replicate session_key_len 0;
  session_salt = replicate session_salt_len 0;
  session_auth_key = replicate session_auth_key_len 0;
  stream_states = [];
}

abbrev pub auth_key : Crypto → SrtpSuite → List ℕ → List ℕ → List ℕ → List ℕ
auth_key c aes_cm_128_hmac_sha1_80 key salt old =
    prf_derive c key salt label_auth_key session_auth_key_len
auth_key c aead_aes_128_gcm key salt old = old

unfoldable pub derive_session_keys : Crypto → SrtpCryptoSuite → SrtpCryptoSuite
derive_session_keys c s = record s {
  session_key = prf_derive c s.master_key s.master_salt label_cipher_key session_key_len;
  session_salt =
      take session_salt_len (prf_derive c s.master_key s.master_salt label_salt session_key_len);
  session_auth_key = auth_key c s.suite s.master_key s.master_salt s.session_auth_key;
}

-- `new_with_suite`: `key` and `salt` are what the generator draws, 16 bytes and `salt_len` bytes.
unfoldable pub new_with_suite : Crypto → SrtpSuite → List ℕ → List ℕ → SrtpCryptoSuite
unfolding derive_session_keys
new_with_suite c suite key salt =
    derive_session_keys c
      (no_keys suite key (salt ++ replicate (master_salt_len - salt_len suite) 0))

abbrev or_default : Option SrtpStreamState → SrtpStreamState
or_default none = initial
or_default (some state) = state

-- The state that `stream_state_mut` hands out.
unfoldable pub stream_state : SrtpCryptoSuite → ℕ → SrtpStreamState
stream_state s ssrc = or_default (get ssrc s.stream_states)

pub set_state : ℕ → SrtpStreamState → SrtpCryptoSuite → SrtpCryptoSuite
set_state ssrc state s = record s { stream_states = insert ssrc state s.stream_states }

-- `entry(ssrc).or_default()`: the entry is there from now on.
pub stream_state_mut : SrtpCryptoSuite → ℕ → SrtpCryptoSuite
unfolding set_state stream_state
stream_state_mut s ssrc = set_state ssrc (stream_state s ssrc) s

module _ (c : Crypto) where
  pub gcm_encrypt_payload : SrtpCryptoSuite → RtpHeader → ℕ → List ℕ → List ℕ → Result (List ℕ)
  gcm_encrypt_payload s h roc aad payload =
      elim (c.gcm_encrypt s.session_key (gcm_iv s.session_salt h.ssrc roc h.sequence_number) aad
        payload) [ none ↦ err encryption_failed | some text ↦ ok text ]

  pub gcm_decrypt_payload : SrtpCryptoSuite → RtpHeader → ℕ → List ℕ → List ℕ → Result (List ℕ)
  gcm_decrypt_payload s h roc aad text =
      elim (c.gcm_decrypt s.session_key (gcm_iv s.session_salt h.ssrc roc h.sequence_number) aad
        text) [ none ↦ err authentication_failed | some message ↦ ok message ]

  abbrev with_head : List ℕ → Result (List ℕ) → Result (List ℕ)
  with_head head (ok rest) = ok (head ++ rest)
  with_head head (err e) = err e

  -- The `match self.suite` of `protect_rtp`, on the header's bytes and the payload.
  pub seal : SrtpCryptoSuite → SrtpSuite → RtpHeader → ℕ → List ℕ → List ℕ → Result (List ℕ)
  unfolding gcm_encrypt_payload
  seal s aes_cm_128_hmac_sha1_80 h roc head payload =
      let index = packet_index roc h.sequence_number in
      let srtp_packet =
        head ++ aes_cm_encrypt c s.session_key s.session_salt h.ssrc index payload in
      ok (srtp_packet ++ compute_auth_tag c s.session_auth_key srtp_packet roc)
  seal s aead_aes_128_gcm h roc head payload =
      with_head head (gcm_encrypt_payload s h roc head payload)

  -- The `match self.suite` of `unprotect_rtp`: the packet, its part before the tag, and the tag.
  pub unseal :
      SrtpCryptoSuite → SrtpSuite → RtpHeader → ℕ → List ℕ → List ℕ → List ℕ → Result (List ℕ)
  unfolding gcm_decrypt_payload
  unseal s aes_cm_128_hmac_sha1_80 h roc packet authenticated_portion received_tag =
      let header_len = total_header_len h in
      if constant_time_eq (compute_auth_tag c s.session_auth_key authenticated_portion roc)
        received_tag
      then ok (
          take header_len authenticated_portion
          ++ aes_cm_encrypt c s.session_key s.session_salt h.ssrc
              (packet_index roc h.sequence_number) (drop header_len authenticated_portion))
      else err authentication_failed
  unseal s aead_aes_128_gcm h roc packet authenticated_portion received_tag =
      let header_len = total_header_len h in
      with_head (take header_len packet)
        (gcm_decrypt_payload s h roc (take header_len packet) (drop header_len packet))

  -- The stream moves on only after success.
  pub conclude :
      SrtpCryptoSuite → RtpHeader → ℕ → Result (List ℕ) → SrtpCryptoSuite × Result (List ℕ)
  conclude s h roc (err e) = (s, err e)
  conclude s h roc (ok packet) = (
    set_state h.ssrc
        (update_stream_state_after_success (stream_state s h.ssrc) h.sequence_number roc) s,
    ok packet,
  )

  pub protect_parsed :
      SrtpCryptoSuite → List ℕ → Result RtpHeader → SrtpCryptoSuite × Result (List ℕ)
  unfolding conclude stream_state_mut
  protect_parsed s packet (err e) = (s, err e)
  protect_parsed s packet (ok h) =
      let header_len = total_header_len h in
      if ltb (length packet) header_len
      then (s, err (invalid_rtp_packet header_overrun))
      else let t = stream_state_mut s h.ssrc in
        let roc = estimate_roc (stream_state t h.ssrc) h.sequence_number in
        conclude t h roc (seal t t.suite h roc (take header_len packet) (drop header_len packet))

  pub protect_rtp : SrtpCryptoSuite → List ℕ → SrtpCryptoSuite × Result (List ℕ)
  unfolding protect_parsed
  protect_rtp s packet =
      if ltb (length packet) rtp_header_min_len
      then (s, err (invalid_rtp_packet (too_short (length packet))))
      else protect_parsed s packet (parse packet)

  pub unprotect_parsed :
      SrtpCryptoSuite
      → List ℕ
      → List ℕ
      → List ℕ
      → Result RtpHeader
      → SrtpCryptoSuite × Result (List ℕ)
  unfolding conclude stream_state_mut
  unprotect_parsed s packet authenticated_portion received_tag (err e) = (s, err e)
  unprotect_parsed s packet authenticated_portion received_tag (ok h) =
      if ltb (length authenticated_portion) (total_header_len h)
      then (s, err (invalid_rtp_packet header_overrun))
      else let t = stream_state_mut s h.ssrc in
        let roc = estimate_roc (stream_state t h.ssrc) h.sequence_number in
        conclude t h roc (unseal t t.suite h roc packet authenticated_portion received_tag)

  pub unprotect_rtp : SrtpCryptoSuite → List ℕ → SrtpCryptoSuite × Result (List ℕ)
  unfolding unprotect_parsed
  unprotect_rtp s packet =
      let tag_len = suite_tag_len s.suite in
      let auth_tag_start = length packet - tag_len in
      if ltb (length packet) (rtp_header_min_len + tag_len)
      then (s, err (invalid_rtp_packet (too_short (length packet))))
      else unprotect_parsed s packet (take auth_tag_start packet) (drop auth_tag_start packet)
          (parse (take auth_tag_start packet))
