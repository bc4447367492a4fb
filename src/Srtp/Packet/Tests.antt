-- ===== src/Srtp/Packet/Tests.antt =====
-- Runs of the packet operations on a toy cipher, and the theorems at concrete packets.
use minghe.Prelude.{
  ℕ, true, false, ◌+◌, ◌-◌, ◌≤◌, ◌≡◌, ◌≢◌, refl, List, [], ◌∷◌, ◌++◌, Option, none, some, arith,
  length, take, replicate, length-append, take-append,
}
use minghe.Srtp.Suite.{aes_cm_128_hmac_sha1_80, ok, err, authentication_failed}
use minghe.Srtp.Header.{RtpHeader, parse, total_header_len}
use minghe.Srtp.Cipher.{Crypto, IsLawful, compute_auth_tag}
use minghe.Srtp.Rollover.{initial}
use minghe.Srtp.Toy.{toy, toy-IsLawful, packet, header, parsed, fits}
use minghe.Srtp.Packet.{new_with_suite, SrtpCryptoSuite, stream_state, protect_rtp, unprotect_rtp}
use minghe.Srtp.Packet.RoundTrip.{InSync, Sends, Receives, protect-unprotect, Sends-Receives}
use minghe.Srtp.Packet.Failures.{unprotect-err_keeps, unprotect_forged}

abbrev pub fresh : SrtpCryptoSuite
fresh = record {
  suite = aes_cm_128_hmac_sha1_80;
  master_key = replicate 16 1;
  master_salt = replicate 14 2;
  session_key = replicate 16 3;
  session_salt = replicate 14 4;
  session_auth_key = replicate 20 5;
  stream_states = [];
}

pub fresh-InSync : InSync fresh fresh
fresh-InSync = record {
  suites = refl;
  keys = refl;
  salts = refl;
  auth_keys = refl;
  streams = λ ssrc. refl;
}

abbrev pub sent_packet : List ℕ
sent_packet = take 12 packet ++ (173 ∷ 188 ∷ replicate 10 9)

abbrev pub sent_suite : SrtpCryptoSuite
sent_suite = record fresh {
  stream_states = (5, record { roc = 0; highest_sequence = some 7 }) ∷ [];
}

pub sent : protect_rtp toy fresh packet ≡ (sent_suite, ok sent_packet)
unfolding protect_rtp parse minghe.Srtp.Header.version_of minghe.Srtp.Header.csrc_end
    minghe.Srtp.Header.has_extension total_header_len minghe.Srtp.Header.fields
    minghe.Srtp.Packet.seal minghe.Prelude.Dict.insert minghe.Srtp.Cipher.aes_cm_encrypt
    minghe.Srtp.Rollover.update_stream_state_after_success compute_auth_tag minghe.Prelude.Dict.get
    minghe.Srtp.Rollover.estimate_roc
sent = refl

protect-unprotect_example :
    (r' : SrtpCryptoSuite) × (unprotect_rtp toy fresh sent_packet ≡ (r', ok packet))
    × InSync sent_suite r'
protect-unprotect_example =
    protect-unprotect toy toy-IsLawful fresh fresh sent_suite packet sent_packet fresh-InSync sent

Sends-Receives_example :
    (r' : SrtpCryptoSuite) × Receives toy fresh (sent_packet ∷ []) r' (packet ∷ [])
    × InSync sent_suite r'
Sends-Receives_example =
    Sends-Receives toy toy-IsLawful fresh fresh sent_suite (packet ∷ []) (sent_packet ∷ [])
      fresh-InSync (Sends.sends Sends.nothing sent)

abbrev pub forged_tag : List ℕ
forged_tag = replicate 10 8

abbrev pub forged_suite : SrtpCryptoSuite
forged_suite = record fresh { stream_states = (5, initial) ∷ [] }

pub forged :
    unprotect_rtp toy fresh (packet ++ forged_tag) ≡ (forged_suite, err authentication_failed)
unfolding unprotect_rtp parse minghe.Srtp.Header.version_of minghe.Srtp.Header.csrc_end
    minghe.Srtp.Header.has_extension total_header_len minghe.Srtp.Header.fields
    minghe.Srtp.Packet.unseal minghe.Srtp.Cipher.constant_time_eq compute_auth_tag
    minghe.Prelude.Dict.insert minghe.Prelude.Dict.get
forged = refl

unprotect-err_keeps_example : stream_state forged_suite 5 ≡ stream_state fresh 5
unprotect-err_keeps_example =
    unprotect-err_keeps toy fresh forged_suite (packet ++ forged_tag) authentication_failed forged 5

forged-differs : forged_tag ≢ compute_auth_tag toy (replicate 20 5) packet 0
unfolding compute_auth_tag
forged-differs = ground arith

unprotect_forged_example :
    let (t, answer) = unprotect_rtp toy fresh (packet ++ forged_tag) in
    (answer ≡ err authentication_failed) × (length t.stream_states ≡ 1)
unfolding minghe.Prelude.Dict.get
unprotect_forged_example =
    unprotect_forged toy fresh packet forged_tag header refl refl parsed fits refl forged-differs
