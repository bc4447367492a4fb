-- ===== src/Relay/Forward/Tests.antt =====
-- Packets through the relay, with the keys of the tests on packets.
use minghe.Prelude.{◌≡◌, refl, List, [], ◌∷◌, ◌++◌, none, some, codes, drop, arith, ℕ}
use minghe.Text.{Text}
use minghe.Srtp.Suite.{ok}
use minghe.Srtp.Toy.{toy, toy-IsLawful, packet}
use minghe.Srtp.Packet.{SrtpCryptoSuite, unprotect_rtp}
use minghe.Srtp.Packet.RoundTrip.{InSync}
use minghe.Srtp.Packet.Tests.{fresh, fresh-InSync, sent_packet, sent_suite, sent, forged_tag}
use minghe.Relay.Forward.{Relaying, Datagram, caller, from_caller, relay_all}
use minghe.Relay.Forward.Media.{from_caller-unprotect, relay_all-caller_remote}

abbrev phone : Text
phone = codes "10.0.0.1:4000"

abbrev other_phone : Text
other_phone = codes "10.0.0.2:4000"

abbrev relaying : Relaying
relaying = record {
  caller_remote = none;
  callee_remote = some other_phone;
  decrypt_caller = some fresh;
  encrypt_callee = some fresh;
  decrypt_callee = some fresh;
  encrypt_caller = some fresh;
}

from_caller-unprotect_example :
    (decrypt receiver : SrtpCryptoSuite) × ((from_caller toy phone
        (128 ∷ drop 1 sent_packet)
        relaying).1
      ≡ some (other_phone, sent_packet))
    × ((from_caller toy phone (128 ∷ drop 1 sent_packet) relaying).0.decrypt_caller ≡ some decrypt)
    × ((from_caller toy phone (128 ∷ drop 1 sent_packet) relaying).0.encrypt_callee
        ≡ some sent_suite)
    × (unprotect_rtp toy fresh sent_packet ≡ (receiver, ok packet))
    × InSync sent_suite decrypt
    × InSync sent_suite receiver
from_caller-unprotect_example =
    from_caller-unprotect toy toy-IsLawful relaying phone other_phone fresh sent_suite fresh fresh
      sent_suite fresh 128 packet (drop 1 sent_packet) sent_packet (omega arith) fresh-InSync
      fresh-InSync refl refl refl sent sent

abbrev datagrams : List Datagram
datagrams = record { side = caller; source = other_phone; bytes = sent_packet } ∷ []

relay_all-caller_remote_example :
    (relay_all toy datagrams (record relaying { caller_remote = some phone })).0.caller_remote
    ≡ some phone
relay_all-caller_remote_example =
    relay_all-caller_remote toy phone datagrams (record relaying { caller_remote = some phone })
      refl

abbrev forgery : List ℕ
forgery = packet ++ forged_tag
