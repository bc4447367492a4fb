-- ===== src/Relay/Forward.antt =====
-- media/relay.rs, `run_relay`: the two tasks that pass packets between the sides of a call. A socket
-- address is an opaque text; a datagram that arrives is one step. The sockets and the end of the
-- tasks are not modelled.
pub mod Media
mod Tests
use minghe.Prelude.{
  ℕ, Bool, true, false, List, [], ◌∷◌, Option, none, some, if◌then◌else◌, is_nil, take,
}
use minghe.Text.{Text}
use minghe.Srtp.Suite.{Result, ok, err}
use minghe.Srtp.Cipher.{Crypto}
use minghe.Srtp.Packet.{SrtpCryptoSuite, protect_rtp, unprotect_rtp}

-- The arguments of `run_relay` that its tasks change.
pub record Relaying : Type 0 where
  pub caller_remote : Option Text
  pub callee_remote : Option Text
  pub decrypt_caller : Option SrtpCryptoSuite
  pub encrypt_callee : Option SrtpCryptoSuite
  pub decrypt_callee : Option SrtpCryptoSuite
  pub encrypt_caller : Option SrtpCryptoSuite

pub data Side : Type 0 where
  caller callee : Side

pub record Datagram : Type 0 where
  pub side : Side
  pub source : Text
  pub bytes : List ℕ

-- The address is learned once.
abbrev pub learned : Option Text → Text → Option Text
learned none addr = some addr
learned (some known) addr = some known

abbrev pub Keys : Type 0
Keys = Option SrtpCryptoSuite × Option SrtpCryptoSuite

abbrev pub protected : SrtpCryptoSuite → SrtpCryptoSuite × Result (List ℕ) → Keys × Option (List ℕ)
protected decrypt (encrypt, err e) = ((some decrypt, some encrypt), none)
protected decrypt (encrypt, ok srtp) = ((some decrypt, some encrypt), some srtp)

abbrev pub unprotected :
    Crypto → SrtpCryptoSuite → SrtpCryptoSuite × Result (List ℕ) → Keys × Option (List ℕ)
unprotected c encrypt (decrypt, err e) = ((some decrypt, some encrypt), none)
unprotected c encrypt (decrypt, ok rtp) = protected decrypt (protect_rtp c encrypt rtp)

-- `match (decrypt.as_mut(), encrypt.as_mut())`
unfoldable pub recode :
    Crypto → Option SrtpCryptoSuite → Option SrtpCryptoSuite → List ℕ → Keys × Option (List ℕ)
recode c (some decrypt) (some encrypt) packet =
    unprotected c encrypt (unprotect_rtp c decrypt packet)
recode c (some decrypt) none packet = ((some decrypt, none), none)
recode c none encrypt packet = ((none, encrypt), none)

abbrev pub to_dest : Text → Option (List ℕ) → Option (Text × List ℕ)
to_dest dest none = none
to_dest dest (some outbound) = some (dest, outbound)

-- `[0u8; 2048]`, the buffer of either task: what is left of a datagram that is longer is lost.
abbrev pub buffer_len : ℕ
buffer_len = 2048

abbrev pub received : List ℕ → List ℕ
received datagram = take buffer_len datagram

-- The first task, and what it sends.
unfoldable pub from_caller : Crypto → Text → List ℕ → Relaying → Relaying × Option (Text × List ℕ)
unfolding recode
from_caller c source datagram r =
    let packet = received datagram in
    let known = record r { caller_remote = learned r.caller_remote source } in
    let (keys, outbound) = recode c r.decrypt_caller r.encrypt_callee packet in
    if is_nil packet then (r, none) else elim r.callee_remote [
      | none ↦ (known, none)
      | some dest ↦
          (record known { decrypt_caller = keys.0; encrypt_callee = keys.1 }, to_dest dest outbound)
    ]

-- The second task.
unfoldable pub from_callee : Crypto → Text → List ℕ → Relaying → Relaying × Option (Text × List ℕ)
unfolding recode
from_callee c source datagram r =
    let packet = received datagram in
    let known = record r { callee_remote = learned r.callee_remote source } in
    let (keys, outbound) = recode c r.decrypt_callee r.encrypt_caller packet in
    if is_nil packet then (r, none) else elim r.caller_remote [
      | none ↦ (known, none)
      | some dest ↦
          (record known { decrypt_callee = keys.0; encrypt_caller = keys.1 }, to_dest dest outbound)
    ]

abbrev pub arrives : Crypto → Datagram → Relaying → Relaying × Option (Text × List ℕ)
arrives c d r = elim d.side [
  | caller ↦ from_caller c d.source d.bytes r
  | callee ↦ from_callee c d.source d.bytes r
]

-- The datagrams of both sides in the order of their arrival.
pub relay_all : Crypto → List Datagram → Relaying → Relaying × List (Option (Text × List ℕ))
unfolding from_caller from_callee
relay_all c [] r = (r, [])
relay_all c (d ∷ ds) r =
    let (after, out) = arrives c d r in
    let (final, outs) = relay_all c ds after in (final, out ∷ outs)
