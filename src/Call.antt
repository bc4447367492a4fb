-- ===== src/Call.antt =====
-- sip/router.rs, `Router`: the calls that the server connects. Each handler is one step on the state
-- of the router, and returns also the datagrams that it sends, in order, and its answer. What the
-- operating system, the clock and the generators give in that step is an environment.
pub mod Invite
pub mod Response
pub mod Dialog
pub mod Steps
pub mod Evolution
pub mod Handlers
pub mod Answers
pub mod Runs
pub mod Endings
pub mod Poison
pub mod Established
pub mod Outcomes
mod Tests
pub mod Sessions
pub mod Keys
use minghe.Prelude.{
  ℕ, Bool, true, false, List, [], ◌∷◌, Option, none, some, list_eq, if◌then◌else◌, codes, ◌==◌,
}
use minghe.Prelude.Dict.{Dict, get, insert, remove}
use minghe.Text.{Text, Outcome, panics, returns}
use minghe.Parser.Response.{build_response}
use minghe.Registrar.State.{RegistrarService}
use minghe.Relay.{MediaRelayManager, remove_session}
use minghe.Srtp.Suite.{SrtpSuite}
use minghe.Srtp.Cipher.{Crypto}
use minghe.Srtp.Packet.{SrtpCryptoSuite, new_with_suite}
use minghe.Srtp.Sdes.{Base64}
use minghe.Sdp.Media.{Addresses}
use minghe.Transport.{ConnectionSink, Outlets, get_outbound}

pub data CallState : Type 0 where
  trying ringing established terminated : CallState

pub record CallInfo : Type 0 where
  pub call_id : Text
  pub caller_ext : Text
  pub callee_ext : Text
  pub caller_tag : Text
  pub callee_tag : Option Text
  pub caller_remote_contact : Option Text
  pub callee_remote_contact : Option Text
  pub state : CallState
  pub original_invite : Text
  pub caller_sink : ConnectionSink
  pub callee_sink : Option ConnectionSink
  pub caller_remote_crypto : Option SrtpCryptoSuite
  pub caller_remote_crypto_tag : ℕ
  pub caller_local_crypto : Option SrtpCryptoSuite
  pub callee_remote_crypto : Option SrtpCryptoSuite
  pub callee_local_crypto : Option SrtpCryptoSuite
  pub callee_local_crypto_gcm : Option SrtpCryptoSuite
  pub caller_media_addr : Option Text
  pub callee_media_addr : Option Text
  pub caller_relay_port : ℕ
  pub callee_relay_port : ℕ
  pub relay_started : Bool

-- The arguments with which `run_relay` is spawned.
pub record RelayTask : Type 0 where
  pub call_id : Text
  pub caller_port : ℕ
  pub callee_port : ℕ
  pub caller_decrypt_crypto : Option SrtpCryptoSuite
  pub callee_encrypt_crypto : Option SrtpCryptoSuite
  pub callee_decrypt_crypto : Option SrtpCryptoSuite
  pub caller_encrypt_crypto : Option SrtpCryptoSuite
  pub caller_media_addr : Option Text
  pub callee_media_addr : Option Text

-- `poisoned` says that a thread has panicked with the lock of `active_calls` held for writing: every
-- later `unwrap` of that lock panics too.
pub record Router : Type 0 where
  pub active_calls : Dict Text CallInfo
  pub poisoned : Bool
  pub registrar : RegistrarService
  pub media_manager : MediaRelayManager
  pub domain : Text
  pub media_addr : Text
  pub outlets : Outlets
  pub tasks : List RelayTask

pub record Env : Type 0 where
  pub now : ℕ
  pub ip_of : Text → Text
  pub tag : Text
  pub branch : Text
  pub crypto : Crypto
  pub base64 : Base64
  pub addresses : Addresses
  pub draw : ℕ → SrtpSuite → List ℕ × List ℕ
  pub delivers : ConnectionSink → Text → Bool
  pub channel : ℕ

abbrev pub Sends : Type 0
Sends = List (ConnectionSink × Text)

abbrev pub Handled {ℓ} : Type ℓ → Type ℓ
Handled A = Router × Sends × Outcome A

abbrev pub respond : Env → Text → ℕ → Text → Text
respond e request status reason = build_response e.tag request status reason

-- A suite with keys from the generator: the `n`-th draw of the step.
abbrev pub fresh_suite : Env → ℕ → SrtpSuite → SrtpCryptoSuite
fresh_suite e n suite = let (key, salt) = e.draw n suite in new_with_suite e.crypto suite key salt

abbrev pub set_calls : Dict Text CallInfo → Router → Router
set_calls calls s = record s { active_calls = calls }

unfoldable pub register_writer : Text → ConnectionSink → Router → Router
register_writer extension sink s = record s {
  outlets = record s.outlets {
    connection_writers = insert extension sink s.outlets.connection_writers;
  };
}

unfoldable pub unregister_writer : Text → Router → Router
unregister_writer extension s = record s {
  outlets = record s.outlets { connection_writers = remove extension s.outlets.connection_writers };
}

pub find_peer_extension : Text → Text → Router → Option Text
find_peer_extension call_id from_ext s = elim (get call_id s.active_calls) [
  | none ↦ none
  | some call ↦ if call.caller_ext == from_ext then some call.callee_ext else some call.caller_ext
]

abbrev is_present {ℓ} : {A : Type ℓ} → Option A → Bool
is_present none = false
is_present (some a) = true

pub has_active_call : Text → Router → Bool
has_active_call call_id s = is_present (get call_id s.active_calls)

-- The session goes with the call.
unfoldable pub cleanup_call : Text → Router → Router
cleanup_call call_id s = elim (get call_id s.active_calls) [
  | none ↦ s
  | some call ↦ record s {
    active_calls = remove call_id s.active_calls;
    media_manager = (remove_session call_id s.media_manager).2;
  }
]
