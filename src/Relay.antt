-- ===== src/Relay.antt =====
-- media/relay.rs: the pool of RTP ports and the sessions. The ports are u16 and advance modulo
-- 2 ^ 16, as in a release build. A loop takes fuel; Relay/Ports shows how much is enough. The
-- forwarding tasks are not modelled: a stop channel is a number.
pub mod Ports
pub mod Forward
pub mod Sessions
pub mod Opening
mod Tests
use minghe.Prelude.{
  ℕ, suc, zero, ◌+◌, ◌%◌, ◌^◌, Bool, true, false, Option, none, some, ltb, leb, nat_beq, list_eq,
}
use minghe.Prelude.Dict.{Dict, get, insert, remove}
use minghe.Text.{Text}

pub record RelaySession : Type 0 where
  pub session_id : Text
  pub caller_port : ℕ
  pub callee_port : ℕ
  pub caller_addr : Option Text
  pub callee_addr : Option Text

pub record MediaRelayManager : Type 0 where
  pub port_start : ℕ
  pub port_end : ℕ
  pub next_port : ℕ
  pub sessions : Dict Text RelaySession
  pub shutdown_senders : Dict Text ℕ

-- `no_fuel` stands for a loop that has not ended yet.
pub data Allocated : Type 0 where
  no_fuel : Allocated
  exhausted : MediaRelayManager → Allocated
  port_pair : ℕ → MediaRelayManager → Allocated

abbrev pub set_next : ℕ → MediaRelayManager → MediaRelayManager
set_next n s = record s { next_port = n }

-- The loop, after `attempts` wrap-arounds. One thread runs it, so that the exchange succeeds.
pub allocate_loop : ℕ → ℕ → MediaRelayManager → Allocated
allocate_loop zero attempts s = no_fuel
allocate_loop (suc fuel) attempts s =
    let port = s.next_port in
    elim (leb s.port_end port) [
      | true ↦ elim (ltb 3 (attempts + 1)) [
        | true ↦ exhausted (set_next s.port_start s)
        | false ↦ allocate_loop fuel (attempts + 1) (set_next s.port_start s)
      ]
      | false ↦ elim (nat_beq (port % 2) 0) [
        | true ↦ port_pair port (set_next ((port + 2) % 2 ^ 16) s)
        | false ↦ allocate_loop fuel attempts (set_next ((port + 2) % 2 ^ 16) s)
      ]
    ]

abbrev pub enough : ℕ
enough = 262_148

pub allocate_port_pair : MediaRelayManager → Allocated
unfolding allocate_loop
allocate_port_pair s = allocate_loop enough 0 s

abbrev new_session : Text → ℕ → ℕ → RelaySession
new_session id caller callee = record {
  session_id = id;
  caller_port = caller;
  callee_port = callee;
  caller_addr = none;
  callee_addr = none;
}

-- The second allocation, and the entry.
abbrev pub second_port :
    Text
    → ℕ
    → Allocated
    → Option RelaySession × MediaRelayManager
    → Option RelaySession × MediaRelayManager
second_port id caller no_fuel before = before
second_port id caller (exhausted s) before = (none, s)
second_port id caller (port_pair callee s) before =
    let session = new_session id caller callee in
    (some session, record s { sessions = insert id session s.sessions })

abbrev pub first_port :
    Text
    → Allocated
    → Option RelaySession × MediaRelayManager
    → Option RelaySession × MediaRelayManager
first_port id no_fuel before = before
first_port id (exhausted s) before = (none, s)
first_port id (port_pair caller s) before = second_port id caller (allocate_port_pair s) before

pub create_session : Text → MediaRelayManager → Option RelaySession × MediaRelayManager
unfolding allocate_port_pair
create_session id s = elim (get id s.sessions) [
  | some existing ↦ (some existing, s)
  | none ↦ first_port id (allocate_port_pair s) (none, s)
]

unfoldable pub get_session : Text → MediaRelayManager → Option RelaySession
get_session id s = get id s.sessions

unfoldable pub register_shutdown : Text → ℕ → MediaRelayManager → MediaRelayManager
register_shutdown id tx s = record s { shutdown_senders = insert id tx s.shutdown_senders }

-- The session that was removed, and the channel that was told to stop.
unfoldable pub remove_session :
    Text → MediaRelayManager → Option RelaySession × Option ℕ × MediaRelayManager
remove_session id s = (
  get id s.sessions,
  get id s.shutdown_senders,
  record s { sessions = remove id s.sessions; shutdown_senders = remove id s.shutdown_senders },
)
