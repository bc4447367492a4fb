-- ===== src/Server.antt =====
-- sip/server.rs: the table of connections, the limit on them, and the dispatch of a message to its
-- handler. The sockets, the TLS handshake and the tasks that read and write are not modelled: what
-- they bring about is an argument or a step of its own.
pub mod Dispatch
pub mod Identity
pub mod Datagrams
mod Tests
use minghe.Prelude.{
  ℕ, ◌+◌, ◌-◌, Bool, true, false, ◌&&◌, ◌||◌, not, List, [], ◌∷◌, Option, none, some, list_eq,
  if◌then◌else◌, leb, length, ◌==◌,
}
use minghe.Prelude.Dict.{Dict, get, insert, remove}
use minghe.Text.{Text}
use minghe.Registrar.State.{RegistrarService}
use minghe.Registrar.Table.{is_registered}
use minghe.Transport.{ConnectionSink, stream, datagram}
use minghe.Message.{Offline}
use minghe.Call.{Router, unregister_writer}

abbrev pub max_connections : ℕ
max_connections = 1024

pub record ConnectionState : Type 0 where
  pub peer_addr : Text
  pub extension : Option Text
  pub sink : ConnectionSink

-- `deliveries` are the extensions whose offline messages a task has been spawned for.
pub record ServerState : Type 0 where
  pub router : Router
  pub offline : Offline
  pub range_start : ℕ
  pub range_end : ℕ
  pub connections : Dict Text ConnectionState
  pub pending_handshakes : ℕ
  pub deliveries : List Text

abbrev pub set_connections : Dict Text ConnectionState → ServerState → ServerState
set_connections connections st = record st { connections = connections }

abbrev pub set_router : Router → ServerState → ServerState
set_router router st = record st { router = router }

abbrev pub is_extension : Text → Option Text → Bool
is_extension ext none = false
is_extension ext (some other) = other == ext

abbrev first_sink : Text → Dict Text ConnectionState → Option ConnectionSink
first_sink ext [] = none
first_sink ext ((addr, conn) ∷ rest) =
    let further = first_sink ext rest in
    if is_extension ext conn.extension then some conn.sink else further

-- Any of the connections, in the source in the order of the map.
pub find_sink_by_extension : Text → ServerState → Option ConnectionSink
find_sink_by_extension ext st = first_sink ext st.connections

unfoldable pub register_connection : Text → ConnectionSink → ServerState → ServerState
register_connection peer_addr sink st =
    set_connections
      (insert peer_addr (record { peer_addr = peer_addr; extension = none; sink = sink })
        st.connections)
      st

-- `if let Some(conn) = conns.get_mut(peer_addr)`
abbrev pub put_extension :
    Text
    → Option Text
    → Option ConnectionState
    → Dict Text ConnectionState
    → Dict Text ConnectionState
put_extension peer_addr ext none conns = conns
put_extension peer_addr ext (some conn) conns =
    insert peer_addr (record conn { extension = ext }) conns

unfoldable pub set_connection_extension : Text → Text → ServerState → ServerState
set_connection_extension peer_addr extension st =
    set_connections
      (put_extension peer_addr (some extension) (get peer_addr st.connections) st.connections) st

unfoldable pub clear_connection_extension : Text → ServerState → ServerState
clear_connection_extension peer_addr st =
    set_connections (put_extension peer_addr none (get peer_addr st.connections) st.connections) st

abbrev pub any_extension : Text → Dict Text ConnectionState → Bool
any_extension ext [] = false
any_extension ext ((addr, conn) ∷ rest) = is_extension ext conn.extension || any_extension ext rest

unfoldable pub has_connection_for_extension : Text → ServerState → Bool
has_connection_for_extension ext st = any_extension ext st.connections

abbrev pub extension_of : Option ConnectionState → Option Text
extension_of none = none
extension_of (some conn) = conn.extension

unfoldable pub get_connection_extension : Text → ServerState → Option Text
get_connection_extension peer_addr st = extension_of (get peer_addr st.connections)

unfoldable pub remove_connection : Text → ServerState → Option Text × ServerState
remove_connection peer_addr st = (
  extension_of (get peer_addr st.connections),
  set_connections (remove peer_addr st.connections) st,
)

-- A TCP connection is taken, as a handshake, below the limit.
pub accept : ServerState → Bool × ServerState
accept st =
    if leb max_connections (length st.connections + st.pending_handshakes)
    then (false, st)
    else (true, record st { pending_handshakes = st.pending_handshakes + 1 })

pub handshake_ends : ServerState → ServerState
handshake_ends st = record st { pending_handshakes = st.pending_handshakes - 1 }

abbrev pub forget_writer : Option Text × ServerState → ServerState
forget_writer (none, st) = st
forget_writer (some ext, st) =
    if has_connection_for_extension ext st
    then st
    else set_router (unregister_writer ext st.router) st

-- The end of `handle_connection`.
unfoldable pub connection_closed : Text → ServerState → ServerState
unfolding has_connection_for_extension
connection_closed peer_addr st = forget_writer (remove_connection peer_addr st)

-- The sweep of the sessions over UDP whose extension is not registered.
abbrev holds : ℕ → RegistrarService → Option Text → Bool
holds now registrar none = false
holds now registrar (some ext) = is_registered now ext registrar

abbrev pub is_stale : ℕ → RegistrarService → ConnectionState → Bool
is_stale now registrar conn = elim conn.sink [
  | stream tx ↦ false
  | datagram peer ↦ not (holds now registrar conn.extension)
]

abbrev pub stale_addrs : ℕ → RegistrarService → Dict Text ConnectionState → List Text
stale_addrs now registrar [] = []
stale_addrs now registrar ((addr, conn) ∷ rest) =
    let further = stale_addrs now registrar rest in
    if is_stale now registrar conn then addr ∷ further else further

abbrev pub remove_all : List Text → ServerState → ServerState
remove_all [] st = st
remove_all (addr ∷ rest) st = remove_all rest (remove_connection addr st).1

unfoldable pub udp_session_cleanup : ℕ → ServerState → ServerState
unfolding remove_connection
udp_session_cleanup now st = remove_all (stale_addrs now st.router.registrar st.connections) st
