-- ===== src/Server/Datagrams.antt =====
-- Peers over UDP have no entry in the table of connections.
use minghe.Prelude.{
  ℕ, ◌≡◌, ◌≢◌, ◌⊎◌, inl, inr, refl, ap, ◌∙◌, true, false, List, [], ◌∷◌, Option, none, some,
  list_eq, list_beq_iff, if◌then◌else◌, if-both, codes, arith,
}
use minghe.Prelude.Dict.{Dict, get, get-insert, get-remove}
use minghe.Text.{Text, returns, is_empty, trim}
use minghe.Parser.Header.{extract_method, is_request}
use minghe.Transport.{stream}
use minghe.Call.{respond}
use minghe.Call.Invite.{or_blank}
use minghe.Message.Request.{handle_message}
use minghe.Server.{
  ServerState, ConnectionState, register_connection, connection_closed, udp_session_cleanup,
  put_extension, has_connection_for_extension, forget_writer, remove_connection, remove_all,
  stale_addrs, extension_of, get_connection_extension,
}
use minghe.Server.Dispatch.{
  Surroundings, Incoming, process_sip_message, process_request, method_of, is_zero, messaged,
  message_service,
}
use minghe.Server.Identity.{IsAssociated, Identified, process_sip_message-Identified}
use minghe.Parser.Fields.{extract_expires}

-- What happens to the table: a TLS connection that is set up or closed, a message from any peer, or
-- the sweep.
pub data Happening : Type 0 where
  connected : (peer_addr : Text) (tx : ℕ) → Happening
  closed : (peer_addr : Text) → Happening
  message : (w : Surroundings) (m : Incoming) → Happening
  sweep : (now : ℕ) → Happening

abbrev pub happens : Happening → ServerState → ServerState
happens (connected peer_addr tx) st = register_connection peer_addr (stream tx) st
happens (closed peer_addr) st = connection_closed peer_addr st
happens (message w m) st = (process_sip_message w m st).0
happens (sweep now) st = udp_session_cleanup now st

unfoldable pub run : List Happening → ServerState → ServerState
run [] st = st
run (h ∷ hs) st = run hs (happens h st)

-- No TLS connection comes from the address.
abbrev NotFrom : Text → Happening → Type 0
NotFrom addr (connected peer_addr tx) = peer_addr ≢ addr
NotFrom addr (closed peer_addr) = Unit
NotFrom addr (message w m) = Unit
NotFrom addr (sweep now) = Unit

abbrev pub NoneFrom : Text → List Happening → Type 0
NoneFrom addr [] = Unit
NoneFrom addr (h ∷ hs) = NotFrom addr h × NoneFrom addr hs

abbrev Unknown : Text → ServerState → Type 0
Unknown addr st = get addr st.connections ≡ none

put-Unknown :
    (addr peer : Text) (ext : Option Text) (found : Option ConnectionState)
    (conns : Dict Text ConnectionState)
    → get peer conns ≡ found
    → get addr conns ≡ none
    → get addr (put_extension peer ext found conns) ≡ none
put-Unknown addr peer ext none conns e h = h
put-Unknown addr peer ext (some conn) conns e h =
    ground
      (arith, get-insert peer addr (record conn { extension = ext }) conns, list_beq_iff peer addr)

forgotten :
    (o : Option Text) (st : ServerState) → (forget_writer (o, st)).connections ≡ st.connections
forgotten none st = refl
forgotten (some ext) st =
    if-both (λ (t : ServerState). t.connections ≡ st.connections)
      (has_connection_for_extension ext st) _ _ (λ others. refl) (λ last. refl)

removed :
    (addr peer : Text) (st : ServerState)
    → Unknown addr st
    → Unknown addr (remove_connection peer st).1
unfolding remove_connection
removed addr peer st h = ground (arith, get-remove peer addr st.connections)

all_removed :
    (addr : Text) (peers : List Text) (st : ServerState)
    → Unknown addr st
    → Unknown addr (remove_all peers st)
all_removed addr [] st h = h
all_removed addr (peer ∷ peers) st h =
    all_removed addr peers (remove_connection peer st).1 (removed addr peer st h)

identified :
    (addr : Text) (w : Surroundings) (m : Incoming) (st after : ServerState)
    → Unknown addr st
    → (after.connections ≡ st.connections) ⊎ IsAssociated w m st after
    → Unknown addr after
identified addr w m st after h (inl same) = ap (get addr) same ∙ h
identified addr w m st after h (inr a) =
    ap (get addr) a.connections
    ∙ put-Unknown addr m.peer_addr
        (if is_zero (extract_expires m.text) then none else some a.extension)
        (get m.peer_addr st.connections) st.connections refl h

happens-Unknown :
    (addr : Text) (h : Happening) (st : ServerState)
    → NotFrom addr h
    → Unknown addr st
    → Unknown addr (happens h st)
unfolding register_connection connection_closed udp_session_cleanup Identified
happens-Unknown addr (connected peer tx) st other u = ground (
  arith,
  get-insert peer addr (record { peer_addr = peer; extension = none; sink = stream tx })
      st.connections,
  list_beq_iff peer addr,
)
happens-Unknown addr (closed peer) st other u =
    ap (get addr) (forgotten (remove_connection peer st).0 (remove_connection peer st).1)
    ∙ removed addr peer st u
happens-Unknown addr (message w m) st other u =
    identified addr w m st (process_sip_message w m st).0 u (process_sip_message-Identified w m st)
happens-Unknown addr (sweep now) st other u =
    all_removed addr (stale_addrs now st.router.registrar st.connections) st u

run-Unknown :
    (addr : Text) (hs : List Happening) (st : ServerState)
    → NoneFrom addr hs
    → Unknown addr st
    → Unknown addr (run hs st)
unfolding run
run-Unknown addr [] st n u = u
run-Unknown addr (h ∷ hs) st n u =
    run-Unknown addr hs (happens h st) n.1 (happens-Unknown addr h st n.0 u)

refused :
    (w : Surroundings) (m : Incoming) (st : ServerState)
    → get m.peer_addr st.connections ≡ none
    → process_request w m (method_of (codes "MESSAGE")) st
      ≡ (st, (m.sink, respond w.env m.text 403 (codes "Forbidden")) ∷ [], returns tt)
unfolding process_request method_of handle_message get_connection_extension is_empty
refused w m st h =
    ap
      (λ (c : Option ConnectionState).
        messaged m.sink st
          (handle_message w.env m.text (or_blank (extension_of c)) (message_service st)))
      h

-- A MESSAGE from an address that no TLS connection has come from, such as that of any peer over UDP,
-- is refused with 403, whether or not the peer has registered, and changes nothing.
pub run-refuses_datagram :
    (hs : List Happening) (st : ServerState) (w : Surroundings) (m : Incoming)
    → st.connections ≡ []
    → NoneFrom m.peer_addr hs
    → is_empty (trim m.text) ≡ false
    → is_request m.text ≡ true
    → extract_method m.text ≡ some (codes "MESSAGE")
    → process_sip_message w m (run hs st)
      ≡ (run hs st, (m.sink, respond w.env m.text 403 (codes "Forbidden")) ∷ [], returns tt)
unfolding process_sip_message get
run-refuses_datagram hs st w m empty n text asks method =
    let u = run-Unknown m.peer_addr hs st n (rw empty refl) in
    rw (text, asks, method) (refused w m (run hs st) u)
