-- ===== src/Transport.antt =====
-- sip/transport.rs: the ways out of the server, and the choice of one for an extension, which
-- sip/router.rs and sip/message.rs share. A channel is a number, a socket address an opaque text.
use minghe.Prelude.{ℕ, Bool, Option, none, some, list_eq, if◌then◌else◌, codes}
use minghe.Prelude.Dict.{Dict, get}
use minghe.Text.{Text}
use minghe.Registrar.State.{RegistrarService, Registration, Transport, tls, udp}
use minghe.Registrar.Table.{lookup}

pub data ConnectionSink : Type 0 where
  stream : ℕ → ConnectionSink
  datagram : Text → ConnectionSink

abbrev pub transport : ConnectionSink → Transport
transport (stream tx) = tls
transport (datagram peer) = udp

abbrev pub via_token : Transport → Text
via_token tls = codes "TLS"
via_token udp = codes "UDP"

abbrev pub uri_param : Transport → Text
uri_param tls = codes "tls"
uri_param udp = codes "udp"

-- The part of the router and of the message service that finds a way out.
pub record Outlets : Type 0 where
  pub connection_writers : Dict Text ConnectionSink
  pub udp_socket : Bool

abbrev of_registration : Option Registration → Option ConnectionSink
of_registration none = none
of_registration (some reg) = elim reg.transport [
  | tls ↦ none
  | udp ↦ some (datagram reg.transport_addr)
]

abbrev or_datagram : Option ConnectionSink → Option ConnectionSink → Option ConnectionSink
or_datagram (some sink) other = some sink
or_datagram none other = other

-- A connection that is kept comes first, then the address of a registration over UDP.
unfoldable pub get_outbound : ℕ → Text → RegistrarService → Outlets → Option ConnectionSink
get_outbound now extension registrar o =
    or_datagram (get extension o.connection_writers)
      (if o.udp_socket then of_registration (lookup now extension registrar) else none)
