-- ===== src/Server/Tests.antt =====
-- Messages at a server, with the router of no calls.
use minghe.Prelude.{
  ◌≡◌, refl, true, false, List, [], ◌∷◌, some, codes, replicate, ◌≢◌, list_eq, arith,
}
use minghe.Text.{Text, Outcome, returns, is_empty, trim}
use minghe.Parser.Header.{is_request, extract_method}
use minghe.Registrar.State.{RegistrarService, udp}
use minghe.Relay.{MediaRelayManager}
use minghe.Srtp.Suite.{salt_len}
use minghe.Srtp.Toy.{toy}
use minghe.Transport.{datagram}
use minghe.Call.{respond}
use minghe.Call.Runs.{new}
use minghe.Message.Request.{handle_message}
use minghe.Message.Request.Outcomes.{Decided, handle_message-Decided}
use minghe.Server.{ServerState}
use minghe.Server.Dispatch.{Surroundings, Incoming, process_sip_message, message_service}
use minghe.Server.Identity.{Identified, process_sip_message-Identified}
use minghe.Server.Datagrams.{Happening, connected, message, run, run-refuses_datagram}

abbrev registrar : RegistrarService
registrar = record {
  registrations = [];
  domain = codes "pbx";
  default_password = codes "secret";
  passwords = [];
  range_start = 1000;
  range_end = 1999;
  ip_block = record {
    enabled = true;
    max_failures = 3;
    window_secs = 60;
    max_failed_ips = 50;
    max_blocked_ips = 50;
  };
  insecure_extensions = codes "1001" ∷ [];
  failed_ips = [];
  blocked_ips = [];
  issued_nonces = [];
}

abbrev pool : MediaRelayManager
pool = record {
  port_start = 20000;
  port_end = 20100;
  next_port = 20000;
  sessions = [];
  shutdown_senders = [];
}

abbrev surroundings : Surroundings
surroundings = record {
  env = record {
    now = 200;
    ip_of = λ addr. codes "10.0.0.1";
    tag = codes "t";
    branch = codes "z9hG4bK1";
    crypto = toy;
    base64 = record { encode = λ bytes. codes "a2V5"; decode = λ text. some (replicate 30 1) };
    addresses = record { parse_ip = λ host. some host; socket_addr = λ ip port. ip };
    draw = λ n suite. (replicate 16 n, replicate (salt_len suite) n);
    delivers = λ sink text. true;
    channel = 7;
  };
  nonce = codes "n";
  md5_hex = λ text. codes "h";
}

abbrev server : ServerState
server = record {
  router = new registrar pool (codes "pbx") (codes "192.0.2.1") true;
  offline = record { offline_messages = []; sender_rates = [] };
  range_start = 1000;
  range_end = 1999;
  connections = [];
  pending_handshakes = 0;
  deliveries = [];
}

abbrev peer : Text
peer = codes "10.0.0.1:5060"

abbrev text_message : Text
text_message = codes "MESSAGE sip:1002@pbx SIP/2.0\r\n\r\nhello"

abbrev incoming : Text → Incoming
incoming text = record { text = text; peer_addr = peer; sink = datagram peer; transport = udp }

process_sip_message-Identified_example :
    let m = incoming (codes "REGISTER sip:pbx SIP/2.0\r\nTo: <sip:1001@pbx>\r\n\r\n") in
    Identified surroundings m server (process_sip_message surroundings m server)
process_sip_message-Identified_example =
    process_sip_message-Identified surroundings
      (incoming (codes "REGISTER sip:pbx SIP/2.0\r\nTo: <sip:1001@pbx>\r\n\r\n")) server

handle_message-Decided_example :
    Decided surroundings.env text_message
      (codes "1001")
      (message_service server)
      (handle_message surroundings.env text_message (codes "1001") (message_service server))
handle_message-Decided_example =
    handle_message-Decided surroundings.env text_message (codes "1001") (message_service server)

not_blank : is_empty (trim text_message) ≡ false
unfolding is_empty trim
not_blank = refl

asks : is_request text_message ≡ true
unfolding is_request minghe.Text.lines minghe.Text.starts_with trim
asks = refl

is_message : extract_method text_message ≡ some (codes "MESSAGE")
unfolding extract_method minghe.Text.lines minghe.Text.starts_with trim minghe.Text.split_whitespace
    minghe.Text.upper
is_message = refl

abbrev happenings : List Happening
happenings =
    message surroundings (incoming (codes "REGISTER sip:pbx SIP/2.0\r\nTo: <sip:1001@pbx>\r\n\r\n"))
    ∷ connected (codes "10.0.0.2:9") 3
    ∷ []

another : codes "10.0.0.2:9" ≢ peer
another e = ground arith

run-refuses_datagram_example :
    process_sip_message surroundings (incoming text_message) (run happenings server) ≡ (
      run happenings server,
      (datagram peer, respond surroundings.env text_message 403 (codes "Forbidden")) ∷ [],
      returns tt,
    )
run-refuses_datagram_example =
    run-refuses_datagram happenings server surroundings (incoming text_message) refl
      (tt, (another, tt)) not_blank asks is_message
