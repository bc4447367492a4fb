-- ===== src/Registrar/Register/Tests.antt =====
-- Runs of the registrar, and the theorems at concrete requests.
use minghe.Prelude.{
  ℕ, ap, true, false, Bool, ◌+◌, ◌-◌, ◌^◌, ◌≤◌, ◌<◌, ◌≡◌, ◌≢◌, ◌↔◌, refl, List, [], ◌∷◌, ◌++◌,
  Option, none, some, arith, length, codes, list_eq, ltb, ◌||◌, if◌then◌else◌,
}
use minghe.Prelude.Dict.{Dict, Distinct, get, insert}
use minghe.Text.{Text, returns}
use minghe.Registrar.State.{RegistrarService, Registration, NonceEntry, tls}
use minghe.Registrar.Blocking.{is_blocked, record_failure}
use minghe.Registrar.Blocking.Threshold.{failures, failures_threshold}
use minghe.Registrar.Nonces.{validate_nonce, issue}
use minghe.Registrar.Nonces.Replay.{Passes, Step, Steps, no_replay, validate_nonce_iff}
use minghe.Parser.Response.{decimal, build_response_with_headers}
use minghe.Registrar.Table.{register, unregister, lookup}
use minghe.Registrar.Register.{Call, handle_register, store, registration, or_default_contact}
use minghe.Registrar.Register.Authenticated.{IsAuthenticated, handle_register-IsAuthenticated}
use minghe.Registrar.Register.Invariants.{IsLimited, handle_register-IsLimited}
use minghe.Registrar.Register.Wrap.{store-wraps}

abbrev peer : Text
peer = codes "10.0.0.1"

abbrev alice : Text
alice = codes "1001"

abbrev nonce : Text
nonce = codes "n1"

abbrev issued : Dict Text NonceEntry
issued = (nonce, record { issued_at = 100; ip = peer; max_nc = 0 }) ∷ []

abbrev server : RegistrarService
server = record {
  registrations = [];
  domain = codes "pbx";
  default_password = codes "secret";
  passwords = [];
  range_start = 1000;
  range_end = 1999;
  ip_block = record {
    enabled = true;
    max_failures = 3;
    window_secs = 60;
    max_failed_ips = 50;
    max_blocked_ips = 50;
  };
  insecure_extensions = [];
  failed_ips = [];
  blocked_ips = [];
  issued_nonces = issued;
}

-- The hash is a constant, so that the response `h` answers every challenge.
abbrev call : Call
call = record {
  now = 200;
  ip = peer;
  from_addr = codes "10.0.0.1:5060";
  transport = tls;
  nonce = codes "n2";
  tag = codes "t";
  md5_hex = λ text. codes "h";
}

abbrev request : Text
request =
    codes "REGISTER sip:pbx SIP/2.0\r\nTo: <sip:1001@pbx>\r\nContact: <sip:1001@10.0.0.1>\r\n"
    ++ codes "Authorization: Digest username=\"1001\", nonce=\"n1\", uri=\"sip:pbx\", "
    ++ codes "response=\"h\", qop=auth, nc=00000001, cnonce=\"c\"\r\n\r\n"

abbrev is_online : Option Registration → Bool
is_online none = false
is_online (some reg) = true

registers : is_online (get alice (handle_register call request server).0.registrations) ≡ true
unfolding handle_register get is_blocked minghe.Registrar.Register.check_identity
    minghe.Registrar.Register.request_extension minghe.Parser.Fields.extract_uri_from_header
    minghe.Parser.Header.for_lines minghe.Text.lines minghe.Text.starts_with minghe.Text.trim
    minghe.Text.lower minghe.Parser.Header.between_brackets minghe.Text.find
    minghe.Parser.Header.extract_extension minghe.Text.take_until
    minghe.Registrar.Register.check_extension minghe.Text.parse_uint
    minghe.Registrar.Register.authorize minghe.Parser.Header.extract_header_value
    minghe.Parser.Fields.extract_expires minghe.Parser.Header.extract_contact_uri insert
    minghe.Prelude.Dict.remove minghe.Registrar.Digest.parse_authorization
    minghe.Registrar.Digest.split_digest_params minghe.Registrar.Digest.validate_digest
    minghe.Registrar.Digest.expected_response minghe.Registrar.Register.accept
    minghe.Registrar.Register.check_authorization minghe.Registrar.Register.check_digest
    minghe.Registrar.Register.get_password or_default_contact registration store register unregister
    minghe.Text.find_map minghe.Text.is_digit minghe.Text.is_empty minghe.Text.is_whitespace
    minghe.Text.parse_hex minghe.Text.trim_start minghe.Registrar.Nonces.validate_nonce
    minghe.Registrar.Blocking.clear_failures
registers = refl

changes :
    get alice (handle_register call request server).0.registrations ≢ get alice server.registrations
unfolding get
changes e = ground (arith, registers, ap is_online e)

handle_register-IsAuthenticated_example : IsAuthenticated call request server alice
handle_register-IsAuthenticated_example =
    handle_register-IsAuthenticated call request server alice changes

server-IsLimited : IsLimited server
server-IsLimited = record {
  room = omega arith;
  tables = record { failed = omega arith; blocked = omega arith };
  nonces = omega arith;
}

handle_register-IsLimited_example : IsLimited (handle_register call request server).0
handle_register-IsLimited_example = handle_register-IsLimited call request server server-IsLimited

abbrev blocking : RegistrarService
blocking = record server { blocked_ips = (peer, tt) ∷ [] }

peer_blocked : is_blocked blocking peer ≡ true
unfolding is_blocked get
peer_blocked = refl

store-wraps_example :
    let contact = or_default_contact call request alice none in
    let (t, answer) = store call request alice (2 ^ 64 - 1) server (returns none) in
    (get alice t.registrations ≡ some (registration call request alice (2 ^ 64 - 1) contact))
    × (answer
        ≡ returns (
            build_response_with_headers call.tag request 200 (codes "OK") (
              (codes "Contact", codes "<" ++ contact ++ codes ">;expires=" ++ decimal (2 ^ 64 - 1))
              ∷ (codes "Expires", decimal (2 ^ 64 - 1))
              ∷ [])))
    × (lookup 200 alice t ≡ none)
store-wraps_example =
    store-wraps call request alice (2 ^ 64 - 1) server none (omega arith) (omega arith)
      (omega arith)

failures_threshold_example :
    let t = failures peer (200 ∷ 210 ∷ []) server in
    (t.blocked_ips ≡ [])
    × ((record_failure 259 peer t).1 ≡ ltb (259 - 200) 60)
    × (is_blocked (record_failure 259 peer t).0 peer
        ≡ (is_blocked server peer || ltb (259 - 200) 60))
unfolding get
failures_threshold_example =
    failures_threshold peer server refl 200 (210 ∷ []) 259 refl (omega arith) (omega arith)
      (omega arith, tt) refl

abbrev failing : RegistrarService
failing = record server { failed_ips = (peer, record { count = 2; window_start = 100 }) ∷ [] }

abbrev auth : Option Text
auth = some (codes "auth")

accepted : (validate_nonce 200 nonce peer (some 1) auth issued).1 ≡ true
unfolding validate_nonce get insert
accepted = refl

issued-Distinct : Distinct issued
unfolding get
issued-Distinct = (refl, tt)

no_replay_example :
    (validate_nonce 201 nonce peer
      (some 1)
      auth
      (issue 200 (codes "n2") peer (validate_nonce 200 nonce peer (some 1) auth issued).0)).1
    ≡ false
no_replay_example =
    no_replay 200 201 nonce peer peer (some 1) (some 1) issued
      (issue 200 (codes "n2") peer (validate_nonce 200 nonce peer (some 1) auth issued).0)
      issued-Distinct accepted (Steps.next Steps.here (Step.issues 200 (codes "n2") peer refl))
      (omega arith)

validate_nonce_iff_example :
    ((validate_nonce 200 nonce peer (some 1) auth issued).1 ≡ true)
    ↔ Passes 200 nonce peer (some 1) auth issued
validate_nonce_iff_example = validate_nonce_iff 200 nonce peer (some 1) auth issued

abbrev registered : Registration
registered = record {
  extension = alice;
  contact = codes "sip:1001@10.0.0.1";
  expires_at = 300;
  transport_addr = codes "10.0.0.1:5060";
  transport = tls;
}

abbrev online : RegistrarService
online = record server { registrations = (alice, registered) ∷ [] }
