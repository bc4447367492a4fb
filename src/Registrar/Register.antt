-- ===== src/Registrar/Register.antt =====
-- sip/registrar.rs, `handle_register`: the whole path of a REGISTER request. A step returns the
-- state that it leaves and the response, or the panic that ends the thread.
pub mod Authenticated
pub mod Keeps
pub mod Invariants
pub mod Wrap
mod Tests
use minghe.Prelude.{
  ℕ, ◌+◌, ◌%◌, ◌^◌, Bool, true, false, ◌&&◌, ◌||◌, not, List, [], ◌∷◌, ◌++◌, Option, none, some,
}
use minghe.Prelude.{ltb, nat_beq, if◌then◌else◌, codes, String, ◌==◌, list_eq}
use minghe.Prelude.Dict.{get}
use minghe.Text.{Text, Outcome, panics, returns, parse_uint, parse_hex}
use minghe.Parser.Header.{extract_extension, extract_contact_uri, extract_header_value, ◌>>=◌}
use minghe.Parser.Fields.{extract_uri_from_header, extract_expires}
use minghe.Parser.Response.{build_response, build_response_with_headers, decimal}
use minghe.Registrar.State.{RegistrarService, Registration, Transport, tls, udp}
use minghe.Registrar.Blocking.{is_blocked, record_failure, clear_failures}
use minghe.Registrar.Nonces.{issue, validate_nonce}
use minghe.Registrar.Table.{register, unregister}
use minghe.Registrar.Digest.{DigestParams, parse_authorization, validate_digest}

-- What a call gets from outside: the clock, the peer, the random texts of this call (`nonce`,
-- `tag`), and the hash function of the crate `md5`.
pub record Call : Type 0 where
  pub now : ℕ
  pub ip : Text
  pub from_addr : Text
  pub transport : Transport
  pub nonce : Text
  pub tag : Text
  pub md5_hex : Text → Text

abbrev pub Answer : Type 0
Answer = RegistrarService × Outcome Text

pub get_password : RegistrarService → Text → Text
get_password s extension = elim (get extension s.passwords) [
  | some pwd ↦ pwd
  | none ↦ s.default_password
]

pub is_listed : Text → List Text → Bool
is_listed extension [] = false
is_listed extension (e ∷ rest) = e == extension || is_listed extension rest

is_udp : Transport → Bool
is_udp tls = false
is_udp udp = true

-- The user part of the To URI; of the From URI if there is no To.
pub request_extension : Text → Outcome (Option Text)
request_extension request = extract_uri_from_header request (codes "To") >>= λ to. elim to [
  | some uri ↦ extract_extension uri
  | none ↦ extract_uri_from_header request (codes "From") >>= λ from. elim from [
    | some uri ↦ extract_extension uri
    | none ↦ returns none
  ]
]

module _ (c : Call) (request : Text) where
  -- A refusal that counts as a failure of the IP.
  refuse : ℕ → String → RegistrarService → Answer
  refuse status reason s = (
    (record_failure c.now c.ip s).0,
    returns (build_response c.tag request status (codes reason)),
  )

  -- `digest_challenge`: a new nonce goes into the table and into the response.
  digest_challenge : RegistrarService → Answer
  digest_challenge s =
      let www_auth =
        codes "Digest realm=\""
        ++ s.domain
        ++ codes "\", nonce=\""
        ++ c.nonce
        ++ codes "\", algorithm=MD5, qop=\"auth\"" in
      (
        record s { issued_nonces = issue c.now c.nonce c.ip s.issued_nonces },
        returns (
            build_response_with_headers c.tag request 401 (codes "Unauthorized")
              ((codes "WWW-Authenticate", www_auth) ∷ [])),
      )

  pub or_default_contact : Text → Option Text → Text
  or_default_contact extension none = codes "sip:" ++ extension ++ codes "@" ++ c.from_addr
  or_default_contact extension (some contact) = contact

  -- `now + expires` on u64, which wraps in a release build.
  pub registration : Text → ℕ → Text → Registration
  registration extension expires contact = record {
    extension = extension;
    contact = contact;
    expires_at = (c.now + expires) % 2 ^ 64;
    transport_addr = c.from_addr;
    transport = c.transport;
  }

  pub store : Text → ℕ → RegistrarService → Outcome (Option Text) → Answer
  unfolding or_default_contact registration
  store extension expires s panics = (s, panics)
  store extension expires s (returns found) =
      let contact = or_default_contact extension found in
      (
        register (registration extension expires contact) s,
        returns (
            build_response_with_headers c.tag request 200 (codes "OK") (
              (codes "Contact", codes "<" ++ contact ++ codes ">;expires=" ++ decimal expires)
              ∷ (codes "Expires", decimal expires)
              ∷ [])),
      )

  abbrev expires_or_hour : Option ℕ → ℕ
  expires_or_hour none = 3600
  expires_or_hour (some n) = n

  -- After a successful authentication.
  accept : Text → RegistrarService → Answer
  unfolding store
  accept extension s =
      let t = clear_failures c.ip s in
      let expires = expires_or_hour (extract_expires request) in
      if nat_beq expires 0
      then (
        unregister extension t,
        returns (
            build_response_with_headers c.tag request 200 (codes "OK")
              ((codes "Expires", codes "0") ∷ [])),
      )
      else store extension expires t (extract_contact_uri request)

  abbrev nonce_count : Option Text → Option ℕ
  nonce_count none = none
  nonce_count (some nc) = parse_hex (2 ^ 64) nc

  check_digest : Text → DigestParams → RegistrarService × Bool → Answer
  check_digest extension p (s, false) = digest_challenge (record_failure c.now c.ip s).0
  check_digest extension p (s, true) =
      if validate_digest c.md5_hex p (get_password s extension) (codes "REGISTER")
      then accept extension s
      else refuse 403 "Forbidden" s

  -- The nonce table of the state after `validate_nonce`.
  abbrev nonce_checked : DigestParams → RegistrarService → RegistrarService × Bool
  nonce_checked p s =
      let (nonces, good) =
        validate_nonce c.now p.nonce c.ip (nonce_count p.nc) p.qop s.issued_nonces in
      (record s { issued_nonces = nonces }, good)

  check_authorization : Text → RegistrarService → Option DigestParams → Answer
  check_authorization extension s none = digest_challenge s
  check_authorization extension s (some p) =
      if p.username == extension
      then check_digest extension p (nonce_checked p s)
      else refuse 403 "Forbidden" s

  abbrev parse_some : Option Text → Option DigestParams
  parse_some none = none
  parse_some (some value) = parse_authorization value

  -- No header, and a header that cannot be parsed, both lead to a challenge.
  authorize : Text → RegistrarService → Answer
  authorize extension s =
      check_authorization extension s
        (parse_some (extract_header_value request (codes "Authorization")))

  check_extension : Text → RegistrarService → Option ℕ → Answer
  unfolding is_udp
  check_extension extension s none = refuse 403 "Forbidden" s
  check_extension extension s (some ext_num) =
      if ltb ext_num s.range_start || ltb s.range_end ext_num
      then refuse 403 "Forbidden" s
      else if is_udp c.transport && not (is_listed extension s.insecure_extensions)
      then refuse 403 "Forbidden" s
      else authorize extension s

  check_identity : RegistrarService → Outcome (Option Text) → Answer
  check_identity s panics = (s, panics)
  check_identity s (returns none) = refuse 400 "Bad Request" s
  check_identity s (returns (some extension)) =
      check_extension extension s (parse_uint (2 ^ 32) extension)

  pub handle_register : RegistrarService → Answer
  handle_register s =
      if is_blocked s c.ip
      then (s, returns (build_response c.tag request 403 (codes "Forbidden")))
      else check_identity s (request_extension request)
