-- ===== src/Registrar/Register/Authenticated.antt =====
-- Who can change a registration: only a request that has passed every check, and only its own.
use minghe.Prelude.{
  ℕ, ◌^◌, ◌≤◌, ◌≡◌, refl, subst, ◌≢◌, ◌∙◌, ap, Bool, true, false, Option, none, some, arith,
  Bool-cases, inl, inr,
}
use minghe.Prelude.{codes, String, ◌==◌, list_eq, list_beq_iff}
use minghe.Prelude.Dict.{Dict, get}
use minghe.Text.{Text, Outcome, panics, returns, parse_uint}
use minghe.Parser.Header.{extract_header_value, extract_contact_uri}
use minghe.Parser.Fields.{extract_expires}
use minghe.Registrar.State.{RegistrarService, NonceEntry, udp}
use minghe.Registrar.Blocking.{is_blocked, record_failure, clear_failures}
use minghe.Registrar.Nonces.{validate_nonce}
use minghe.Registrar.Nonces.Replay.{Passes, validate_nonce_iff}
use minghe.Registrar.Table.Online.{get-register, get-unregister}
use minghe.Registrar.Blocking.Bounds.{record_failure-SameElsewhere, clear_failures-SameElsewhere}
use minghe.Registrar.Digest.{DigestParams, validate_digest}
use minghe.Registrar.Register.{
  Call, is_listed, get_password, request_extension, refuse, digest_challenge, or_default_contact,
  registration, store, accept, check_digest, nonce_count, check_authorization, parse_some,
  authorize, check_extension, check_identity, handle_register, expires_or_hour,
}

-- The request names the extension, which is in the range and, over UDP, in the white list; its
-- credentials name the same extension, carry a nonce that passes, and answer it with the
-- extension's password; the peer is not blocked.
pub record IsAuthenticated (c : Call) (request : Text) (s : RegistrarService) (extension : Text)
    : Type 0 where
  pub params : DigestParams
  pub number : ℕ
  pub not_blocked : is_blocked s c.ip ≡ false
  pub named : request_extension request ≡ returns (some extension)
  pub is_number : parse_uint (2 ^ 32) extension ≡ some number
  pub in_range : (s.range_start ≤ number) × (number ≤ s.range_end)
  pub listed : c.transport ≡ udp → is_listed extension s.insecure_extensions ≡ true
  pub credentials :
      parse_some c request (extract_header_value request (codes "Authorization")) ≡ some params
  pub same_name : params.username ≡ extension
  pub nonce_passes :
      Passes c.now params.nonce c.ip (nonce_count c request params.nc) params.qop s.issued_nonces
  pub answered :
      validate_digest c.md5_hex params (get_password s extension) (codes "REGISTER") ≡ true

module _ (c : Call) (request : Text) (x : Text) where
  store_own :
      (extension : Text) (expires : ℕ) (s : RegistrarService) (o : Outcome (Option Text))
      → get x (store c request extension expires s o).0.registrations ≢ get x s.registrations
      → extension ≡ x
  unfolding store
  store_own extension expires s panics h = absurd (h refl)
  store_own extension expires s (returns found) h =
      let reg =
        registration c request extension expires (or_default_contact c request extension found) in
      ground (arith, get-register reg x s, list_beq_iff extension x)

  accept_own :
      (extension : Text) (s : RegistrarService)
      → get x (accept c request extension s).0.registrations ≢ get x s.registrations
      → extension ≡ x
  unfolding accept
  accept_own extension s h =
      let t = clear_failures c.ip s in
      let same = clear_failures-SameElsewhere c.ip s in
      ground (
        arith,
        get-unregister extension x t,
        list_beq_iff extension x,
        store_own extension (expires_or_hour c request (extract_expires request)) t
            (extract_contact_uri request),
      )

  refuse_none :
      (status : ℕ) (reason : String) (s : RegistrarService)
      → (refuse c request status reason s).0.registrations ≡ s.registrations
  unfolding refuse
  refuse_none status reason s = (record_failure-SameElsewhere c.now c.ip s).registrations

  challenge_none :
      (s : RegistrarService) → (digest_challenge c request s).0.registrations ≡ s.registrations
  unfolding digest_challenge
  challenge_none s = refl

  check_digest_own :
      (extension : Text) (p : DigestParams) (s : RegistrarService) (good : Bool)
      → get x (check_digest c request extension p (s, good)).0.registrations ≢ get x s.registrations
      → (extension ≡ x)
        × (good ≡ true)
        × (validate_digest c.md5_hex p (get_password s extension) (codes "REGISTER") ≡ true)
  unfolding check_digest
  check_digest_own extension p s false h =
      let failed = (record_failure c.now c.ip s).0 in
      absurd (
        h (
          ap (get x)
            (challenge_none failed ∙ (record_failure-SameElsewhere c.now c.ip s).registrations)))
  check_digest_own extension p s true h =
      elim (Bool-cases
        (validate_digest c.md5_hex p (get_password s extension) (codes "REGISTER"))) [
          | inl good ↦ (accept_own extension s (λ e. h (ground arith)), refl, good)
          | inr bad ↦ absurd (h (ground (arith, refuse_none 403 "Forbidden" s)))
        ]

  get_password-nonces :
      (s : RegistrarService) (nonces : Dict Text NonceEntry) (extension : Text)
      → get_password (record s { issued_nonces = nonces }) extension ≡ get_password s extension
  unfolding get_password
  get_password-nonces s nonces extension = refl

  -- What the checks of the credentials have established.
  record Answered (extension : Text) (s : RegistrarService) (o : Option DigestParams) : Type 0 where
    own : extension ≡ x
    params : DigestParams
    credentials : o ≡ some params
    same_name : params.username ≡ extension
    nonce_passes :
        Passes c.now params.nonce c.ip (nonce_count c request params.nc) params.qop s.issued_nonces
    answered : validate_digest c.md5_hex params (get_password s extension) (codes "REGISTER") ≡ true

  check_authorization_own :
      (extension : Text) (s : RegistrarService) (o : Option DigestParams)
      → get x (check_authorization c request extension s o).0.registrations ≢ get x s.registrations
      → Answered extension s o
  unfolding check_authorization
  check_authorization_own extension s none h = absurd (h (ap (get x) (challenge_none s)))
  check_authorization_own extension s (some p) h = elim (Bool-cases (p.username == extension)) [
    | inr other ↦ absurd (h (ground (arith, refuse_none 403 "Forbidden" s)))
    | inl same ↦
        let call =
          validate_nonce c.now p.nonce c.ip (nonce_count c request p.nc) p.qop s.issued_nonces in
        let t : RegistrarService = record s { issued_nonces = call.0 } in
        let r = check_digest_own extension p t call.1 (λ e. h (ground arith)) in
        record {
          own = r.0;
          params = p;
          credentials = refl;
          same_name = (list_beq_iff p.username extension).0 same;
          nonce_passes =
              (validate_nonce_iff c.now p.nonce c.ip (nonce_count c request p.nc) p.qop
                  s.issued_nonces).0
                r.1;
          answered = rw (get_password-nonces s call.0 extension) at r.2;
        }
  ]

  authorize_own :
      (extension : Text) (s : RegistrarService)
      → get x (authorize c request extension s).0.registrations ≢ get x s.registrations
      → get x
          (check_authorization c request extension s (
            parse_some c request
              (extract_header_value request (codes "Authorization")))).0.registrations
        ≢ get x s.registrations
  unfolding authorize
  authorize_own extension s h = h

  -- What the checks of the extension have established beside that.
  record Admitted (extension : Text) (s : RegistrarService) (o : Option ℕ) : Type 0 where
    number : ℕ
    is_number : o ≡ some number
    in_range : (s.range_start ≤ number) × (number ≤ s.range_end)
    listed : c.transport ≡ udp → is_listed extension s.insecure_extensions ≡ true
    rest :
        Answered extension s
          (parse_some c request (extract_header_value request (codes "Authorization")))

  check_extension_own :
      (extension : Text) (s : RegistrarService) (o : Option ℕ)
      → get x (check_extension c request extension s o).0.registrations ≢ get x s.registrations
      → Admitted extension s o
  unfolding check_extension
  check_extension_own extension s none h = absurd (h (ap (get x) (refuse_none 403 "Forbidden" s)))
  check_extension_own extension s (some n) h =
      let same = refuse_none 403 "Forbidden" s in
      record {
        number = n;
        is_number = refl;
        in_range = (ground arith, ground arith);
        listed = λ u. ground arith;
        rest =
            check_authorization_own extension s _
              (authorize_own extension s (λ e. h (ground arith)));
      }

  check_identity_own :
      (s : RegistrarService) (o : Outcome (Option Text))
      → get x (check_identity c request s o).0.registrations ≢ get x s.registrations
      → (extension : Text) × (o ≡ returns (some extension))
        × Admitted extension s (parse_uint (2 ^ 32) extension)
  unfolding check_identity
  check_identity_own s panics h = absurd (h refl)
  check_identity_own s (returns none) h = absurd (h (ap (get x) (refuse_none 400 "Bad Request" s)))
  check_identity_own s (returns (some extension)) h =
      (extension, refl, check_extension_own extension s (parse_uint (2 ^ 32) extension) h)

-- A REGISTER request changes the registration of an extension only if the request is authenticated
-- for that very extension: the peer is not blocked, the extension is the one that the request names,
-- in range and allowed on the transport, and the credentials are those of this extension, with a
-- nonce that passes.
pub handle_register-IsAuthenticated :
    (c : Call) (request : Text) (s : RegistrarService) (x : Text)
    → get x (handle_register c request s).0.registrations ≢ get x s.registrations
    → IsAuthenticated c request s x
unfolding handle_register
handle_register-IsAuthenticated c request s x h = elim (Bool-cases (is_blocked s c.ip)) [
  | inl blocked ↦ absurd (h (ground arith))
  | inr free ↦
      let (extension, named, a) =
        check_identity_own c request x s (request_extension request) (λ e. h (ground arith)) in
      subst (IsAuthenticated c request s) a.rest.own (record {
        params = a.rest.params;
        number = a.number;
        not_blocked = free;
        named = named;
        is_number = a.is_number;
        in_range = a.in_range;
        listed = a.listed;
        credentials = a.rest.credentials;
        same_name = a.rest.same_name;
        nonce_passes = a.rest.nonce_passes;
        answered = a.rest.answered;
      })
]
