-- ===== src/Registrar/Register/Keeps.antt =====
-- A rule for invariants: what the six operations on the state preserve, a REGISTER request does.
use minghe.Prelude.{ℕ, ◌^◌, Bool, true, false, Option, none, some, arith, String}
use minghe.Prelude.{codes, list_eq}
use minghe.Text.{Text, Outcome, panics, returns, parse_uint}
use minghe.Parser.Header.{extract_header_value, extract_contact_uri}
use minghe.Parser.Fields.{extract_expires}
use minghe.Registrar.State.{RegistrarService, Registration}
use minghe.Registrar.Blocking.{record_failure, clear_failures}
use minghe.Registrar.Nonces.{issue, validate_nonce}
use minghe.Registrar.Table.{register, unregister}
use minghe.Registrar.Digest.{DigestParams}
use minghe.Registrar.Register.{
  Call, request_extension, refuse, digest_challenge, store, accept, check_digest, nonce_count,
  check_authorization, parse_some, authorize, check_extension, check_identity, handle_register,
  expires_or_hour,
}

-- A property of the state that each operation preserves.
pub record IsKept (P : RegistrarService → Type 0) : Type 0 where
  pub by_failure :
      (now : ℕ) (ip : Text) (s : RegistrarService) → P s → P (record_failure now ip s).0
  pub by_success : (ip : Text) (s : RegistrarService) → P s → P (clear_failures ip s)
  pub by_issue :
      (now : ℕ) (nonce ip : Text) (s : RegistrarService)
      → P s
      → P (record s { issued_nonces = issue now nonce ip s.issued_nonces })
  pub by_check :
      (now : ℕ) (nonce ip : Text) (nc : Option ℕ) (qop : Option Text) (s : RegistrarService)
      → P s
      → P (record s { issued_nonces = (validate_nonce now nonce ip nc qop s.issued_nonces).0 })
  pub by_register : (reg : Registration) (s : RegistrarService) → P s → P (register reg s)
  pub by_unregister : (extension : Text) (s : RegistrarService) → P s → P (unregister extension s)

module _ (P : RegistrarService → Type 0) (k : IsKept P) (c : Call) (request : Text) where
  keep_refuse :
      (status : ℕ) (reason : String) (s : RegistrarService)
      → P s
      → P (refuse c request status reason s).0
  unfolding refuse
  keep_refuse status reason s h = k.by_failure c.now c.ip s h

  keep_challenge : (s : RegistrarService) → P s → P (digest_challenge c request s).0
  unfolding digest_challenge
  keep_challenge s h = k.by_issue c.now c.nonce c.ip s h

  keep_store :
      (extension : Text) (expires : ℕ) (s : RegistrarService) (o : Outcome (Option Text))
      → P s
      → P (store c request extension expires s o).0
  unfolding store
  keep_store extension expires s panics h = h
  keep_store extension expires s (returns found) h = k.by_register _ s h

  keep_accept : (extension : Text) (s : RegistrarService) → P s → P (accept c request extension s).0
  unfolding accept
  keep_accept extension s h =
      let t = clear_failures c.ip s in
      let cleared = k.by_success c.ip s h in
      let expires = expires_or_hour c request (extract_expires request) in
      ground (
        arith,
        k.by_unregister extension t cleared,
        keep_store extension expires t (extract_contact_uri request) cleared,
      )

  keep_digest :
      (extension : Text) (p : DigestParams) (s : RegistrarService) (good : Bool)
      → P s
      → P (check_digest c request extension p (s, good)).0
  unfolding check_digest
  keep_digest extension p s false h = keep_challenge _ (k.by_failure c.now c.ip s h)
  keep_digest extension p s true h =
      ground (arith, keep_accept extension s h, keep_refuse 403 "Forbidden" s h)

  keep_authorization :
      (extension : Text) (s : RegistrarService) (o : Option DigestParams)
      → P s
      → P (check_authorization c request extension s o).0
  unfolding check_authorization
  keep_authorization extension s none h = keep_challenge s h
  keep_authorization extension s (some p) h =
      let call =
        validate_nonce c.now p.nonce c.ip (nonce_count c request p.nc) p.qop s.issued_nonces in
      let t : RegistrarService = record s { issued_nonces = call.0 } in
      let checked = k.by_check c.now p.nonce c.ip (nonce_count c request p.nc) p.qop s h in
      ground (arith, keep_digest extension p t call.1 checked, keep_refuse 403 "Forbidden" s h)

  keep_extension :
      (extension : Text) (s : RegistrarService) (o : Option ℕ)
      → P s
      → P (check_extension c request extension s o).0
  unfolding check_extension authorize
  keep_extension extension s none h = keep_refuse 403 "Forbidden" s h
  keep_extension extension s (some n) h = ground (
    arith,
    keep_refuse 403 "Forbidden" s h,
    keep_authorization extension s
        (parse_some c request (extract_header_value request (codes "Authorization"))) h,
  )

  keep_identity :
      (s : RegistrarService) (o : Outcome (Option Text)) → P s → P (check_identity c request s o).0
  unfolding check_identity
  keep_identity s panics h = h
  keep_identity s (returns none) h = keep_refuse 400 "Bad Request" s h
  keep_identity s (returns (some extension)) h =
      keep_extension extension s (parse_uint (2 ^ 32) extension) h

  -- The rule.
  pub handle_register-keeps : (s : RegistrarService) → P s → P (handle_register c request s).0
  unfolding handle_register
  handle_register-keeps s h = ground (arith, h, keep_identity s (request_extension request) h)
