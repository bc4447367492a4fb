-- ===== src/Registrar/Nonces.antt =====
-- sip/registrar.rs: the nonces that the server has issued. The random text of `generate_nonce` and
-- the clock are arguments.
pub mod Replay
use minghe.Prelude.{
  ℕ, ◌+◌, ◌-◌, Bool, true, false, Option, none, some, [], ltb, leb, if◌then◌else◌, list_eq, ◌==◌,
  length, codes,
}
use minghe.Prelude.Dict.{Dict, get, insert, remove, retain_values}
use minghe.Text.{Text}
use minghe.Registrar.State.{RegistrarService, NonceEntry, nonce_ttl_secs, max_issued_nonces}

-- `now.saturating_sub(e.issued_at) < NONCE_TTL_SECS`
abbrev pub alive : ℕ → NonceEntry → Bool
alive now e = ltb (now - e.issued_at) nonce_ttl_secs

pub make_room : ℕ → Dict Text NonceEntry → Dict Text NonceEntry
make_room now nonces =
    if leb max_issued_nonces (length nonces)
    then (let kept = retain_values (alive now) nonces in
        if leb max_issued_nonces (length kept) then [] else kept)
    else nonces

-- The part of `digest_challenge` that changes the state.
unfoldable pub issue : ℕ → Text → Text → Dict Text NonceEntry → Dict Text NonceEntry
unfolding make_room
issue now nonce ip nonces =
    insert nonce (record { issued_at = now; ip = ip; max_nc = 0 }) (make_room now nonces)

abbrev or_zero : Option ℕ → ℕ
or_zero none = 0
or_zero (some n) = n

is_auth : Option Text → Bool
is_auth none = false
is_auth (some qop) = qop == codes "auth"

check_count :
    Text → Option ℕ → Option Text → NonceEntry → Dict Text NonceEntry → Dict Text NonceEntry × Bool
check_count nonce nc qop entry nonces =
    if is_auth qop
    then (if leb (or_zero nc) entry.max_nc
        then (nonces, false)
        else (insert nonce (record entry { max_nc = or_zero nc }) nonces, true))
    else (nonces, true)

check_entry :
    ℕ
    → Text
    → Text
    → Option ℕ
    → Option Text
    → Dict Text NonceEntry
    → Option NonceEntry
    → Dict Text NonceEntry × Bool
unfolding check_count is_auth
check_entry now nonce ip nc qop nonces none = (nonces, false)
check_entry now nonce ip nc qop nonces (some entry) =
    if entry.ip == ip
    then (if leb nonce_ttl_secs (now - entry.issued_at)
        then (remove nonce nonces, false)
        else check_count nonce nc qop entry nonces)
    else (nonces, false)

-- The table after the call, and whether the nonce is good.
unfoldable pub validate_nonce :
    ℕ → Text → Text → Option ℕ → Option Text → Dict Text NonceEntry → Dict Text NonceEntry × Bool
unfolding check_entry
validate_nonce now nonce ip nc qop nonces =
    check_entry now nonce ip nc qop nonces (get nonce nonces)
