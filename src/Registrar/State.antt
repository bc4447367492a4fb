-- ===== src/Registrar/State.antt =====
-- sip/registrar.rs: the state of the registrar. Every map is behind a lock in the source, and each
-- operation holds the lock that it needs, so an operation is one step on this record. Texts that
-- name an address or an IP are opaque.
use minghe.Prelude.{ℕ, Bool, List}
use minghe.Prelude.Dict.{Dict}
use minghe.Text.{Text}

-- sip/transport.rs
pub data Transport : Type 0 where
  tls udp : Transport

pub record Registration : Type 0 where
  pub extension : Text
  pub contact : Text
  pub expires_at : ℕ
  pub transport_addr : Text
  pub transport : Transport

pub record FailedIpEntry : Type 0 where
  pub count : ℕ
  pub window_start : ℕ

pub record NonceEntry : Type 0 where
  pub issued_at : ℕ
  pub ip : Text
  pub max_nc : ℕ

pub record IpBlockPolicy : Type 0 where
  pub enabled : Bool
  pub max_failures : ℕ
  pub window_secs : ℕ
  pub max_failed_ips : ℕ
  pub max_blocked_ips : ℕ

abbrev pub nonce_ttl_secs : ℕ
nonce_ttl_secs = 300

abbrev pub max_issued_nonces : ℕ
max_issued_nonces = 100_000

-- The `HashSet` of blocked addresses is a map to nothing.
pub record RegistrarService : Type 0 where
  pub registrations : Dict Text Registration
  pub domain : Text
  pub default_password : Text
  pub passwords : Dict Text Text
  pub range_start : ℕ
  pub range_end : ℕ
  pub ip_block : IpBlockPolicy
  pub insecure_extensions : List Text
  pub failed_ips : Dict Text FailedIpEntry
  pub blocked_ips : Dict Text (Unit {0})
  pub issued_nonces : Dict Text NonceEntry
