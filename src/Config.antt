-- ===== src/Config.antt =====
-- config.rs: the configuration, the checks on it, and what the start-up in main.rs makes from it. The
-- parsing of TOML and of IP addresses is not under src/: the configuration and the test of an
-- address are arguments.
pub mod Ready
mod Tests
use minghe.Prelude.{
  ℕ, ◌%◌, ◌^◌, Bool, true, false, ◌&&◌, ◌||◌, not, List, [], ◌∷◌, Option, none, some, list_eq,
  if◌then◌else◌, codes, ltb, leb, nat_beq, ◌==◌,
}
use minghe.Prelude.Dict.{Dict, get}
use minghe.Text.{Text, trim, is_empty, parse_uint}
use minghe.Registrar.State.{RegistrarService, IpBlockPolicy}
use minghe.Relay.{MediaRelayManager}

pub record ServerConfig : Type 0 where
  pub listen_addr : Text
  pub sip_port : ℕ
  pub host : Text
  pub insecure_enabled : Bool
  pub insecure_port : ℕ
  pub insecure_extensions : List Text

pub record ExtensionConfig : Type 0 where
  pub range_start : ℕ
  pub range_end : ℕ
  pub default_password : Text

pub record TlsConfig : Type 0 where
  pub cert_path : Text
  pub key_path : Text
  pub tls_min_version : Text

pub record MediaConfig : Type 0 where
  pub rtp_port_start : ℕ
  pub rtp_port_end : ℕ
  pub media_addr : Text

pub record IpBlockConfig : Type 0 where
  pub enabled : Bool
  pub max_failures : ℕ
  pub window_secs : ℕ
  pub max_failed_ips : ℕ
  pub max_blocked_ips : ℕ

-- `IpBlockConfig::default`
abbrev pub default_ip_block : IpBlockConfig
default_ip_block = record {
  enabled = true;
  max_failures = 3;
  window_secs = 600;
  max_failed_ips = 100_000;
  max_blocked_ips = 50_000;
}

pub record AppConfig : Type 0 where
  pub server : ServerConfig
  pub extensions : ExtensionConfig
  pub tls : TlsConfig
  pub media : MediaConfig
  pub ip_block : IpBlockConfig
  pub passwords : Dict Text Text

pub data ConfigError : Type 0 where
  bad_range port_conflict bad_rtp_range odd_rtp_start no_media_addr bad_media_addr : ConfigError
  bad_tls_version zero_limit bad_password_extension bad_insecure_extension : ConfigError

abbrev is_number : Option ℕ → Bool
is_number none = false
is_number (some n) = true

-- The keys of the passwords, or the list of extensions, are numbers.
abbrev pub all_numbers : List Text → Bool
all_numbers [] = true
all_numbers (ext ∷ exts) = is_number (parse_uint (2 ^ 32) ext) && all_numbers exts

abbrev pub keys : Dict Text Text → List Text
keys [] = []
keys ((ext, pwd) ∷ rest) = ext ∷ keys rest

abbrev pub is_tls_version : Text → Bool
is_tls_version v = v == codes "1.0" || (v == codes "1.1" || (v == codes "1.2" || v == codes "1.3"))

abbrev pub has_zero : IpBlockConfig → Bool
has_zero b =
    nat_beq b.max_failures 0
    || (nat_beq b.window_secs 0 || (nat_beq b.max_failed_ips 0 || nat_beq b.max_blocked_ips 0))

-- The checks of `load` behind the parsing, in their order: when one fails, and with which error.
abbrev pub checks : (Text → Bool) → AppConfig → List (Bool × ConfigError)
checks is_ip c =
    (ltb c.extensions.range_end c.extensions.range_start, bad_range)
    ∷ (c.server.insecure_enabled && nat_beq c.server.insecure_port c.server.sip_port, port_conflict)
    ∷ (ltb c.media.rtp_port_end c.media.rtp_port_start, bad_rtp_range)
    ∷ (not (nat_beq (c.media.rtp_port_start % 2) 0), odd_rtp_start)
    ∷ (is_empty (trim c.media.media_addr), no_media_addr)
    ∷ (not (is_ip c.media.media_addr), bad_media_addr)
    ∷ (not (is_tls_version (trim c.tls.tls_min_version)), bad_tls_version)
    ∷ (c.ip_block.enabled && has_zero c.ip_block, zero_limit)
    ∷ (not (all_numbers (keys c.passwords)), bad_password_extension)
    ∷ (
      c.server.insecure_enabled && not (all_numbers c.server.insecure_extensions),
      bad_insecure_extension,
    )
    ∷ []

abbrev pub first_failed : List (Bool × ConfigError) → Option ConfigError
first_failed [] = none
first_failed ((failed, error) ∷ rest) =
    let further = first_failed rest in if failed then some error else further

unfoldable pub check : (Text → Bool) → AppConfig → Option ConfigError
check is_ip c = first_failed (checks is_ip c)

pub is_valid_extension : AppConfig → ℕ → Bool
is_valid_extension c ext = leb c.extensions.range_start ext && leb ext c.extensions.range_end

pub get_password : AppConfig → Text → Text
get_password c extension = elim (get extension c.passwords) [
  | some pwd ↦ pwd
  | none ↦ c.extensions.default_password
]

-- `IpBlockPolicy::from`
abbrev pub policy : IpBlockConfig → IpBlockPolicy
policy b = record {
  enabled = b.enabled;
  max_failures = b.max_failures;
  window_secs = b.window_secs;
  max_failed_ips = b.max_failed_ips;
  max_blocked_ips = b.max_blocked_ips;
}

-- `RegistrarService::new`, as main.rs calls it.
unfoldable pub new_registrar : AppConfig → RegistrarService
new_registrar c = record {
  registrations = [];
  domain = c.server.host;
  default_password = c.extensions.default_password;
  passwords = c.passwords;
  range_start = c.extensions.range_start;
  range_end = c.extensions.range_end;
  ip_block = policy c.ip_block;
  insecure_extensions = c.server.insecure_extensions;
  failed_ips = [];
  blocked_ips = [];
  issued_nonces = [];
}

-- `MediaRelayManager::new`, as main.rs calls it.
unfoldable pub new_media_manager : AppConfig → MediaRelayManager
new_media_manager c = record {
  port_start = c.media.rtp_port_start;
  port_end = c.media.rtp_port_end;
  next_port = c.media.rtp_port_start;
  sessions = [];
  shutdown_senders = [];
}
