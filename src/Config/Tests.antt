-- ===== src/Config/Tests.antt =====
-- A configuration that passes the checks.
use minghe.Prelude.{◌+◌, ◌<◌, ◌≡◌, refl, true, false, [], none, codes}
use minghe.Registrar.Register.Invariants.{IsLimited}
use minghe.Relay.Ports.{IsRange}
use minghe.Config.{AppConfig, default_ip_block, check, new_registrar, new_media_manager}
use minghe.Config.Ready.{check-ready}

abbrev config : AppConfig
config = record {
  server = record {
    listen_addr = codes "0.0.0.0";
    sip_port = 5061;
    host = codes "pbx";
    insecure_enabled = false;
    insecure_port = 5060;
    insecure_extensions = [];
  };
  extensions = record { range_start = 1000; range_end = 1999; default_password = codes "secret" };
  tls = record { cert_path = []; key_path = []; tls_min_version = codes "1.2" };
  media = record { rtp_port_start = 20000; rtp_port_end = 30000; media_addr = codes "192.0.2.1" };
  ip_block = default_ip_block;
  passwords = [];
}

checked : check (λ addr. true) config ≡ none
unfolding check minghe.Text.is_empty minghe.Text.trim
checked = refl

check-ready_example :
    IsLimited (new_registrar config)
    × (0 < 3)
    × (0 < 600)
    × (0 < 50_000)
    × (20_000 + 2 < 30_000 → 30_000 < 65535 → IsRange (new_media_manager config))
check-ready_example = check-ready (λ addr. true) config checked refl
