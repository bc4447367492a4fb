-- ===== src/Config/Ready.antt =====
-- What a configuration that passes the checks gives to the parts of the server.
use minghe.Prelude.{◌+◌, ◌<◌, ◌≡◌, refl, Bool, true, false, none, arith, All, List, [], ◌∷◌}
use minghe.Text.{Text}
use minghe.Registrar.Register.Invariants.{IsLimited}
use minghe.Relay.Ports.{IsRange}
use minghe.Config.{
  AppConfig, ConfigError, checks, first_failed, check, new_registrar, new_media_manager,
}

-- None of the checks has failed.
first_failed-none :
    (cs : List (Bool × ConfigError)) → first_failed cs ≡ none → All (λ p. p.0 ≡ false) cs
first_failed-none [] h = tt
first_failed-none ((true, error) ∷ rest) h = absurd (ground arith)
first_failed-none ((false, error) ∷ rest) h = (refl, first_failed-none rest h)

-- If the checks pass and blocking is on, the registrar starts within its limits and with none of
-- them zero; if the media ports end below 65535 and hold two pairs, which the checks do not ask for,
-- the pool starts in the state from which it hands out even ports of the range.
pub check-ready :
    (is_ip : Text → Bool) (c : AppConfig)
    → check is_ip c ≡ none
    → c.ip_block.enabled ≡ true
    → IsLimited (new_registrar c)
      × (0 < c.ip_block.max_failures)
      × (0 < c.ip_block.window_secs)
      × (0 < c.ip_block.max_blocked_ips)
      × (c.media.rtp_port_start + 2 < c.media.rtp_port_end
          → c.media.rtp_port_end < 65535
          → IsRange (new_media_manager c))
unfolding new_registrar new_media_manager check
check-ready is_ip c h on =
    let passed = first_failed-none (checks is_ip c) h in
    let even = passed.1.1.1.0 in
    let limits = passed.1.1.1.1.1.1.1.0 in
    (
      record {
        room = ground (arith, limits);
        tables = record { failed = omega arith; blocked = omega arith };
        nonces = omega arith;
      },
      ground (arith, limits),
      ground (arith, limits),
      ground (arith, limits),
      λ two below. record {
        start_even = ground (arith, even);
        next_even = ground (arith, even);
        two = two;
        below = below;
        from_start = omega arith;
        to_end = omega arith;
      },
    )
