-- ===== src/Registrar/Blocking/Bounds.antt =====
-- The two tables stay within their limits, and a block is for good.
use minghe.Prelude.{ℕ, ◌≤◌, ◌<◌, ◌≡◌, true, arith, length, list_eq, list_beq_iff}
use minghe.Prelude.Dict.{Dict, get, insert, length-insert-le, length-remove-le, get-insert}
use minghe.Text.{Text}
use minghe.Registrar.State.{RegistrarService, FailedIpEntry}
use minghe.Registrar.Blocking.{make_room, counted, is_blocked, record_failure, clear_failures}

-- Neither table is over its limit.
pub record InBounds (s : RegistrarService) : Type 0 where
  pub failed : length s.failed_ips ≤ s.ip_block.max_failed_ips
  pub blocked : length s.blocked_ips ≤ s.ip_block.max_blocked_ips

make_room-lt :
    (limit window now : ℕ) (failed : Dict Text FailedIpEntry)
    → 0 < limit
    → length (make_room limit window now failed) < limit
unfolding make_room
make_room-lt limit window now failed h = ground arith

-- A failure keeps both tables within their limits, if the first limit is not 0.
pub record_failure-InBounds :
    (now : ℕ) (ip : Text) (s : RegistrarService)
    → 0 < s.ip_block.max_failed_ips
    → InBounds s
    → InBounds (record_failure now ip s).0
unfolding record_failure
record_failure-InBounds now ip s room b =
    let failed = make_room s.ip_block.max_failed_ips s.ip_block.window_secs now s.failed_ips in
    let entry = counted s.ip_block.window_secs now (get ip failed) in
    ground (
      arith,
      make_room-lt s.ip_block.max_failed_ips s.ip_block.window_secs now s.failed_ips room,
      length-insert-le ip entry failed,
      length-remove-le ip (insert ip entry failed),
      length-insert-le ip tt s.blocked_ips,
    )

pub clear_failures-InBounds :
    (ip : Text) (s : RegistrarService) → InBounds s → InBounds (clear_failures ip s)
unfolding clear_failures
clear_failures-InBounds ip s b = ground (arith, length-remove-le ip s.failed_ips)

-- A call that reports a block has blocked the IP.
pub record_failure-is_blocked :
    (now : ℕ) (ip : Text) (s : RegistrarService)
    → (record_failure now ip s).1 ≡ true
    → is_blocked (record_failure now ip s).0 ip ≡ true
unfolding record_failure is_blocked
record_failure-is_blocked now ip s h =
    ground (arith, get-insert ip ip tt s.blocked_ips, list_beq_iff ip ip)

-- No failure, of this or another IP, and no success unblocks an IP.
pub is_blocked-record_failure :
    (now : ℕ) (ip other : Text) (s : RegistrarService)
    → is_blocked s ip ≡ true
    → (is_blocked (record_failure now other s).0 ip ≡ true)
      × (is_blocked (clear_failures other s) ip ≡ true)
unfolding record_failure is_blocked clear_failures
is_blocked-record_failure now ip other s h = ground (arith, get-insert other ip tt s.blocked_ips)

-- Failures and their clearing touch nothing but the two tables.
pub record SameElsewhere (s t : RegistrarService) : Type 0 where
  pub registrations : t.registrations ≡ s.registrations
  pub passwords : t.passwords ≡ s.passwords
  pub default_password : t.default_password ≡ s.default_password
  pub ip_block : t.ip_block ≡ s.ip_block
  pub issued_nonces : t.issued_nonces ≡ s.issued_nonces

pub record_failure-SameElsewhere :
    (now : ℕ) (ip : Text) (s : RegistrarService) → SameElsewhere s (record_failure now ip s).0
unfolding record_failure
record_failure-SameElsewhere now ip s = ground arith

pub clear_failures-SameElsewhere :
    (ip : Text) (s : RegistrarService) → SameElsewhere s (clear_failures ip s)
unfolding clear_failures
clear_failures-SameElsewhere ip s = ground arith
