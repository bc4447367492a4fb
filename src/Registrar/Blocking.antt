-- ===== src/Registrar/Blocking.antt =====
-- sip/registrar.rs: counting the failures of an IP and blocking it. The clock is an argument.
pub mod Bounds
pub mod Threshold
use minghe.Prelude.{
  ℕ, ◌+◌, ◌-◌, Bool, true, false, Option, none, some, [], ltb, leb, if◌then◌else◌, list_eq, length,
}
use minghe.Prelude.Dict.{Dict, get, insert, remove, retain_values}
use minghe.Text.{Text}
use minghe.Registrar.State.{RegistrarService, FailedIpEntry, IpBlockPolicy}

abbrev pub is_some {ℓ} : {A : Type ℓ} → Option A → Bool
is_some none = false
is_some (some a) = true

unfoldable pub is_blocked : RegistrarService → Text → Bool
is_blocked s ip = if s.ip_block.enabled then is_some (get ip s.blocked_ips) else false

-- `now.saturating_sub(e.window_start) < window_secs`
abbrev pub in_window : ℕ → ℕ → FailedIpEntry → Bool
in_window window_secs now e = ltb (now - e.window_start) window_secs

-- A full table loses its old entries, and all of them if that does not help.
make_room : ℕ → ℕ → ℕ → Dict Text FailedIpEntry → Dict Text FailedIpEntry
make_room limit window_secs now failed =
    if leb limit (length failed)
    then (let kept = retain_values (in_window window_secs now) failed in
        if leb limit (length kept) then [] else kept)
    else failed

-- `entry(ip).or_insert(…)`, the reset of an old window, and `count += 1`.
abbrev counted : ℕ → ℕ → Option FailedIpEntry → FailedIpEntry
counted window_secs now none = record { count = 1; window_start = now }
counted window_secs now (some e) =
    if leb window_secs (now - e.window_start)
    then record { count = 1; window_start = now }
    else record { count = e.count + 1; window_start = e.window_start }

abbrev block : Text → RegistrarService → RegistrarService × Bool
block ip s =
    if leb s.ip_block.max_blocked_ips (length s.blocked_ips)
    then (s, false)
    else (record s { blocked_ips = insert ip tt s.blocked_ips }, true)

-- The state after the call, and whether it has blocked the IP.
unfoldable pub record_failure : ℕ → Text → RegistrarService → RegistrarService × Bool
unfolding make_room
record_failure now ip s =
    let policy = s.ip_block in
    let failed = make_room policy.max_failed_ips policy.window_secs now s.failed_ips in
    let entry = counted policy.window_secs now (get ip failed) in
    let noted = insert ip entry failed in
    if policy.enabled
    then (if ltb entry.count policy.max_failures
        then (record s { failed_ips = noted }, false)
        else block ip (record s { failed_ips = remove ip noted }))
    else (s, false)

unfoldable pub clear_failures : Text → RegistrarService → RegistrarService
clear_failures ip s = record s { failed_ips = remove ip s.failed_ips }
