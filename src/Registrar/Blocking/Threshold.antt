-- ===== src/Registrar/Blocking/Threshold.antt =====
-- When the failures of one IP add up to a block.
use minghe.Prelude.{
  ℕ, ◌+◌, ◌-◌, ◌≤◌, ◌<◌, ◌≡◌, subst, ◌||◌, true, false, none, some, List, [], ◌∷◌, arith, length,
  All, ltb, list_eq, list_beq_iff,
}
use minghe.Prelude.Dict.{Dict, get, insert, get-insert, length-insert-le, length-insert_present}
use minghe.Text.{Text}
use minghe.Registrar.State.{RegistrarService, FailedIpEntry}
use minghe.Registrar.Blocking.{make_room, is_blocked, record_failure}

-- Failures of one IP at the given times.
pub failures : Text → List ℕ → RegistrarService → RegistrarService
failures ip [] s = s
failures ip (t ∷ ts) s = failures ip ts (record_failure t ip s).0

make_room_id :
    (limit window now : ℕ) (failed : Dict Text FailedIpEntry)
    → length failed < limit
    → make_room limit window now failed ≡ failed
unfolding make_room
make_room_id limit window now failed h = ground arith

-- The IP has `n` failures in a window from `start`, in a table with room; the set of blocked IPs
-- and the policy are those of `s`.
record Counting (ip : Text) (s : RegistrarService) (n start : ℕ) (t : RegistrarService)
    : Type 0 where
  entry : get ip t.failed_ips ≡ some (record { count = n; window_start = start })
  room : length t.failed_ips < t.ip_block.max_failed_ips
  policy : t.ip_block ≡ s.ip_block
  blocked : t.blocked_ips ≡ s.blocked_ips

module _ (ip : Text) (s : RegistrarService) (enabled : s.ip_block.enabled ≡ true) where
  first_failure :
      (start : ℕ)
      → get ip s.failed_ips ≡ none
      → length s.failed_ips + 1 < s.ip_block.max_failed_ips
      → 1 < s.ip_block.max_failures
      → Counting ip s 1 start (record_failure start ip s).0
  unfolding record_failure
  first_failure start new room many =
      let e : FailedIpEntry = record { count = 1; window_start = start } in
      ground (
        arith,
        make_room_id s.ip_block.max_failed_ips s.ip_block.window_secs start s.failed_ips,
        get-insert ip ip e s.failed_ips,
        list_beq_iff ip ip,
        length-insert-le ip e s.failed_ips,
      )

  next_failure :
      (n start now : ℕ) (t : RegistrarService)
      → Counting ip s n start t
      → now - start < s.ip_block.window_secs
      → n + 1 < s.ip_block.max_failures
      → Counting ip s (n + 1) start (record_failure now ip t).0
  unfolding record_failure
  next_failure n start now t k inside few =
      let e : FailedIpEntry = record { count = n + 1; window_start = start } in
      let old : FailedIpEntry = record { count = n; window_start = start } in
      ground (
        arith,
        make_room_id t.ip_block.max_failed_ips t.ip_block.window_secs now t.failed_ips,
        get-insert ip ip e t.failed_ips,
        list_beq_iff ip ip,
        length-insert_present ip e old t.failed_ips,
      )

  more_failures :
      (n start : ℕ) (ts : List ℕ) (t : RegistrarService)
      → Counting ip s n start t
      → All (λ now. now - start < s.ip_block.window_secs) ts
      → n + length ts < s.ip_block.max_failures
      → Counting ip s (n + length ts) start (failures ip ts t)
  unfolding failures
  more_failures n start [] t k inside few =
      subst (λ (m : ℕ). Counting ip s m start t) (omega arith) k
  more_failures n start (now ∷ ts) t k inside few =
      let step = next_failure n start now t k inside.0 (omega arith) in
      subst (λ (m : ℕ). Counting ip s m start (failures ip ts (record_failure now ip t).0))
        (omega arith)
        (more_failures (n + 1) start ts (record_failure now ip t).0 step inside.1 (omega arith))

  last_failure :
      (n start now : ℕ) (t : RegistrarService)
      → Counting ip s n start t
      → n + 1 ≡ s.ip_block.max_failures
      → 1 < s.ip_block.max_failures
      → length s.blocked_ips < s.ip_block.max_blocked_ips
      → ((record_failure now ip t).1 ≡ ltb (now - start) s.ip_block.window_secs)
        × (is_blocked (record_failure now ip t).0 ip
            ≡ (is_blocked s ip || ltb (now - start) s.ip_block.window_secs))
  unfolding record_failure is_blocked
  last_failure n start now t k last many free =
      let full = make_room_id t.ip_block.max_failed_ips t.ip_block.window_secs now t.failed_ips in
      (
        ground (arith, full),
        ground (arith, full, get-insert ip ip tt t.blocked_ips, list_beq_iff ip ip),
      )

  -- With blocking on: after `max_failures` - 1 failures of an IP with none before, at least one,
  -- all inside one window and in tables with room, no more IPs are blocked than before. The next
  -- failure reports a block exactly if it falls into that window too, and after it the IP is blocked
  -- exactly if it was before or the failure fell into the window.
  pub failures_threshold :
      (start : ℕ) (ts : List ℕ) (now : ℕ)
      → get ip s.failed_ips ≡ none
      → length s.failed_ips + 1 < s.ip_block.max_failed_ips
      → length s.blocked_ips < s.ip_block.max_blocked_ips
      → All (λ t. t - start < s.ip_block.window_secs) ts
      → length ts + 2 ≡ s.ip_block.max_failures
      → let t = failures ip (start ∷ ts) s in
        (t.blocked_ips ≡ s.blocked_ips)
        × ((record_failure now ip t).1 ≡ ltb (now - start) s.ip_block.window_secs)
        × (is_blocked (record_failure now ip t).0 ip
            ≡ (is_blocked s ip || ltb (now - start) s.ip_block.window_secs))
  unfolding failures
  failures_threshold start ts now new room free inside total =
      let k =
        more_failures 1 start ts (record_failure start ip s).0
          (first_failure start new room (omega arith)) inside (omega arith) in
      let last =
        last_failure (1 + length ts) start now (failures ip ts (record_failure start ip s).0) k
          (omega arith) (omega arith) free in
      (k.blocked, last.0, last.1)

-- With blocking on, a table with room and a threshold above 2, the window is fixed, not sliding: a
-- failure that comes when the window of an entry is over starts a new one at count 1, and neither
-- it nor the failure after it blocks, however many failures the last `window_secs` seconds have
-- seen.
pub window_restarts :
    (ip : Text) (s : RegistrarService) (n start now next : ℕ)
    → s.ip_block.enabled ≡ true
    → get ip s.failed_ips ≡ some (record { count = n; window_start = start })
    → length s.failed_ips < s.ip_block.max_failed_ips
    → s.ip_block.window_secs ≤ now - start
    → 2 < s.ip_block.max_failures
    → let t = (record_failure now ip s).0 in
      (get ip t.failed_ips ≡ some (record { count = 1; window_start = now }))
      × ((record_failure now ip s).1 ≡ false)
      × ((record_failure next ip t).1 ≡ false)
unfolding record_failure
window_restarts ip s n start now next enabled entry room over many =
    let e : FailedIpEntry = record { count = 1; window_start = now } in
    let old : FailedIpEntry = record { count = n; window_start = start } in
    ground (
      arith,
      make_room_id s.ip_block.max_failed_ips s.ip_block.window_secs now s.failed_ips,
      get-insert ip ip e s.failed_ips,
      list_beq_iff ip ip,
      length-insert_present ip e old s.failed_ips,
      make_room_id s.ip_block.max_failed_ips s.ip_block.window_secs next (insert ip e s.failed_ips),
    )
