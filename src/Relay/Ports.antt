-- ===== src/Relay/Ports.antt =====
-- The allocation of a pair of ports ends, and what it hands out.
use native.Mathlib.Decide.{dec_lt}
use minghe.Prelude.{
  ℕ, suc, zero, ◌+◌, ◌-◌, ◌*◌, ◌%◌, ◌^◌, ◌≤◌, ◌<◌, ◌≡◌, ◌≢◌, refl, ap, ◌∙◌, arith, leb,
  if◌then◌else◌,
}
use minghe.Relay.{
  MediaRelayManager, no_fuel, port_pair, set_next, allocate_loop, allocate_port_pair, enough,
}

loop-ends :
    (fuel attempts : ℕ) (s : MediaRelayManager)
    → s.next_port < 65536
    → s.port_start < 65536
    → s.port_end < 65536
    → attempts ≤ 3
    → (3 - attempts) * 65537 + (65536 - s.next_port) < fuel
    → allocate_loop fuel attempts s ≢ no_fuel
unfolding allocate_loop
loop-ends zero attempts s n st en at h = absurd (omega arith)
loop-ends (suc fuel) attempts s n st en at h = ground (
  arith,
  loop-ends fuel (attempts + 1) (set_next s.port_start s),
  loop-ends fuel attempts (set_next ((s.next_port + 2) % 2 ^ 16) s),
)

-- The allocation always ends, for any range of u16 ports, an empty or an odd one included.
pub allocate_port_pair-ends :
    (s : MediaRelayManager)
    → s.next_port < 65536
    → s.port_start < 65536
    → s.port_end < 65536
    → allocate_port_pair s ≢ no_fuel
unfolding allocate_port_pair
allocate_port_pair-ends s n st en = loop-ends enough 0 s n st en (omega arith) (omega arith)

-- Two even ports at least, in a range that ends below the last port.
pub record IsRange (s : MediaRelayManager) : Type 0 where
  pub start_even : s.port_start % 2 ≡ 0
  pub next_even : s.next_port % 2 ≡ 0
  pub two : s.port_start + 2 < s.port_end
  pub below : s.port_end < 65535
  pub from_start : s.port_start ≤ s.next_port
  pub to_end : s.next_port ≤ s.port_end + 1

-- The port that the next allocation hands out: after the last one, the first again.
abbrev pub upcoming : MediaRelayManager → ℕ
upcoming s = if leb s.port_end s.next_port then s.port_start else s.next_port

loop-takes :
    (fuel attempts : ℕ) (s : MediaRelayManager)
    → s.next_port % 2 ≡ 0
    → s.next_port < s.port_end
    → allocate_loop (suc fuel) attempts s
      ≡ port_pair s.next_port (set_next ((s.next_port + 2) % 65536) s)
unfolding allocate_loop
loop-takes fuel attempts s even lt = ground arith

loop-even :
    (fuel attempts : ℕ) (s : MediaRelayManager)
    → s.next_port % 2 ≡ 0
    → s.next_port < s.port_end
    → s.port_end < 65535
    → allocate_loop (suc fuel) attempts s ≡ port_pair s.next_port (set_next (s.next_port + 2) s)
loop-even fuel attempts s even lt below =
    loop-takes fuel attempts s even lt
    ∙ ap (λ n. port_pair s.next_port (set_next n s)) (omega arith)

loop-wraps :
    (fuel : ℕ) (s : MediaRelayManager)
    → s.port_end ≤ s.next_port
    → allocate_loop (suc fuel) 0 s ≡ allocate_loop fuel 1 (set_next s.port_start s)
unfolding allocate_loop
loop-wraps fuel s le = ground arith

loop-upcoming :
    (fuel : ℕ) (s : MediaRelayManager)
    → IsRange s
    → allocate_loop (suc (suc fuel)) 0 s ≡ port_pair (upcoming s) (set_next (upcoming s + 2) s)
loop-upcoming fuel s h = elim (dec_lt s.next_port s.port_end) [
  | yes lt ↦ ground (arith, loop-even (suc fuel) 0 s h.next_even lt h.below)
  | no ge ↦
      let two = h.two in
      ground (
        arith,
        loop-wraps (suc fuel) s (omega arith),
        loop-even fuel 1 (set_next s.port_start s) h.start_even (omega arith) h.below,
      )
]

upcoming-range :
    (s : MediaRelayManager)
    → IsRange s
    → (s.port_start ≤ upcoming s) × (upcoming s + 1 ≤ s.port_end) × (upcoming s % 2 ≡ 0)
upcoming-range s h =
    let even = h.start_even in
    let next = h.next_even in
    let two = h.two in let from_start = h.from_start in let to_end = h.to_end in ground arith

-- In a range that starts at an even port, has two even ports at least and ends below 65535, an
-- allocation succeeds at once or after one wrap-around: it hands out an even port of the range,
-- whose neighbour for RTCP is in the range too, and the state stays one of such a range.
pub allocate_port_pair-IsRange :
    (s : MediaRelayManager)
    → IsRange s
    → (allocate_port_pair s ≡ port_pair (upcoming s) (set_next (upcoming s + 2) s))
      × (s.port_start ≤ upcoming s)
      × (upcoming s + 1 ≤ s.port_end)
      × (upcoming s % 2 ≡ 0)
      × IsRange (set_next (upcoming s + 2) s)
unfolding allocate_port_pair
allocate_port_pair-IsRange s h =
    let (low, high, even) = upcoming-range s h in
    (
      loop-upcoming 262_146 s h,
      low,
      high,
      even,
      record {
        start_even = h.start_even;
        next_even = omega (arith, even);
        two = h.two;
        below = h.below;
        from_start = omega (arith, low);
        to_end = omega (arith, high);
      },
    )

-- A range that ends at the last port lets the counter wrap to 0: at 65534 an allocation hands out
-- 65534, and the next one 0, below the range.
pub allocate_port_pair-zero :
    (s : MediaRelayManager)
    → s.port_end ≡ 65535
    → s.next_port ≡ 65534
    → (allocate_port_pair s ≡ port_pair 65534 (set_next 0 s))
      × (allocate_port_pair (set_next 0 s) ≡ port_pair 0 (set_next 2 s))
unfolding allocate_port_pair
allocate_port_pair-zero s en n = (
  loop-takes 262_147 0 s (omega (arith, n)) (omega (arith, en, n))
      ∙ ap (λ k. port_pair k (set_next ((k + 2) % 65536) s)) n,
  loop-takes 262_147 0 (set_next 0 s) refl (omega (arith, en)),
)
