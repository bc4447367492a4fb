-- ===== src/Srtp/Rollover/Rfc.antt =====
-- The estimate of `estimate_roc` against the one of RFC 3711, section 3.3.1 and appendix A.
use minghe.Prelude.{ℕ, ◌+◌, ◌-◌, ◌/◌, ◌%◌, ◌^◌, ◌≤◌, ◌<◌, ◌≡◌, ◌⊎◌, none, some, arith}
use minghe.Prelude.{ltb, if◌then◌else◌}
use minghe.Srtp.Rollover.{
  SrtpStreamState, estimate_roc, packet_index, update_stream_state_after_success,
}

-- The RFC's `v`, with its differences taken over the integers: `s_l` is the highest sequence
-- number received and authenticated, `seq` that of the packet.
pub rfc_estimate : ℕ → ℕ → ℕ → ℕ
rfc_estimate roc s_l seq =
    if ltb s_l 32768
    then (if ltb (s_l + 32768) seq then (roc + (2 ^ 32 - 1)) % 2 ^ 32 else roc)
    else if ltb (seq + 32768) s_l
    then (roc + 1) % 2 ^ 32
    else roc

abbrev pub at_highest : ℕ → ℕ → SrtpStreamState
at_highest roc s_l = record { roc = roc; highest_sequence = some s_l }

-- The estimate is that of RFC 3711 when the counter is above 0 and the packet is not a late one of
-- the lower half: its sequence number is at least the highest one, or the highest is 32768 or more.
pub estimate_roc-rfc :
    (roc s_l seq : ℕ)
    → 0 < roc
    → roc < 2 ^ 32
    → s_l < 65536
    → seq < 65536
    → (s_l ≤ seq) ⊎ (32768 ≤ s_l)
    → estimate_roc (at_highest roc s_l) seq ≡ rfc_estimate roc s_l seq
unfolding estimate_roc rfc_estimate
estimate_roc-rfc roc s_l seq pos word h k side = ground arith

-- A late packet, when the counter is above 0 and the highest sequence number below 32768, is taken
-- for one of the previous rollover: where the RFC keeps the counter, the code goes one below it,
-- whatever the distance.
pub estimate_roc-late :
    (roc s_l seq : ℕ)
    → 0 < roc
    → s_l < 32768
    → seq < s_l
    → (estimate_roc (at_highest roc s_l) seq + 1 ≡ roc) × (rfc_estimate roc s_l seq ≡ roc)
unfolding estimate_roc rfc_estimate
estimate_roc-late roc s_l seq pos low late = ground arith

-- A packet that is ahead of the stream by less than half a cycle gets the counter of its index,
-- also across a rollover, as long as the index is below 2 ^ 48.
pub estimate_roc-ahead :
    (roc s_l d : ℕ)
    → s_l < 65536
    → d < 32768
    → packet_index roc s_l + d < 2 ^ 48
    → estimate_roc (at_highest roc s_l) ((s_l + d) % 65536) ≡ (packet_index roc s_l + d) / 65536
unfolding estimate_roc
estimate_roc-ahead roc s_l d h k word = ground arith

-- The index that a stream has reached.
abbrev pub reached : SrtpStreamState → ℕ
reached s = elim s.highest_sequence [ none ↦ 0 | some highest ↦ packet_index s.roc highest ]

-- A packet that passes never moves the stream back, and the stream ends at this packet's index or
-- beyond it, if the counter of a stream without a packet is 0.
pub update-reached :
    (s : SrtpStreamState) (seq roc : ℕ)
    → (s.highest_sequence ≡ none → s.roc ≡ 0)
    → let t = update_stream_state_after_success s seq roc in
      (reached s ≤ reached t) × (packet_index roc seq ≤ reached t)
unfolding update_stream_state_after_success
update-reached s seq roc start = ground arith
