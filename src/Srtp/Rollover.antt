-- ===== src/Srtp/Rollover.antt =====
-- media/srtp.rs: the rollover counter (ROC) that each stream keeps, its estimate for a packet, and
-- the update after a packet has passed.
pub mod Rfc
use minghe.Prelude.{ℕ, ◌+◌, ◌-◌, ◌*◌, ◌%◌, ◌^◌, Option, none, some, ltb, if◌then◌else◌}

pub record SrtpStreamState : Type 0 where
  pub roc : ℕ
  pub highest_sequence : Option ℕ

-- `#[derive(Default)]`
abbrev pub initial : SrtpStreamState
initial = record { roc = 0; highest_sequence = none }

-- `a.wrapping_sub(b)` on u16.
abbrev pub sub16 : ℕ → ℕ → ℕ
sub16 a b = (a + 65536 - b) % 65536

estimate_from : ℕ → ℕ → ℕ → ℕ
estimate_from roc highest sequence =
    if ltb highest 32768
    then (if ltb 32768 (sub16 sequence highest) then roc - 1 else roc)
    else if ltb sequence (sub16 highest 32768)
    then (roc + 1) % 2 ^ 32
    else roc

unfoldable pub estimate_roc : SrtpStreamState → ℕ → ℕ
unfolding estimate_from
estimate_roc state sequence = elim state.highest_sequence [
  | none ↦ state.roc
  | some highest ↦ estimate_from state.roc highest sequence
]

-- `((roc as u64) << 16) | sequence as u64`: the low 16 bits are free, so the or is a sum.
abbrev pub packet_index : ℕ → ℕ → ℕ
packet_index roc sequence = roc * 65536 + sequence

unfoldable pub update_stream_state_after_success : SrtpStreamState → ℕ → ℕ → SrtpStreamState
update_stream_state_after_success state sequence guessed_roc = elim state.highest_sequence [
  | none ↦ record { roc = guessed_roc; highest_sequence = some sequence }
  | some highest ↦
      if ltb (packet_index state.roc highest) (packet_index guessed_roc sequence)
      then record { roc = guessed_roc; highest_sequence = some sequence }
      else state
]
