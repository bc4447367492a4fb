-- ===== src/Srtp/Header.antt =====
-- media/srtp.rs, `RtpHeader`: the fixed header of an RTP packet, its CSRC list and its extension.
pub mod Laws
use minghe.Prelude.{ℕ, ◌+◌, ◌*◌, ◌/◌, ◌%◌, ◌≡◌, Bool, true, false, not, List, Option, none, some}
use minghe.Prelude.{length, get_or, nat_beq, ltb, if◌then◌else◌}
use minghe.Srtp.Suite.{
  Result, ok, err, invalid_rtp_packet, too_short, bad_version, csrc_incomplete,
  extension_incomplete, rtp_header_min_len,
}

pub record RtpHeader : Type 0 where
  pub version : ℕ
  pub padding : Bool
  pub extension : Bool
  pub csrc_count : ℕ
  pub sequence_number : ℕ
  pub timestamp : ℕ
  pub ssrc : ℕ
  pub extension_length : Option ℕ

-- `data[i]`: every read is behind a test of the length.
abbrev pub byte : List ℕ → ℕ → ℕ
byte packet i = get_or packet i 0

-- `u16::from_be_bytes` and `u32::from_be_bytes` of the bytes from `i` on.
abbrev pub u16_at : List ℕ → ℕ → ℕ
u16_at packet i = byte packet i * 256 + byte packet (i + 1)

abbrev pub u32_at : List ℕ → ℕ → ℕ
u32_at packet i = u16_at packet i * 65536 + u16_at packet (i + 2)

unfoldable pub csrc_end : List ℕ → ℕ
csrc_end packet = rtp_header_min_len + byte packet 0 % 16 * 4

unfoldable pub version_of : List ℕ → ℕ
version_of packet = byte packet 0 / 64 % 4

unfoldable pub has_extension : List ℕ → Bool
has_extension packet = nat_beq (byte packet 0 / 16 % 2) 1

unfoldable pub fields : List ℕ → Option ℕ → RtpHeader
fields packet ext_len = record {
  version = version_of packet;
  padding = nat_beq (byte packet 0 / 32 % 2) 1;
  extension = has_extension packet;
  csrc_count = byte packet 0 % 16;
  sequence_number = u16_at packet 2;
  timestamp = u32_at packet 4;
  ssrc = u32_at packet 8;
  extension_length = ext_len;
}

unfoldable pub parse : List ℕ → Result RtpHeader
parse packet =
    if ltb (length packet) rtp_header_min_len
    then err (invalid_rtp_packet (too_short (length packet)))
    else if not (nat_beq (version_of packet) 2)
    then err (invalid_rtp_packet (bad_version (version_of packet)))
    else if ltb (length packet) (csrc_end packet)
    then err (invalid_rtp_packet csrc_incomplete)
    else if has_extension packet
    then (if ltb (length packet) (csrc_end packet + 4)
        then err (invalid_rtp_packet extension_incomplete)
        else ok (fields packet (some (u16_at packet (csrc_end packet + 2)))))
    else ok (fields packet none)

extension_len : Bool → Option ℕ → ℕ
extension_len false ext = 0
extension_len true none = 0
extension_len true (some ext_len) = 4 + ext_len * 4

unfoldable pub total_header_len : RtpHeader → ℕ
unfolding extension_len
total_header_len h =
    rtp_header_min_len + h.csrc_count * 4 + extension_len h.extension h.extension_length
