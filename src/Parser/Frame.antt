-- ===== src/Parser/Frame.antt =====
-- sip/parser.rs, `frame_sip_message`: the end of the first message in a buffer of a byte stream.
pub mod Stable
mod Tests
use minghe.Prelude.{
  ℕ, zero, suc, ◌+◌, ◌^◌, Bool, true, false, ◌&&◌, ◌||◌, not, List, [], ◌∷◌, Option, none, some,
}
use minghe.Prelude.{ltb, leb, nat_beq, if◌then◌else◌, length, take, drop, codes}
use minghe.Text.{Text, find, lines, trim, to_lowercase, starts_with, parse_uint}

pub data SipFrameResult : Type 0 where
  complete : ℕ → SipFrameResult
  incomplete invalid : SipFrameResult

-- What may follow the first byte of a character in UTF-8: how many bytes, and the least and the
-- greatest value of the next one.
utf8_lead : ℕ → Option (ℕ × ℕ × ℕ)
utf8_lead b =
    if leb b 0x7f
    then some (0, 0x80, 0xbf)
    else if leb 0xc2 b && leb b 0xdf
    then some (1, 0x80, 0xbf)
    else if nat_beq b 0xe0
    then some (2, 0xa0, 0xbf)
    else if nat_beq b 0xed
    then some (2, 0x80, 0x9f)
    else if leb 0xe1 b && leb b 0xef
    then some (2, 0x80, 0xbf)
    else if nat_beq b 0xf0
    then some (3, 0x90, 0xbf)
    else if leb 0xf1 b && leb b 0xf3
    then some (3, 0x80, 0xbf)
    else if nat_beq b 0xf4
    then some (3, 0x80, 0x8f)
    else none

utf8_from : ℕ → ℕ → ℕ → List ℕ → Bool
unfolding utf8_lead
utf8_from zero least greatest [] = true
utf8_from (suc pending) least greatest [] = false
utf8_from zero least greatest (b ∷ bytes) = elim (utf8_lead b) [
  | none ↦ false
  | some (pending, lo, hi) ↦ utf8_from pending lo hi bytes
]
utf8_from (suc pending) least greatest (b ∷ bytes) =
    leb least b && leb b greatest && utf8_from pending 0x80 0xbf bytes

-- `std::str::from_utf8(bytes).is_ok()`
unfoldable pub is_utf8 : List ℕ → Bool
unfolding utf8_from
is_utf8 bytes = utf8_from 0 0x80 0xbf bytes

abbrev pub crlf_crlf : Text
crlf_crlf = 13 ∷ 10 ∷ 13 ∷ 10 ∷ []

abbrev pub usize_bound : ℕ
usize_bound = 2 ^ 64

-- The value of a line `Content-Length: n` or `l: n`; the outer option says whether it is one.
length_value : Text → Option (Option ℕ)
length_value line =
    let trimmed = trim line in
    let lower = to_lowercase trimmed in
    if starts_with (codes "content-length:") lower
    then some (parse_uint usize_bound (trim (drop 15 trimmed)))
    else if starts_with (codes "l:") lower
    then some (parse_uint usize_bound (trim (drop 2 trimmed)))
    else none

-- The loop over the header lines: `none` is the early return of `Invalid`.
conflicts : Option ℕ → ℕ → Bool
conflicts none parsed = false
conflicts (some existing) parsed = not (nat_beq existing parsed)

scan_lengths : List Text → Option ℕ → Option (Option ℕ)
unfolding length_value conflicts
scan_lengths [] seen = some seen
scan_lengths (line ∷ rest) seen = elim (length_value line) [
  | none ↦ scan_lengths rest seen
  | some none ↦ none
  | some (some parsed) ↦ elim (conflicts seen parsed) [
    | true ↦ none
    | false ↦ scan_lengths rest (some parsed)
  ]
]

abbrev unwrap_or : ℕ → Option ℕ → ℕ
unwrap_or d none = d
unwrap_or d (some n) = n

-- What the headers and the length of the buffer say.
verdict : ℕ → ℕ → Option (Option ℕ) → SipFrameResult
verdict received header_end none = invalid
verdict received header_end (some content_length) =
    let total_length = header_end + 4 + unwrap_or 0 content_length in
    if leb usize_bound total_length
    then invalid
    else if leb total_length received
    then complete total_length
    else incomplete

frame_headers : List ℕ → ℕ → SipFrameResult
frame_headers buf header_end =
    if is_utf8 (take header_end buf)
    then verdict (length buf) header_end (scan_lengths (lines (take header_end buf)) none)
    else invalid

-- The search from position 0 on finds nothing in a buffer shorter than the marker.
pub frame_sip_message : List ℕ → SipFrameResult
frame_sip_message buf =
    if ltb (length buf) 4
    then incomplete
    else elim (find crlf_crlf buf) [ none ↦ incomplete | some i ↦ frame_headers buf i ]
