-- ===== src/Parser/Frame/Stable.antt =====
-- Framing is stable: bytes that arrive later change no verdict but `incomplete`.
use minghe.Prelude.{ℕ, ◌+◌, ◌≤◌, ◌<◌, ◌≡◌, refl, ◌≢◌, List, ◌++◌, Option, none, some, arith}
use minghe.Prelude.{length, take, take-append_le, length-append}
use minghe.Text.{find, lines}
use minghe.Text.Laws.{find_bound, find-append}
use minghe.Parser.Frame.{
  complete, incomplete, crlf_crlf, usize_bound, verdict, scan_lengths, frame_headers,
  frame_sip_message,
}

verdict_mono :
    (m n i : ℕ) (lengths : Option (Option ℕ))
    → m ≤ n
    → verdict m i lengths ≢ incomplete
    → verdict n i lengths ≡ verdict m i lengths
unfolding verdict
verdict_mono m n i none le h = refl
verdict_mono m n i (some content_length) le h = ground arith

verdict-complete :
    (m n i : ℕ) (lengths : Option (Option ℕ))
    → verdict m i lengths ≡ complete n
    → (n ≤ m) × (n < usize_bound) × (i + 4 ≤ n)
unfolding verdict
verdict-complete m n i none e = absurd (ground arith)
verdict-complete m n i (some content_length) e = ground arith

frame_headers-append :
    (buf more : List ℕ) (i : ℕ)
    → i ≤ length buf
    → frame_headers buf i ≢ incomplete
    → frame_headers (buf ++ more) i ≡ frame_headers buf i
unfolding frame_headers
frame_headers-append buf more i fits h = rw (take-append_le i buf more fits) (
    ground (
      arith,
      length-append buf more,
      verdict_mono (length buf) (length (buf ++ more)) i (scan_lengths (lines (take i buf)) none),
    ))

frame_headers-complete :
    (buf : List ℕ) (n i : ℕ)
    → frame_headers buf i ≡ complete n
    → (n ≤ length buf) × (n < usize_bound) × (i + 4 ≤ n)
unfolding frame_headers
frame_headers-complete buf n i e =
    ground (arith, verdict-complete (length buf) n i (scan_lengths (lines (take i buf)) none))

-- A verdict other than `incomplete` on a buffer is the verdict on every longer buffer: a complete
-- message keeps its length, and a protocol error stays one.
pub frame-append :
    (buf more : List ℕ)
    → frame_sip_message buf ≢ incomplete
    → frame_sip_message (buf ++ more) ≡ frame_sip_message buf
unfolding frame_sip_message
frame-append buf more h = go (find crlf_crlf buf) refl
  where
    go :
        (r : Option ℕ)
        → find crlf_crlf buf ≡ r
        → frame_sip_message (buf ++ more) ≡ frame_sip_message buf
    go none eq = absurd (h (ground (arith)))
    go (some i) eq = ground (
      arith,
      find_bound crlf_crlf buf i eq,
      find-append crlf_crlf buf more i eq,
      frame_headers-append buf more i,
      length-append buf more,
    )

-- A complete message ends inside the buffer, and behind the blank line that ends its headers.
pub frame-complete_bounds :
    (buf : List ℕ) (n : ℕ)
    → frame_sip_message buf ≡ complete n
    → (n ≤ length buf) × (n < usize_bound) × ((i : ℕ) × (find crlf_crlf buf ≡ some i) × (i + 4 ≤ n))
unfolding frame_sip_message
frame-complete_bounds buf n e = go (find crlf_crlf buf) refl
  where
    go :
        (r : Option ℕ)
        → find crlf_crlf buf ≡ r
        → (n ≤ length buf)
          × (n < usize_bound)
          × ((i : ℕ) × (find crlf_crlf buf ≡ some i) × (i + 4 ≤ n))
    go none eq = absurd (ground arith)
    go (some i) eq =
        let (inside, word, behind) = frame_headers-complete buf n i (ground arith) in
        (inside, word, (i, eq, behind))
