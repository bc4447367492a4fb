-- ===== src/Parser/Frame/Tests.antt =====
-- The theorems on framing and on brackets at concrete texts.
use minghe.Prelude.{ℕ, ◌≡◌, refl, List, ◌++◌, arith, codes}
use minghe.Text.{Text, Outcome, panics, find}
use minghe.Parser.Frame.{complete, crlf_crlf, usize_bound, frame_sip_message}
use minghe.Parser.Frame.Stable.{frame-append}
use minghe.Parser.Header.{extract_extension}
use minghe.Parser.Header.Panics.{extract_extension-panics}

abbrev framed : List ℕ
framed = codes "BYE x\r\nl: 2\r\n\r\nab"

is_framed : frame_sip_message framed ≡ complete 17
unfolding frame_sip_message find minghe.Parser.Frame.frame_headers minghe.Parser.Frame.is_utf8
    minghe.Parser.Frame.verdict minghe.Parser.Frame.scan_lengths minghe.Text.lines minghe.Text.trim
    minghe.Text.lower minghe.Text.parse_uint
is_framed = refl

frame-append_example : frame_sip_message (framed ++ codes "ACK") ≡ frame_sip_message framed
frame-append_example = frame-append framed (codes "ACK") (λ e. absurd (ground (arith, is_framed)))

extract_extension-panics_example : extract_extension (codes "a>b<c") ≡ panics
extract_extension-panics_example =
    extract_extension-panics (codes "a") (codes "b") (codes "c") (ground arith, tt)
      (ground arith, tt) (ground arith, tt)
