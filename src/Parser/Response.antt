-- ===== src/Parser/Response.antt =====
-- sip/parser.rs: responses built from the headers of a request. The random tag of `generate_tag`
-- is an argument.
pub mod Numbers
use minghe.Prelude.{
  ℕ, zero, suc, ◌+◌, ◌/◌, ◌%◌, Bool, true, false, ◌&&◌, ◌||◌, not, List, [], ◌∷◌, ◌++◌, none, some,
}
use minghe.Prelude.{ltb, if◌then◌else◌, length, codes}
use minghe.Text.{Text, find, lines, trim, to_lowercase, is_empty}
use minghe.Parser.Header.{begins}

-- The headers that a response copies. The last one of a name counts, but every Via is kept.
pub record Copied : Type 0 where
  pub via_headers : List Text
  pub from_header : Text
  pub to_header : Text
  pub call_id_header : Text
  pub cseq_header : Text

abbrev pub nothing_copied : Copied
nothing_copied = record {
  via_headers = [];
  from_header = [];
  to_header = [];
  call_id_header = [];
  cseq_header = [];
}

copy_line : Copied → Text → Copied
copy_line h line =
    let lower = to_lowercase line in
    if begins "via:" lower || begins "v:" lower
    then record h { via_headers = h.via_headers ++ (line ∷ []) }
    else if begins "from:" lower || begins "f:" lower
    then record h { from_header = line }
    else if begins "to:" lower || begins "t:" lower
    then record h { to_header = line }
    else if begins "call-id:" lower || begins "i:" lower
    then record h { call_id_header = line }
    else if begins "cseq:" lower
    then record h { cseq_header = line }
    else h

-- The loop stops at the first blank line.
copy_lines : Copied → List Text → Copied
unfolding copy_line
copy_lines h [] = h
copy_lines h (line ∷ rest) = elim (is_empty (trim line)) [
  | true ↦ h
  | false ↦ copy_lines (copy_line h (trim line)) rest
]

unfoldable pub copied_headers : Text → Copied
unfolding copy_lines
copied_headers request = copy_lines nothing_copied (lines request)

has_tag : Text → Bool
has_tag s = elim (find (codes "tag=") (to_lowercase s)) [ none ↦ false | some i ↦ true ]

-- A response other than 100 gets a tag in its To header if that has none.
tagged_to : ℕ → Text → Text → Text
unfolding has_tag
tagged_to status_code generated to_header =
    if ltb 100 status_code && not (has_tag to_header)
    then to_header ++ codes ";tag=" ++ generated
    else to_header

-- `{}` of an unsigned number, with fuel for its digits.
decimal_from : ℕ → ℕ → Text → Text
decimal_from zero n acc = acc
decimal_from (suc fuel) n acc =
    let more = decimal_from fuel (n / 10) ((n % 10 + b'0') ∷ acc) in
    if ltb n 10 then (n + b'0') ∷ acc else more

unfoldable pub decimal : ℕ → Text
unfolding decimal_from
decimal n = decimal_from (n + 1) n []

abbrev pub crlf : Text
crlf = 13 ∷ 10 ∷ []

abbrev pub lines_text : List Text → Text
lines_text [] = []
lines_text (line ∷ rest) = line ++ crlf ++ lines_text rest

abbrev pub header_texts : List (Text × Text) → Text
header_texts [] = []
header_texts ((name, value) ∷ rest) = name ++ codes ": " ++ value ++ crlf ++ header_texts rest

-- The status line and the copied headers, which the three functions share.
response_head : Text → Text → ℕ → Text → Text
unfolding tagged_to
response_head generated request status_code reason =
    let h = copied_headers request in
    codes "SIP/2.0 "
    ++ decimal status_code
    ++ codes " "
    ++ reason
    ++ crlf
    ++ lines_text h.via_headers
    ++ h.from_header
    ++ crlf
    ++ tagged_to status_code generated h.to_header
    ++ crlf
    ++ h.call_id_header
    ++ crlf
    ++ h.cseq_header
    ++ crlf

unfoldable pub build_response : Text → Text → ℕ → Text → Text
unfolding response_head
build_response generated request status_code reason =
    response_head generated request status_code reason ++ codes "Content-Length: 0" ++ crlf ++ crlf

unfoldable pub build_response_with_headers : Text → Text → ℕ → Text → List (Text × Text) → Text
unfolding response_head
build_response_with_headers generated request status_code reason extra_headers =
    response_head generated request status_code reason
    ++ header_texts extra_headers
    ++ codes "Content-Length: 0"
    ++ crlf
    ++ crlf

unfoldable pub build_response_with_body : Text → Text → ℕ → Text → List (Text × Text) → Text → Text
unfolding response_head
build_response_with_body generated request status_code reason extra_headers body =
    response_head generated request status_code reason
    ++ header_texts extra_headers
    ++ (if is_empty body then [] else codes "Content-Type: application/sdp" ++ crlf)
    ++ codes "Content-Length: "
    ++ decimal (length body)
    ++ crlf
    ++ crlf
    ++ body
