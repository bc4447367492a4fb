-- ===== src/Parser/Fields.antt =====
-- sip/parser.rs: parameters of header lines (tags, branch, expiry), the body, and the URI of a
-- header.
use minghe.Prelude.{ℕ, ◌+◌, ◌^◌, Bool, ◌||◌, List, [], ◌∷◌, ◌++◌, Option, none, some}
use minghe.Prelude.{nat_beq, if◌then◌else◌, length, drop, codes, String, ◌==◌, list_eq}
use minghe.Text.{
  Text, Outcome, returns, find, lines, trim, to_lowercase, to_uppercase, starts_with, is_empty,
  parse_uint, take_until, split_whitespace, find_map, is_whitespace,
}
use minghe.Parser.Header.{begins, between_brackets, for_lines, ◌>>=◌}

ends_value : ℕ → Bool
ends_value c = nat_beq c b';' || nat_beq c b',' || is_whitespace c

-- The value behind the first `key` in the line, if there is one and it is not empty.
param_value : Text → Text → Option Text
unfolding ends_value
param_value key trimmed = elim (find key (to_lowercase trimmed)) [
  | none ↦ none
  | some pos ↦
      let value = take_until ends_value (drop (pos + length key) trimmed) in
      if is_empty value then none else some value
]

-- One line of the loops of the next three functions: a header of one of two names.
param_line : String → String → Text → Text → Option Text
unfolding param_value
param_line name compact key line =
    let trimmed = trim line in
    let lower = to_lowercase trimmed in
    if begins name lower || begins compact lower then param_value key trimmed else none

unfoldable pub extract_via_branch : Text → Option Text
unfolding param_line
extract_via_branch msg = find_map (param_line "via:" "v:" (codes "branch=")) (lines msg)

unfoldable pub extract_from_tag : Text → Option Text
unfolding param_line
extract_from_tag msg = find_map (param_line "from:" "f:" (codes "tag=")) (lines msg)

unfoldable pub extract_to_tag : Text → Option Text
unfolding param_line
extract_to_tag msg = find_map (param_line "to:" "t:" (codes "tag=")) (lines msg)

second_upper : List Text → Option Text
second_upper [] = none
second_upper (first ∷ []) = none
second_upper (first ∷ second ∷ rest) = some (to_uppercase second)

cseq_line : Text → Option Text
unfolding second_upper
cseq_line line =
    let trimmed = trim line in
    if begins "cseq:" (to_lowercase trimmed)
    then second_upper (split_whitespace (trim (drop 5 trimmed)))
    else none

unfoldable pub extract_cseq_method : Text → Option Text
unfolding cseq_line
extract_cseq_method msg = find_map cseq_line (lines msg)

-- The outer option: does this line decide? The inner one: the number, if it is one.
expires_line : Text → Option (Option ℕ)
expires_line line =
    let trimmed = trim line in
    if begins "expires:" (to_lowercase trimmed)
    then some (parse_uint (2 ^ 64) (trim (drop 8 trimmed)))
    else none

ends_expiry : ℕ → Bool
unfolding ends_value
ends_expiry c = ends_value c || nat_beq c b'>'

contact_expires_line : Text → Option (Option ℕ)
unfolding ends_expiry
contact_expires_line line =
    let trimmed = trim line in
    let lower = to_lowercase trimmed in
    if begins "contact:" lower || begins "m:" lower
    then elim (find (codes "expires=") lower) [
      | none ↦ none
      | some pos ↦ some (parse_uint (2 ^ 64) (take_until ends_expiry (drop (pos + 8) trimmed)))
    ]
    else none

unfoldable pub extract_expires : Text → Option ℕ
unfolding expires_line contact_expires_line
extract_expires msg = elim (find_map expires_line (lines msg)) [
  | some value ↦ value
  | none ↦ elim (find_map contact_expires_line (lines msg)) [ some value ↦ value | none ↦ none ]
]

unfoldable pub extract_body : Text → Option Text
extract_body msg = elim (find (13 ∷ 10 ∷ 13 ∷ 10 ∷ []) msg) [
  | none ↦ none
  | some pos ↦ let body = drop (pos + 4) msg in if is_empty body then none else some body
]

-- The compact name of a header, given in lower case.
compact_name : Text → Option Text
compact_name name =
    if name == codes "from"
    then some (codes "f:")
    else if name == codes "to"
    then some (codes "t:")
    else if name == codes "contact"
    then some (codes "m:")
    else if name == codes "via"
    then some (codes "v:")
    else if name == codes "call-id"
    then some (codes "i:")
    else none

compact_value : Option Text → Text → Option Text
compact_value none trimmed = none
compact_value (some c) trimmed =
    if starts_with c (to_lowercase trimmed) then some (drop (length c) trimmed) else none

named_value : Text → Text → Option Text
unfolding compact_name compact_value
named_value header_name trimmed =
    if starts_with (to_lowercase header_name ++ codes ":") (to_lowercase trimmed)
    then some (drop (length header_name + 1) trimmed)
    else compact_value (compact_name (to_lowercase header_name)) trimmed

bare_uri : Text → Option Text
bare_uri value =
    let uri = trim (take_until (λ c. nat_beq c b';') (trim value)) in
    if is_empty uri then none else some uri

uri_of_value : Option Text → Outcome (Option Text)
unfolding bare_uri
uri_of_value none = returns none
uri_of_value (some value) = between_brackets value >>= λ inner.
    returns (elim inner [ none ↦ bare_uri value | some uri ↦ some uri ])

uri_line : Text → Text → Outcome (Option Text)
unfolding named_value uri_of_value
uri_line header_name line = uri_of_value (named_value header_name (trim line))

unfoldable pub extract_uri_from_header : Text → Text → Outcome (Option Text)
unfolding uri_line
extract_uri_from_header msg header_name = for_lines (uri_line header_name) (lines msg)
