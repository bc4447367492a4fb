-- ===== src/Parser/Header.antt =====
-- sip/parser.rs: the fields that are read from the text of a message. A function whose source
-- slices by two positions that it has not compared returns an `Outcome`.
pub mod Panics
use minghe.Prelude.{
  ℕ, ◌+◌, ◌^◌, Bool, true, false, ◌&&◌, ◌||◌, not, List, [], ◌∷◌, ◌++◌, Option, none, some, min,
}
use minghe.Prelude.{
  ltb, leb, nat_beq, if◌then◌else◌, length, take, drop, codes, String, ◌==◌, list_eq,
}
use minghe.Text.{
  Text, Outcome, panics, returns, slice, find, lines, trim, to_lowercase, to_uppercase, starts_with,
  is_empty, parse_uint, take_until, split_whitespace, find_map, is_whitespace, is_digit,
}

infixl 5 ◌>>=◌
abbrev pub ◌>>=◌ {ℓ κ} : {A : Type ℓ} {B : Type κ} → Outcome A → (A → Outcome B) → Outcome B
panics >>= f = panics
returns a >>= f = f a

-- `lower.starts_with(prefix)`, with the prefix as the source writes it.
abbrev pub begins : String → Text → Bool
begins prefix s = starts_with (codes prefix) s

-- The first line of a message, without the spaces around it.
abbrev pub first_line : Text → Option Text
first_line msg = elim (lines msg) [ [] ↦ none | line ∷ rest ↦ some (trim line) ]

all_digits : Text → Bool
unfolding is_digit
all_digits [] = true
all_digits (c ∷ s) = is_digit c && all_digits s

-- The text between the first `<` and the first `>`, if there are both.
unfoldable pub between_brackets : Text → Outcome (Option Text)
between_brackets s = elim (find (codes "<") s) [
  | none ↦ returns none
  | some start ↦ elim (find (codes ">") s) [
    | none ↦ returns none
    | some end ↦ (slice s (start + 1) end >>= λ inner. returns (some inner))
  ]
]

without_scheme : Text → Text
without_scheme uri =
    let lower_uri = to_lowercase uri in
    if begins "sip:" lower_uri
    then drop 4 uri
    else if begins "sips:" lower_uri
    then drop 5 uri
    else if begins "tel:" lower_uri
    then drop 4 uri
    else uri

-- `.split(';').next()`
abbrev before_semicolon : Text → Text
before_semicolon = take_until (λ c. nat_beq c b';')

user_part : Text → Option Text
unfolding all_digits
user_part s = elim (find (codes "@") s) [
  | some at_pos ↦
      let user = before_semicolon (take at_pos s) in if is_empty user then none else some user
  | none ↦
      let user = before_semicolon s in
      if not (is_empty user) && all_digits user then some user else none
]

abbrev or_whole : Text → Option Text → Text
or_whole s none = s
or_whole s (some inner) = inner

unfoldable pub extract_extension : Text → Outcome (Option Text)
unfolding between_brackets without_scheme user_part
extract_extension uri_str = between_brackets uri_str >>= λ inner.
    returns (user_part (without_scheme (or_whole uri_str inner)))

-- A `for line in msg.lines()` whose body may return a value, or panic.
unfoldable pub for_lines : (Text → Outcome (Option Text)) → List Text → Outcome (Option Text)
for_lines body [] = returns none
for_lines body (line ∷ rest) = elim (body line) [
  | panics ↦ panics
  | returns none ↦ for_lines body rest
  | returns (some value) ↦ returns (some value)
]

-- The URI without brackets: up to the first of `;expires=` and `;q=`, of the first contact.
marker_cut : Text → Text → ℕ → ℕ
marker_cut marker s end = elim (find marker s) [ none ↦ end | some pos ↦ min end pos ]

plain_contact : Text → Text
unfolding marker_cut
plain_contact value =
    let first_contact = trim (take_until (λ c. nat_beq c b',') value) in
    let lower_contact = to_lowercase first_contact in
    let end = marker_cut (codes ";expires=") lower_contact (length first_contact) in
    trim (take (marker_cut (codes ";q=") lower_contact end) first_contact)

abbrev or_plain : (Text → Text) → Text → Option Text → Option Text
or_plain f value none = some (f value)
or_plain f value (some inner) = some inner

contact_line : Text → Outcome (Option Text)
unfolding between_brackets plain_contact
contact_line line =
    let trimmed = trim line in
    let lower = to_lowercase trimmed in
    if begins "contact:" lower || begins "m:" lower
    then (let value =
          if begins "contact:" lower then trim (drop 8 trimmed) else trim (drop 2 trimmed) in
        between_brackets value >>= λ inner. returns (or_plain plain_contact value inner))
    else returns none

unfoldable pub extract_contact_uri : Text → Outcome (Option Text)
unfolding for_lines contact_line
extract_contact_uri request = for_lines contact_line (lines request)

call_id_line : Text → Option Text
call_id_line line =
    let trimmed = trim line in
    let lower = to_lowercase trimmed in
    if begins "call-id:" lower
    then some (trim (drop 8 trimmed))
    else if begins "i:" lower
    then some (trim (drop 2 trimmed))
    else none

unfoldable pub extract_call_id : Text → Option Text
unfolding call_id_line
extract_call_id msg = find_map call_id_line (lines msg)

header_value_line : Text → Text → Option Text
header_value_line name line =
    let trimmed = trim line in
    if starts_with (to_lowercase name ++ codes ":") (to_lowercase trimmed)
    then some (trim (drop (length name + 1) trimmed))
    else none

unfoldable pub extract_header_value : Text → Text → Option Text
unfolding header_value_line
extract_header_value msg name = find_map (header_value_line name) (lines msg)

unfoldable pub is_request : Text → Bool
is_request msg = elim (first_line msg) [ none ↦ false | some line ↦ not (begins "SIP/2.0" line) ]

pub is_response : Text → Bool
is_response msg = elim (first_line msg) [ none ↦ false | some line ↦ begins "SIP/2.0" line ]

unfoldable pub extract_method : Text → Option Text
extract_method msg = elim (first_line msg) [
  | none ↦ none
  | some line ↦
      if begins "SIP/2.0" line
      then none
      else elim (split_whitespace line) [ [] ↦ none | method ∷ rest ↦ some (to_uppercase method) ]
]

second_word : List Text → Option Text
second_word [] = none
second_word (first ∷ []) = none
second_word (first ∷ second ∷ rest) = some second

unfoldable pub extract_request_uri : Text → Option Text
unfolding second_word
extract_request_uri msg = elim (first_line msg) [
  | none ↦ none
  | some line ↦ if begins "SIP/2.0" line then none else second_word (split_whitespace line)
]

abbrev pub then_parse : ℕ → Option Text → Option ℕ
then_parse bound none = none
then_parse bound (some word) = parse_uint bound word

unfoldable pub extract_status_code : Text → Option ℕ
unfolding second_word
extract_status_code msg = elim (first_line msg) [
  | none ↦ none
  | some line ↦
      if not (begins "SIP/2.0" line)
      then none
      else then_parse (2 ^ 16) (second_word (split_whitespace line))
]
