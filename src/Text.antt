-- ===== src/Text.antt =====
-- Rust's `str` operations that the parsers use, on a text as the list of its bytes. The functions
-- are those of Rust on ASCII texts; a byte of a longer character is no space and has no case.
pub mod Laws
pub mod Trim
use minghe.Prelude.{
  ℕ, zero, suc, ◌+◌, ◌-◌, ◌*◌, ◌≤◌, Bool, true, false, ◌&&◌, ◌||◌, not, List, [], ◌∷◌, ◌++◌,
}
use minghe.Prelude.{
  Option, none, some, map, ltb, leb, nat_beq, if◌then◌else◌, length, take, drop, codes,
}
use mathlib.Core.List.{reverse}

abbrev pub Text : Type 0
Text = List ℕ

-- A slice out of range ends the thread: such functions say so in their result.
pub data Outcome {ℓ} (A : Type ℓ) : Type ℓ where
  panics : Outcome A
  returns : A → Outcome A

-- `char::is_whitespace`
unfoldable pub is_whitespace : ℕ → Bool
is_whitespace c = nat_beq c 32 || (leb 9 c && leb c 13)

unfoldable pub is_digit : ℕ → Bool
is_digit c = leb b'0' c && leb c b'9'

-- One character of `to_lowercase`.
unfoldable pub lower : ℕ → ℕ
lower c = if leb b'A' c && leb c b'Z' then c + 32 else c

unfoldable pub upper : ℕ → ℕ
upper c = if leb b'a' c && leb c b'z' then c - 32 else c

abbrev pub to_lowercase : Text → Text
to_lowercase = map lower

abbrev pub to_uppercase : Text → Text
to_uppercase = map upper

unfoldable pub is_empty : Text → Bool
is_empty [] = true
is_empty (c ∷ s) = false

unfoldable pub starts_with : Text → Text → Bool
starts_with [] s = true
starts_with (p ∷ ps) [] = false
starts_with (p ∷ ps) (c ∷ s) = nat_beq p c && starts_with ps s

unfoldable pub trim_start : Text → Text
unfolding is_whitespace
trim_start [] = []
trim_start (c ∷ s) = let rest = trim_start s in if is_whitespace c then rest else c ∷ s

unfoldable pub trim : Text → Text
unfolding trim_start
trim s = reverse (trim_start (reverse (trim_start s)))

-- `s.find(pattern)`: the position of the first occurrence.
abbrev next_pos : Option ℕ → Option ℕ
next_pos none = none
next_pos (some i) = some (suc i)

unfoldable pub find : Text → Text → Option ℕ
unfolding starts_with is_empty
find pattern [] = if is_empty pattern then some 0 else none
find pattern (c ∷ s) =
    let further = next_pos (find pattern s) in
    if starts_with pattern (c ∷ s) then some 0 else further

-- `s.split(p).next()`, also `split_whitespace().next()` on a text without leading spaces.
unfoldable pub take_until : (ℕ → Bool) → Text → Text
take_until p [] = []
take_until p (c ∷ s) = let rest = take_until p s in if p c then [] else c ∷ rest

-- `&s[i..]` and `&s[i..j]`
abbrev pub slice : Text → ℕ → ℕ → Outcome Text
slice s i j = if leb i j && leb j (length s) then returns (take (j - i) (drop i s)) else panics

-- `s.lines()`: the part before each line feed, less a carriage return at its end; what follows the
-- last line feed is a line of its own if it is not empty. `line` is what the line has so far, from
-- its end.
strip_cr : Text → Text
strip_cr [] = []
strip_cr (c ∷ line) = if nat_beq c 13 then line else c ∷ line

lines_from : Text → Text → List Text
unfolding strip_cr
lines_from [] [] = []
lines_from (c ∷ line) [] = reverse (c ∷ line) ∷ []
lines_from line (c ∷ s) =
    let next = lines_from [] s in
    let on = lines_from (c ∷ line) s in if nat_beq c 10 then reverse (strip_cr line) ∷ next else on

unfoldable pub lines : Text → List Text
unfolding lines_from
lines s = lines_from [] s

-- `s.split_whitespace()`
words_from : Text → Text → List Text
unfolding is_whitespace
words_from [] [] = []
words_from (c ∷ word) [] = reverse (c ∷ word) ∷ []
words_from word (c ∷ s) =
    let on = words_from (c ∷ word) s in
    let next = words_from [] s in
    if is_whitespace c then elim word [ [] ↦ next | w ∷ ws ↦ reverse (w ∷ ws) ∷ next ] else on

unfoldable pub split_whitespace : Text → List Text
unfolding words_from
split_whitespace s = words_from [] s

-- `s.parse()` into an unsigned type below `bound`: one `+` may lead, digits must follow.
unfoldable pub digits_value : ℕ → ℕ → Text → Option ℕ
unfolding is_digit
digits_value bound n [] = some n
digits_value bound n (c ∷ s) =
    let m = n * 10 + (c - b'0') in
    let rest = digits_value bound m s in if is_digit c && ltb m bound then rest else none

unfoldable pub parse_uint : ℕ → Text → Option ℕ
unfolding digits_value
parse_uint bound [] = none
parse_uint bound (c ∷ []) = if is_digit c then digits_value bound 0 (c ∷ []) else none
parse_uint bound (c ∷ d ∷ s) =
    if nat_beq c b'+' then digits_value bound 0 (d ∷ s) else digits_value bound 0 (c ∷ d ∷ s)

-- The first item on which the body of a `for` loop returns.
unfoldable pub find_map {ℓ κ} : {A : Type ℓ} {B : Type κ} → (A → Option B) → List A → Option B
find_map f [] = none
find_map f (x ∷ xs) = let rest = find_map f xs in elim (f x) [ none ↦ rest | some b ↦ some b ]

-- `u64::from_str_radix(s, 16)`
hex_digit : ℕ → Option ℕ
unfolding is_digit
hex_digit c =
    if is_digit c
    then some (c - b'0')
    else if leb b'a' c && leb c b'f'
    then some (c - 87)
    else if leb b'A' c && leb c b'F'
    then some (c - 55)
    else none

hex_value : ℕ → ℕ → Text → Option ℕ
unfolding hex_digit
hex_value bound n [] = some n
hex_value bound n (c ∷ s) = elim (hex_digit c) [
  | none ↦ none
  | some d ↦ elim (ltb (n * 16 + d) bound) [ true ↦ hex_value bound (n * 16 + d) s | false ↦ none ]
]

unfoldable pub parse_hex : ℕ → Text → Option ℕ
unfolding hex_value
parse_hex bound [] = none
parse_hex bound (c ∷ []) = hex_value bound 0 (c ∷ [])
parse_hex bound (c ∷ d ∷ s) =
    if nat_beq c b'+' then hex_value bound 0 (d ∷ s) else hex_value bound 0 (c ∷ d ∷ s)
