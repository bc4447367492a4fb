-- ===== src/Parser/Header/Panics.antt =====
-- The text between angle brackets, and the order of brackets that ends the thread.
use minghe.Prelude.{ℕ, ◌+◌, ◌<◌, ◌≡◌, ◌≢◌, ap, sym, ◌∙◌, [], ◌∷◌, ◌++◌, some, arith, append_assoc}
use minghe.Prelude.{All, length, length-append, codes}
use minghe.Text.{Text, panics, returns, slice, find, starts_with, is_empty}
use minghe.Parser.Header.{
  between_brackets, extract_extension, user_part, without_scheme, or_whole, ◌>>=◌,
}

abbrev pub Without : ℕ → Text → Type 0
Without c s = All (λ x. x ≢ c) s

find-first : (c : ℕ) (a b : Text) → Without c a → find (c ∷ []) (a ++ (c ∷ b)) ≡ some (length a)
unfolding find starts_with is_empty
find-first c [] b h = ground arith
find-first c (x ∷ a) b h = ground (arith, find-first c a b h.1)

Without-append : (c : ℕ) (a b : Text) → Without c a → Without c b → Without c (a ++ b)
Without-append c [] b h k = k
Without-append c (x ∷ a) b h k = (h.0, Without-append c a b h.1 k)

between_brackets-at :
    (s : Text) (i j : ℕ)
    → find (codes "<") s ≡ some i
    → find (codes ">") s ≡ some j
    → between_brackets s ≡ (slice s (i + 1) j >>= λ inner. returns (some inner))
unfolding between_brackets
between_brackets-at s i j h k = ground (arith, ap (λ o. o) h, k)

slice-reversed : (s : Text) (i j : ℕ) → j < i → slice s i j ≡ panics
slice-reversed s i j lt = ground arith

between_brackets-reversed :
    (s : Text) (i j : ℕ)
    → find (codes "<") s ≡ some i
    → find (codes ">") s ≡ some j
    → j < i
    → between_brackets s ≡ panics
between_brackets-reversed s i j h k lt =
    between_brackets-at s i j h k
    ∙ ap (λ o. o >>= λ inner. returns (some inner)) (slice-reversed s (i + 1) j (omega (arith, lt)))

-- Any text whose first `>` comes before its first `<` makes the extraction of the extension panic.
pub extract_extension-panics :
    (a b c : Text)
    → Without b'<' a
    → Without b'>' a
    → Without b'<' b
    → extract_extension (a ++ (b'>' ∷ (b ++ (b'<' ∷ c)))) ≡ panics
unfolding extract_extension
extract_extension-panics a b c na nb nc =
    let s = a ++ (b'>' ∷ (b ++ (b'<' ∷ c))) in
    let front = a ++ (b'>' ∷ b) in
    let e : front ++ (b'<' ∷ c) ≡ s = append_assoc a (b'>' ∷ b) (b'<' ∷ c) in
    let opens : find (codes "<") s ≡ some (length front) =
      ap (find (codes "<")) (sym e)
      ∙ find-first b'<' front c (Without-append b'<' a (b'>' ∷ b) na (ground arith, nc)) in
    let closes = find-first b'>' a (b ++ (b'<' ∷ c)) nb in
    ap (λ o. o >>= λ inner. returns (user_part (without_scheme (or_whole s inner))))
      (between_brackets-reversed s (length front) (length a) opens closes
        (omega (arith, length-append a (b'>' ∷ b))))
