-- ===== src/Text/Laws.antt =====
-- Laws of the text operations.
use minghe.Prelude.{ℕ, ◌+◌, ◌-◌, ◌≤◌, ◌≡◌, refl, true, [], ◌∷◌, ◌++◌, some, arith, length}
use minghe.Text.{Text, starts_with, find}

pub starts_with-length : (p s : Text) → starts_with p s ≡ true → length p ≤ length s
unfolding starts_with
starts_with-length [] s h = omega arith
starts_with-length (c ∷ p) [] h = cc
starts_with-length (c ∷ p) (d ∷ s) h = ground (arith, starts_with-length p s)

-- A prefix that fits the front part is a prefix of the front part.
starts_with-front :
    (p s rest : Text) → length p ≤ length s → starts_with p (s ++ rest) ≡ starts_with p s
unfolding starts_with
starts_with-front [] s rest h = refl
starts_with-front (c ∷ p) [] rest h = absurd (omega arith)
starts_with-front (c ∷ p) (d ∷ s) rest h = ground (arith, starts_with-front p s rest (omega arith))

-- An occurrence lies inside the text.
pub find_bound : (p s : Text) (i : ℕ) → find p s ≡ some i → i + length p ≤ length s
unfolding find
find_bound [] [] i h = ground arith
find_bound (c ∷ p) [] i h = ground arith
find_bound p (d ∷ s) i h = ground (arith, starts_with-length p (d ∷ s), find_bound p s (i - 1))

-- The first occurrence stays the first when the text goes on.
pub find-append : (p s rest : Text) (i : ℕ) → find p s ≡ some i → find p (s ++ rest) ≡ some i
unfolding find
find-append [] [] [] i h = h
find-append [] [] (r ∷ rest) i h = ground arith
find-append (c ∷ p) [] rest i h = ground arith
find-append p (d ∷ s) rest i h = ground (
  arith,
  starts_with-front p (d ∷ s) rest,
  find_bound p (d ∷ s) i h,
  find-append p s rest (i - 1),
)
