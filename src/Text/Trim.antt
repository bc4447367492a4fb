-- ===== src/Text/Trim.antt =====
-- Texts that have no spaces to trim.
use mathlib.Core.List.{reverse, reverse-append, reverse-reverse}
use minghe.Prelude.{
  ℕ, ◌≡◌, refl, ap, sym, subst, ◌∙◌, false, [], ◌∷◌, ◌++◌, arith, append_assoc, All, Bool-cases,
  inl, inr,
}
use minghe.Text.{Text, is_whitespace, trim, trim_start}

abbrev pub Solid : Text → Type 0
Solid s = All (λ c. is_whitespace c ≡ false) s

trim_start-solid : (c : ℕ) (s : Text) → is_whitespace c ≡ false → trim_start (c ∷ s) ≡ c ∷ s
unfolding trim_start
trim_start-solid c s h = ground arith

-- A text is its last byte behind the others.
pub unsnoc : (c : ℕ) (s : Text) → (front : Text) × (last : ℕ) × (c ∷ s ≡ front ++ (last ∷ []))
unsnoc c [] = ([], c, refl)
unsnoc c (d ∷ s) = let (front, last, e) = unsnoc d s in (c ∷ front, last, ap (◌∷◌ c) e)

-- A text that begins and ends with other bytes than spaces keeps the spaces inside.
pub trim_ends :
    (c d : ℕ) (m : Text)
    → is_whitespace c ≡ false
    → is_whitespace d ≡ false
    → trim (c ∷ (m ++ (d ∷ []))) ≡ c ∷ (m ++ (d ∷ []))
unfolding trim
trim_ends c d m hc hd =
    let whole = c ∷ (m ++ (d ∷ [])) in
    let e : reverse whole ≡ d ∷ reverse (c ∷ m) = reverse-append (c ∷ m) (d ∷ []) in
    ap (λ t. reverse (trim_start (reverse t))) (trim_start-solid c (m ++ (d ∷ [])) hc)
    ∙ ap (λ t. reverse (trim_start t)) e
    ∙ ap reverse (trim_start-solid d (reverse (c ∷ m)) hd)
    ∙ ap reverse (sym e)
    ∙ reverse-reverse whole

Solid-last : (front : Text) (last : ℕ) → Solid (front ++ (last ∷ [])) → is_whitespace last ≡ false
Solid-last [] last h = h.0
Solid-last (c ∷ front) last h = Solid-last front last h.1

-- What is in front of a text without spaces may have spaces inside, if it begins with none.
pub trim_behind :
    (c d : ℕ) (m s : Text)
    → is_whitespace c ≡ false
    → Solid (d ∷ s)
    → trim (c ∷ (m ++ (d ∷ s))) ≡ c ∷ (m ++ (d ∷ s))
trim_behind c d m s hc h =
    let (front, last, e) = unsnoc d s in
    let whole : c ∷ (m ++ (d ∷ s)) ≡ c ∷ ((m ++ front) ++ (last ∷ [])) =
      ap (λ t. c ∷ (m ++ t)) e ∙ ap (◌∷◌ c) (sym (append_assoc m front (last ∷ []))) in
    ap trim whole
    ∙ trim_ends c last (m ++ front) hc (Solid-last front last (subst Solid e h))
    ∙ sym whole

pub trim-Solid : (s : Text) → Solid s → trim s ≡ s
trim-Solid [] h = unfold trim trim_start in refl
trim-Solid (c ∷ []) h = unfold trim in ground (arith, trim_start-solid c [] h.0)
trim-Solid (c ∷ d ∷ s) h = trim_behind c d [] s h.0 h.1

trim_start-behind :
    (s : Text) (c : ℕ)
    → is_whitespace c ≡ false
    → (t : Text) × (trim_start (s ++ (c ∷ [])) ≡ t ++ (c ∷ []))
unfolding trim_start
trim_start-behind [] c h = ([], ground arith)
trim_start-behind (x ∷ s) c h = elim (Bool-cases (is_whitespace x)) [
  | inl space ↦ let (t, e) = trim_start-behind s c h in (t, ground arith)
  | inr solid ↦ (x ∷ s, ground arith)
]

-- Trimming keeps a first byte that is no space.
pub trim-first : (c : ℕ) (s : Text) → is_whitespace c ≡ false → (t : Text) × (trim (c ∷ s) ≡ c ∷ t)
unfolding trim
trim-first c s h =
    let (t, e) = trim_start-behind (reverse s) c h in
    (
      reverse t,
      ap (λ u. reverse (trim_start (reverse u))) (trim_start-solid c s h)
          ∙ ap (λ u. reverse (trim_start u)) (reverse-append (c ∷ []) s)
          ∙ ap reverse e
          ∙ reverse-append t (c ∷ []),
    )
