-- ===== src/Parser/Response/Numbers.antt =====
-- Decimal numbers read back.
use native.Mathlib.Decide.{dec_lt}
use minghe.Prelude.{
  ℕ, zero, suc, ◌+◌, ◌/◌, ◌%◌, ◌<◌, ◌≡◌, refl, ◌∙◌, [], ◌∷◌, ◌++◌, some, arith, true, All, ltb,
  if-both,
}
use minghe.Text.{Text, digits_value, parse_uint, is_digit}
use minghe.Parser.Response.{decimal, decimal_from}

-- The digits of a number are written in front of what is there.
decimal_from-append :
    (fuel n : ℕ) (acc more : Text)
    → decimal_from fuel n (acc ++ more) ≡ decimal_from fuel n acc ++ more
unfolding decimal_from
decimal_from-append zero n acc more = refl
decimal_from-append (suc fuel) n acc more =
    ground (arith, decimal_from-append fuel (n / 10) ((n % 10 + b'0') ∷ acc) more)

-- Reading the digits of `n` and then `acc` is reading `acc` from the value `n` on.
digits_value-decimal :
    (fuel bound n : ℕ) (acc : Text)
    → n < fuel
    → n < bound
    → digits_value bound 0 (decimal_from fuel n acc) ≡ digits_value bound n acc
unfolding decimal_from digits_value is_digit
digits_value-decimal zero bound n acc h k = absurd (omega arith)
digits_value-decimal (suc fuel) bound n acc h k =
    ground (arith, digits_value-decimal fuel bound (n / 10) ((n % 10 + b'0') ∷ acc))

-- What a decimal number consists of.
abbrev pub Digits : Text → Type 0
Digits s = All (λ c. is_digit c ≡ true) s

decimal_from-Digits :
    (fuel n : ℕ) (acc : Text) → n < fuel → Digits acc → Digits (decimal_from fuel n acc)
unfolding decimal_from is_digit
decimal_from-Digits zero n acc h d = d
decimal_from-Digits (suc fuel) n acc h d =
    if-both Digits (ltb n 10) _ _ (λ small. (ground arith, d))
      (λ big.
        decimal_from-Digits fuel (n / 10) ((n % 10 + b'0') ∷ acc) (ground arith) (ground arith, d))

pub decimal-Digits : (n : ℕ) → Digits (decimal n)
unfolding decimal
decimal-Digits n = decimal_from-Digits (n + 1) n [] (omega arith) tt

decimal_from-starts :
    (fuel n : ℕ) (acc : Text) → n < fuel → (c : ℕ) × (s : Text) × (decimal_from fuel n acc ≡ c ∷ s)
unfolding decimal_from
decimal_from-starts zero n acc h = absurd (omega arith)
decimal_from-starts (suc fuel) n acc h = elim (dec_lt n 10) [
  | yes small ↦ (n + b'0', acc, ground arith)
  | no big ↦
      let (c, s, e) = decimal_from-starts fuel (n / 10) ((n % 10 + b'0') ∷ acc) (omega arith) in
      (c, s, ground arith)
]

parse_uint-Digits :
    (bound : ℕ) (s : Text) (c : ℕ) (r : Text)
    → s ≡ c ∷ r
    → Digits s
    → parse_uint bound s ≡ digits_value bound 0 s
unfolding parse_uint is_digit
parse_uint-Digits bound [] c r e d = absurd (ground arith)
parse_uint-Digits bound (x ∷ []) c r e d = ground arith
parse_uint-Digits bound (x ∷ y ∷ s) c r e d = ground arith

-- A number that fits the type is read back from its decimal form.
pub parse_uint-decimal : (bound n : ℕ) → n < bound → parse_uint bound (decimal n) ≡ some n
unfolding decimal
parse_uint-decimal bound n h =
    let (c, r, e) = decimal_from-starts (n + 1) n [] (omega arith) in
    parse_uint-Digits bound (decimal n) c r e (decimal-Digits n)
    ∙ digits_value-decimal (n + 1) bound n [] (omega arith) h
    ∙ (unfold digits_value in refl)
