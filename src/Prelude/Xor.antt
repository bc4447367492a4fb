-- ===== src/Prelude/Xor.antt =====
-- Exclusive or on binary numbers, for the ciphers that add a key stream to the data.
use Prim.Native.Nat.{ℕ, zero, suc, ◌+◌, ◌*◌, ◌/◌, ◌%◌, ◌≤◌, ◌<◌, bit_xor, bit_or, max}
use Prim.Native.Nat.{digits, differ, bit_xor-bitwise, bit_or-bitwise}
use mathlib.Core.Path.{◌≡◌, refl, sym, ap, ◌∙◌}
use mathlib.Core.Logic.{◌↔◌}
use native.Mathlib.Omega.{arith}

-- `bitwise` runs on fuel, of which any two sufficient amounts give the same number.
xor_fuel :
    (x y f g : ℕ) → x ≤ f → x ≤ g → digits (λ d. d) differ f x y ≡ digits (λ d. d) differ g x y
xor_fuel zero y zero zero le le' = refl
xor_fuel zero y zero (suc g) le le' = refl
xor_fuel zero y (suc f) zero le le' = refl
xor_fuel zero y (suc f) (suc g) le le' = refl
xor_fuel (suc x) y zero g le le' = absurd (omega (arith, le))
xor_fuel (suc x) y (suc f) zero le le' = absurd (omega (arith, le'))
xor_fuel (suc x) y (suc f) (suc g) le le' =
    let half = suc x / 2 in
    omega (arith, xor_fuel half (y / 2) f g (omega (arith, le)) (omega (arith, le')))

zero-xor : (b : ℕ) → bit_xor 0 b ≡ b
zero-xor b = bit_xor-bitwise 0 b

-- One digit at a time, with no fuel.
pub xor_step : (a b : ℕ) → bit_xor a b ≡ bit_xor (a / 2) (b / 2) * 2 + differ (a % 2) (b % 2)
xor_step zero b = omega (arith, zero-xor b, zero-xor (b / 2))
xor_step (suc a) b =
    let half = suc a / 2 in
    let enough = xor_fuel half (b / 2) a half (omega arith) (omega arith) in
    omega (arith, enough, bit_xor-bitwise half (b / 2), bit_xor-bitwise (suc a) b)

differ_digits : (x y : ℕ) → x < 2 → y < 2 → (differ (differ x y) y ≡ x) × (differ x y < 2)
differ_digits zero zero p q = (refl, omega arith)
differ_digits zero (suc zero) p q = (refl, omega arith)
differ_digits zero (suc (suc y)) p q = absurd (omega arith)
differ_digits (suc zero) zero p q = (refl, omega arith)
differ_digits (suc zero) (suc zero) p q = (refl, omega arith)
differ_digits (suc zero) (suc (suc y)) p q = absurd (omega arith)
differ_digits (suc (suc x)) y p q = absurd (omega arith)

-- The quotient and the last digit of an exclusive or.
xor_halves :
    (a b : ℕ)
    → (bit_xor a b / 2 ≡ bit_xor (a / 2) (b / 2)) × (bit_xor a b % 2 ≡ differ (a % 2) (b % 2))
xor_halves a b =
    let d = differ_digits (a % 2) (b % 2) (omega arith) (omega arith) in
    (omega (arith, xor_step a b, d.1), omega (arith, xor_step a b, d.1))

xor-xor_fuel : (n a b : ℕ) → a ≤ n → b ≤ n → bit_xor (bit_xor a b) b ≡ a
xor-xor_fuel zero zero zero p q = refl
xor-xor_fuel zero zero (suc b) p q = absurd (omega arith)
xor-xor_fuel zero (suc a) b p q = absurd (omega arith)
xor-xor_fuel (suc n) a b p q =
    let d = differ_digits (a % 2) (b % 2) (omega arith) (omega arith) in
    let h = xor_halves a b in
    rw (xor_step (bit_xor a b) b, h.0, h.1, d.0)
      (omega (arith, xor-xor_fuel n (a / 2) (b / 2) (omega arith) (omega arith)))

-- The same key stream, added again, gives the data back.
pub xor-xor : (a b : ℕ) → bit_xor (bit_xor a b) b ≡ a
xor-xor a b = xor-xor_fuel (a + b) a b (omega arith) (omega arith)

xor_self : (a : ℕ) → bit_xor a a ≡ 0
xor_self a = rw (zero-xor a) at (xor-xor 0 a)

-- No bit differs exactly when the numbers are the same.
pub xor_zero_iff : (a b : ℕ) → (bit_xor a b ≡ 0) ↔ (a ≡ b)
xor_zero_iff a b = (
  λ h. omega (arith, ap (λ (t : ℕ). bit_xor t b) h, xor-xor a b, zero-xor b),
  λ e. rw e (xor_self b),
)

or_zero_fuel : (n a b : ℕ) → a ≤ n → digits (λ y. y) max n a b ≡ 0 → (a ≡ 0) × (b ≡ 0)
or_zero_fuel zero zero b p h = (refl, h)
or_zero_fuel zero (suc a) b p h = absurd (omega arith)
or_zero_fuel (suc n) zero b p h = (refl, h)
or_zero_fuel (suc n) (suc a) b p h =
    let r = or_zero_fuel n (suc a / 2) (b / 2) (omega arith) (omega arith) in
    (omega arith, omega arith)

-- An or has no bit exactly when neither side has one.
pub or_zero_iff : (a b : ℕ) → (bit_or a b ≡ 0) ↔ ((a ≡ 0) × (b ≡ 0))
or_zero_iff a b = (
  λ h. or_zero_fuel a a b (omega arith) (sym (bit_or-bitwise a b) ∙ h),
  λ e. rw (e.0, e.1) (bit_or-bitwise 0 0),
)
