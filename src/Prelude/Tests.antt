-- ===== src/Prelude/Tests.antt =====
-- Boolean tests on the native numbers, the conditional, and the interface of equality.
use Prim.Native.Nat.{ℕ, ◌≤◌, ◌<◌, compare, Ordering}
use mathlib.Core.Path.{◌≡◌, refl}
use mathlib.Core.Logic.{◌↔◌, ◌⊎◌, inl, inr}
use mathlib.Core.Bool.{Bool, true, false, ◌&&◌}
use mathlib.Core.Option.{Option, none, some}
use mathlib.Core.List.{List, [], ◌∷◌}
use native.Mathlib.Omega.{arith}

abbrev pub ltb : ℕ → ℕ → Bool
ltb a b = elim (compare a b) [ Ordering.lt ↦ true | _ ↦ false ]

abbrev pub leb : ℕ → ℕ → Bool
leb a b = elim (compare a b) [ Ordering.gt ↦ false | _ ↦ true ]

abbrev pub nat_beq : ℕ → ℕ → Bool
nat_beq a b = elim (compare a b) [ Ordering.eq ↦ true | _ ↦ false ]

infix 1 if◌then◌else◌
abbrev pub if◌then◌else◌ {ℓ} : {A : Type ℓ} → Bool → A → A → A
if true then x else y = x
if false then x else y = y

pub ltb→lt : (a b : ℕ) → ltb a b ≡ true → a < b
ltb→lt a b h = ground arith

pub lt→ltb : (a b : ℕ) → a < b → ltb a b ≡ true
lt→ltb a b h = ground arith

pub leb→le : (a b : ℕ) → leb a b ≡ true → a ≤ b
leb→le a b h = ground arith

pub nat_beq_iff : (a b : ℕ) → (nat_beq a b ≡ true) ↔ (a ≡ b)
nat_beq_iff a b = ground arith

pub Bool-cases : (b : Bool) → (b ≡ true) ⊎ (b ≡ false)
Bool-cases true = inl refl
Bool-cases false = inr refl

pub Option-cases {ℓ} : {A : Type ℓ} (o : Option A) → (o ≡ none) ⊎ ((a : A) × (o ≡ some a))
Option-cases none = inl refl
Option-cases (some a) = inr (a, refl)

-- Rust's `PartialEq` on the types that serve as keys.
infix 50 ◌==◌
pub record Eq {κ} (Key : Type κ) : Type κ where
  pub beq : (x y : Key) → Bool
  pub beq_iff : (x y : Key) → (beq x y ≡ true) ↔ (x ≡ y)

-- The operator of the interface.
abbrev pub ◌==◌ {κ} : {Key : Type κ} ⦃same : Eq Key⦄ → (x y : Key) → Bool
◌==◌ ⦃same⦄ x y = same.beq x y

pub ==_iff {κ} : {Key : Type κ} ⦃same : Eq Key⦄ (x y : Key) → ((x == y) ≡ true) ↔ (x ≡ y)
==_iff ⦃same⦄ x y = same.beq_iff x y

pub ==_refl {κ} : {Key : Type κ} ⦃same : Eq Key⦄ (x : Key) → (x == x) ≡ true
==_refl ⦃same⦄ x = (same.beq_iff x x).1 refl

instance abbrev pub nat_eq : Eq ℕ
nat_eq = record { beq = nat_beq; beq_iff = nat_beq_iff }

-- Texts and byte strings are lists of numbers.
abbrev pub list_beq : List ℕ → List ℕ → Bool
list_beq [] [] = true
list_beq [] (y ∷ ys) = false
list_beq (x ∷ xs) [] = false
list_beq (x ∷ xs) (y ∷ ys) = nat_beq x y && list_beq xs ys

pub list_beq_sound : (xs ys : List ℕ) → list_beq xs ys ≡ true → xs ≡ ys
list_beq_sound [] [] h = refl
list_beq_sound [] (y ∷ ys) h = ground arith
list_beq_sound (x ∷ xs) [] h = ground arith
list_beq_sound (x ∷ xs) (y ∷ ys) h = ground (arith, list_beq_sound xs ys)

list_beq_self : (xs : List ℕ) → list_beq xs xs ≡ true
list_beq_self [] = refl
list_beq_self (x ∷ xs) = ground (arith, list_beq_self xs)

pub list_beq_iff : (xs ys : List ℕ) → (list_beq xs ys ≡ true) ↔ (xs ≡ ys)
list_beq_iff xs ys = (list_beq_sound xs ys, λ e. rw e (list_beq_self ys))

instance abbrev pub list_eq : Eq (List ℕ)
list_eq = record { beq = list_beq; beq_iff = list_beq_iff }

-- A property of both branches is one of the test.
pub if-both {ℓ μ} :
    {A : Type ℓ} (P : A → Type μ) (b : Bool) (x y : A)
    → (b ≡ true → P x)
    → (b ≡ false → P y)
    → P (if b then x else y)
if-both P true x y h k = h refl
if-both P false x y h k = k refl
