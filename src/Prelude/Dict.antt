-- ===== src/Prelude/Dict.antt =====
-- Rust's `HashMap` as an association list: the program never depends on the order of the entries.
use Prim.Native.Nat.{◌+◌, ◌≤◌}
use mathlib.Core.Path.{◌≡◌, refl}
use mathlib.Core.Bool.{Bool}
use mathlib.Core.Option.{Option, none, some}
use mathlib.Core.List.{List, [], ◌∷◌}
use native.Mathlib.Omega.{arith}
use minghe.Prelude.Tests.{if◌then◌else◌, Eq, ◌==◌}
use minghe.Prelude.Lists.{length, All}

abbrev pub Dict {ℓ κ} : Type ℓ → Type κ → Type (ℓ ⊔ κ)
Dict K V = List (K × V)

module _ {ℓ κ} {K : Type ℓ} ⦃e : Eq K⦄ {V : Type κ} where
  -- `map.get(k)`
  unfoldable pub get : K → Dict K V → Option V
  get key ((k, value) ∷ map) = let further = get key map in if k == key then some value else further
  get key [] = none

  -- `map.insert(k, v)`
  unfoldable pub insert : K → V → Dict K V → Dict K V
  insert key value ((k, v) ∷ map) =
      let behind = insert key value map in if k == key then (key, value) ∷ map else (k, v) ∷ behind
  insert key value [] = (key, value) ∷ []

  -- `map.remove(k)`
  unfoldable pub remove : K → Dict K V → Dict K V
  remove k [] = []
  remove k ((j, v) ∷ m) = let rest = remove k m in if j == k then rest else (j, v) ∷ rest

  pub get-insert :
      (k j : K) (v : V) (m : Dict K V) → get j (insert k v m) ≡ (if k == j then some v else get j m)
  unfolding get insert
  get-insert k j v [] = refl
  get-insert k j v ((i, w) ∷ m) =
      ground (arith, e.beq_iff k j, e.beq_iff i k, e.beq_iff i j, get-insert k j v m)

  pub get-remove :
      (k j : K) (m : Dict K V) → get j (remove k m) ≡ (if k == j then none else get j m)
  unfolding get remove
  get-remove k j [] = ground arith
  get-remove k j ((i, w) ∷ m) =
      ground (arith, e.beq_iff k j, e.beq_iff i k, e.beq_iff i j, get-remove k j m)

  pub length-insert-le : (k : K) (v : V) (m : Dict K V) → length (insert k v m) ≤ length m + 1
  unfolding insert
  length-insert-le k v [] = omega arith
  length-insert-le k v ((j, w) ∷ m) = ground (arith, length-insert-le k v m)

  -- A write to a key that is there changes no length.
  pub length-insert_present :
      (k : K) (v w : V) (m : Dict K V) → get k m ≡ some w → length (insert k v m) ≡ length m
  unfolding insert get
  length-insert_present k v w [] h = ground arith
  length-insert_present k v w ((j, u) ∷ m) h = ground (arith, length-insert_present k v w m)

  pub length-insert_absent :
      (k : K) (v : V) (m : Dict K V) → get k m ≡ none → length (insert k v m) ≡ length m + 1
  unfolding insert get
  length-insert_absent k v [] h = omega arith
  length-insert_absent k v ((j, u) ∷ m) h = ground (arith, length-insert_absent k v m)

  pub length-remove-le : (k : K) (m : Dict K V) → length (remove k m) ≤ length m
  unfolding remove
  length-remove-le k [] = omega arith
  length-remove-le k ((j, w) ∷ m) = ground (arith, length-remove-le k m)

  pub length-remove_present :
      (k : K) (w : V) (m : Dict K V) → get k m ≡ some w → length (remove k m) + 1 ≤ length m
  unfolding remove get
  length-remove_present k w [] h = ground arith
  length-remove_present k w ((j, u) ∷ m) h =
      ground (arith, length-remove-le k m, length-remove_present k w m)

module _ {ℓ κ} {K : Type ℓ} {V : Type κ} where
  -- `map.retain(|_, v| p(v))`
  unfoldable pub retain_values : (V → Bool) → Dict K V → Dict K V
  retain_values p [] = []
  retain_values p ((k, v) ∷ m) = let rest = retain_values p m in if p v then (k, v) ∷ rest else rest

  pub length-retain_values-le :
      (p : V → Bool) (m : Dict K V) → length (retain_values p m) ≤ length m
  unfolding retain_values
  length-retain_values-le p [] = omega arith
  length-retain_values-le p ((k, v) ∷ m) = ground (arith, length-retain_values-le p m)

abbrev pub kept {κ} : {V : Type κ} → (V → Bool) → Option V → Option V
kept p none = none
kept p (some v) = if p v then some v else none

module _ {ℓ κ} {K : Type ℓ} ⦃e : Eq K⦄ {V : Type κ} where
  -- Every key once, as in a `HashMap`.
  abbrev pub Distinct : Dict K V → Type κ
  Distinct [] = Unit
  Distinct ((k, v) ∷ m) = (get k m ≡ none) × Distinct m

  get-retain_absent :
      (p : V → Bool) (k : K) (m : Dict K V) → get k m ≡ none → get k (retain_values p m) ≡ none
  unfolding get retain_values
  get-retain_absent p k [] h = refl
  get-retain_absent p k ((j, v) ∷ m) h = ground (arith, get-retain_absent p k m)

  pub get-retain_values :
      (p : V → Bool) (k : K) (m : Dict K V)
      → Distinct m
      → get k (retain_values p m) ≡ kept p (get k m)
  unfolding get retain_values
  get-retain_values p k [] d = refl
  get-retain_values p k ((j, v) ∷ m) d =
      ground (arith, get-retain_values p k m d.1, get-retain_absent p j m d.0, e.beq_iff j k)

  pub Distinct-retain_values :
      (p : V → Bool) (m : Dict K V) → Distinct m → Distinct (retain_values p m)
  unfolding retain_values
  Distinct-retain_values p [] d = tt
  Distinct-retain_values p ((j, v) ∷ m) d =
      ground (arith, get-retain_absent p j m d.0, Distinct-retain_values p m d.1)

  pub Distinct-insert : (k : K) (v : V) (m : Dict K V) → Distinct m → Distinct (insert k v m)
  unfolding insert get
  Distinct-insert k v [] d = ground arith
  Distinct-insert k v ((j, w) ∷ m) d =
      ground (arith, get-insert k j v m, Distinct-insert k v m d.1, e.beq_iff j k, e.beq_iff k j)

  pub Distinct-remove : (k : K) (m : Dict K V) → Distinct m → Distinct (remove k m)
  unfolding remove
  Distinct-remove k [] d = tt
  Distinct-remove k ((j, w) ∷ m) d = ground (arith, get-remove k j m, Distinct-remove k m d.1)

  pub All-insert {μ} :
      (P : K × V → Type μ) (k : K) (v : V) (m : Dict K V)
      → P (k, v)
      → All P m
      → All P (insert k v m)
  unfolding insert
  All-insert P k v [] p h = (p, tt)
  All-insert P k v ((j, w) ∷ m) p h = ground (arith, All-insert P k v m p h.1)
