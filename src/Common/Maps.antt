-- ===== src/Common/Maps.antt =====
-- Go maps as association lists, over a key type with a Boolean equality.
use Prim.Native.Nat.{ℕ, ◌+◌, ◌≤◌}
use mathlib.Core.Path.{◌≡◌, refl}
use mathlib.Core.Bool.{Bool, true, false}
use mathlib.Core.Option.{Option, none, some}
use mathlib.Core.List.{List, [], ◌∷◌}
use native.Mathlib.Omega.{arith}
use wago_emscripten.Common.Tests.{◌==◌, ==→eq, ==_refl, if◌then◌else◌}
use wago_emscripten.Common.Lists.{length, bytes_eq, bytes_eq→eq, bytes_eq_refl}

pub record Eq {ℓ} (K : Type ℓ) : Type ℓ where
  pub beq : K → K → Bool
  pub beq→eq : (a b : K) → beq a b ≡ true → a ≡ b
  pub beq_refl : (a : K) → beq a a ≡ true

abbrev nat_beq : ℕ → ℕ → Bool
nat_beq a b = a == b

instance abbrev pub nat_eq : Eq ℕ
nat_eq = record { beq = nat_beq; beq→eq = ==→eq; beq_refl = ==_refl }

instance abbrev pub bytes_key : Eq (List ℕ)
bytes_key = record { beq = bytes_eq; beq→eq = bytes_eq→eq; beq_refl = bytes_eq_refl }

abbrev pub Map {ℓ κ} : Type ℓ → Type κ → Type (ℓ ⊔ κ)
Map K V = List (K × V)

abbrev pub weight? {κ} : {V : Type κ} → (V → ℕ) → Option V → ℕ
weight? w none = 0
weight? w (some v) = w v

module _ {ℓ κ} {K : Type ℓ} {V : Type κ} ⦃e : Eq K⦄ where
  -- `m[k]`, with `none` for a missing key.
  unfoldable pub lookup : K → Map K V → Option V
  lookup k [] = none
  lookup k ((j, v) ∷ m) = if e.beq j k then some v else lookup k m

  -- `m[k] = v`
  unfoldable pub insert : K → V → Map K V → Map K V
  insert k v [] = (k, v) ∷ []
  insert k v ((j, w) ∷ m) = if e.beq j k then (j, v) ∷ m else (j, w) ∷ insert k v m

  -- `delete(m, k)`
  unfoldable pub erase : K → Map K V → Map K V
  erase k [] = []
  erase k ((j, w) ∷ m) = if e.beq j k then m else (j, w) ∷ erase k m

  -- No key stands twice, as in every Go map.
  abbrev pub UniqueKeys : Map K V → Type κ
  UniqueKeys [] = Unit
  UniqueKeys ((k, v) ∷ m) = (lookup k m ≡ none) × UniqueKeys m

  -- A sum over the values, each with its weight.
  unfoldable pub sum_by : (V → ℕ) → Map K V → ℕ
  sum_by w [] = 0
  sum_by w ((k, v) ∷ m) = w v + sum_by w m

  pub lookup-insert :
      (k j : K) (v : V) (m : Map K V)
      → lookup j (insert k v m) ≡ (if e.beq k j then some v else lookup j m)
  unfolding lookup insert
  lookup-insert k j v [] = refl
  lookup-insert k j v ((i, w) ∷ m) = ground (
    arith,
    e.beq→eq i k,
    e.beq→eq i j,
    e.beq→eq k j,
    e.beq_refl i,
    e.beq_refl k,
    lookup-insert k j v m,
  )

  pub lookup-insert_self : (k : K) (v : V) (m : Map K V) → lookup k (insert k v m) ≡ some v
  lookup-insert_self k v m = rw lookup-insert (rw (e.beq_refl k))

  pub lookup-erase_ne :
      (k j : K) (m : Map K V) → e.beq k j ≡ false → lookup j (erase k m) ≡ lookup j m
  unfolding lookup erase
  lookup-erase_ne k j [] h = refl
  lookup-erase_ne k j ((i, w) ∷ m) h = ground (arith, e.beq→eq i k, lookup-erase_ne k j m)

  pub lookup-erase_self : (k : K) (m : Map K V) → UniqueKeys m → lookup k (erase k m) ≡ none
  unfolding lookup erase
  lookup-erase_self k [] u = refl
  lookup-erase_self k ((i, w) ∷ m) (fresh, u) =
      ground (arith, e.beq→eq i k, lookup-erase_self k m u)

  pub insert-UniqueKeys : (k : K) (v : V) (m : Map K V) → UniqueKeys m → UniqueKeys (insert k v m)
  unfolding lookup insert
  insert-UniqueKeys k v [] u = (refl, tt)
  insert-UniqueKeys k v ((i, w) ∷ m) (fresh, u) = ground (
    arith,
    e.beq→eq k i,
    e.beq→eq i k,
    e.beq_refl i,
    lookup-insert k i v m,
    insert-UniqueKeys k v m u,
  )

  pub erase-UniqueKeys : (k : K) (m : Map K V) → UniqueKeys m → UniqueKeys (erase k m)
  unfolding lookup erase
  erase-UniqueKeys k [] u = tt
  erase-UniqueKeys k ((i, w) ∷ m) (fresh, u) =
      ground (arith, e.beq→eq k i, e.beq_refl i, lookup-erase_ne k i m, erase-UniqueKeys k m u)

  -- Writing a key takes the weight of the old value out and puts that of the new one in.
  pub sum_by-insert :
      (w : V → ℕ) (k : K) (v : V) (m : Map K V)
      → sum_by w (insert k v m) + weight? w (lookup k m) ≡ sum_by w m + w v
  unfolding sum_by insert lookup
  sum_by-insert w k v [] = omega arith
  sum_by-insert w k v ((i, x) ∷ m) = ground (arith, sum_by-insert w k v m)

  pub sum_by-erase :
      (w : V → ℕ) (k : K) (m : Map K V) → sum_by w (erase k m) + weight? w (lookup k m) ≡ sum_by w m
  unfolding sum_by erase lookup
  sum_by-erase w k [] = omega arith
  sum_by-erase w k ((i, x) ∷ m) = ground (arith, sum_by-erase w k m)

  pub weight-le-sum_by : (w : V → ℕ) (k : K) (m : Map K V) → weight? w (lookup k m) ≤ sum_by w m
  weight-le-sum_by w k m = omega (arith, sum_by-erase w k m)

  pub length-insert :
      (k : K) (v : V) (m : Map K V)
      → length (insert k v m) ≡ (elim (lookup k m) [ none ↦ length m + 1 | some _ ↦ length m ])
  unfolding insert lookup
  length-insert k v [] = omega arith
  length-insert k v ((i, x) ∷ m) = ground (arith, length-insert k v m)

  pub length-erase : (k : K) (m : Map K V) → length (erase k m) ≤ length m
  unfolding erase
  length-erase k [] = omega arith
  length-erase k ((i, x) ∷ m) = ground (arith, length-erase k m)
