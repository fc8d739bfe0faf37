-- ===== src/Prelude/Storage.antt =====
-- A contract's storage under one family of keys: an association list in which a key stands once.
use Prim.Native.Nat.{ℕ, ◌+◌, ◌≤◌}
use mathlib.Core.Path.{◌≡◌, refl, subst}
use mathlib.Core.Bool.{Bool, true, false}
use mathlib.Core.Option.{Option, none, some}
use mathlib.Core.Logic.{inl, inr}
use mathlib.Core.List.{List, [], ◌∷◌}
use native.Mathlib.Omega.{arith}
use stellar_soroban_contract.Prelude.Tests.{if◌then◌else◌, Bool-cases, Comparable, ◌==◌, beq→eq}
use stellar_soroban_contract.Prelude.Int.{ℤ, pos, ◌+ℤ◌, int_laws}

abbrev pub Store {ℓ κ} : Type ℓ → Type κ → Type (ℓ ⊔ κ)
Store K V = List (K × V)

module _ {ℓ κ} {K : Type ℓ} {V : Type κ} where
  -- The sum of a measure over all entries.
  unfoldable pub total : (K → V → ℤ) → Store K V → ℤ
  total f [] = pos 0
  total f ((k, v) ∷ m) = f k v +ℤ total f m

  -- The same over natural numbers.
  unfoldable pub sum_of : (K → V → ℕ) → Store K V → ℕ
  sum_of f [] = 0
  sum_of f ((k, v) ∷ m) = f k v + sum_of f m

-- What an entry counts, where there is one.
abbrev pub part_of {κ} : {V : Type κ} → (V → ℕ) → Option V → ℕ
part_of f none = 0
part_of f (some v) = f v

abbrev pub measure_of {κ} : {V : Type κ} → (V → ℤ) → Option V → ℤ
measure_of f none = pos 0
measure_of f (some v) = f v

module _ {ℓ κ} {K : Type ℓ} {V : Type κ} ⦃e : Comparable K⦄ where
  unfoldable pub lookup : K → Store K V → Option V
  lookup k [] = none
  lookup k ((j, v) ∷ m) = if k == j then some v else lookup k m

  unfoldable pub insert : K → V → Store K V → Store K V
  insert k v [] = (k, v) ∷ []
  insert k v ((j, w) ∷ m) = if k == j then (k, v) ∷ m else (j, w) ∷ insert k v m

  unfoldable pub remove : K → Store K V → Store K V
  remove k [] = []
  remove k ((j, w) ∷ m) = let rest = remove k m in if k == j then rest else (j, w) ∷ rest

  abbrev pub has : K → Store K V → Bool
  has k m = elim (lookup k m) [ none ↦ false | some _ ↦ true ]

  abbrev pub lookup_or : V → K → Store K V → V
  lookup_or d k m = elim (lookup k m) [ none ↦ d | some v ↦ v ]

  pub lookup-insert :
      (j k : K) (v : V) (m : Store K V)
      → lookup j (insert k v m) ≡ (if j == k then some v else lookup j m)
  unfolding lookup insert
  lookup-insert j k v [] = refl
  lookup-insert j k v ((i, w) ∷ m) = ground (
    arith,
    e.same_sound j k,
    e.same_sound k i,
    e.same_sound j i,
    e.same_self j,
    e.same_self k,
    lookup-insert j k v m,
  )

  pub lookup-remove :
      (j k : K) (m : Store K V) → lookup j (remove k m) ≡ (if j == k then none else lookup j m)
  unfolding lookup remove
  lookup-remove j k [] = ground arith
  lookup-remove j k ((i, w) ∷ m) = ground (
    arith,
    e.same_sound j k,
    e.same_sound k i,
    e.same_sound j i,
    e.same_self j,
    e.same_self k,
    lookup-remove j k m,
  )

  pub total-insert :
      (f : K → V → ℤ) (k : K) (v : V) (m : Store K V)
      → total f (insert k v m) +ℤ measure_of (f k) (lookup k m) ≡ total f m +ℤ f k v
  unfolding total insert lookup
  total-insert f k v [] = omega int_laws
  total-insert f k v ((j, w) ∷ m) = elim (Bool-cases (k == j)) [
    | inl same ↦
        let key : k ≡ j = beq→eq k j same in
        rw same (
          subst (λ i. f k v +ℤ total f m +ℤ f k w ≡ f i w +ℤ total f m +ℤ f k v) key
            (omega int_laws))
    | inr other ↦ rw other (grind (int_laws, total-insert f k v m))
  ]

  pub lookup_or-insert :
      (d : V) (j k : K) (v : V) (m : Store K V)
      → lookup_or d j (insert k v m) ≡ (if j == k then v else lookup_or d j m)
  lookup_or-insert d j k v m =
      rw (lookup-insert j k v m, lookup_or)
        (elim (Bool-cases (j == k)) [ inl same ↦ rw same refl | inr other ↦ rw other refl ])

  pub sum_of-insert :
      (f : K → V → ℕ) (k : K) (v : V) (m : Store K V)
      → sum_of f (insert k v m) + part_of (f k) (lookup k m) ≡ sum_of f m + f k v
  unfolding sum_of insert lookup
  sum_of-insert f k v [] = omega arith
  sum_of-insert f k v ((j, w) ∷ m) = elim (Bool-cases (k == j)) [
    | inl same ↦
        let key : k ≡ j = beq→eq k j same in
        rw same
          (subst (λ i. f k v + sum_of f m + f k w ≡ f i w + sum_of f m + f k v) key (omega arith))
    | inr other ↦ rw other (omega (arith, sum_of-insert f k v m))
  ]

  pub part_of-le-sum_of :
      (f : K → V → ℕ) (k : K) (m : Store K V) → part_of (f k) (lookup k m) ≤ sum_of f m
  unfolding sum_of lookup
  part_of-le-sum_of f k [] = omega arith
  part_of-le-sum_of f k ((j, w) ∷ m) = elim (Bool-cases (k == j)) [
    | inl same ↦ rw same (subst (λ i. f k w ≤ f i w + sum_of f m) (beq→eq k j same) (omega arith))
    | inr other ↦ rw other (omega (arith, part_of-le-sum_of f k m))
  ]
