-- ===== src/Prelude/Lists.antt =====
-- Lists measured by the native numbers: a Soroban `Vec`.
use Prim.Native.Nat.{ℕ, zero, suc, ◌+◌}
use mathlib.Core.Path.{◌≡◌, refl}
use mathlib.Core.Bool.{Bool, false, ◌||◌}
use mathlib.Core.Option.{Option, none, some}
use mathlib.Core.List.{List, [], ◌∷◌, ◌++◌}
use native.Mathlib.Omega.{arith}
use stellar_soroban_contract.Prelude.Tests.{Comparable, ◌==◌, beq_refl, beq→eq}

module _ {ℓ} {A : Type ℓ} where
  abbrev pub length : List A → ℕ
  length [] = 0
  length (x ∷ xs) = suc (length xs)

  abbrev pub get_elem? : List A → ℕ → Option A
  get_elem? [] i = none
  get_elem? (x ∷ xs) zero = some x
  get_elem? (x ∷ xs) (suc i) = get_elem? xs i

  abbrev pub drop : ℕ → List A → List A
  drop zero xs = xs
  drop (suc n) [] = []
  drop (suc n) (x ∷ xs) = drop n xs

  abbrev pub get_last? : List A → Option A
  get_last? [] = none
  get_last? (x ∷ []) = some x
  get_last? (x ∷ y ∷ xs) = get_last? (y ∷ xs)

  -- `Vec::push_back`
  abbrev pub push_back : List A → A → List A
  push_back xs x = xs ++ x ∷ []

  pub length-push_back : (xs : List A) (x : A) → length (push_back xs x) ≡ length xs + 1
  length-push_back [] x = omega arith
  length-push_back (y ∷ xs) x = omega (arith, length-push_back xs x)

module _ {ℓ} {A : Type ℓ} where
  pub length-append : (xs ys : List A) → length (xs ++ ys) ≡ length xs + length ys
  length-append [] ys = omega arith
  length-append (x ∷ xs) ys = omega (arith, length-append xs ys)

  pub get_elem?-append :
      (xs : List A) (y : A) (ys : List A) → get_elem? (xs ++ y ∷ ys) (length xs) ≡ some y
  get_elem?-append [] y ys = refl
  get_elem?-append (x ∷ xs) y ys = get_elem?-append xs y ys

module _ {ℓ} {A : Type ℓ} ⦃e : Comparable A⦄ where
  -- `Vec::contains`
  abbrev pub contains : List A → A → Bool
  contains [] a = false
  contains (x ∷ xs) a = (x == a) || contains xs a

  -- No element twice.
  abbrev pub IsDistinct : List A → Type 0
  IsDistinct [] = Unit {0}
  IsDistinct (x ∷ l) = (contains l x ≡ false) × IsDistinct l

  pub contains-push_back :
      (l : List A) (r x : A) → contains (push_back l r) x ≡ (contains l x || (r == x))
  contains-push_back [] r x = ground arith
  contains-push_back (y ∷ l) r x = ground (arith, contains-push_back l r x)

  pub IsDistinct-push_back :
      (l : List A) (a : A) → contains l a ≡ false → IsDistinct l → IsDistinct (push_back l a)
  IsDistinct-push_back [] a new d = (refl, tt)
  IsDistinct-push_back (b ∷ l) a new (c, d) = (
    ground (arith, contains-push_back l a b, beq→eq a b, beq→eq b a, beq_refl b),
    IsDistinct-push_back l a (ground arith) d,
  )
