-- ===== src/Prelude/Tests.antt =====
-- Boolean tests on the native numbers, and equality as an interface.
use Prim.Native.Nat.{ℕ, compare, Ordering}
use Prim.Native.String.{String}
use mathlib.Core.Path.{◌≡◌, refl}
use mathlib.Core.Logic.{◌⊎◌, inl, inr, ◌≢◌}
use mathlib.Core.Bool.{Bool, true, false, ◌&&◌}
use mathlib.Core.Option.{Option, none, some}
use native.Mathlib.Omega.{arith}
use text.Mathlib.Text.{◌==◌ as str_eq}
use text.Mathlib.TextEquality.{eq_iff}

abbrev pub ltb : ℕ → ℕ → Bool
ltb a b = elim (compare a b) [ Ordering.lt ↦ true | _ ↦ false ]

abbrev pub leb : ℕ → ℕ → Bool
leb a b = elim (compare a b) [ Ordering.gt ↦ false | _ ↦ true ]

abbrev pub nat_beq : ℕ → ℕ → Bool
nat_beq a b = elim (compare a b) [ Ordering.eq ↦ true | _ ↦ false ]

infix 1 if◌then◌else◌
abbrev pub if◌then◌else◌ {ℓ} : {A : Type ℓ} → Bool → A → A → A
if true then x else y = x
if false then x else y = y

abbrev pub min : ℕ → ℕ → ℕ
min a b = if leb a b then a else b

abbrev pub max : ℕ → ℕ → ℕ
max a b = if leb a b then b else a

pub Bool-cases : (b : Bool) → (b ≡ true) ⊎ (b ≡ false)
Bool-cases true = inl refl
Bool-cases false = inr refl

pub Option-cases {ℓ} : {A : Type ℓ} (o : Option A) → (o ≡ none) ⊎ ((a : A) × (o ≡ some a))
Option-cases none = inl refl
Option-cases (some a) = inr (a, refl)

pub nat_beq_sound : (j k : ℕ) → nat_beq j k ≡ true → j ≡ k
nat_beq_sound j k h = ground arith

pub nat_beq_self : (k : ℕ) → nat_beq k k ≡ true
nat_beq_self k = ground arith

-- What may be a storage key or an element that a vector is searched for.
pub record Comparable {ℓ} (K : Type ℓ) : Type ℓ where
  pub same : K → K → Bool
  pub same_sound : (j k : K) → same j k ≡ true → j ≡ k
  pub same_self : (k : K) → same k k ≡ true

infix 50 ◌==◌
abbrev pub ◌==◌ {ℓ} : {K : Type ℓ} ⦃c : Comparable K⦄ → K → K → Bool
◌==◌ ⦃c⦄ = c.same

instance abbrev pub nat_eq : Comparable ℕ
nat_eq = record { same = nat_beq; same_sound = nat_beq_sound; same_self = nat_beq_self }

instance abbrev pub string_eq : Comparable String
string_eq = record {
  same_sound = λ s t. (eq_iff s t).0;
  same_self = λ s. (eq_iff s s).1 refl;
  same = str_eq;
}

module _ {ℓ κ} {A : Type ℓ} {B : Type κ} ⦃c : Comparable A⦄ ⦃d : Comparable B⦄ where
  abbrev pub pair_beq : A × B → A × B → Bool
  pair_beq p q = c.same p.0 q.0 && d.same p.1 q.1

  pub pair_beq_sound : (p q : A × B) → pair_beq p q ≡ true → p ≡ q
  pair_beq_sound p q h = ground (arith, c.same_sound p.0 q.0, d.same_sound p.1 q.1)

  pub pair_beq_self : (p : A × B) → pair_beq p p ≡ true
  pair_beq_self p = ground (arith, c.same_self p.0, d.same_self p.1)

  instance abbrev pub pair_eq : Comparable (A × B)
  pair_eq = record { same = pair_beq; same_sound = pair_beq_sound; same_self = pair_beq_self }

module _ {ℓ} {K : Type ℓ} ⦃c : Comparable K⦄ where
  pub beq_refl : (k : K) → (k == k) ≡ true
  beq_refl k = c.same_self k

  pub beq→eq : (j k : K) → (j == k) ≡ true → j ≡ k
  beq→eq j k h = c.same_sound j k h

  pub beq_ne : (j k : K) → j ≢ k → (j == k) ≡ false
  beq_ne j k other = elim (Bool-cases (j == k)) [
    | inl t ↦ absurd (other (beq→eq j k t))
    | inr f ↦ f
  ]
