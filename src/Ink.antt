-- ===== src/Ink.antt =====
-- What an ink! contract is given: its environment, and messages that keep their writes only when
-- they return a value that is not an error.
use stellar_soroban_contract.Prelude.{
  ℕ, ◌≡◌, refl, ◌⊎◌, inl, inr, Bool, true, false, Option, none, some,
}

-- An `AccountId` is only compared; the all-zero account is 0.
abbrev pub AccountId : Type 0
AccountId = ℕ

pub record Env : Type 0 where
  pub caller : AccountId
  pub block_timestamp : ℕ
  pub transferred_value : ℕ

-- A message returns a value, returns an error, or traps (a panic).
pub data Outcome (E : Type 0) (A : Type 0) : Type 0 where
  ok : A → Outcome E A
  err : E → Outcome E A
  trap : Outcome E A

-- The runtime reverts the storage when a message returns an error or traps.
abbrev pub Message : Type 0 → Type 0 → Type 0 → Type 0
Message S E A = S → Outcome E (A × S)

infixl 5 ◌>>=◌ ◌>>◌
abbrev pub ◌>>=◌ : {S E A B : Type 0} → Message S E A → (A → Message S E B) → Message S E B
◌>>=◌ m f s = elim (m s) [ ok p ↦ f p.0 p.1 | err e ↦ err e | trap ↦ trap ]

abbrev pub ◌>>◌ : {S E A B : Type 0} → Message S E A → Message S E B → Message S E B
◌>>◌ m k s = elim (m s) [ ok p ↦ k p.1 | err e ↦ err e | trap ↦ trap ]

module _ {S E : Type 0} where
  abbrev pub return : {A : Type 0} → A → Message S E A
  return a s = ok (a, s)

  abbrev pub gets : {A : Type 0} → (S → A) → Message S E A
  gets f s = ok (f s, s)

  abbrev pub modify : (S → S) → Message S E (Unit {0})
  modify f s = ok (tt, f s)

  -- `if b { return Err(e) }`
  abbrev pub fail_if : Bool → E → Message S E (Unit {0})
  fail_if true e s = err e
  fail_if false e s = ok (tt, s)

  -- `Option::ok_or(e)?`
  abbrev pub ok_or : {A : Type 0} → Option A → E → Message S E A
  ok_or none e s = err e
  ok_or (some a) e s = ok (a, s)

  -- A value that a panic prevents.
  abbrev pub or_trap : {A : Type 0} → Option A → Message S E A
  or_trap none s = trap
  or_trap (some a) s = ok (a, s)

  -- `map_err(|_| e)?`
  abbrev pub map_err : {D A : Type 0} → E → Message S D A → Message S E A
  map_err e m s = elim (m s) [ ok p ↦ ok p | err _ ↦ err e | trap ↦ trap ]

  abbrev pub trap_if : Bool → Message S E (Unit {0})
  trap_if true s = trap
  trap_if false s = ok (tt, s)

-- `Option::unwrap_or`
abbrev pub unwrap_or {ℓ} : {A : Type ℓ} → A → Option A → A
unwrap_or d none = d
unwrap_or d (some a) = a

abbrev pub is_some {ℓ} : {A : Type ℓ} → Option A → Bool
is_some none = false
is_some (some _) = true

-- The storage after a message.
abbrev pub kept : {S E A : Type 0} → Message S E A → S → S
kept m s = elim (m s) [ ok p ↦ p.1 | err _ ↦ s | trap ↦ s ]

abbrev pub is_ok : {E A : Type 0} → Outcome E A → Bool
is_ok (ok _) = true
is_ok (err _) = false
is_ok trap = false

pub Outcome-cases :
    {E A : Type 0} (r : Outcome E A)
    → ((a : A) × (r ≡ ok a)) ⊎ (((e : E) × (r ≡ err e)) ⊎ (r ≡ trap))
Outcome-cases (ok a) = inl (a, refl)
Outcome-cases (err e) = inr (inl (e, refl))
Outcome-cases trap = inr (inr refl)
