-- ===== src/Host.antt =====
-- The Soroban host as the contracts use it: what an invocation reads from `Env`, and how a panic
-- ends one.
use stellar_soroban_contract.Prelude.{
  nat_eq, ℕ, String, ◌≡◌, refl, ◌⊎◌, inl, inr, Bool, true, false, Option, none, some,
}

-- Addresses are only compared, so they are numbers; the all-zero address is 0.
abbrev pub Address : Type 0
Address = ℕ

-- A short symbol.
abbrev pub Symbol : Type 0
Symbol = String

-- What an invocation can read: the addresses that authorised it, the ledger's time and height,
-- and the address of the running contract.
pub record Env : Type 0 where
  pub authorised : Address → Bool
  pub timestamp : ℕ
  pub sequence : ℕ
  pub current_contract : Address

-- Why an invocation ended without a result.
pub data Failure : Type 0 where
  not_authorised : Failure
  missing_value : Failure
  host_error : Failure
  panicked : String → Failure

-- A failed invocation has no state: the host discards every write that it made.
pub data Result {ℓ} (A : Type ℓ) : Type ℓ where
  ok : A → Result A
  err : Failure → Result A

-- A contract call over a storage of type `S`.
abbrev pub Call : Type 0 → Type 0 → Type 0
Call S A = S → Result (A × S)

infixl 5 ◌>>=◌ ◌>>◌
abbrev pub ◌>>=◌ : {S A B : Type 0} → Call S A → (A → Call S B) → Call S B
◌>>=◌ m f s = elim (m s) [ ok p ↦ f p.0 p.1 | err e ↦ err e ]

abbrev pub ◌>>◌ : {S A B : Type 0} → Call S A → Call S B → Call S B
◌>>◌ m k s = elim (m s) [ ok p ↦ k p.1 | err e ↦ err e ]

module _ {S : Type 0} where
  abbrev pub return : {A : Type 0} → A → Call S A
  return a s = ok (a, s)

  abbrev pub gets : {A : Type 0} → (S → A) → Call S A
  gets f s = ok (f s, s)

  abbrev pub modify : (S → S) → Call S (Unit {0})
  modify f s = ok (tt, f s)

  abbrev pub fail : {A : Type 0} → Failure → Call S A
  fail e s = err e

  -- `if b { panic!(m) }`
  abbrev pub panic_if : Bool → String → Call S (Unit {0})
  panic_if true m s = err (panicked m)
  panic_if false m s = ok (tt, s)

  -- `Option::expect`, and `unwrap` without a message.
  abbrev pub expect : {A : Type 0} → Option A → String → Call S A
  expect none m s = err (panicked m)
  expect (some a) m s = ok (a, s)

  abbrev pub unwrap : {A : Type 0} → Option A → Call S A
  unwrap none s = err missing_value
  unwrap (some a) s = ok (a, s)

  -- `Address::require_auth`
  abbrev pub auth_if : Bool → Call S (Unit {0})
  auth_if true s = ok (tt, s)
  auth_if false s = err not_authorised

  abbrev pub require_auth : Env → Address → Call S (Unit {0})
  require_auth env a = auth_if (env.authorised a)

-- The storage that the ledger keeps after an invocation.
abbrev pub kept : {S A : Type 0} → Call S A → S → S
kept m s = elim (m s) [ ok p ↦ p.1 | err _ ↦ s ]

abbrev pub succeeds : {A : Type 0} → Result A → Bool
succeeds (ok _) = true
succeeds (err _) = false

abbrev pub is_some {ℓ} : {A : Type ℓ} → Option A → Bool
is_some none = false
is_some (some _) = true

-- A call either fails and leaves the storage as it was, or succeeds with the storage it returns.
pub kept_cases :
    {S A : Type 0} (m : Call S A) (s : S)
    → (kept m s ≡ s) ⊎ ((a : A) × (t : S) × (m s ≡ ok (a, t)) × (kept m s ≡ t))
kept_cases m s =
    elim (m s)
      as (λ r.
        (elim r [ ok p ↦ p.1 | err _ ↦ s ] ≡ s)
        ⊎ ((a : _) × (t : _) × (r ≡ ok (a, t)) × (elim r [ ok p ↦ p.1 | err _ ↦ s ] ≡ t))) [
          | ok p ↦ inr (p.0, p.1, refl, refl)
          | err e ↦ inl refl
        ]

pub Result-cases {ℓ} :
    {A : Type ℓ} (r : Result A) → ((e : Failure) × (r ≡ err e)) ⊎ ((a : A) × (r ≡ ok a))
Result-cases (ok a) = inr (a, refl)
Result-cases (err e) = inl (e, refl)

module _ {S A : Type 0} (m : Call S A) (s : S) where
  pub kept-err : {e : Failure} → m s ≡ err e → kept m s ≡ s
  kept-err h = rw (h, kept) refl

  pub kept-ok : {a : A} {t : S} → m s ≡ ok (a, t) → kept m s ≡ t
  kept-ok h = rw (h, kept) refl
