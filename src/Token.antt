-- ===== src/Token.antt =====
-- The token contract that `soroban_sdk::token::Client` reaches. It is not part of the repository:
-- the contracts take its ledger and its `transfer` as a parameter, and its documented behaviour
-- (SEP-41) as named laws.
use stellar_soroban_contract.Prelude.{ℤ, pos, ◌+ℤ◌, ◌≤ℤ◌, IsI128, ◌≡◌, ◌≢◌, Option, some}
use stellar_soroban_contract.Host.{Address, Env}

pub record Token : Type 1 where
  pub Ledger : Type 0
  pub balance : Address → Ledger → ℤ
  -- `client.transfer(from, to, amount)` in an environment; `none` is a panic of the token.
  pub transfer : Env → Address → Address → ℤ → Ledger → Option Ledger

-- A transfer that succeeds has a non-negative amount and moves it from one balance to the other.
-- A balance is a non-negative `i128`.
pub record IsSep41 (t : Token) : Type 0 where
  pub amount_nonneg :
      (env : Env) (a b : Address) (x : ℤ) (l l' : t.Ledger)
      → t.transfer env a b x l ≡ some l'
      → pos 0 ≤ℤ x
  pub moves_out :
      (env : Env) (a b : Address) (x : ℤ) (l l' : t.Ledger)
      → a ≢ b
      → t.transfer env a b x l ≡ some l'
      → t.balance a l ≡ t.balance a l' +ℤ x
  pub moves_in :
      (env : Env) (a b : Address) (x : ℤ) (l l' : t.Ledger)
      → a ≢ b
      → t.transfer env a b x l ≡ some l'
      → t.balance b l' ≡ t.balance b l +ℤ x
  pub self_keeps :
      (env : Env) (a : Address) (x : ℤ) (l l' : t.Ledger)
      → t.transfer env a a x l ≡ some l'
      → t.balance a l' ≡ t.balance a l
  pub balance_fits : (a : Address) (l : t.Ledger) → IsI128 (t.balance a l)
  pub balance_nonneg : (a : Address) (l : t.Ledger) → pos 0 ≤ℤ t.balance a l
