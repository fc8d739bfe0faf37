-- ===== src/System.antt =====
-- The calls between the contracts, by the names under which they export their functions.
pub mod Refusals
mod Tests
use stellar_soroban_contract.Prelude.{string_eq, contains, ◌≡◌, false, List, [], ◌∷◌}
use stellar_soroban_contract.Host.{Address, Symbol, Env, succeeds}
use stellar_soroban_contract.Interop.{Val, Contracts}

-- The functions of contracts/policy/src/lib.rs.
abbrev pub policy_exports : List Symbol
policy_exports =
    "initialize" ∷ "issue_policy" ∷ "get_policy" ∷ "get_pol" ∷ "is_active" ∷ "renew_policy"
    ∷ "cancel_policy" ∷ "expire_policy" ∷ "get_stats" ∷ []

-- The functions of contracts/claims/src/lib.rs.
abbrev pub claims_exports : List Symbol
claims_exports =
    "initialize" ∷ "submit_claim" ∷ "start_review" ∷ "approve_claim" ∷ "reject_claim"
    ∷ "settle_claim" ∷ "get_claim" ∷ "get_stats" ∷ []

-- The functions of contracts/risk_pool/src/lib.rs.
abbrev pub pool_exports : List Symbol
pool_exports =
    "initialize" ∷ "deposit_liquidity" ∷ "withdraw_liquidity" ∷ "payout_claim" ∷ "get_pool_stats"
    ∷ "get_provider_info" ∷ []

-- What the host does with a call of a name that the contract at an address does not export.
pub record ExportsOnly {W : Type 0} (contracts : Contracts W) (a : Address) (names : List Symbol)
    : Type 0 where
  pub others_fail :
      (env : Env) (f : Symbol) (args : List Val) (w : W)
      → contains names f ≡ false
      → succeeds (contracts.invoke env a f args w) ≡ false
