-- ===== src/System/Refusals.antt =====
-- contracts/claims/src/lib.rs (settle_claim) and contracts/governance/src/lib.rs (execute_proposal):
-- their calls of other contracts, against the names that those export.
use stellar_soroban_contract.Prelude.{
  Option-cases, nat_eq, string_eq, ◌+ℤ◌, i128, lookup, ℕ, ◌≡◌, refl, inl, inr, false, some, [], ◌∷◌,
  arith,
}
use stellar_soroban_contract.Host.{Address, Env, succeeds, Result-cases}
use stellar_soroban_contract.InsuranceTypes.{
  GovernanceAction, claim_approval, fund_allocation, policy_change,
}
use stellar_soroban_contract.Interop.{u64_val, i128_val, address, Contracts, World}
use stellar_soroban_contract.Claims.{State as ClaimsState, settle_claim}
use stellar_soroban_contract.Governance.{perform, execute_proposal}
use stellar_soroban_contract.System.{policy_exports, claims_exports, pool_exports, ExportsOnly}
use stellar_soroban_contract.Governance.Types.{State as GovernanceState, percentage}

module _ {W : Type 0} (contracts : Contracts W) where
  -- With a risk pool that exports the functions of its source and no other, `settle_claim` fails on
  -- every claim in every state: no claim is ever settled.
  pub settle_claim_refused :
      (env : Env) (k : ℕ) (w : World ClaimsState W) (a : Address)
      → w.own.risk_pool ≡ some a
      → ExportsOnly contracts a pool_exports
      → succeeds (settle_claim contracts env k w) ≡ false
  unfolding settle_claim
  settle_claim_refused env k w a pool only = elim (Option-cases w.own.admin) [
    | inl e ↦ ground arith
    | inr (b, e) ↦ elim (Option-cases (lookup k w.own.claims)) [
      | inl f ↦ ground arith
      | inr (c, f) ↦ ground (arith, only.others_fail env "get_stats" [] w.others refl)
    ]
  ]

  perform_refused :
      (env : Env) (w : World GovernanceState W) (a b c : Address) (y : GovernanceAction)
      → w.own.claims_contract ≡ some a
      → w.own.risk_pool_contract ≡ some b
      → w.own.policy_contract ≡ some c
      → ExportsOnly contracts a claims_exports
      → ExportsOnly contracts b pool_exports
      → ExportsOnly contracts c policy_exports
      → succeeds (perform contracts env y w) ≡ false
  unfolding perform
  perform_refused env w a b c (claim_approval n) ea eb ec claims pool policy =
      ground (arith, claims.others_fail env "approve" (u64_val n ∷ []) w.others refl)
  perform_refused env w a b c (fund_allocation r x) ea eb ec claims pool policy =
      ground (arith, pool.others_fail env "payout" (address r ∷ i128_val x ∷ []) w.others refl)
  perform_refused env w a b c (policy_change n) ea eb ec claims pool policy =
      ground (arith, policy.others_fail env "update" (u64_val n ∷ []) w.others refl)

  -- With claims, risk pool and policy contracts that export the functions of their sources and no
  -- other, `execute_proposal` fails on every proposal that has a pending action.
  pub execute_proposal_refused :
      (env : Env) (k : ℕ) (w : World GovernanceState W) (a b c : Address) (y : GovernanceAction)
      → w.own.claims_contract ≡ some a
      → w.own.risk_pool_contract ≡ some b
      → w.own.policy_contract ≡ some c
      → ExportsOnly contracts a claims_exports
      → ExportsOnly contracts b pool_exports
      → ExportsOnly contracts c policy_exports
      → lookup k w.own.pending_actions ≡ some y
      → succeeds (execute_proposal contracts env k w) ≡ false
  unfolding execute_proposal
  execute_proposal_refused env k w a b c y ea eb ec claims pool policy pending =
      let refused = perform_refused env w a b c y ea eb ec claims pool policy in
      elim (Option-cases (lookup k w.own.proposals)) [
        | inl f ↦ ground arith
        | inr (p, f) ↦
            elim (Option-cases (percentage p.yes_votes (i128 (p.yes_votes +ℤ p.no_votes)))) [
              | inl g ↦ ground arith
              | inr (q, g) ↦ elim (Result-cases (perform contracts env y w)) [
                | inl (e, failed) ↦ ground arith
                | inr (r, done) ↦ absurd (ground arith)
              ]
            ]
      ]
