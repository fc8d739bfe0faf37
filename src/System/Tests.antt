-- ===== src/System/Tests.antt =====
-- A settlement and an allocation with contracts that export what their sources do.
use stellar_soroban_contract.Prelude.{
  if◌then◌else◌, ◌==◌, nat_eq, string_eq, contains, pos, lookup, ℕ, ◌+◌, ◌≡◌, refl, true, false,
  some, List, [], ◌∷◌,
}
use stellar_soroban_contract.Host.{Address, Symbol, host_error, ok, err, succeeds}
use stellar_soroban_contract.InsuranceTypes.{approved, fund_allocation}
use stellar_soroban_contract.Interop.{void, Contracts, World}
use stellar_soroban_contract.Sample.{by}
use stellar_soroban_contract.Claims.{
  State as ClaimsState, deployed as claims_deployed, settle_claim,
}
use stellar_soroban_contract.Governance.{execute_proposal}
use stellar_soroban_contract.System.{policy_exports, claims_exports, pool_exports, ExportsOnly}
use stellar_soroban_contract.System.Refusals.{settle_claim_refused, execute_proposal_refused}
use stellar_soroban_contract.Governance.Types.{
  State as GovernanceState, deployed as governance_deployed, opened,
}

-- The names that the contract at an address exports: policy at 8, claims at 7, the pool elsewhere.
abbrev names_at : Address → List Symbol
names_at a = if a == 8 then policy_exports else if a == 7 then claims_exports else pool_exports

-- Every function that is exported succeeds, and no other.
abbrev exporting : Contracts ℕ
exporting = record {
  invoke = λ env a f args n. if contains (names_at a) f then ok (void, n + 1) else err host_error;
}

at_claims : ExportsOnly exporting 7 claims_exports
at_claims = record { others_fail = λ env f args w h. rw h refl }

at_policy : ExportsOnly exporting 8 policy_exports
at_policy = record { others_fail = λ env f args w h. rw h refl }

at_pool : ExportsOnly exporting 9 pool_exports
at_pool = record { others_fail = λ env f args w h. rw h refl }

abbrev claims_world : World ClaimsState ℕ
claims_world = record {
  own = record claims_deployed {
    admin = some 1;
    risk_pool = some 9;
    claims =
        (
          1,
          record {
            claim_id = 1;
            policy_id = 7;
            claimant = 2;
            amount = pos 300;
            status = approved;
            submitted_at = 10;
          },
        )
        ∷ [];
  };
  others = 0;
}

abbrev governance_world : World GovernanceState ℕ
governance_world = record {
  own = record governance_deployed {
    claims_contract = some 7;
    risk_pool_contract = some 9;
    policy_contract = some 8;
    proposals =
        (
          1,
          record (opened 1 "Fund Allocation Proposal" "" "" 2 1010 60) {
            yes_votes = pos 70;
            no_votes = pos 30;
            is_finalized = true;
          },
        )
        ∷ [];
    pending_actions = (1, fund_allocation 5 (pos 300)) ∷ [];
  };
  others = 0;
}

settle_claim_refused_example : succeeds (settle_claim exporting (by 1 40) 1 claims_world) ≡ false
settle_claim_refused_example =
    settle_claim_refused exporting (by 1 40) 1 claims_world 9 refl at_pool

execute_proposal_refused_example :
    succeeds (execute_proposal exporting (by 9 1020) 1 governance_world) ≡ false
unfolding lookup
execute_proposal_refused_example =
    execute_proposal_refused exporting (by 9 1020) 1 governance_world 7 9 8
      (fund_allocation 5 (pos 300)) refl refl refl at_claims at_pool at_policy refl
