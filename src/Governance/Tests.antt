-- ===== src/Governance/Tests.antt =====
-- A fund allocation that is proposed, voted, finalized and executed, with other contracts that
-- accept every call and count them.
use stellar_soroban_contract.Prelude.{
  ltb, leb, nat_eq, pair_eq, pos, ◌+ℤ◌, ◌-ℤ◌, ◌*ℤ◌, i128, quot_i128, lookup, insert, remove, ℕ, ◌+◌,
  ◌*◌, ◌≡◌, refl, true, false, ◌&&◌, some, List, [], ◌∷◌, ◌++◌, arith,
}
use stellar_soroban_contract.Host.{Env, panicked, ok, err, succeeds}
use stellar_soroban_contract.InsuranceTypes.{Proposal}
use stellar_soroban_contract.Interop.{void, Contracts, World}
use stellar_soroban_contract.Sample.{by}
use stellar_soroban_contract.Governance.{
  initialize, create_fund_allocation_proposal, vote, finalize_proposal, Op, initializes,
  creates_fund_allocation, votes, finalizes, executes, execute_proposal, step, run,
}
use stellar_soroban_contract.Governance.Execution.{run-IsTimely, final_for_good}
use stellar_soroban_contract.Governance.Tally.{IsTallied, deployed-IsTallied, run-IsTallied}
use stellar_soroban_contract.Governance.Queries.{threshold_exact}
use stellar_soroban_contract.Governance.Timing.{IsTimely, deployed-IsTimely, InOrder, end_time}
use stellar_soroban_contract.Governance.Types.{State, deployed}

abbrev counting : Contracts ℕ
counting = record { invoke = λ env a f args n. ok (void, n + 1) }

abbrev start_world : World State ℕ
start_world = record { own = deployed; others = 0 }

abbrev history : List (Env × Op)
history =
    (by 1 0, initializes 1 50 60 1000 70 80 90)
    ∷ (by 2 10, creates_fund_allocation 2 5 (pos 300) 60)
    ∷ (by 3 20, votes 3 1 (pos 70) true)
    ∷ (by 4 30, votes 4 1 (pos 30) false)
    ∷ (by 3 40, votes 3 1 (pos 70) true)
    ∷ (by 4 1011, finalizes 1)
    ∷ []

abbrev funding : Proposal
funding = record {
  id = 1;
  title = "Fund Allocation Proposal";
  description = "DAO vote required for fund allocation";
  execution_data = "allocate_funds";
  creator = 2;
  expires_at = 1010;
  threshold_percentage = 60;
  yes_votes = pos 70;
  no_votes = pos 30;
  is_finalized = true;
  is_executed = false;
}

abbrev later : List (Env × Op)
later = (by 9 1020, executes 1) ∷ (by 9 1030, executes 1) ∷ []

-- The second vote of address 3 is refused.
history-funding : lookup 1 (run counting history start_world).own.proposals ≡ some funding
unfolding run step initialize create_fund_allocation_proposal vote finalize_proposal lookup insert
    i128 ◌+ℤ◌
history-funding = refl

-- The action is performed once.
later-others : (run counting (history ++ later) start_world).others ≡ 1
unfolding run step initialize create_fund_allocation_proposal vote finalize_proposal
    execute_proposal lookup insert remove i128 quot_i128 ◌+ℤ◌ ◌*ℤ◌ ◌-ℤ◌
later-others = refl

abbrev voted_world : World State ℕ
voted_world = run counting history start_world

history-InOrder : InOrder 0 history
history-InOrder =
    (omega arith, (omega arith, (omega arith, (omega arith, (omega arith, (omega arith, tt))))))

voted-IsTimely : IsTimely 1011 voted_world.own
voted-IsTimely =
    run-IsTimely counting 0 history start_world history-InOrder (omega arith) deployed-IsTimely

run-IsTimely_example : IsTimely (end_time 0 history) (run counting history start_world).own
run-IsTimely_example =
    run-IsTimely counting 0 history start_world history-InOrder (omega arith) deployed-IsTimely

later-InOrder : InOrder 1011 later
later-InOrder = (omega arith, (omega arith, tt))

final_for_good_example :
    let v = run counting later voted_world in
    (q : Proposal) × (lookup 1 v.own.proposals ≡ some q)
    × (q.is_finalized ≡ true)
    × (q.yes_votes ≡ pos 70)
    × (q.no_votes ≡ pos 30)
    × (q.expires_at ≡ 1010)
    × (q.threshold_percentage ≡ 60)
    × ((env : Env)
        → funding.is_executed ≡ true
        → execute_proposal counting env 1 v ≡ err (panicked "Already executed"))
unfolding run step initialize create_fund_allocation_proposal vote finalize_proposal lookup insert
final_for_good_example =
    final_for_good counting 1011 later voted_world later-InOrder (omega arith) voted-IsTimely 1
      funding history-funding refl

run-IsTallied_example : IsTallied (run counting history start_world).own
run-IsTallied_example =
    run-IsTallied counting 0 history start_world history-InOrder (omega arith) deployed-IsTimely
      deployed-IsTallied

-- The world of the vote, with a proposal that is finalized and has no action.
abbrev ready : Proposal
ready = record funding { is_finalized = true; is_executed = false }

abbrev ready_world : World State ℕ
ready_world = record { own = record deployed { proposals = (1, ready) ∷ [] }; others = 0 }

threshold_exact_example :
    succeeds (execute_proposal counting (by 9 2000) 1 ready_world)
    ≡ (ltb 0 (70 + 30) && leb (60 * (70 + 30)) (70 * 100))
unfolding lookup
threshold_exact_example =
    threshold_exact counting (by 9 2000) 1 ready_world ready 70 30 refl refl refl refl (omega arith)
      (omega arith)
