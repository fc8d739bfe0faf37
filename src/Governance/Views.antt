-- ===== src/Governance/Views.antt =====
-- contracts/governance/src/lib.rs: the queries that go through all proposals.
use stellar_soroban_contract.Prelude.{
  ltb, leb, if◌then◌else◌, nat_eq, pair_eq, push_back, ◌+ℤ◌, i128, lookup, ℕ, zero, suc, Bool,
  false, not, ◌&&◌, Option, none, some, List, [],
}
use stellar_soroban_contract.Host.{Env, panicked, Result, ok, err}
use stellar_soroban_contract.InsuranceTypes.{Proposal}
use stellar_soroban_contract.Governance.Types.{ProposalStats, State, counter_of}

-- The tests of the loop of `get_active_proposals`.
abbrev pub is_votable : ℕ → Option Proposal → Bool
is_votable now none = false
is_votable now (some p) = not p.is_finalized && leb now p.expires_at

-- `for i in 1..=counter`, from `i` on with `n` rounds left.
unfoldable pub active_from : State → ℕ → ℕ → ℕ → List ℕ → List ℕ
active_from s now i zero list = list
active_from s now i (suc n) list =
    active_from s now (suc i) n
      (if is_votable now (lookup i s.proposals) then push_back list i else list)

unfoldable pub get_active_proposals : Env → State → List ℕ
unfolding active_from
get_active_proposals env s = active_from s env.timestamp 1 (counter_of s) []

-- `for i in 1..=counter { list.push_back(i) }`, from `i` on with `n` rounds left.
unfoldable pub count_from : ℕ → ℕ → List ℕ → List ℕ
count_from i zero list = list
count_from i (suc n) list = count_from (suc i) n (push_back list i)

unfoldable pub get_all_proposals : State → List ℕ
unfolding count_from
get_all_proposals s = count_from 1 (counter_of s) []

unfoldable pub get_proposal_stats : Env → ℕ → State → Result ProposalStats
get_proposal_stats env proposal_id s = elim (lookup proposal_id s.proposals) [
  | none ↦ err (panicked "Proposal not found")
  | some p ↦ ok (record {
    yes_votes = p.yes_votes;
    no_votes = p.no_votes;
    total_votes = i128 (p.yes_votes +ℤ p.no_votes);
    status =
        if p.is_executed
        then "executed"
        else if p.is_finalized
        then "finalized"
        else if ltb p.expires_at env.timestamp
        then "expired"
        else "active";
  })
]
