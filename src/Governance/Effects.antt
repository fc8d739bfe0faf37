-- ===== src/Governance/Effects.antt =====
-- contracts/governance/src/lib.rs: what one transaction may do to the proposals.
use stellar_soroban_contract.Prelude.{
  nat_eq, pair_eq, ℤ, pos, ◌+ℤ◌, ltb_ℤ, is_zero_ℤ, u64, i128, lookup, insert, ℕ, ◌+◌, ◌≤◌, ◌<◌, ◌≡◌,
  Bool, true, false, not, ◌&&◌, none, some,
}
use stellar_soroban_contract.Host.{Address, Env, ok, is_some}
use stellar_soroban_contract.InsuranceTypes.{Proposal}
use stellar_soroban_contract.Interop.{Contracts, World}
use stellar_soroban_contract.Governance.{perform_pending}
use stellar_soroban_contract.Governance.Types.{State, counter_of, deadline, add_vote, percentage}

-- The share of the yes votes reaches the threshold.
abbrev pub meets_threshold : Proposal → Bool
meets_threshold p =
    let total_votes = i128 (p.yes_votes +ℤ p.no_votes) in
    not (is_zero_ℤ total_votes) && (elim (percentage p.yes_votes total_votes) [
      | none ↦ false
      | some q ↦ not (ltb_ℤ q (pos p.threshold_percentage))
    ])

-- The values that `initialize` stores are the same.
abbrev pub SameConfig : State → State → Type 0
SameConfig s t = (t.admin ≡ s.admin) × (t.voting_period ≡ s.voting_period)

module _ {W : Type 0} (contracts : Contracts W) where
  -- What one transaction may do to the contract's own storage `t` and to the others' `o`.
  pub data GovernanceEffect (env : Env) (w : World State W) (t : State) (o : W) : Type 0 where
    nothing : t ≡ w.own → o ≡ w.others → GovernanceEffect env w t o
    set_up :
        w.own.admin ≡ none
        → is_some t.admin ≡ true
        → t.proposal_counter ≡ some 0
        → t.proposals ≡ w.own.proposals
        → t.voter_records ≡ w.own.voter_records
        → t.pending_actions ≡ w.own.pending_actions
        → o ≡ w.others
        → GovernanceEffect env w t o
    propose :
        (p : Proposal) (period : ℕ)
        → env.authorised p.creator ≡ true
        → w.own.voting_period ≡ some period
        → p.id ≡ u64 (counter_of w.own + 1)
        → p.expires_at ≡ deadline env period
        → p.yes_votes ≡ pos 0
        → p.no_votes ≡ pos 0
        → p.is_finalized ≡ false
        → p.is_executed ≡ false
        → t.proposals ≡ insert p.id p w.own.proposals
        → t.proposal_counter ≡ some p.id
        → t.voter_records ≡ w.own.voter_records
        → SameConfig w.own t
        → o ≡ w.others
        → GovernanceEffect env w t o
    cast :
        (voter : Address) (k : ℕ) (weight : ℤ) (is_yes : Bool) (p : Proposal)
        → env.authorised voter ≡ true
        → lookup k w.own.proposals ≡ some p
        → env.timestamp ≤ p.expires_at
        → lookup (k, voter) w.own.voter_records ≡ none
        → t.proposals ≡ insert k (add_vote is_yes weight p) w.own.proposals
        → t.voter_records
          ≡ insert
              (k, voter)
              (record {
                voter = voter;
                weight = weight;
                is_yes = is_yes;
                timestamp = env.timestamp;
              })
              w.own.voter_records
        → t.proposal_counter ≡ w.own.proposal_counter
        → SameConfig w.own t
        → o ≡ w.others
        → GovernanceEffect env w t o
    finalize :
        (k : ℕ) (p : Proposal)
        → lookup k w.own.proposals ≡ some p
        → p.expires_at < env.timestamp
        → t.proposals ≡ insert k (record p { is_finalized = true }) w.own.proposals
        → t.voter_records ≡ w.own.voter_records
        → t.proposal_counter ≡ w.own.proposal_counter
        → SameConfig w.own t
        → o ≡ w.others
        → GovernanceEffect env w t o
    execute :
        (k : ℕ) (p : Proposal) (r : World State W)
        → lookup k w.own.proposals ≡ some p
        → p.is_finalized ≡ true
        → p.is_executed ≡ false
        → meets_threshold p ≡ true
        → perform_pending contracts env k (lookup k w.own.pending_actions) w ≡ ok (tt, r)
        → t.proposals ≡ insert k (record p { is_executed = true }) w.own.proposals
        → t.pending_actions ≡ r.own.pending_actions
        → t.voter_records ≡ w.own.voter_records
        → t.proposal_counter ≡ w.own.proposal_counter
        → SameConfig w.own t
        → o ≡ r.others
        → GovernanceEffect env w t o
