-- ===== src/Governance/Types.antt =====
-- contracts/governance/src/lib.rs: the data of the contract, and how a vote changes a proposal.
use stellar_soroban_contract.Prelude.{
  if◌then◌else◌, nat_eq, pair_eq, ℤ, pos, ◌+ℤ◌, ◌*ℤ◌, u64, i128, is_i128_min, is_minus_one,
  quot_i128, Store, ℕ, ◌+◌, String, Bool, true, false, ◌&&◌, Option, none, some, List, [],
}
use stellar_soroban_contract.Host.{Address, Symbol, Env}
use stellar_soroban_contract.InsuranceTypes.{Proposal, GovernanceAction}

pub record VoteRecord : Type 0 where
  pub voter : Address
  pub weight : ℤ  -- i128
  pub is_yes : Bool
  pub timestamp : ℕ  -- u64

pub record ProposalStats : Type 0 where
  pub yes_votes : ℤ
  pub no_votes : ℤ
  pub total_votes : ℤ
  pub status : Symbol

-- What the handlers publish.
pub data Event : Type 0 where
  admin_init : Address → Event
  created : ℕ → Address → Event
  slash_proposed : ℕ → Address → Symbol → ℤ → Event
  claim_proposed : ℕ → ℕ → Address → Event
  fund_proposed : ℕ → Address → ℤ → Address → Event
  voted : ℕ → Address → Event
  finalized : ℕ → Event
  executed : ℕ → Address → Event

-- The storage, a field for each `DataKey`, and the events published so far, the latest first.
pub record State : Type 0 where
  pub admin : Option Address
  pub token : Option Address
  pub slashing_contract : Option Address
  pub claims_contract : Option Address
  pub risk_pool_contract : Option Address
  pub policy_contract : Option Address
  pub proposals : Store ℕ Proposal
  pub proposal_counter : Option ℕ
  pub voter_records : Store (ℕ × Address) VoteRecord
  pub voting_period : Option ℕ
  pub pending_actions : Store ℕ GovernanceAction
  pub events : List Event

-- The storage of a contract that has just been deployed.
abbrev pub deployed : State
deployed = record {
  admin = none;
  token = none;
  slashing_contract = none;
  claims_contract = none;
  risk_pool_contract = none;
  policy_contract = none;
  proposals = [];
  proposal_counter = none;
  voter_records = [];
  voting_period = none;
  pending_actions = [];
  events = [];
}

abbrev pub counter_of : State → ℕ
counter_of s = elim s.proposal_counter [ none ↦ 0 | some n ↦ n ]

-- A new proposal, with no votes.
abbrev pub opened : ℕ → String → String → String → Address → ℕ → ℕ → Proposal
opened id title description execution_data creator expires_at threshold = record {
  id = id;
  title = title;
  description = description;
  execution_data = execution_data;
  creator = creator;
  expires_at = expires_at;
  threshold_percentage = threshold;
  yes_votes = pos 0;
  no_votes = pos 0;
  is_finalized = false;
  is_executed = false;
}

-- `env.ledger().timestamp() + voting_period`
abbrev pub deadline : Env → ℕ → ℕ
deadline env period = u64 (env.timestamp + period)

-- The proposal with one more vote of a weight.
abbrev pub add_vote : Bool → ℤ → Proposal → Proposal
add_vote true weight p = record p { yes_votes = i128 (p.yes_votes +ℤ weight) }
add_vote false weight p = record p { no_votes = i128 (p.no_votes +ℤ weight) }

-- `yes_votes * 100 / total_votes`; `none` is the panic of a quotient that overflows.
abbrev pub percentage : ℤ → ℤ → Option ℤ
percentage yes_votes total_votes =
    let scaled = i128 (yes_votes *ℤ pos 100) in
    if is_i128_min scaled && is_minus_one total_votes
    then none
    else some (quot_i128 scaled total_votes)
