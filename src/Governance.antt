-- ===== src/Governance.antt =====
-- contracts/governance/src/lib.rs: proposals, votes, finalization and execution.
pub mod Views
pub mod Types
pub mod Effects
pub mod Steps
pub mod Tally
pub mod Execution
pub mod Timing
pub mod Queries
mod Tests
use stellar_soroban_contract.Prelude.{
  ltb, leb, nat_eq, pair_eq, ℤ, pos, ◌+ℤ◌, ltb_ℤ, is_zero_ℤ, u64, i128, lookup, insert, remove, has,
  ℕ, ◌+◌, String, Bool, true, not, Option, none, some, List, [], ◌∷◌,
}
use stellar_soroban_contract.Host.{
  Address, Symbol, Env, Call, ◌>>=◌, ◌>>◌, return, panic_if, expect, unwrap, require_auth, kept,
  is_some,
}
use stellar_soroban_contract.InsuranceTypes.{
  Proposal, GovernanceAction, claim_approval, fund_allocation, policy_change,
}
use stellar_soroban_contract.Interop.{
  u64_val, i128_val, address, Contracts, World, read, write, invoke_contract, to_void,
}
use stellar_soroban_contract.Governance.Types.{
  VoteRecord, Event, admin_init, created, slash_proposed, claim_proposed, fund_proposed, voted,
  finalized, executed, State, counter_of, opened, deadline, add_vote, percentage,
}

module _ {W : Type 0} where
  get_voting_period : Call (World State W) ℕ
  get_voting_period = do unwrap (← read (λ s. s.voting_period))

  get_proposal_counter : Call (World State W) ℕ
  get_proposal_counter = read counter_of

  get_proposal_inner : ℕ → Call (World State W) Proposal
  get_proposal_inner proposal_id = do
    found ← read (λ s. lookup proposal_id s.proposals)
    expect found "Proposal not found"

  set_proposal : ℕ → Proposal → Call (World State W) (Unit {0})
  set_proposal proposal_id proposal =
      write (λ s. record s { proposals = insert proposal_id proposal s.proposals })

  publish : Event → Call (World State W) (Unit {0})
  publish e = write (λ s. record s { events = e ∷ s.events })

  -- The counter's next number, which is stored.
  pub next_id : Call (World State W) ℕ
  unfolding get_proposal_counter
  next_id = do
    old ← get_proposal_counter
    let counter = u64 (old + 1)
    write (λ s. record s { proposal_counter = some counter })
    return counter

  set_pending : ℕ → GovernanceAction → Call (World State W) (Unit {0})
  set_pending id action =
      write (λ s. record s { pending_actions = insert id action s.pending_actions })

  unfoldable pub initialize :
      Address
      → Address
      → Address
      → ℕ
      → Address
      → Address
      → Address
      → Call (World State W) (Unit {0})
  unfolding publish
  initialize admin token slashing_contract voting_period claims_contract risk_pool policy = do
    old ← read (λ s. s.admin)
    panic_if (is_some old) "Already initialized"
    write (λ s. record s {
      admin = some admin;
      token = some token;
      slashing_contract = some slashing_contract;
      voting_period = some voting_period;
      proposal_counter = some 0;
      claims_contract = some claims_contract;
      risk_pool_contract = some risk_pool;
      policy_contract = some policy;
    })
    publish (admin_init admin)

  unfoldable pub create_proposal :
      Env → Address → String → String → String → ℕ → Call (World State W) ℕ
  unfolding next_id get_voting_period set_proposal publish
  create_proposal env creator title description execution_data threshold = do
    require_auth env creator
    counter ← next_id
    stored ← read (λ s. s.voting_period)
    expect stored "Contract not initialized"
    period ← get_voting_period
    set_proposal counter
        (opened counter title description execution_data creator (deadline env period) threshold)
    publish (created counter creator)
    return counter

  unfoldable pub create_slashing_proposal :
      Env → Address → Address → Symbol → String → ℤ → ℕ → Call (World State W) ℕ
  unfolding next_id get_voting_period set_proposal publish
  create_slashing_proposal env creator target role reason amount threshold = do
    require_auth env creator
    counter ← next_id
    period ← get_voting_period
    set_proposal counter (
        opened counter "Slashing Proposal" reason "slash_call" creator (deadline env period)
          threshold)
    publish (slash_proposed counter target role amount)
    return counter

  unfoldable pub create_claim_approval_proposal : Env → Address → ℕ → ℕ → Call (World State W) ℕ
  unfolding next_id set_proposal set_pending publish
  create_claim_approval_proposal env creator claim_id threshold = do
    require_auth env creator
    counter ← next_id
    stored ← read (λ s. s.voting_period)
    period ← expect stored "Contract not initialized"
    set_proposal counter (
        opened counter "Claim Approval Proposal" "DAO vote required for claim approval"
          "approve_claim" creator (deadline env period) threshold)
    set_pending counter (claim_approval claim_id)
    publish (claim_proposed counter claim_id creator)
    return counter

  unfoldable pub create_fund_allocation_proposal :
      Env → Address → Address → ℤ → ℕ → Call (World State W) ℕ
  unfolding next_id set_proposal set_pending publish
  create_fund_allocation_proposal env creator recipient amount threshold = do
    require_auth env creator
    counter ← next_id
    stored ← read (λ s. s.voting_period)
    period ← expect stored "Contract not initialized"
    set_proposal counter (
        opened counter "Fund Allocation Proposal" "DAO vote required for fund allocation"
          "allocate_funds" creator (deadline env period) threshold)
    set_pending counter (fund_allocation recipient amount)
    publish (fund_proposed counter recipient amount creator)
    return counter

  unfoldable pub vote : Env → Address → ℕ → ℤ → Bool → Call (World State W) (Unit {0})
  unfolding get_proposal_inner set_proposal publish
  vote env voter proposal_id weight is_yes = do
    require_auth env voter
    proposal ← get_proposal_inner proposal_id
    panic_if (ltb proposal.expires_at env.timestamp) "Voting period ended"
    voted_before ← read (λ s. has (proposal_id, voter) s.voter_records)
    panic_if voted_before "Already voted"
    set_proposal proposal_id (add_vote is_yes weight proposal)
    write (λ s. record s {
      voter_records =
          insert (proposal_id, voter)
            (record { voter = voter; weight = weight; is_yes = is_yes; timestamp = env.timestamp })
            s.voter_records;
    })
    publish (voted proposal_id voter)

  unfoldable pub finalize_proposal : Env → ℕ → Call (World State W) (Unit {0})
  unfolding get_proposal_inner set_proposal publish
  finalize_proposal env proposal_id = do
    proposal ← get_proposal_inner proposal_id
    panic_if (leb env.timestamp proposal.expires_at) "Voting period not yet ended"
    set_proposal proposal_id (record proposal { is_finalized = true })
    publish (finalized proposal_id)

  -- The test of the threshold: a quotient that overflows panics, as does one below the threshold.
  pub check_threshold : Proposal → Call (World State W) (Unit {0})
  check_threshold proposal = do
    let total_votes = i128 (proposal.yes_votes +ℤ proposal.no_votes)
    panic_if (is_zero_ℤ total_votes) "Threshold not met"
    share ← unwrap (percentage proposal.yes_votes total_votes)
    panic_if (ltb_ℤ share (pos proposal.threshold_percentage)) "Threshold not met"

  -- `execute_proposal` after the action.
  pub mark_executed : ℕ → Proposal → Call (World State W) (Unit {0})
  unfolding set_proposal publish
  mark_executed proposal_id proposal = do
    set_proposal proposal_id (record proposal { is_executed = true })
    publish (executed proposal_id proposal.creator)

  unfoldable pub get_proposal : ℕ → Call (World State W) Proposal
  unfolding get_proposal_inner
  get_proposal proposal_id = get_proposal_inner proposal_id

  unfoldable pub get_vote_record : ℕ → Address → Call (World State W) (Option VoteRecord)
  get_vote_record proposal_id voter = read (λ s. lookup (proposal_id, voter) s.voter_records)

-- One transaction that calls a handler which writes.
pub data Op : Type 0 where
  initializes : Address → Address → Address → ℕ → Address → Address → Address → Op
  creates : Address → String → String → String → ℕ → Op
  creates_slashing : Address → Address → Symbol → String → ℤ → ℕ → Op
  creates_claim_approval : Address → ℕ → ℕ → Op
  creates_fund_allocation : Address → Address → ℤ → ℕ → Op
  votes : Address → ℕ → ℤ → Bool → Op
  finalizes : ℕ → Op
  executes : ℕ → Op
  executes_slashing : ℕ → Op

-- The handlers that call other contracts.
module _ {W : Type 0} (contracts : Contracts W) where
  -- The call that a pending action makes.
  unfoldable pub perform : Env → GovernanceAction → Call (World State W) (Unit {0})
  perform env (claim_approval claim_id) = do
    stored ← read (λ s. s.claims_contract)
    claims_contract ← expect stored "Claims contract not set"
    v ← invoke_contract contracts env claims_contract "approve" (u64_val claim_id ∷ [])
    to_void v
  perform env (fund_allocation recipient amount) = do
    stored ← read (λ s. s.risk_pool_contract)
    risk_pool ← expect stored "Risk pool contract not set"
    v ← invoke_contract contracts env risk_pool "payout" (address recipient ∷ i128_val amount ∷ [])
    to_void v
  perform env (policy_change policy_id) = do
    stored ← read (λ s. s.policy_contract)
    policy_contract ← expect stored "Policy contract not set"
    v ← invoke_contract contracts env policy_contract "update" (u64_val policy_id ∷ [])
    to_void v

  -- Performs the pending action of a proposal and removes it, if there is one.
  pub perform_pending : Env → ℕ → Option GovernanceAction → Call (World State W) (Unit {0})
  unfolding perform
  perform_pending env proposal_id none = return tt
  perform_pending env proposal_id (some action) = do
    perform env action
    write (λ s. record s { pending_actions = remove proposal_id s.pending_actions })

  unfoldable pub execute_proposal : Env → ℕ → Call (World State W) (Unit {0})
  unfolding get_proposal_inner check_threshold perform_pending mark_executed
  execute_proposal env proposal_id = do
    proposal ← get_proposal_inner proposal_id
    panic_if (not proposal.is_finalized) "Proposal must be finalized first"
    panic_if proposal.is_executed "Already executed"
    check_threshold proposal
    pending ← read (λ s. lookup proposal_id s.pending_actions)
    perform_pending env proposal_id pending
    mark_executed proposal_id proposal

  unfoldable pub execute_slashing_proposal : Env → ℕ → Call (World State W) (Unit {0})
  unfolding execute_proposal
  execute_slashing_proposal env proposal_id = execute_proposal env proposal_id

  -- The storage after one transaction: that of before if it fails.
  unfoldable pub step : Env → Op → World State W → World State W
  step env (initializes a t s v c r p) w = kept (initialize a t s v c r p) w
  step env (creates c t d e h) w = kept (create_proposal env c t d e h) w
  step env (creates_slashing c t r why x h) w = kept (create_slashing_proposal env c t r why x h) w
  step env (creates_claim_approval c k h) w = kept (create_claim_approval_proposal env c k h) w
  step env (creates_fund_allocation c r x h) w =
      kept (create_fund_allocation_proposal env c r x h) w
  step env (votes v k x y) w = kept (vote env v k x y) w
  step env (finalizes k) w = kept (finalize_proposal env k) w
  step env (executes k) w = kept (execute_proposal env k) w
  step env (executes_slashing k) w = kept (execute_slashing_proposal env k) w

  -- The storage after a list of transactions, each in an environment of its own.
  unfoldable pub run : List (Env × Op) → World State W → World State W
  run [] w = w
  run ((env, op) ∷ ops) w = run ops (step env op w)
