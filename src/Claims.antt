-- ===== src/Claims.antt =====
-- contracts/claims/src/lib.rs: submission, review, approval, rejection and settlement of claims.
pub mod Workflow
pub mod Locks
pub mod Payment
mod Tests
use stellar_soroban_contract.Prelude.{
  nat_eq, ℤ, pos, ltb_ℤ, leb_ℤ, u64, Store, lookup, insert, remove, has, ℕ, ◌+◌, Bool, true, false,
  not, ◌||◌, Option, none, some, List, [], ◌∷◌,
}
use stellar_soroban_contract.Host.{
  Address, Env, Call, ◌>>=◌, ◌>>◌, return, panic_if, expect, unwrap, require_auth, kept, is_some,
}
use stellar_soroban_contract.InsuranceTypes.{
  InsurancePolicy, ClaimStatus, submitted, under_review, approved, rejected, settled,
  InsuranceClaim,
}
use stellar_soroban_contract.Interop.{
  u64_val, i128_val, address, Contracts, World, read, write, invoke_contract, to_bool, to_policy,
  to_stats, to_void,
}

-- What the handlers publish.
pub data Event : Type 0 where
  submission : ℕ → ℕ → Address → ℤ → Event
  review : ℕ → ℕ → ℤ → Event
  approval : ℕ → ℕ → ℤ → Address → Event
  rejection : ℕ → ℕ → ℤ → Event
  settlement : ℕ → ℤ → Address → Event

-- The storage, a field for each `DataKey`, and the events published so far, the latest first.
pub record State : Type 0 where
  pub admin : Option Address
  pub policy_contract : Option Address
  pub risk_pool : Option Address
  pub claims : Store ℕ InsuranceClaim
  pub claim_counter : Option ℕ
  pub policy_active_claim : Store ℕ ℕ
  pub events : List Event

-- The storage of a contract that has just been deployed.
abbrev pub deployed : State
deployed = record {
  admin = none;
  policy_contract = none;
  risk_pool = none;
  claims = [];
  claim_counter = none;
  policy_active_claim = [];
  events = [];
}

-- The tests `claim.status != ClaimStatus::…`.
abbrev pub is_submitted : ClaimStatus → Bool
is_submitted submitted = true
is_submitted _ = false

abbrev pub is_under_review : ClaimStatus → Bool
is_under_review under_review = true
is_under_review _ = false

abbrev pub is_approved : ClaimStatus → Bool
is_approved approved = true
is_approved _ = false

-- One transaction that calls a handler which writes.
pub data Op : Type 0 where
  initializes : Address → Address → Address → Op
  submits : ℕ → ℤ → Op
  reviews : ℕ → Op
  approves : ℕ → Op
  rejects : ℕ → Op
  settles : ℕ → Op

abbrev pub counter_of : State → ℕ
counter_of s = elim s.claim_counter [ none ↦ 0 | some n ↦ n ]

module _ {W : Type 0} where
  get_admin : Call (World State W) Address
  get_admin = do unwrap (← read (λ s. s.admin))

  get_claim_counter : Call (World State W) ℕ
  get_claim_counter = read counter_of

  get_claim_inner : ℕ → Call (World State W) InsuranceClaim
  get_claim_inner claim_id = do
    found ← read (λ s. lookup claim_id s.claims)
    expect found "Claim not found"

  set_claim : ℕ → InsuranceClaim → Call (World State W) (Unit {0})
  set_claim claim_id claim = write (λ s. record s { claims = insert claim_id claim s.claims })

  publish : Event → Call (World State W) (Unit {0})
  publish e = write (λ s. record s { events = e ∷ s.events })

  -- `storage.persistent().remove(PolicyActiveClaim(policy_id))`
  unlock : ℕ → Call (World State W) (Unit {0})
  unlock policy_id =
      write (λ s. record s { policy_active_claim = remove policy_id s.policy_active_claim })

  unfoldable pub initialize : Address → Address → Address → Call (World State W) (Unit {0})
  initialize admin policy_contract risk_pool = do
    old ← read (λ s. s.admin)
    panic_if (is_some old) "Already initialized"
    write (λ s. record s {
      admin = some admin;
      policy_contract = some policy_contract;
      risk_pool = some risk_pool;
      claim_counter = some 0;
    })

  -- `submit_claim` from the duplicate check on.
  pub file_claim : Env → ℕ → ℤ → InsurancePolicy → Call (World State W) ℕ
  unfolding get_claim_counter set_claim publish
  file_claim env policy_id amount policy = do
    panic_if (leb_ℤ amount (pos 0) || ltb_ℤ policy.coverage_amount amount)
        "Claim amount invalid or exceeds coverage"
    locked ← read (λ s. has policy_id s.policy_active_claim)
    panic_if locked "Policy already has an active claim"
    require_auth env policy.holder
    old ← get_claim_counter
    let counter = u64 (old + 1)
    write (λ s. record s { claim_counter = some counter })
    set_claim counter (record {
      claim_id = counter;
      policy_id = policy_id;
      claimant = policy.holder;
      amount = amount;
      status = submitted;
      submitted_at = env.timestamp;
    })
    write (λ s. record s { policy_active_claim = insert policy_id counter s.policy_active_claim })
    publish (submission counter policy_id policy.holder amount)
    return counter

  unfoldable pub start_review : Env → ℕ → Call (World State W) (Unit {0})
  unfolding get_admin get_claim_inner set_claim publish
  start_review env claim_id = do
    admin ← get_admin
    require_auth env admin
    claim ← get_claim_inner claim_id
    panic_if (not (is_submitted claim.status)) "Invalid claim status for review"
    set_claim claim_id (record claim { status = under_review })
    publish (review claim_id claim.policy_id claim.amount)

  unfoldable pub approve_claim : Env → ℕ → Call (World State W) (Unit {0})
  unfolding get_admin get_claim_inner set_claim publish
  approve_claim env claim_id = do
    admin ← get_admin
    require_auth env admin
    claim ← get_claim_inner claim_id
    panic_if (not (is_under_review claim.status)) "Claim must be under review to approve"
    set_claim claim_id (record claim { status = approved })
    publish (approval claim_id claim.policy_id claim.amount claim.claimant)

  unfoldable pub reject_claim : Env → ℕ → Call (World State W) (Unit {0})
  unfolding get_admin get_claim_inner set_claim publish unlock
  reject_claim env claim_id = do
    admin ← get_admin
    require_auth env admin
    claim ← get_claim_inner claim_id
    panic_if (not (is_under_review claim.status)) "Claim must be under review to reject"
    set_claim claim_id (record claim { status = rejected })
    unlock claim.policy_id
    publish (rejection claim_id claim.policy_id claim.amount)

  -- `settle_claim` after the payment.
  pub close_settled : ℕ → InsuranceClaim → Call (World State W) (Unit {0})
  unfolding set_claim publish unlock
  close_settled claim_id claim = do
    set_claim claim_id (record claim { status = settled })
    unlock claim.policy_id
    publish (settlement claim_id claim.amount claim.claimant)

  unfoldable pub get_claim : ℕ → Call (World State W) InsuranceClaim
  unfolding get_claim_inner
  get_claim claim_id = get_claim_inner claim_id

  unfoldable pub get_stats : Call (World State W) ℕ
  unfolding get_claim_counter
  get_stats = get_claim_counter

-- The handlers that call the policy contract and the risk pool.
module _ {W : Type 0} (contracts : Contracts W) where
  -- The two calls of the policy contract that `submit_claim` makes.
  pub fetch_policy : Env → ℕ → Call (World State W) InsurancePolicy
  fetch_policy env policy_id = do
    stored ← read (λ s. s.policy_contract)
    policy_contract ← unwrap stored
    answer ← invoke_contract contracts env policy_contract "is_active" (u64_val policy_id ∷ [])
    is_active ← to_bool answer
    panic_if (not is_active) "Policy is not active or has expired"
    value ← invoke_contract contracts env policy_contract "get_pol" (u64_val policy_id ∷ [])
    to_policy value

  unfoldable pub submit_claim : Env → ℕ → ℤ → Call (World State W) ℕ
  unfolding fetch_policy file_claim
  submit_claim env policy_id amount = do
    policy ← fetch_policy env policy_id
    file_claim env policy_id amount policy

  -- The two calls of the risk pool that `settle_claim` makes.
  pub pay_out : Env → InsuranceClaim → Call (World State W) (Unit {0})
  pay_out env claim = do
    stored ← read (λ s. s.risk_pool)
    risk_pool ← unwrap stored
    value ← invoke_contract contracts env risk_pool "get_stats" []
    pool_stats ← to_stats value
    panic_if (ltb_ℤ pool_stats.available_capital claim.amount)
        "Insufficient risk pool funds for payout"
    paid ←
        invoke_contract contracts env risk_pool "payout"
          (address claim.claimant ∷ i128_val claim.amount ∷ [])
    to_void paid

  unfoldable pub settle_claim : Env → ℕ → Call (World State W) (Unit {0})
  unfolding get_admin get_claim_inner pay_out close_settled
  settle_claim env claim_id = do
    admin ← get_admin
    require_auth env admin
    claim ← get_claim_inner claim_id
    panic_if (not (is_approved claim.status)) "Only approved claims can be settled"
    pay_out env claim
    close_settled claim_id claim

  -- The storage after one transaction: that of before if it fails.
  unfoldable pub step : Env → Op → World State W → World State W
  step env (initializes a p r) w = kept (initialize a p r) w
  step env (submits p x) w = kept (submit_claim env p x) w
  step env (reviews c) w = kept (start_review env c) w
  step env (approves c) w = kept (approve_claim env c) w
  step env (rejects c) w = kept (reject_claim env c) w
  step env (settles c) w = kept (settle_claim env c) w

  -- The storage after a list of transactions, each in an environment of its own.
  unfoldable pub run : List (Env × Op) → World State W → World State W
  run [] w = w
  run ((env, op) ∷ ops) w = run ops (step env op w)
