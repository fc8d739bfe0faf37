-- ===== src/Insurance/Storage.antt =====
-- contracts/insurance/src/lib.rs: the storage of the insurance core contract, and
-- contracts/insurance/src/events.rs: its events. Four settings that no message reads
-- (authorized_oracles, authorized_assessors, min_pool_capital, arbiter) are left out.
use stellar_soroban_contract.Prelude.{
  nat_eq, pair_eq, Store, lookup, insert, ℕ, String, Bool, true, false, not, Option, List, ◌∷◌,
}
use stellar_soroban_contract.Ink.{
  AccountId, Env, Message, ◌>>=◌, ◌>>◌, gets, modify, fail_if, ok_or,
}
use stellar_soroban_contract.Insurance.Types.{
  InsuranceError, unauthorized, policy_not_found, claim_not_found, pool_not_found, transfer_failed,
  contract_paused, insufficient_stake, PolicyStatus, active, renewed, PolicyType, standard,
  parametric, CoverageType, ClaimStatus, pending, under_review, RiskLevel, EvidenceItem,
  EvidenceVerification, InsurancePolicy, InsuranceClaim, RiskPool, RiskAssessment,
  ReinsuranceAgreement, InsuranceToken, ActuarialModel, UnderwritingCriteria, PoolLiquidityProvider,
}
use stellar_soroban_contract.Insurance.Rbac.{Role, RoleManager, has_role}

pub data Event : Type 0 where
  policy_created : ℕ → AccountId → ℕ → CoverageType → ℕ → ℕ → ℕ → ℕ → Event
  policy_issued : ℕ → AccountId → ℕ → ℕ → ℕ → Event
  policy_cancelled_event : ℕ → AccountId → ℕ → Option String → Event
  policy_renewed_event : ℕ → AccountId → ℕ → ℕ → ℕ → Event
  policy_expired_event : ℕ → AccountId → ℕ → Event
  claim_submitted : ℕ → ℕ → AccountId → ℕ → ℕ → Event
  claim_approved_event : ℕ → ℕ → ℕ → AccountId → ℕ → Event
  claim_disputed : ℕ → AccountId → ℕ → ClaimStatus → ℕ → Event
  claim_rejected_event : ℕ → ℕ → String → AccountId → ℕ → Event
  payout_executed : ℕ → AccountId → ℕ → ℕ → Event
  pool_capitalized : ℕ → AccountId → ℕ → ℕ → Event
  liquidity_deposited : ℕ → AccountId → ℕ → ℕ → ℕ → Event
  liquidity_withdrawn : ℕ → AccountId → ℕ → ℕ → ℕ → ℕ → Event
  rewards_claimed : ℕ → AccountId → ℕ → ℕ → ℕ → Event
  rewards_reinvested : ℕ → AccountId → ℕ → ℕ → ℕ → ℕ → Event
  rewards_vesting_started : ℕ → AccountId → ℕ → ℕ → ℕ → ℕ → Event
  vested_rewards_claimed : ℕ → AccountId → ℕ → ℕ → Event
  reinsurance_activated : ℕ → ℕ → ℕ → ℕ → Event
  insurance_token_minted : ℕ → ℕ → AccountId → ℕ → Event
  insurance_token_transferred : ℕ → AccountId → AccountId → ℕ → Event
  risk_assessment_updated : ℕ → ℕ → RiskLevel → ℕ → Event
  evidence_submitted : ℕ → ℕ → String → String → AccountId → ℕ → Event
  evidence_verified : ℕ → AccountId → Bool → ℕ → Event
  contract_paused_event : AccountId → ℕ → Event
  contract_unpaused_event : AccountId → ℕ → Event
  pause_proposed : AccountId → ℕ → Event
  admin_proposed : AccountId → AccountId → ℕ → Event
  admin_changed : AccountId → AccountId → ℕ → Event
  role_granted : AccountId → Role → AccountId → Event
  role_revoked : AccountId → Role → AccountId → Event
  replay_protected : AccountId → ℕ → ℕ → Event

-- `transfers` are the payments of native tokens that the contract has made, latest first.
pub record PropertyInsurance : Type 0 where
  pub admin : AccountId
  pub role_manager : RoleManager
  pub policies : Store ℕ InsurancePolicy
  pub policy_count : ℕ
  pub policyholder_policies : Store AccountId (List ℕ)
  pub property_policies : Store ℕ (List ℕ)
  pub claims : Store ℕ InsuranceClaim
  pub claim_count : ℕ
  pub policy_claims : Store ℕ (List ℕ)
  pub pools : Store ℕ RiskPool
  pub pool_count : ℕ
  pub risk_assessments : Store ℕ RiskAssessment
  pub reinsurance_agreements : Store ℕ ReinsuranceAgreement
  pub reinsurance_count : ℕ
  pub insurance_tokens : Store ℕ InsuranceToken
  pub token_count : ℕ
  pub token_listings : List ℕ
  pub actuarial_models : Store ℕ ActuarialModel
  pub model_count : ℕ
  pub underwriting_criteria : Store ℕ UnderwritingCriteria
  pub liquidity_providers : Store (ℕ × AccountId) PoolLiquidityProvider
  pub pool_providers : Store ℕ (List AccountId)
  pub claim_cooldowns : Store ℕ ℕ
  pub caller_last_claim : Store AccountId ℕ
  pub evidence_count : ℕ
  pub evidence_items : Store ℕ EvidenceItem
  pub claim_evidence : Store ℕ (List ℕ)
  pub evidence_verifications : Store ℕ (List EvidenceVerification)
  pub oracle_contract : Option AccountId
  pub platform_fee_rate : ℕ
  pub claim_cooldown_period : ℕ
  pub dispute_window_seconds : ℕ
  pub used_evidence_nonces : Store (ℕ × String) Bool
  pub caller_nonces : Store AccountId ℕ
  pub is_paused : Bool
  pub pending_pause_after : Option ℕ
  pub pending_admin : Option AccountId
  pub pending_admin_after : Option ℕ
  pub admin_timelock_delay : ℕ
  pub total_platform_fees_collected : ℕ
  pub min_premium_amount : ℕ
  pub transfers : List (AccountId × ℕ)
  pub events : List Event

abbrev pub Msg : Type 0 → Type 0
Msg A = Message PropertyInsurance InsuranceError A

abbrev pub emit_event : Event → Msg (Unit {0})
emit_event e = modify (λ s. record s { events = e ∷ s.events })

abbrev pub set_pool : ℕ → RiskPool → Msg (Unit {0})
set_pool pool_id pool = modify (λ s. record s { pools = insert pool_id pool s.pools })

abbrev pub set_policy : ℕ → InsurancePolicy → Msg (Unit {0})
set_policy policy_id policy =
    modify (λ s. record s { policies = insert policy_id policy s.policies })

abbrev pub set_claim : ℕ → InsuranceClaim → Msg (Unit {0})
set_claim claim_id claim = modify (λ s. record s { claims = insert claim_id claim s.claims })

abbrev pub set_provider : ℕ × AccountId → PoolLiquidityProvider → Msg (Unit {0})
set_provider key provider =
    modify (λ s. record s { liquidity_providers = insert key provider s.liquidity_providers })

-- `self.pools.get(&pool_id).ok_or(PoolNotFound)?`, and the like.
abbrev pub find_pool : ℕ → Msg RiskPool
find_pool pool_id = do stored ← gets (λ s. lookup pool_id s.pools); ok_or stored pool_not_found

abbrev pub find_policy : ℕ → Msg InsurancePolicy
find_policy policy_id = do
  stored ← gets (λ s. lookup policy_id s.policies)
  ok_or stored policy_not_found

abbrev pub find_claim : ℕ → Msg InsuranceClaim
find_claim claim_id = do stored ← gets (λ s. lookup claim_id s.claims); ok_or stored claim_not_found

abbrev pub find_provider : ℕ × AccountId → Msg PoolLiquidityProvider
find_provider key = do
  stored ← gets (λ s. lookup key s.liquidity_providers)
  ok_or stored insufficient_stake

-- `self.ensure_role(role)?`
unfoldable pub ensure_role : Env → Role → Msg (Unit {0})
unfolding has_role
ensure_role env role = do
  allowed ← gets (λ s. has_role env.caller role s.role_manager)
  fail_if (not allowed) unauthorized

-- `if self.is_paused { return Err(ContractPaused) }`
abbrev pub require_running : Msg (Unit {0})
require_running = do paused_now ← gets (λ s. s.is_paused); fail_if paused_now contract_paused

-- Whether the chain accepts a transfer of native tokens; a refused one ends the message.
abbrev pub Accepts : Type 0
Accepts = AccountId → ℕ → Bool

-- `self.env().transfer(to, amount).map_err(|_| TransferFailed)?`
abbrev pub pay : Accepts → AccountId → ℕ → Msg (Unit {0})
pay accepts to amount = do
  fail_if (not (accepts to amount)) transfer_failed
  modify (λ s. record s { transfers = (to, amount) ∷ s.transfers })

-- `matches!` for the statuses that messages test.
abbrev pub is_in_force : PolicyStatus → Bool
is_in_force active = true
is_in_force _ = false

abbrev pub is_renewed : PolicyStatus → Bool
is_renewed renewed = true
is_renewed _ = false

abbrev pub is_open : ClaimStatus → Bool
is_open pending = true
is_open under_review = true
is_open _ = false

abbrev pub is_parametric : PolicyType → Bool
is_parametric standard = false
is_parametric parametric = true
