-- ===== src/InsuranceTypes.antt =====
-- contracts/lib/src/insurance_types.rs: the types that the insurance contracts share.
use stellar_soroban_contract.Prelude.{ℤ, ℕ, String, Bool}
use stellar_soroban_contract.Host.{Address}

pub data PolicyStatus : Type 0 where
  active renewed expired cancelled : PolicyStatus

pub data PolicyType : Type 0 where
  standard parametric : PolicyType

pub record InsurancePolicy : Type 0 where
  pub policy_id : ℕ  -- u64
  pub holder : Address
  pub coverage_amount : ℤ  -- i128
  pub premium_amount : ℤ  -- i128
  pub start_time : ℕ  -- u64
  pub duration_days : ℕ  -- u32
  pub policy_type : PolicyType
  pub status : PolicyStatus
  pub risk_pool : Address

pub data ClaimStatus : Type 0 where
  submitted under_review approved rejected settled : ClaimStatus

pub record InsuranceClaim : Type 0 where
  pub claim_id : ℕ  -- u64
  pub policy_id : ℕ  -- u64
  pub claimant : Address
  pub amount : ℤ  -- i128
  pub status : ClaimStatus
  pub submitted_at : ℕ  -- u64

-- The type that the claims contract decodes; the pool's own `PoolStats` has no `provider_count`.
pub record PoolStats : Type 0 where
  pub total_capital : ℤ  -- i128
  pub available_capital : ℤ  -- i128
  pub total_claims_paid : ℤ  -- i128
  pub provider_count : ℕ  -- u32

pub record Proposal : Type 0 where
  pub id : ℕ  -- u64
  pub title : String
  pub description : String
  pub execution_data : String
  pub creator : Address
  pub expires_at : ℕ  -- u64
  pub threshold_percentage : ℕ  -- u32
  pub yes_votes : ℤ  -- i128
  pub no_votes : ℤ  -- i128
  pub is_finalized : Bool
  pub is_executed : Bool

pub data GovernanceAction : Type 0 where
  claim_approval : ℕ → GovernanceAction
  fund_allocation : Address → ℤ → GovernanceAction
  policy_change : ℕ → GovernanceAction
