-- ===== src/Insurance/Types.antt =====
-- contracts/insurance/src/types.rs: the data of the insurance core contract.
use stellar_soroban_contract.Prelude.{ℕ, String, Bool, Option, List}
use stellar_soroban_contract.Ink.{AccountId}

-- The fixed point of the rewards per share.
abbrev pub reward_precision : ℕ
reward_precision = 1_000_000_000_000_000_000

pub data InsuranceError : Type 0 where
  unauthorized policy_not_found claim_not_found pool_not_found : InsuranceError
  policy_already_active policy_expired policy_inactive insufficient_premium : InsuranceError
  insufficient_pool_funds claim_already_processed claim_exceeds_coverage : InsuranceError
  invalid_parameters oracle_verification_failed reinsurance_capacity_exceeded : InsuranceError
  token_not_found transfer_failed cooldown_period_active property_not_insurable : InsuranceError
  duplicate_claim invalid_evidence_uri invalid_evidence_hash invalid_evidence_nonce : InsuranceError
  dispute_window_expired invalid_dispute_transition contract_paused : InsuranceError
  nonce_already_used premium_too_low evidence_nonce_empty : InsuranceError
  evidence_invalid_uri_scheme evidence_invalid_hash_length zero_amount : InsuranceError
  insufficient_stake insufficient_pool_liquidity time_lock_pending : InsuranceError
  time_lock_not_ready : InsuranceError

pub data PolicyStatus : Type 0 where
  active renewed expired cancelled claimed suspended : PolicyStatus

pub data PolicyType : Type 0 where
  standard parametric : PolicyType

pub data CoverageType : Type 0 where
  fire flood earthquake theft liability_damage natural_disaster comprehensive : CoverageType

pub data ClaimStatus : Type 0 where
  pending under_review oracle_verifying approved rejected paid disputed : ClaimStatus

pub data RiskLevel : Type 0 where
  very_low low medium high very_high : RiskLevel

pub record EvidenceMetadata : Type 0 where
  pub evidence_type : String
  pub reference_uri : String
  pub content_hash : List ℕ
  pub description : Option String

pub record EvidenceItem : Type 0 where
  pub id : ℕ
  pub claim_id : ℕ
  pub evidence_type : String
  pub ipfs_hash : String
  pub ipfs_uri : String
  pub content_hash : List ℕ
  pub file_size : ℕ
  pub submitter : AccountId
  pub submitted_at : ℕ
  pub verified : Bool
  pub verified_by : Option AccountId
  pub verified_at : Option ℕ
  pub verification_notes : Option String
  pub metadata_url : Option String

pub record EvidenceVerification : Type 0 where
  pub evidence_id : ℕ
  pub verifier : AccountId
  pub verified_at : ℕ
  pub is_valid : Bool
  pub notes : String
  pub ipfs_accessible : Bool
  pub hash_matches : Bool

pub record InsurancePolicy : Type 0 where
  pub policy_id : ℕ
  pub property_id : ℕ
  pub policyholder : AccountId
  pub coverage_type : CoverageType
  pub coverage_amount : ℕ
  pub premium_amount : ℕ
  pub deductible : ℕ
  pub start_time : ℕ
  pub end_time : ℕ
  pub status : PolicyStatus
  pub risk_level : RiskLevel
  pub pool_id : ℕ
  pub claims_count : ℕ
  pub total_claimed : ℕ
  pub metadata_url : String
  pub policy_type : PolicyType
  pub event_id : Option ℕ

-- With the two fields that `submit_claim` fills in and types.rs does not declare.
pub record InsuranceClaim : Type 0 where
  pub claim_id : ℕ
  pub policy_id : ℕ
  pub claimant : AccountId
  pub claim_amount : ℕ
  pub description : String
  pub evidence : EvidenceMetadata
  pub evidence_ids : List ℕ
  pub oracle_report_url : String
  pub status : ClaimStatus
  pub submitted_at : ℕ
  pub under_review_at : Option ℕ
  pub dispute_deadline : Option ℕ
  pub processed_at : Option ℕ
  pub payout_amount : ℕ
  pub assessor : Option AccountId
  pub rejection_reason : String

pub record RiskPool : Type 0 where
  pub pool_id : ℕ
  pub name : String
  pub coverage_type : CoverageType
  pub total_capital : ℕ
  pub available_capital : ℕ
  pub total_premiums_collected : ℕ
  pub total_claims_paid : ℕ
  pub active_policies : ℕ
  pub max_coverage_ratio : ℕ
  pub reinsurance_threshold : ℕ
  pub created_at : ℕ
  pub is_active : Bool
  pub total_provider_stake : ℕ
  pub accumulated_reward_per_share : ℕ
  pub vesting_cliff_seconds : ℕ
  pub vesting_duration_seconds : ℕ
  pub early_withdrawal_penalty_bps : ℕ

pub record RiskAssessment : Type 0 where
  pub property_id : ℕ
  pub location_risk_score : ℕ
  pub construction_risk_score : ℕ
  pub age_risk_score : ℕ
  pub claims_history_score : ℕ
  pub overall_risk_score : ℕ
  pub risk_level : RiskLevel
  pub assessed_at : ℕ
  pub valid_until : ℕ

pub record PremiumCalculation : Type 0 where
  pub base_rate : ℕ
  pub risk_multiplier : ℕ
  pub coverage_multiplier : ℕ
  pub annual_premium : ℕ
  pub monthly_premium : ℕ
  pub deductible : ℕ

pub record ReinsuranceAgreement : Type 0 where
  pub agreement_id : ℕ
  pub reinsurer : AccountId
  pub coverage_limit : ℕ
  pub retention_limit : ℕ
  pub premium_ceded_rate : ℕ
  pub coverage_types : List CoverageType
  pub start_time : ℕ
  pub end_time : ℕ
  pub is_active : Bool
  pub total_ceded_premiums : ℕ
  pub total_recoveries : ℕ

pub record InsuranceToken : Type 0 where
  pub token_id : ℕ
  pub policy_id : ℕ
  pub owner : AccountId
  pub face_value : ℕ
  pub is_tradeable : Bool
  pub created_at : ℕ
  pub listed_price : Option ℕ

pub record ActuarialModel : Type 0 where
  pub model_id : ℕ
  pub coverage_type : CoverageType
  pub loss_frequency : ℕ
  pub average_loss_severity : ℕ
  pub expected_loss_ratio : ℕ
  pub confidence_level : ℕ
  pub last_updated : ℕ
  pub data_points : ℕ

pub record UnderwritingCriteria : Type 0 where
  pub max_property_age_years : ℕ
  pub min_property_value : ℕ
  pub max_property_value : ℕ
  pub excluded_locations : List String
  pub required_safety_features : Bool
  pub max_previous_claims : ℕ
  pub min_risk_score : ℕ

pub record BatchClaimResult : Type 0 where
  pub claim_id : ℕ
  pub success : Bool
  pub error : Option InsuranceError

pub record PoolLiquidityProvider : Type 0 where
  pub provider : AccountId
  pub pool_id : ℕ
  pub provider_stake : ℕ
  pub reward_debt : ℕ
  pub deposited_at : ℕ
  pub vesting_total : ℕ
  pub vesting_claimed : ℕ
  pub vesting_start : ℕ
