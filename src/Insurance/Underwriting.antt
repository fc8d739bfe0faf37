-- ===== src/Insurance/Underwriting.antt =====
-- contracts/insurance/src/insurance_impl.rs: the risk of a property, and the premium of a policy.
use stellar_soroban_contract.Prelude.{
  ltb, leb, if◌then◌else◌, ◌==◌, nat_eq, pair_eq, sat_u128, sat_u64, sat_u32, lookup, insert, ℕ,
  ◌+◌, ◌*◌, ◌/◌, not, ◌||◌,
}
use stellar_soroban_contract.Ink.{Env, ◌>>=◌, ◌>>◌, return, gets, modify, fail_if, ok_or}
use stellar_soroban_contract.Insurance.Types.{
  unauthorized, invalid_parameters, property_not_insurable, CoverageType, fire, flood, earthquake,
  theft, liability_damage, natural_disaster, comprehensive, RiskLevel, very_low, low, medium, high,
  very_high, PremiumCalculation,
}
use stellar_soroban_contract.Insurance.Rbac.{oracle_role, has_role}
use stellar_soroban_contract.Insurance.Storage.{risk_assessment_updated, Msg, emit_event}

abbrev pub score_to_risk_level : ℕ → RiskLevel
score_to_risk_level score =
    if leb score 20
    then very_high
    else (if leb score 40
        then high
        else (if leb score 60 then medium else (if leb score 80 then low else very_low)))

abbrev pub risk_score_to_multiplier : ℕ → ℕ
risk_score_to_multiplier score =
    if leb score 20
    then 400
    else (if leb score 40
        then 250
        else (if leb score 60 then 150 else (if leb score 80 then 110 else 80)))

abbrev pub coverage_type_multiplier : CoverageType → ℕ
coverage_type_multiplier fire = 100
coverage_type_multiplier theft = 80
coverage_type_multiplier flood = 150
coverage_type_multiplier earthquake = 200
coverage_type_multiplier liability_damage = 120
coverage_type_multiplier natural_disaster = 180
coverage_type_multiplier comprehensive = 250

unfoldable pub update_risk_assessment : Env → ℕ → ℕ → ℕ → ℕ → ℕ → ℕ → Msg (Unit {0})
unfolding has_role
update_risk_assessment env property_id location construction age history valid_for_seconds = do
  allowed ← gets (λ s. has_role env.caller oracle_role s.role_manager)
  fail_if (not allowed) unauthorized
  fail_if
      (property_id == 0
        || ltb 100 location
        || ltb 100 construction
        || ltb 100 age
        || ltb 100 history
        || valid_for_seconds == 0)
      invalid_parameters
  let overall = sat_u32 (sat_u32 (sat_u32 (location + construction) + age) + history) / 4
  let now = env.block_timestamp
  modify (λ s. record s {
    risk_assessments =
        insert property_id
          (record {
            property_id = property_id;
            location_risk_score = location;
            construction_risk_score = construction;
            age_risk_score = age;
            claims_history_score = history;
            overall_risk_score = overall;
            risk_level = score_to_risk_level overall;
            assessed_at = now;
            valid_until = sat_u64 (now + valid_for_seconds);
          })
          s.risk_assessments;
  })
  emit_event (risk_assessment_updated property_id overall (score_to_risk_level overall) now)

-- The formulas of `calculate_premium`, for a score of the property.
unfoldable pub premium_for : ℕ → ℕ → CoverageType → PremiumCalculation
premium_for score coverage_amount coverage_type =
    let risk = risk_score_to_multiplier score in
    let coverage = coverage_type_multiplier coverage_type in
    let annual =
      sat_u128 (sat_u128 (sat_u128 (coverage_amount * 150) * risk) * coverage)
      / 1_000_000_000_000 in
    record {
      base_rate = 150;
      risk_multiplier = risk;
      coverage_multiplier = coverage;
      annual_premium = annual;
      monthly_premium = annual / 12;
      deductible = sat_u128 (sat_u128 (coverage_amount * 500) * risk) / 10_000_000;
    }

unfoldable pub calculate_premium : ℕ → ℕ → CoverageType → Msg PremiumCalculation
unfolding premium_for
calculate_premium property_id coverage_amount coverage_type = do
  fail_if (property_id == 0 || coverage_amount == 0) invalid_parameters
  stored ← gets (λ s. lookup property_id s.risk_assessments)
  assessment ← ok_or stored property_not_insurable
  return (premium_for assessment.overall_risk_score coverage_amount coverage_type)
