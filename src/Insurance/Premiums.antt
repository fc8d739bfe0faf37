-- ===== src/Insurance/Premiums.antt =====
-- contracts/insurance/src/insurance_impl.rs: what a premium amounts to.
use stellar_soroban_contract.Prelude.{nat_eq, string_eq, pair_eq, sat_u128, ℕ, ◌*◌, ◌/◌, ◌≤◌, arith}
use stellar_soroban_contract.Insurance.Types.{
  CoverageType, fire, flood, earthquake, theft, liability_damage, natural_disaster, comprehensive,
}
use stellar_soroban_contract.Insurance.Underwriting.{
  risk_score_to_multiplier, coverage_type_multiplier, premium_for,
}

mul_mono : (a b c : ℕ) → a ≤ b → a * c ≤ b * c
mul_mono a b c h = grind arith

multiplier_bounds :
    (score : ℕ) → (80 ≤ risk_score_to_multiplier score) × (risk_score_to_multiplier score ≤ 400)
multiplier_bounds score = ground arith

coverage_bounds :
    (c : CoverageType) → (80 ≤ coverage_type_multiplier c) × (coverage_type_multiplier c ≤ 250)
coverage_bounds fire = omega arith
coverage_bounds flood = omega arith
coverage_bounds earthquake = omega arith
coverage_bounds theft = omega arith
coverage_bounds liability_damage = omega arith
coverage_bounds natural_disaster = omega arith
coverage_bounds comprehensive = omega arith

product_le : (a r c : ℕ) → r ≤ 400 → c ≤ 250 → a * r * c ≤ a * 100000
product_le a r c h k =
    let first : a * r * c ≤ a * 400 * c = mul_mono (a * r) (a * 400) c (grind arith) in
    let second : a * 400 * c ≤ a * 400 * 250 = grind arith in omega arith

cut_le : (a b c : ℕ) → sat_u128 (sat_u128 (sat_u128 a * b) * c) ≤ a * b * c
cut_le a b c =
    let inner : sat_u128 (sat_u128 a * b) ≤ a * b =
      let first : sat_u128 a * b ≤ a * b = mul_mono (sat_u128 a) a b (ground arith) in
      ground arith in
    let outer = mul_mono (sat_u128 (sat_u128 a * b)) (a * b) c inner in ground arith

-- At the greatest multipliers, a premium for a year is at most 15 millionths of the coverage, and
-- the deductible at most 2 % of it.
pub premium_for_bounds :
    (score coverage : ℕ) (c : CoverageType)
    → let p = premium_for score coverage c in
      (p.annual_premium * 1_000_000 ≤ coverage * 15)
      × (p.monthly_premium * 12 ≤ p.annual_premium)
      × (p.deductible * 50 ≤ coverage)
unfolding premium_for
premium_for_bounds score coverage c =
    let (low_risk, high_risk) = multiplier_bounds score in
    let (low_cover, high_cover) = coverage_bounds c in
    let risk = risk_score_to_multiplier score in
    let kind = coverage_type_multiplier c in
    let cut = cut_le (coverage * 150) risk kind in
    let all = product_le (coverage * 150) risk kind high_risk high_cover in
    let share : coverage * 500 * risk ≤ coverage * 500 * 400 = grind arith in
    let cut_share : sat_u128 (sat_u128 (coverage * 500) * risk) ≤ coverage * 500 * risk =
      let first : sat_u128 (coverage * 500) * risk ≤ coverage * 500 * risk =
        mul_mono (sat_u128 (coverage * 500)) (coverage * 500) risk (ground arith) in
      ground arith in
    (omega arith, omega arith, omega arith)

-- For the same property and kind of cover, more coverage never costs less, and a property with a
-- higher score (a lower risk) never costs more.
pub premium_for_mono :
    (low_score high_score coverage more : ℕ) (c : CoverageType)
    → low_score ≤ high_score
    → coverage ≤ more
    → (premium_for low_score coverage c).annual_premium
        ≤ (premium_for low_score more c).annual_premium
      × ((premium_for high_score coverage c).annual_premium
          ≤ (premium_for low_score coverage c).annual_premium)
unfolding premium_for
premium_for_mono low_score high_score coverage more c h k =
    let risk = risk_score_to_multiplier low_score in
    let less = risk_score_to_multiplier high_score in
    let falls : less ≤ risk = ground arith in
    let kind = coverage_type_multiplier c in
    (
      raise (sat_u128 (coverage * 150)) (sat_u128 (more * 150)) risk risk kind (ground arith)
          (omega arith),
      raise (sat_u128 (coverage * 150)) (sat_u128 (coverage * 150)) less risk kind (omega arith)
          falls,
    )
  where
    raise :
        (a b r q d : ℕ)
        → a ≤ b
        → r ≤ q
        → sat_u128 (sat_u128 (a * r) * d) / 1_000_000_000_000
          ≤ sat_u128 (sat_u128 (b * q) * d) / 1_000_000_000_000
    raise a b r q d le lq =
        let first : a * r ≤ b * q =
          let left : a * r ≤ b * r = mul_mono a b r le in
          let right : b * r ≤ b * q = grind arith in omega arith in
        let cut : sat_u128 (a * r) ≤ sat_u128 (b * q) = ground arith in
        let second = mul_mono (sat_u128 (a * r)) (sat_u128 (b * q)) d cut in
        let cut_again : sat_u128 (sat_u128 (a * r) * d) ≤ sat_u128 (sat_u128 (b * q) * d) =
          ground arith in
        omega arith
