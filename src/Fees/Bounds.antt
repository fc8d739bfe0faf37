-- ===== src/Fees/Bounds.antt =====
-- contracts/fees/src/lib.rs: fees stay within their bounds and follow the congestion.
use stellar_soroban_contract.Prelude.{
  ltb, if◌then◌else◌, min, Option-cases, nat_eq, pair_eq, sat_u128, lookup, lookup-insert, ℕ, ◌+◌,
  ◌*◌, ◌/◌, ◌≤◌, ◌<◌, ◌≡◌, refl, inl, inr, some, List, [], ◌∷◌, arith,
}
use stellar_soroban_contract.Ink.{AccountId, Env}
use stellar_soroban_contract.Fees.Types.{FeeOperation, operation_eq, FeeConfig, FeeManager}
use stellar_soroban_contract.Fees.Pricing.{
  clamp, uncut_fee, compute_dynamic_fee, get_config, congestion_index, demand_factor_bp,
  calculate_fee,
}
use stellar_soroban_contract.Fees.{
  new, record_fee_collected, update_fee_params, set_operation_config, collect_fee, Op, configures,
  distributes, step, run,
}
use stellar_soroban_contract.Fees.Distribution.{
  add_validator, remove_validator, set_distribution_rates, reward_validator, reward_all,
  per_validator_of, distribute_fees, claim_rewards,
}
use stellar_soroban_contract.Fees.Market.{create_premium_auction, place_bid, settle_auction}

-- Every configuration that can apply has its bounds in order.
pub record IsPriced (s : FeeManager) : Type 0 where
  pub usual : s.default_config.min_fee ≤ s.default_config.max_fee
  pub special :
      (o : FeeOperation) (c : FeeConfig)
      → lookup o s.operation_config ≡ some c
      → c.min_fee ≤ c.max_fee

unchanged-IsPriced :
    (s t : FeeManager)
    → IsPriced s
    → t.default_config.min_fee ≡ s.default_config.min_fee
    → t.default_config.max_fee ≡ s.default_config.max_fee
    → t.operation_config ≡ s.operation_config
    → IsPriced t
unchanged-IsPriced s t v lo hi same = record {
  usual = omega (arith, v.usual);
  special = λ o c h. v.special o c (rw (← same) h);
}

-- The validators' rewards touch no price.
reward_all_prices :
    (env : Env) (x : ℕ) (l : List AccountId) (s : FeeManager)
    → ((reward_all env x l s).default_config ≡ s.default_config)
      × ((reward_all env x l s).operation_config ≡ s.operation_config)
unfolding reward_all
reward_all_prices env x [] s = (refl, refl)
reward_all_prices env x (a ∷ l) s = reward_all_prices env x l (reward_validator env x a s)

step-IsPriced : (env : Env) (op : Op) (s : FeeManager) → IsPriced s → IsPriced (step env op s)
unfolding step record_fee_collected update_fee_params set_operation_config create_premium_auction
    place_bid settle_auction add_validator remove_validator set_distribution_rates distribute_fees
    claim_rewards collect_fee
step-IsPriced env (configures o c) s v = record {
  usual = ground (arith, v.usual);
  special = λ p d h. ground (arith, lookup-insert p o c s.operation_config, v.special p d);
}
step-IsPriced env distributes s v =
    let (a, b) = reward_all_prices env (per_validator_of s) s.validator_list s in
    unchanged-IsPriced s (step env distributes s) v (ground arith) (ground arith) (ground arith)
step-IsPriced env op s v =
    unchanged-IsPriced s (step env op s) v (ground arith) (ground arith) (ground arith)

run-IsPriced : (ops : List (Env × Op)) (s : FeeManager) → IsPriced s → IsPriced (run ops s)
unfolding run
run-IsPriced [] s v = v
run-IsPriced ((env, op) ∷ ops) s v = run-IsPriced ops (step env op s) (step-IsPriced env op s v)

pub new-IsPriced : (env : Env) (base lo hi : ℕ) → lo ≤ hi → IsPriced (new env base lo hi)
unfolding new lookup
new-IsPriced env base lo hi h = record { usual = h; special = λ o c e. absurd (cc) }

-- When the manager is created with its least fee at most its greatest, then after any messages, at
-- any time and for any operation, a fee is calculated, with no panic, and it lies between the least
-- and the greatest fee of the configuration that applies.
pub calculate_fee_bounds :
    (creation : Env) (base lo hi : ℕ) (ops : List (Env × Op)) (env : Env) (o : FeeOperation)
    → lo ≤ hi
    → let s = run ops (new creation base lo hi) in
      (fee : ℕ) × (calculate_fee env o s ≡ some fee)
      × ((get_config o s).min_fee ≤ fee)
      × (fee ≤ (get_config o s).max_fee)
unfolding calculate_fee compute_dynamic_fee
calculate_fee_bounds creation base lo hi ops env o h =
    let s = run ops (new creation base lo hi) in
    let v = run-IsPriced ops (new creation base lo hi) (new-IsPriced creation base lo hi h) in
    clamp_bounds (get_config o s).min_fee (get_config o s).max_fee
      (uncut_fee (get_config o s) (congestion_index env s) (demand_factor_bp env s))
      (elim (Option-cases (lookup o s.operation_config)) [
        | inl none_set ↦ ground (arith, v.usual)
        | inr (c, set) ↦ ground (arith, v.special o c set)
      ])
  where
    clamp_bounds :
        (l u x : ℕ) → l ≤ u → (fee : ℕ) × (clamp l u x ≡ some fee) × (l ≤ fee) × (fee ≤ u)
    clamp_bounds l u x le = (
      if ltb x l then l else (if ltb u x then u else x),
      ground arith,
      ground arith,
      ground arith,
    )

sat_u128_mono : (a b : ℕ) → a ≤ b → sat_u128 a ≤ sat_u128 b
sat_u128_mono a b h = ground arith

mul_mono : (a b c : ℕ) → a ≤ b → c * a ≤ c * b
mul_mono a b c h = grind arith

min_mono : (a b c : ℕ) → a ≤ b → min a c ≤ min b c
min_mono a b c h = ground arith

-- What the base fee is multiplied by never falls, in steps that each keep the order.
abbrev factor_of : ℕ → ℕ → ℕ
factor_of raised demand =
    sat_u128 (sat_u128 (10000 + sat_u128 (raised * 200) / 10000) + min demand 5000)

div_mono : (a b : ℕ) → a ≤ b → a / 10000 ≤ b / 10000
div_mono a b h = omega (arith, h)

double_mono : (a b : ℕ) → a ≤ b → sat_u128 (a * 200) ≤ sat_u128 (b * 200)
double_mono a b h = sat_u128_mono (a * 200) (b * 200) (omega (arith, h))

add_left_mono : (a c d : ℕ) → c ≤ d → a + c ≤ a + d
add_left_mono a c d k = omega (arith, k)

add_mono : (a b c d : ℕ) → a ≤ b → c ≤ d → a + c ≤ b + d
add_mono a b c d h k = omega (arith, h, k)

factor_of_mono : (a b d d' : ℕ) → a ≤ b → d ≤ d' → factor_of a d ≤ factor_of b d'
factor_of_mono a b d d' h hd =
    let quotient = div_mono _ _ (double_mono a b h) in
    let base : sat_u128 (10000 + sat_u128 (a * 200) / 10000)
        ≤ sat_u128 (10000 + sat_u128 (b * 200) / 10000) =
      sat_u128_mono _ _ (add_left_mono 10000 _ _ quotient) in
    sat_u128_mono _ _ (add_mono _ _ _ _ base (min_mono d d' 5000 hd))

uncut_fee_mono :
    (config : FeeConfig) (c d c' d' : ℕ)
    → c ≤ c'
    → d ≤ d'
    → uncut_fee config c d ≤ uncut_fee config c' d'
unfolding uncut_fee
uncut_fee_mono config c d c' d' hc hd =
    let scaled : c * config.congestion_sensitivity ≤ c' * config.congestion_sensitivity =
      grind arith in
    let factor = factor_of_mono _ _ d d' (sat_u128_mono _ _ scaled) hd in
    omega (arith, sat_u128_mono _ _ (mul_mono _ _ config.base_fee factor))

-- For any configuration, a higher congestion or a higher demand never lowers the fee.
pub compute_dynamic_fee_mono :
    (config : FeeConfig) (c d c' d' : ℕ) {fee fee' : ℕ}
    → c ≤ c'
    → d ≤ d'
    → compute_dynamic_fee config c d ≡ some fee
    → compute_dynamic_fee config c' d' ≡ some fee'
    → fee ≤ fee'
unfolding compute_dynamic_fee
compute_dynamic_fee_mono config c d c' d' hc hd low high =
    ground (arith, uncut_fee_mono config c d c' d' hc hd)

sat_u128_le : (x : ℕ) → sat_u128 x ≤ x
sat_u128_le x = ground arith

factor_of_capped : (c s d : ℕ) → c * s ≤ 10000 → factor_of (sat_u128 (c * s)) d ≤ 15200
factor_of_capped c s d h =
    let outer =
      sat_u128_le (sat_u128 (10000 + sat_u128 (sat_u128 (c * s) * 200) / 10000) + min d 5000) in
    let middle = sat_u128_le (10000 + sat_u128 (sat_u128 (c * s) * 200) / 10000) in
    let inner = sat_u128_le (sat_u128 (c * s) * 200) in
    let least = sat_u128_le (c * s) in
    let demand : min d 5000 ≤ 5000 = ground arith in
    omega (arith, outer, middle, inner, least, demand, h)

-- For any configuration with a sensitivity of at most 100, at any congestion index of at most 100
-- and any demand, congestion raises the fee by at most 2 % of the base fee and demand by at most
-- 50 %: a fee above the least fee is at most 1.52 times the base fee.
pub compute_dynamic_fee_capped :
    (config : FeeConfig) (c d : ℕ) {fee : ℕ}
    → config.congestion_sensitivity ≤ 100
    → c ≤ 100
    → config.min_fee < fee
    → compute_dynamic_fee config c d ≡ some fee
    → fee * 10000 ≤ config.base_fee * 15200
unfolding compute_dynamic_fee uncut_fee
compute_dynamic_fee_capped config c d mild index above computed =
    let scaled : c * config.congestion_sensitivity ≤ 10000 =
      product_le c config.congestion_sensitivity index mild in
    let factor = factor_of_capped c config.congestion_sensitivity d scaled in
    let raised = mul_mono _ _ config.base_fee factor in ground arith
  where
    product_le : (x y : ℕ) → x ≤ 100 → y ≤ 100 → x * y ≤ 10000
    product_le x y h k = grind arith
