-- ===== src/Fees/Pricing.antt =====
-- contracts/fees/src/lib.rs: the price of an operation, and the reports on it.
use stellar_soroban_contract.Prelude.{
  ltb, leb, if◌then◌else◌, min, nat_eq, pair_eq, u32, sat_u128, sat_u32, Store, lookup, ℕ, zero,
  suc, ◌+◌, ◌-◌, ◌*◌, ◌/◌, String, Bool, false, not, ◌&&◌, Option, none, some, List, [], ◌∷◌,
}
use stellar_soroban_contract.Ink.{Env, unwrap_or}
use stellar_soroban_contract.Fees.Types.{
  FeeOperation, register_property, operation_eq, FeeConfig, PremiumAuction, FeeReport, FeeEstimate,
  FeeManager,
}

-- The number of recent operations at which the congestion is complete.
abbrev pub congestion_window : ℕ
congestion_window = 100

abbrev pub max_congestion_multiplier : ℕ
max_congestion_multiplier = 300

-- `Ord::clamp`, which panics when the bounds are in the wrong order.
abbrev pub clamp : ℕ → ℕ → ℕ → Option ℕ
clamp lo hi x =
    if ltb hi lo then none else some (if ltb x lo then lo else (if ltb hi x then hi else x))

-- The fee before it is cut to its bounds.
unfoldable pub uncut_fee : FeeConfig → ℕ → ℕ → ℕ
uncut_fee config congestion_index demand_factor_bp =
    let congestion_bp =
      sat_u128 (
        sat_u128 (congestion_index * config.congestion_sensitivity)
        * (max_congestion_multiplier - 100))
      / 10000 in
    let demand_bp = min demand_factor_bp 5000 in
    let total_multiplier_bp = sat_u128 (sat_u128 (10000 + congestion_bp) + demand_bp) in
    sat_u128 (config.base_fee * total_multiplier_bp) / 10000

unfoldable pub compute_dynamic_fee : FeeConfig → ℕ → ℕ → Option ℕ
compute_dynamic_fee config congestion_index demand_factor_bp =
    clamp config.min_fee config.max_fee (uncut_fee config congestion_index demand_factor_bp)

abbrev pub get_config : FeeOperation → FeeManager → FeeConfig
get_config op s = unwrap_or s.default_config (lookup op s.operation_config)

unfoldable pub congestion_index : Env → FeeManager → ℕ
congestion_index env s =
    if ltb 3600 (env.block_timestamp - s.last_congestion_reset)
    then 0
    else min (sat_u32 (s.recent_ops_count * 100) / congestion_window) 100

unfoldable pub demand_factor_bp : Env → FeeManager → ℕ
demand_factor_bp env s = sat_u32 (s.default_config.demand_factor_bp * congestion_index env s) / 100

unfoldable pub calculate_fee : Env → FeeOperation → FeeManager → Option ℕ
calculate_fee env operation s =
    compute_dynamic_fee (get_config operation s) (congestion_index env s) (demand_factor_bp env s)

abbrev pub congestion_level : ℕ → String
congestion_level congestion =
    if ltb congestion 33 then "low" else (if ltb congestion 66 then "medium" else "high")

abbrev pub recommendation_for : ℕ → String
recommendation_for congestion =
    if leb 70 congestion
    then "Consider batching operations or submitting during off-peak."
    else (if ltb congestion 30
        then "Good time to submit; fees are below average."
        else "Fees are at typical levels.")

unfoldable pub get_fee_estimate : Env → FeeOperation → FeeManager → Option FeeEstimate
get_fee_estimate env operation s =
    let config = get_config operation s in
    let congestion = congestion_index env s in
    elim (compute_dynamic_fee config congestion (demand_factor_bp env s)) [
      | none ↦ none
      | some estimated ↦ some (record {
        operation = operation;
        estimated_fee = estimated;
        min_fee = config.min_fee;
        max_fee = config.max_fee;
        congestion_level = congestion_level congestion;
        recommendation = recommendation_for congestion;
      })
    ]

abbrev pub is_active_auction : Env → Option PremiumAuction → Bool
is_active_auction env none = false
is_active_auction env (some a) = not a.settled && ltb env.block_timestamp a.end_time

-- `for id in 1..=self.auction_count`, with the number of rounds left.
unfoldable pub count_active : Env → Store ℕ PremiumAuction → ℕ → ℕ → ℕ → ℕ
count_active env auctions zero id active = active
count_active env auctions (suc rounds) id active =
    count_active env auctions rounds (id + 1)
      (if is_active_auction env (lookup id auctions) then u32 (active + 1) else active)

unfoldable pub get_fee_report : Env → FeeManager → Option FeeReport
get_fee_report env s = elim (calculate_fee env register_property s) [
  | none ↦ none
  | some recommended ↦ some (record {
    config = s.default_config;
    congestion_index = congestion_index env s;
    recommended_fee = recommended;
    total_fees_collected = s.total_fees_collected;
    total_distributed = s.total_distributed;
    operation_count_24h = s.recent_ops_count;
    premium_auctions_active = count_active env s.auctions s.auction_count 1 0;
    timestamp = env.block_timestamp;
  })
]

unfoldable pub get_fee_recommendations : Env → FeeManager → List String
get_fee_recommendations env s =
    let c = congestion_index env s in
    let general =
      "Premium listings: use auctions for better price discovery."
      ∷ "Check get_fee_estimate before each operation type." ∷ [] in
    if leb 70 c
    then "High congestion: use batch operations to reduce total fee."
      ∷ "Consider submitting during off-peak hours." ∷ general
    else (if ltb c 30 then "Low congestion: current fees are favorable." ∷ general else general)
