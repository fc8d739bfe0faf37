-- ===== src/Fees.antt =====
-- contracts/fees/src/lib.rs: fees that follow the congestion, premium auctions, and the shares of
-- the validators. The price of an operation is in Fees.Pricing.
pub mod Types
pub mod Pricing
pub mod Market
pub mod Distribution
pub mod Bounds
pub mod Auctions
pub mod Bidding
pub mod Progress
pub mod Validators
pub mod Coverage
mod Tests
use stellar_soroban_contract.Prelude.{
  ltb, if◌then◌else◌, min, max, nat_eq, pair_eq, sat_u128, sat_u32, insert, ℕ, ◌+◌, ◌-◌, ◌*◌, ◌/◌,
  String, ◌||◌, none, some, List, [], ◌∷◌,
}
use stellar_soroban_contract.Ink.{
  AccountId, Env, Message, ◌>>=◌, ◌>>◌, gets, modify, fail_if, or_trap, map_err, kept,
}
use stellar_soroban_contract.Fees.Types.{
  FeeOperation, operation_eq, FeeConfig, invalid_config, fee_config_updated, FeeManager, Msg,
  emit_event, ensure_admin,
}
use stellar_soroban_contract.Fees.Pricing.{
  congestion_window, congestion_index, demand_factor_bp, calculate_fee,
}
use stellar_soroban_contract.Fees.Market.{create_premium_auction, place_bid, settle_auction}
use stellar_soroban_contract.Fees.Distribution.{
  add_validator, remove_validator, set_distribution_rates, distribute_fees, claim_rewards,
}

unfoldable pub new : Env → ℕ → ℕ → ℕ → FeeManager
new env base_fee min_fee max_fee = record {
  admin = env.caller;
  operation_config = [];
  default_config = record {
    base_fee = base_fee;
    min_fee = min_fee;
    max_fee = max_fee;
    congestion_sensitivity = 80;
    demand_factor_bp = 500;
    last_updated = env.block_timestamp;
  };
  recent_ops_count = 0;
  last_congestion_reset = env.block_timestamp;
  auctions = [];
  auction_bids = [];
  auction_count = 0;
  fee_treasury = 0;
  pending_rewards = [];
  reward_records = [];
  reward_record_count = 0;
  total_fees_collected = 0;
  total_distributed = 0;
  validators = [];
  validator_list = [];
  validator_share_bp = 5000;
  treasury_share_bp = 5000;
  events = [];
}

-- The counters after one more operation, and what it paid.
unfoldable pub record_fee_collected : Env → FeeOperation → ℕ → AccountId → Msg (Unit {0})
record_fee_collected env operation amount from = do
  modify (λ s. record s {
    recent_ops_count = min (sat_u32 (s.recent_ops_count + 1)) congestion_window;
  })
  modify (λ s.
      if ltb 3600 (env.block_timestamp - s.last_congestion_reset)
      then record s { last_congestion_reset = env.block_timestamp; recent_ops_count = 1 }
      else s)
  modify (λ s. record s {
    fee_treasury = sat_u128 (s.fee_treasury + amount);
    total_fees_collected = sat_u128 (s.total_fees_collected + amount);
  })

-- The base fee moves by 5 % against the congestion, inside its bounds.
abbrev pub adjusted_base : ℕ → FeeConfig → ℕ
adjusted_base congestion config =
    if ltb 70 congestion
    then min (sat_u128 (config.base_fee * 105) / 100) config.max_fee
    else (if ltb congestion 30
        then max (sat_u128 (config.base_fee * 95) / 100) config.min_fee
        else config.base_fee)

unfoldable pub update_fee_params : Env → Msg (Unit {0})
unfolding ensure_admin congestion_index
update_fee_params env = do
  ensure_admin env
  congestion ← gets (congestion_index env)
  config ← gets (λ s. s.default_config)
  let base_fee = adjusted_base congestion config
  modify (λ s. record s {
    default_config = record config { base_fee = base_fee; last_updated = env.block_timestamp };
  })
  emit_event (fee_config_updated env.caller none base_fee env.block_timestamp)

unfoldable pub set_operation_config : Env → FeeOperation → FeeConfig → Msg (Unit {0})
unfolding ensure_admin
set_operation_config env operation config = do
  ensure_admin env
  fail_if (ltb config.max_fee config.min_fee || ltb config.base_fee config.min_fee) invalid_config
  modify (λ s. record s { operation_config = insert operation config s.operation_config })
  emit_event (fee_config_updated env.caller (some operation) config.base_fee env.block_timestamp)

-- `collect_fee` of the trait; its own error is a text, here the one that it reports.
unfoldable pub collect_fee :
    Env → FeeOperation → AccountId → ℕ → Message FeeManager String (Unit {0})
unfolding calculate_fee record_fee_collected
collect_fee env operation from amount = do
  priced ← gets (calculate_fee env operation)
  or_trap priced
  fail_if (ltb env.transferred_value amount) "Insufficient fee transferred"
  map_err "Failed to record fee collection" (record_fee_collected env operation amount from)

-- One call of a message that writes.
pub data Op : Type 0 where
  records : FeeOperation → ℕ → AccountId → Op
  updates : Op
  configures : FeeOperation → FeeConfig → Op
  creates : ℕ → ℕ → ℕ → Op
  bids : ℕ → ℕ → Op
  settles : ℕ → Op
  adds : AccountId → Op
  removes : AccountId → Op
  sets_rates : ℕ → ℕ → Op
  distributes : Op
  claims : Op
  collects : FeeOperation → AccountId → ℕ → Op

unfoldable pub step : Env → Op → FeeManager → FeeManager
step env (records o x a) s = kept (record_fee_collected env o x a) s
step env updates s = kept (update_fee_params env) s
step env (configures o c) s = kept (set_operation_config env o c) s
step env (creates p m d) s = kept (create_premium_auction env p m d) s
step env (bids i x) s = kept (place_bid env i x) s
step env (settles i) s = kept (settle_auction env i) s
step env (adds a) s = kept (add_validator env a) s
step env (removes a) s = kept (remove_validator env a) s
step env (sets_rates v t) s = kept (set_distribution_rates env v t) s
step env distributes s = kept (distribute_fees env) s
step env claims s = kept (claim_rewards env) s
step env (collects o a x) s = kept (collect_fee env o a x) s

unfoldable pub run : List (Env × Op) → FeeManager → FeeManager
run [] s = s
run ((env, op) ∷ ops) s = run ops (step env op s)
