-- ===== src/Insurance/Rewards.antt =====
-- contracts/insurance/src/insurance_impl.rs: what a provider does with the rewards of a pool. They
-- are paid, vest over time or are added to the stake.
use stellar_soroban_contract.Prelude.{
  ltb, leb, if◌then◌else◌, ◌==◌, nat_eq, string_eq, pair_eq, sat_u128, lookup, ℕ, ◌+◌, ◌-◌, true,
  false, not, ◌||◌, none, some,
}
use stellar_soroban_contract.Ink.{AccountId, Env, ◌>>=◌, ◌>>◌, return, fail_if}
use stellar_soroban_contract.Insurance.Types.{
  pool_not_found, insufficient_pool_liquidity, RiskPool, PoolLiquidityProvider,
}
use stellar_soroban_contract.Insurance.Storage.{
  rewards_claimed, rewards_reinvested, rewards_vesting_started, vested_rewards_claimed,
  PropertyInsurance, Msg, emit_event, set_pool, set_provider, find_pool, find_provider, Accepts,
  pay,
}
use stellar_soroban_contract.Insurance.Pools.{
  synced_reward_debt, pending_reward_amount, start_vesting, vested_after,
}

-- `claim_rewards` when some rewards are due: they start to vest, or they are paid.
unfoldable pub take_rewards : Accepts → Env → ℕ → RiskPool → PoolLiquidityProvider → ℕ → Msg ℕ
unfolding synced_reward_debt
take_rewards accepts env pool_id pool provider due = elim (ltb 0 pool.vesting_duration_seconds) [
  | true ↦ do
    set_pool pool_id pool
    set_provider (pool_id, env.caller)
        (start_vesting env.block_timestamp pool.accumulated_reward_per_share due provider)
    emit_event (
        rewards_vesting_started pool_id env.caller due env.block_timestamp
          pool.vesting_cliff_seconds pool.vesting_duration_seconds)
    return due
  | false ↦ do
    fail_if (ltb pool.available_capital due) insufficient_pool_liquidity
    set_pool pool_id (record pool { available_capital = pool.available_capital - due })
    set_provider (pool_id, env.caller)
        (record provider {
          reward_debt =
              synced_reward_debt provider.provider_stake pool.accumulated_reward_per_share;
        })
    emit_event (
        rewards_claimed pool_id env.caller due pool.accumulated_reward_per_share
          env.block_timestamp)
    pay accepts env.caller due
    return due
]

abbrev pub due_of : RiskPool → PoolLiquidityProvider → ℕ
due_of pool provider =
    pending_reward_amount provider.provider_stake pool.accumulated_reward_per_share
      provider.reward_debt

unfoldable pub claim_rewards : Accepts → Env → ℕ → Msg ℕ
unfolding pending_reward_amount take_rewards
claim_rewards accepts env pool_id = do
  pool ← find_pool pool_id
  fail_if (not pool.is_active) pool_not_found
  provider ← find_provider (pool_id, env.caller)
  let due = due_of pool provider
  if due == 0 then return 0 else take_rewards accepts env pool_id pool provider due

-- `reinvest_rewards` when some rewards are due.
unfoldable pub compound : Env → ℕ → RiskPool → PoolLiquidityProvider → ℕ → Msg (Unit {0})
unfolding synced_reward_debt
compound env pool_id pool provider due = do
  let acc = pool.accumulated_reward_per_share
  let stake = sat_u128 (provider.provider_stake + due)
  set_pool pool_id (record pool {
    total_provider_stake = sat_u128 (pool.total_provider_stake + due);
    total_capital = sat_u128 (pool.total_capital + due);
  })
  set_provider (pool_id, env.caller)
      (record provider { provider_stake = stake; reward_debt = synced_reward_debt stake acc })
  emit_event (rewards_reinvested pool_id env.caller due stake acc env.block_timestamp)

unfoldable pub reinvest_rewards : Env → ℕ → Msg (Unit {0})
unfolding pending_reward_amount compound
reinvest_rewards env pool_id = do
  pool ← find_pool pool_id
  fail_if (not pool.is_active) pool_not_found
  provider ← find_provider (pool_id, env.caller)
  let due = due_of pool provider
  if due == 0 then return tt else compound env pool_id pool provider due

abbrev pub no_schedule : PoolLiquidityProvider → PoolLiquidityProvider
no_schedule provider = record provider { vesting_total = 0; vesting_claimed = 0; vesting_start = 0 }

-- The vested rewards that `claim_vested_rewards` pays, with the provider after it.
unfoldable pub pay_vested : Accepts → Env → ℕ → RiskPool → PoolLiquidityProvider → ℕ → Msg ℕ
pay_vested accepts env pool_id pool provider amount = do
  fail_if (ltb pool.available_capital amount) insufficient_pool_liquidity
  set_pool pool_id (record pool { available_capital = pool.available_capital - amount })
  set_provider (pool_id, env.caller) provider
  pay accepts env.caller amount
  emit_event (vested_rewards_claimed pool_id env.caller amount env.block_timestamp)
  return amount

abbrev pub after_claim : ℕ → PoolLiquidityProvider → PoolLiquidityProvider
after_claim amount provider =
    let total_claimed = sat_u128 (provider.vesting_claimed + amount) in
    if leb provider.vesting_total total_claimed
    then no_schedule provider
    else record provider { vesting_claimed = total_claimed }

-- What can be claimed of the schedule now; nothing before it starts or before the cliff.
unfoldable pub claimable_vested : ℕ → RiskPool → PoolLiquidityProvider → ℕ
unfolding vested_after
claimable_vested now pool provider =
    let elapsed = now - provider.vesting_start in
    if provider.vesting_start == 0 || ltb elapsed pool.vesting_cliff_seconds
    then 0
    else vested_after elapsed pool provider.vesting_total - provider.vesting_claimed

unfoldable pub claim_vested_rewards : Accepts → Env → ℕ → Msg ℕ
unfolding pay_vested claimable_vested
claim_vested_rewards accepts env pool_id = do
  pool ← find_pool pool_id
  provider ← find_provider (pool_id, env.caller)
  let all = provider.vesting_total
  let part = claimable_vested env.block_timestamp pool provider
  let at_once = pool.vesting_duration_seconds == 0
  let amount = if at_once then all else part
  let kept_provider = if at_once then no_schedule provider else after_claim part provider
  if all == 0 || amount == 0
      then return 0
      else pay_vested accepts env pool_id pool kept_provider amount

unfoldable pub get_vesting_info : ℕ → AccountId → PropertyInsurance → ℕ × ℕ × ℕ
get_vesting_info pool_id provider s = elim (lookup (pool_id, provider) s.liquidity_providers) [
  | none ↦ (0, 0, 0)
  | some p ↦ (p.vesting_total, p.vesting_claimed, p.vesting_start)
]

unfoldable pub get_pending_rewards : ℕ → AccountId → PropertyInsurance → ℕ
unfolding pending_reward_amount
get_pending_rewards pool_id provider s = elim (lookup pool_id s.pools) [
  | none ↦ 0
  | some pool ↦ elim (lookup (pool_id, provider) s.liquidity_providers) [
    | none ↦ 0
    | some p ↦ due_of pool p
  ]
]
