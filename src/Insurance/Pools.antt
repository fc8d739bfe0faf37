-- ===== src/Insurance/Pools.antt =====
-- contracts/insurance/src/insurance_impl.rs: risk pools and the stakes of their providers. The call
-- `require_auth` of four messages has no counterpart in ink!, where the caller has signed.
use stellar_soroban_contract.Prelude.{
  ltb, leb, if◌then◌else◌, min, ◌==◌, nat_eq, string_eq, pair_eq, push_back, contains, u64,
  sat_u128, checked_u128, lookup, insert, remove, ℕ, ◌+◌, ◌-◌, ◌*◌, ◌/◌, String, true, not, ◌&&◌,
  ◌||◌, none, some, List, [], ◌∷◌,
}
use stellar_soroban_contract.Ink.{
  AccountId, Env, ◌>>=◌, ◌>>◌, return, gets, modify, fail_if, ok_or, unwrap_or,
}
use stellar_soroban_contract.Insurance.Types.{
  reward_precision, pool_not_found, invalid_parameters, zero_amount, insufficient_stake,
  insufficient_pool_liquidity, CoverageType, RiskPool, PoolLiquidityProvider,
}
use stellar_soroban_contract.Insurance.Rbac.{admin_role}
use stellar_soroban_contract.Insurance.Storage.{
  pool_capitalized, liquidity_deposited, liquidity_withdrawn, PropertyInsurance, Msg, emit_event,
  set_pool, set_provider, find_pool, find_provider, ensure_role, require_running,
}

unfoldable pub synced_reward_debt : ℕ → ℕ → ℕ
synced_reward_debt stake acc_rps = sat_u128 (stake * acc_rps) / reward_precision

unfoldable pub pending_reward_amount : ℕ → ℕ → ℕ → ℕ
pending_reward_amount stake acc_rps reward_debt =
    sat_u128 (stake * acc_rps) / reward_precision - reward_debt

unfoldable pub apply_reward_accrual : RiskPool → ℕ → RiskPool
apply_reward_accrual pool reward_amount =
    if reward_amount == 0 || pool.total_provider_stake == 0 then pool else record pool {
      accumulated_reward_per_share = sat_u128 (
          pool.accumulated_reward_per_share
          + sat_u128 (reward_amount * reward_precision) / pool.total_provider_stake);
    }

unfoldable pub create_risk_pool : Env → String → CoverageType → ℕ → ℕ → Msg ℕ
unfolding ensure_role
create_risk_pool env name coverage_type max_coverage_ratio reinsurance_threshold = do
  ensure_role env admin_role
  fail_if (name == "") invalid_parameters
  fail_if (max_coverage_ratio == 0 || ltb 10000 max_coverage_ratio) invalid_parameters
  fail_if (reinsurance_threshold == 0) invalid_parameters
  modify (λ s. record s { pool_count = u64 (s.pool_count + 1) })
  pool_id ← gets (λ s. s.pool_count)
  set_pool pool_id (record {
    pool_id = pool_id;
    name = name;
    coverage_type = coverage_type;
    total_capital = 0;
    available_capital = 0;
    total_premiums_collected = 0;
    total_claims_paid = 0;
    active_policies = 0;
    max_coverage_ratio = max_coverage_ratio;
    reinsurance_threshold = reinsurance_threshold;
    created_at = env.block_timestamp;
    is_active = true;
    total_provider_stake = 0;
    accumulated_reward_per_share = 0;
    vesting_cliff_seconds = 0;
    vesting_duration_seconds = 0;
    early_withdrawal_penalty_bps = 0;
  })
  emit_event (pool_capitalized pool_id env.caller 0 env.block_timestamp)
  return pool_id

-- The provider that is stored, or a new one.
abbrev pub provider_or_new : Env → ℕ → PropertyInsurance → PoolLiquidityProvider
provider_or_new env pool_id s =
    unwrap_or
      (record {
        provider = env.caller;
        pool_id = pool_id;
        provider_stake = 0;
        reward_debt = 0;
        deposited_at = env.block_timestamp;
        vesting_total = 0;
        vesting_claimed = 0;
        vesting_start = 0;
      })
      (lookup (pool_id, env.caller) s.liquidity_providers)

abbrev pub with_caller : AccountId → List AccountId → List AccountId
with_caller caller l = if contains l caller then l else push_back l caller

unfoldable pub deposit_liquidity : Env → ℕ → Msg (Unit {0})
deposit_liquidity env pool_id = do
  let amount = env.transferred_value
  require_running
  fail_if (amount == 0) zero_amount
  pool ← find_pool pool_id
  fail_if (not pool.is_active) pool_not_found
  provider ← gets (provider_or_new env pool_id)
  stake ← ok_or (checked_u128 (provider.provider_stake + amount)) invalid_parameters
  let acc = pool.accumulated_reward_per_share
  set_pool pool_id (record pool {
    total_provider_stake = sat_u128 (pool.total_provider_stake + amount);
    total_capital = sat_u128 (pool.total_capital + amount);
    available_capital = sat_u128 (pool.available_capital + amount);
  })
  set_provider (pool_id, env.caller)
      (record provider {
        provider_stake = stake;
        reward_debt = sat_u128 (provider.reward_debt + sat_u128 (amount * acc) / reward_precision);
      })
  modify (λ s. record s {
    pool_providers =
        insert pool_id (with_caller env.caller (unwrap_or [] (lookup pool_id s.pool_providers)))
          s.pool_providers;
  })
  emit_event (pool_capitalized pool_id env.caller amount env.block_timestamp)
  emit_event (liquidity_deposited pool_id env.caller amount acc env.block_timestamp)

unfoldable pub configure_pool_vesting : Env → ℕ → ℕ → ℕ → ℕ → Msg (Unit {0})
unfolding ensure_role
configure_pool_vesting env pool_id cliff duration penalty_bps = do
  ensure_role env admin_role
  pool ← find_pool pool_id
  fail_if
      (if duration == 0
        then not (cliff == 0) || not (penalty_bps == 0)
        else ltb duration cliff || ltb 10000 penalty_bps)
      invalid_parameters
  set_pool pool_id (record pool {
    vesting_cliff_seconds = cliff;
    vesting_duration_seconds = duration;
    early_withdrawal_penalty_bps = penalty_bps;
  })

-- The rewards that are due move to the vesting schedule.
abbrev pub start_vesting : ℕ → ℕ → ℕ → PoolLiquidityProvider → PoolLiquidityProvider
start_vesting now acc due provider = record provider {
  vesting_total = sat_u128 (provider.vesting_total + due);
  vesting_start = now;
  reward_debt = synced_reward_debt provider.provider_stake acc;
}

-- The part of the schedule that has vested after `elapsed` seconds.
unfoldable pub vested_after : ℕ → RiskPool → ℕ → ℕ
vested_after elapsed pool scheduled =
    sat_u128 (scheduled * min pool.vesting_duration_seconds elapsed) / pool.vesting_duration_seconds

-- The penalty of `withdraw_liquidity` on what has not vested.
unfoldable pub early_penalty : ℕ → RiskPool → PoolLiquidityProvider → ℕ
unfolding vested_after
early_penalty now pool provider =
    let elapsed = now - provider.vesting_start in
    let vested =
      if ltb 0 provider.vesting_start && leb pool.vesting_cliff_seconds elapsed
      then vested_after elapsed pool provider.vesting_total
      else 0 in
    if ltb 0 provider.vesting_total && ltb 0 pool.early_withdrawal_penalty_bps
    then sat_u128 ((provider.vesting_total - vested) * pool.early_withdrawal_penalty_bps) / 10000
    else 0

-- The provider and the pool that `withdraw_liquidity` goes on with, once the schedule is applied.
unfoldable pub scheduled_provider : ℕ → RiskPool → PoolLiquidityProvider → PoolLiquidityProvider
unfolding pending_reward_amount synced_reward_debt early_penalty
scheduled_provider now pool provider =
    let acc = pool.accumulated_reward_per_share in
    let due = pending_reward_amount provider.provider_stake acc provider.reward_debt in
    let started = if ltb 0 due then start_vesting now acc due provider else provider in
    if ltb 0 pool.vesting_duration_seconds
    then record started { vesting_total = started.vesting_total - early_penalty now pool started }
    else provider

unfoldable pub scheduled_pool : ℕ → RiskPool → PoolLiquidityProvider → RiskPool
unfolding pending_reward_amount synced_reward_debt early_penalty
scheduled_pool now pool provider =
    let acc = pool.accumulated_reward_per_share in
    let due = pending_reward_amount provider.provider_stake acc provider.reward_debt in
    let started = if ltb 0 due then start_vesting now acc due provider else provider in
    if ltb 0 pool.vesting_duration_seconds
    then record pool {
      available_capital = sat_u128 (pool.available_capital + early_penalty now pool started);
    }
    else pool

-- `accs.retain(|a| *a != caller)`
unfoldable pub retain_others : AccountId → List AccountId → List AccountId
retain_others caller [] = []
retain_others caller (a ∷ l) =
    let rest = retain_others caller l in if a == caller then rest else a ∷ rest

-- The provider is stored, or removed when nothing of the stake is left.
unfoldable pub file_provider :
    ℕ → AccountId → PoolLiquidityProvider → PropertyInsurance → PropertyInsurance
unfolding retain_others
file_provider pool_id caller provider s =
    if provider.provider_stake == 0
    then record s {
      liquidity_providers = remove (pool_id, caller) s.liquidity_providers;
      pool_providers = elim (lookup pool_id s.pool_providers) [
        | none ↦ s.pool_providers
        | some accs ↦ insert pool_id (retain_others caller accs) s.pool_providers
      ];
    }
    else record s { liquidity_providers = insert (pool_id, caller) provider s.liquidity_providers }

-- The amount that is sent at the end is the outer `total_out`, which stays 0: the two branches
-- declare variables of their own of that name. So nothing is transferred.
unfoldable pub withdraw_liquidity : Env → ℕ → ℕ → Msg (Unit {0})
withdraw_liquidity env pool_id amount = do
  fail_if (amount == 0) zero_amount
  stored ← find_pool pool_id
  fail_if (not stored.is_active) pool_not_found
  found ← find_provider (pool_id, env.caller)
  fail_if (ltb found.provider_stake amount) insufficient_stake
  let acc = stored.accumulated_reward_per_share
  let due = pending_reward_amount found.provider_stake acc found.reward_debt
  let vests = ltb 0 stored.vesting_duration_seconds
  let pool = scheduled_pool env.block_timestamp stored found
  let provider = scheduled_provider env.block_timestamp stored found
  let total_out = if vests then amount else sat_u128 (due + amount)
  fail_if (ltb pool.available_capital total_out) insufficient_pool_liquidity
  let left = provider.provider_stake - amount
  set_pool pool_id (record pool {
    total_provider_stake = pool.total_provider_stake - amount;
    available_capital = pool.available_capital - total_out;
    total_capital = pool.total_capital - amount;
  })
  modify (
      file_provider pool_id env.caller
        (record provider { provider_stake = left; reward_debt = synced_reward_debt left acc }))
  emit_event (
      liquidity_withdrawn pool_id env.caller amount (if vests then 0 else due) acc
        env.block_timestamp)
