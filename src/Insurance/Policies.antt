-- ===== src/Insurance/Policies.antt =====
-- contracts/insurance/src/insurance_impl.rs: the policies, and the tokens that stand for them.
use stellar_soroban_contract.Prelude.{
  ltb, if◌then◌else◌, ◌==◌, nat_eq, pair_eq, push_back, u64, sat_u128, sat_u64, u128, lookup,
  insert, ℕ, zero, suc, ◌+◌, ◌-◌, ◌*◌, ◌/◌, String, Bool, true, false, not, ◌&&◌, ◌||◌, none, some,
  [], ◌∷◌,
}
use stellar_soroban_contract.Ink.{
  AccountId, Env, ok, ◌>>=◌, ◌>>◌, return, gets, modify, fail_if, ok_or, or_trap, unwrap_or,
}
use stellar_soroban_contract.Insurance.Types.{
  unauthorized, pool_not_found, policy_inactive, insufficient_premium, insufficient_pool_funds,
  invalid_parameters, property_not_insurable, premium_too_low, active, renewed, expired, cancelled,
  standard, parametric, CoverageType, RiskLevel, RiskPool,
}
use stellar_soroban_contract.Insurance.Rbac.{admin_role, has_role}
use stellar_soroban_contract.Insurance.Storage.{
  policy_created, policy_issued, policy_cancelled_event, policy_renewed_event, policy_expired_event,
  insurance_token_minted, PropertyInsurance, Msg, emit_event, set_pool, set_policy, find_pool,
  find_policy, require_running, is_in_force, is_renewed,
}
use stellar_soroban_contract.Insurance.Pools.{apply_reward_accrual}
use stellar_soroban_contract.Insurance.Underwriting.{calculate_premium}

-- The platform's part of a payment.
abbrev pub platform_fee : PropertyInsurance → ℕ → ℕ
platform_fee s amount = sat_u128 (amount * s.platform_fee_rate) / 10000

unfoldable pub internal_mint_token : Env → ℕ → AccountId → ℕ → Msg ℕ
internal_mint_token env policy_id owner face_value = do
  modify (λ s. record s { token_count = u64 (s.token_count + 1) })
  token_id ← gets (λ s. s.token_count)
  modify (λ s. record s {
    insurance_tokens =
        insert token_id
          (record {
            token_id = token_id;
            policy_id = policy_id;
            owner = owner;
            face_value = face_value;
            is_tradeable = true;
            created_at = env.block_timestamp;
            listed_price = none;
          })
          s.insurance_tokens;
  })
  emit_event (insurance_token_minted token_id policy_id owner face_value)
  return token_id

-- The pool after it has taken the premium of a new policy.
abbrev pub with_premium : ℕ → RiskPool → RiskPool
with_premium pool_share pool = record pool {
  total_premiums_collected = sat_u128 (pool.total_premiums_collected + pool_share);
  available_capital = sat_u128 (pool.available_capital + pool_share);
}

-- How much a pool may cover with a capital.
abbrev pub exposure : ℕ → RiskPool → ℕ
exposure capital pool = sat_u128 (capital * pool.max_coverage_ratio) / 10000

-- The policy that `create_policy` files, and the lists that name it.
unfoldable pub file_policy : Env → ℕ → CoverageType → ℕ → ℕ → ℕ → String → ℕ → RiskLevel → Msg ℕ
unfolding internal_mint_token
file_policy env property_id coverage_type coverage_amount pool_id duration_seconds metadata_url
      deductible risk_level =
    do
      let now = env.block_timestamp
      modify (λ s. record s { policy_count = u64 (s.policy_count + 1) })
      policy_id ← gets (λ s. s.policy_count)
      set_policy policy_id (record {
        policy_id = policy_id;
        property_id = property_id;
        policyholder = env.caller;
        coverage_type = coverage_type;
        coverage_amount = coverage_amount;
        premium_amount = env.transferred_value;
        deductible = deductible;
        start_time = now;
        end_time = sat_u64 (now + duration_seconds);
        status = active;
        risk_level = risk_level;
        pool_id = pool_id;
        claims_count = 0;
        total_claimed = 0;
        metadata_url = metadata_url;
        policy_type = standard;
        event_id = none;
      })
      modify (λ s. record s {
        policyholder_policies =
            insert env.caller
              (push_back (unwrap_or [] (lookup env.caller s.policyholder_policies)) policy_id)
              s.policyholder_policies;
        property_policies =
            insert property_id
              (push_back (unwrap_or [] (lookup property_id s.property_policies)) policy_id)
              s.property_policies;
      })
      internal_mint_token env policy_id env.caller coverage_amount
      emit_event (
          policy_created policy_id env.caller property_id coverage_type coverage_amount
            env.transferred_value now (sat_u64 (now + duration_seconds)))
      emit_event (policy_issued policy_id env.caller coverage_amount env.transferred_value now)
      return policy_id

unfoldable pub create_policy : Env → ℕ → CoverageType → ℕ → ℕ → ℕ → String → Msg ℕ
unfolding calculate_premium apply_reward_accrual file_policy
create_policy env property_id coverage_type coverage_amount pool_id duration_seconds metadata_url =
    do
      let premium = env.transferred_value
      require_running
      fail_if (property_id == 0 || coverage_amount == 0 || duration_seconds == 0) invalid_parameters
      pool ← find_pool pool_id
      fail_if (not pool.is_active) pool_not_found
      fail_if (ltb (exposure pool.total_capital pool) coverage_amount) insufficient_pool_funds
      stored ← gets (λ s. lookup property_id s.risk_assessments)
      assessment ← ok_or stored property_not_insurable
      fail_if (ltb assessment.valid_until env.block_timestamp) property_not_insurable
      calc ← calculate_premium property_id coverage_amount coverage_type
      least ← gets (λ s. s.min_premium_amount)
      fail_if (ltb calc.annual_premium least) premium_too_low
      fail_if (ltb premium calc.annual_premium) insufficient_premium
      fee ← gets (λ s. platform_fee s premium)
      let pool_share = premium - fee
      modify (λ s. record s {
        total_platform_fees_collected = u128 (s.total_platform_fees_collected + fee);
      })
      let funded = with_premium pool_share pool
      fail_if (ltb (exposure funded.available_capital pool) coverage_amount) insufficient_pool_funds
      set_pool pool_id (
          apply_reward_accrual
            (record funded { active_policies = sat_u64 (pool.active_policies + 1) }) pool_share)
      file_policy env property_id coverage_type coverage_amount pool_id duration_seconds
          metadata_url calc.deductible assessment.risk_level

unfoldable pub create_parametric_policy : Env → ℕ → CoverageType → ℕ → ℕ → ℕ → ℕ → String → Msg ℕ
unfolding create_policy
create_parametric_policy env property_id coverage_type coverage_amount pool_id duration_seconds
      event_id metadata_url =
    do
      fail_if (event_id == 0) invalid_parameters
      policy_id ←
          create_policy env property_id coverage_type coverage_amount pool_id duration_seconds
            metadata_url
      stored ← gets (λ s. lookup policy_id s.policies)
      policy ← or_trap stored
      set_policy policy_id (record policy { policy_type = parametric; event_id = some event_id })
      return policy_id

unfoldable pub renew_policy : Env → ℕ → ℕ → Msg (Unit {0})
unfolding apply_reward_accrual
renew_policy env policy_id duration_seconds = do
  let premium = env.transferred_value
  fail_if (duration_seconds == 0) invalid_parameters
  fail_if (premium == 0) insufficient_premium
  policy ← find_policy policy_id
  fail_if (not (policy.policyholder == env.caller)) unauthorized
  fail_if (not (is_in_force policy.status) && not (is_renewed policy.status)) policy_inactive
  pool ← find_pool policy.pool_id
  fee ← gets (λ s. platform_fee s premium)
  let pool_share = premium - fee
  set_pool policy.pool_id (apply_reward_accrual (with_premium pool_share pool) pool_share)
  let end_time = sat_u64 (policy.end_time + duration_seconds)
  set_policy policy_id (record policy {
    end_time = end_time;
    premium_amount = sat_u128 (policy.premium_amount + premium);
    status = renewed;
  })
  emit_event (policy_renewed_event policy_id env.caller premium end_time env.block_timestamp)

-- `if let Some(mut pool) = self.pools.get(&pool_id) { .. }`: one policy fewer.
unfoldable pub leave_pool : ℕ → PropertyInsurance → PropertyInsurance
leave_pool pool_id s = elim (lookup pool_id s.pools) [
  | none ↦ s
  | some pool ↦ record s {
    pools = insert pool_id (record pool { active_policies = pool.active_policies - 1 }) s.pools;
  }
]

unfoldable pub cancel_policy : Env → ℕ → Msg (Unit {0})
unfolding has_role leave_pool
cancel_policy env policy_id = do
  policy ← find_policy policy_id
  allowed ← gets (λ s. has_role env.caller admin_role s.role_manager)
  fail_if (not (env.caller == policy.policyholder) && not allowed) unauthorized
  fail_if (not (is_in_force policy.status)) policy_inactive
  set_policy policy_id (record policy { status = cancelled })
  modify (leave_pool policy.pool_id)
  emit_event (policy_cancelled_event policy_id policy.policyholder env.block_timestamp none)

-- One round of `expire_policies`: whether the policy expired, and the storage after it.
unfoldable pub expire_one : ℕ → ℕ → PropertyInsurance → Bool × PropertyInsurance
unfolding leave_pool
expire_one now i s = elim (lookup i s.policies) [
  | none ↦ (false, s)
  | some policy ↦
      if is_in_force policy.status && ltb policy.end_time now
      then (
        true,
        record (leave_pool policy.pool_id
            (record s { policies = insert i (record policy { status = expired }) s.policies })) {
              events = policy_expired_event i policy.policyholder now ∷ s.events;
            },
      )
      else (false, s)
]

-- The loop, with the number of policies that are left to scan.
unfoldable pub expire_loop : ℕ → ℕ → ℕ → ℕ → ℕ → PropertyInsurance → ℕ × PropertyInsurance
expire_loop zero now limit i expired_count s = (expired_count, s)
expire_loop (suc rounds) now limit i expired_count s =
    let r = expire_one now i s in
    let rest =
      expire_loop rounds now limit (i + 1)
        (if r.0 then sat_u64 (expired_count + 1) else expired_count) r.1 in
    if ltb expired_count limit then rest else (expired_count, s)

unfoldable pub expire_policies : Env → ℕ → Msg ℕ
unfolding expire_loop
expire_policies env max_scan s =
    let limit = if max_scan == 0 then s.policy_count else max_scan in
    ok (expire_loop s.policy_count env.block_timestamp limit 1 0 s)
