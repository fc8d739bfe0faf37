-- ===== src/Insurance/Views.antt =====
-- contracts/insurance/src/insurance_impl.rs: the queries that go through the pools, or page through
-- the numbers of pools, policies and claims.
use stellar_soroban_contract.Prelude.{
  if◌then◌else◌, ◌==◌, nat_eq, pair_eq, sat_u128, Store, lookup, has, ℕ, zero, suc, ◌+◌, ◌-◌, ◌*◌,
  ◌/◌, ◌||◌, none, some, List, [], ◌∷◌,
}
use stellar_soroban_contract.Ink.{AccountId, Env}
use stellar_soroban_contract.Insurance.Types.{RiskPool}
use stellar_soroban_contract.Insurance.Storage.{PropertyInsurance}
use stellar_soroban_contract.Insurance.Pools.{pending_reward_amount}
use stellar_soroban_contract.Insurance.Rewards.{due_of}

-- `for i in 1..=self.pool_count`, adding a number of each pool that is stored.
unfoldable pub pool_sum : (RiskPool → ℕ) → Store ℕ RiskPool → ℕ → ℕ → ℕ → ℕ
pool_sum f pools zero i sum = sum
pool_sum f pools (suc rounds) i sum =
    pool_sum f pools rounds (i + 1)
      (elim (lookup i pools) [ none ↦ sum | some p ↦ sat_u128 (sum + f p) ])

unfoldable pub get_tvl : PropertyInsurance → ℕ
unfolding pool_sum
get_tvl s = pool_sum (λ p. p.total_capital) s.pools s.pool_count 1 0

unfoldable pub get_claim_ratio : PropertyInsurance → ℕ × ℕ × ℕ
unfolding pool_sum
get_claim_ratio s =
    let claims_paid = pool_sum (λ p. p.total_claims_paid) s.pools s.pool_count 1 0 in
    let premiums = pool_sum (λ p. p.total_premiums_collected) s.pools s.pool_count 1 0 in
    (claims_paid, premiums, if premiums == 0 then 0 else sat_u128 (claims_paid * 10000) / premiums)

-- The formula of `get_provider_apy`, for a provider with a stake, at a time after the deposit.
abbrev pub apy_of : ℕ → ℕ → ℕ → ℕ
apy_of due stake elapsed = sat_u128 (sat_u128 (due * 31_536_000) * 10000) / stake / elapsed

unfoldable pub get_provider_apy : Env → ℕ → AccountId → PropertyInsurance → ℕ
unfolding pending_reward_amount
get_provider_apy env pool_id provider s = elim (lookup pool_id s.pools) [
  | none ↦ 0
  | some pool ↦ elim (lookup (pool_id, provider) s.liquidity_providers) [
    | none ↦ 0
    | some p ↦
        let due = due_of pool p in
        let elapsed = env.block_timestamp - p.deposited_at in
        if p.provider_stake == 0 || p.deposited_at == 0 || due == 0 || elapsed == 0
        then 0
        else apy_of due p.provider_stake elapsed
  ]
]

-- `while i <= count && fetched < limit`, with the numbers that are left from `i` on.
unfoldable pub page_loop : {V : Type 0} → Store ℕ V → ℕ → ℕ → ℕ → List ℕ
page_loop m zero i room = []
page_loop m (suc rounds) i room =
    let found = has i m in
    let rest = page_loop m rounds (i + 1) (if found then room - 1 else room) in
    if room == 0 then [] else (if found then i ∷ rest else rest)

-- The loop of the three queries, from a number on that is not 0.
abbrev pub page_from : {V : Type 0} → Store ℕ V → ℕ → ℕ → ℕ → List ℕ
page_from m count start_index limit =
    if limit == 0 || start_index == 0
    then []
    else page_loop m (count + 1 - start_index) start_index limit

unfoldable pub get_pools_paginated : ℕ → ℕ → PropertyInsurance → List ℕ
unfolding page_loop
get_pools_paginated start_index limit s = page_from s.pools s.pool_count start_index limit

unfoldable pub get_policies_paginated : ℕ → ℕ → PropertyInsurance → List ℕ
unfolding page_loop
get_policies_paginated start_index limit s = page_from s.policies s.policy_count start_index limit

unfoldable pub get_claims_paginated : ℕ → ℕ → PropertyInsurance → List ℕ
unfolding page_loop
get_claims_paginated start_index limit s = page_from s.claims s.claim_count start_index limit
