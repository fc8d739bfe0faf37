-- ===== src/Insurance/Withdrawals.antt =====
-- contracts/insurance/src/insurance_impl.rs: what a withdrawal does.
use stellar_soroban_contract.Prelude.{
  ltb, leb, if◌then◌else◌, Bool-cases, Option-cases, nat_beq_self, ◌==◌, nat_eq, string_eq, pair_eq,
  sat_u128, part_of, lookup, insert, remove, lookup-insert, lookup-remove, ℕ, ◌+◌, ◌-◌, ◌≤◌, ◌<◌,
  ◌≡◌, ap, ◌⊎◌, inl, inr, ◌&&◌, some, arith,
}
use stellar_soroban_contract.Ink.{AccountId, Env, kept}
use stellar_soroban_contract.Insurance.Types.{RiskPool, PoolLiquidityProvider}
use stellar_soroban_contract.Insurance.Storage.{PropertyInsurance}
use stellar_soroban_contract.Insurance.Pools.{
  synced_reward_debt, scheduled_provider, scheduled_pool, file_provider, withdraw_liquidity,
}
use stellar_soroban_contract.Insurance.Rewards.{due_of}

-- The stake of an account in a pool.
abbrev pub stake_of : ℕ → AccountId → PropertyInsurance → ℕ
stake_of i a s = part_of (λ p. p.provider_stake) (lookup (i, a) s.liquidity_providers)

scheduled_pool_totals :
    (now : ℕ) (q : RiskPool) (p : PoolLiquidityProvider)
    → ((scheduled_pool now q p).total_provider_stake ≡ q.total_provider_stake)
      × ((scheduled_pool now q p).total_capital ≡ q.total_capital)
unfolding scheduled_pool
scheduled_pool_totals now q p = (ground arith, ground arith)

scheduled_provider_stake :
    (now : ℕ) (q : RiskPool) (p : PoolLiquidityProvider)
    → (scheduled_provider now q p).provider_stake ≡ p.provider_stake
unfolding scheduled_provider
scheduled_provider_stake now q p = ground arith

-- The pool that a withdrawal stores.
abbrev pub withdrawn_pool : ℕ → ℕ → RiskPool → PoolLiquidityProvider → RiskPool
withdrawn_pool now amount q p =
    let pool = scheduled_pool now q p in
    record pool {
      total_provider_stake = pool.total_provider_stake - amount;
      available_capital =
          pool.available_capital
          - (if ltb 0 q.vesting_duration_seconds then amount else sat_u128 (due_of q p + amount));
      total_capital = pool.total_capital - amount;
    }

-- The provider that it stores, if anything of the stake is left.
abbrev pub withdrawn_provider : ℕ → ℕ → RiskPool → PoolLiquidityProvider → PoolLiquidityProvider
withdrawn_provider now amount q p =
    let provider = scheduled_provider now q p in
    let left = provider.provider_stake - amount in
    record provider {
      provider_stake = left;
      reward_debt = synced_reward_debt left q.accumulated_reward_per_share;
    }

-- What a withdrawal may do to the storage.
pub data Withdraws (caller : AccountId) (i amount : ℕ) (s t : PropertyInsurance) : Type 0 where
  refuses : t ≡ s → Withdraws caller i amount s t
  takes :
      (q r : RiskPool) (p o : PoolLiquidityProvider)
      → lookup i s.pools ≡ some q
      → lookup (i, caller) s.liquidity_providers ≡ some p
      → 0 < amount
      → amount ≤ p.provider_stake
      → r.total_provider_stake ≡ q.total_provider_stake - amount
      → r.total_capital ≡ q.total_capital - amount
      → o.provider_stake ≡ p.provider_stake - amount
      → t.pools ≡ insert i r s.pools
      → t.liquidity_providers ≡ (
          if p.provider_stake == amount
          then remove (i, caller) s.liquidity_providers
          else insert (i, caller) o s.liquidity_providers)
      → t.transfers ≡ s.transfers
      → t.pool_count ≡ s.pool_count
      → Withdraws caller i amount s t

pub withdraw_liquidity-Withdraws :
    (env : Env) (i amount : ℕ) (s : PropertyInsurance)
    → Withdraws env.caller i amount s (kept (withdraw_liquidity env i amount) s)
unfolding withdraw_liquidity file_provider
withdraw_liquidity-Withdraws env i amount s = elim (Option-cases (lookup i s.pools)) [
  | inl missing ↦ refuses (ground arith)
  | inr (q, here) ↦ elim (Option-cases (lookup (i, env.caller) s.liquidity_providers)) [
    | inl no_provider ↦ refuses (ground arith)
    | inr (p, stake) ↦
        let now = env.block_timestamp in
        let pool = scheduled_pool now q p in
        elim (Bool-cases (
          ltb 0 amount
          && q.is_active
          && leb amount p.provider_stake
          && leb
              (if ltb 0 q.vesting_duration_seconds then amount else sat_u128 (due_of q p + amount))
              pool.available_capital)) [
                | inr refused ↦ refuses (ground arith)
                | inl taken ↦
                    let totals = scheduled_pool_totals now q p in
                    let same_stake = scheduled_provider_stake now q p in
                    takes q (withdrawn_pool now amount q p) p (withdrawn_provider now amount q p)
                      here stake (ground arith) (ground arith) (ground (arith, totals))
                      (ground (arith, totals)) (ground (arith, same_stake)) (ground arith)
                      (ground (arith, same_stake)) (ground arith) (ground arith)
              ]
  ]
]

-- Whatever a withdrawal does, no native tokens are transferred by it: either it changes nothing at
-- all, or the caller's stake, the pool's total stake and the pool's total capital are reduced by
-- the amount, which is positive and no more than the stake, and still the list of the transfers is
-- the same.
pub withdraw_liquidity_pays_nothing :
    (env : Env) (i amount : ℕ) (s : PropertyInsurance)
    → let t = kept (withdraw_liquidity env i amount) s in
      (t.transfers ≡ s.transfers)
      × ((t ≡ s)
          ⊎ ((q r : RiskPool) × (p : PoolLiquidityProvider) × (lookup i s.pools ≡ some q)
              × (lookup i t.pools ≡ some r)
              × (lookup (i, env.caller) s.liquidity_providers ≡ some p)
              × (0 < amount)
              × (amount ≤ p.provider_stake)
              × (stake_of i env.caller t ≡ p.provider_stake - amount)
              × (r.total_provider_stake ≡ q.total_provider_stake - amount)
              × (r.total_capital ≡ q.total_capital - amount)))
withdraw_liquidity_pays_nothing env i amount s =
    decide (kept (withdraw_liquidity env i amount) s) (withdraw_liquidity-Withdraws env i amount s)
  where
    decide :
        (t : PropertyInsurance)
        → Withdraws env.caller i amount s t
        → (t.transfers ≡ s.transfers)
          × ((t ≡ s)
              ⊎ ((q r : RiskPool) × (p : PoolLiquidityProvider) × (lookup i s.pools ≡ some q)
                  × (lookup i t.pools ≡ some r)
                  × (lookup (i, env.caller) s.liquidity_providers ≡ some p)
                  × (0 < amount)
                  × (amount ≤ p.provider_stake)
                  × (stake_of i env.caller t ≡ p.provider_stake - amount)
                  × (r.total_provider_stake ≡ q.total_provider_stake - amount)
                  × (r.total_capital ≡ q.total_capital - amount)))
    decide t (refuses e) = (ap (λ (z : PropertyInsurance). z.transfers) e, inl e)
    decide t
          (takes q r p o here stake some_amount covered less less_capital left filed provided
            none_sent _) =
        (
          none_sent,
          inr (
            q,
            r,
            p,
            here,
            ground (arith, lookup-insert i i r s.pools, nat_beq_self i),
            stake,
            some_amount,
            covered,
            ground (
              arith,
              lookup-insert (i, env.caller) (i, env.caller) o s.liquidity_providers,
              lookup-remove (i, env.caller) (i, env.caller) s.liquidity_providers,
              nat_beq_self i,
              nat_beq_self env.caller,
            ),
            less,
            less_capital,
          ),
        )
