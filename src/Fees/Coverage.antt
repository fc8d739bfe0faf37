-- ===== src/Fees/Coverage.antt =====
-- contracts/fees/src/lib.rs: the fees that were collected cover what is promised of them.
use stellar_soroban_contract.Prelude.{
  ltb, Bool-cases, nat_eq, pair_eq, length, length-push_back, u32, max_u128, sat_u128, max_u32,
  Store, total, sum_of, lookup, insert, remove, sum_of-insert, ℕ, suc, ◌+◌, ◌*◌, ◌/◌, ◌≤◌, ◌<◌, ◌≡◌,
  refl, inl, inr, ◌&&◌, List, [], ◌∷◌, arith,
}
use stellar_soroban_contract.Ink.{AccountId, Env, unwrap_or}
use stellar_soroban_contract.Fees.Types.{operation_eq, FeeManager}
use stellar_soroban_contract.Fees.{
  new, record_fee_collected, update_fee_params, set_operation_config, collect_fee, Op, adds,
  removes, distributes, claims, step, run,
}
use stellar_soroban_contract.Fees.Distribution.{
  add_validator, retain_others, remove_validator, set_distribution_rates, reward_validator,
  reward_all, validator_total, per_validator_of, pay_validators, distribute_fees, claim_rewards,
}
use stellar_soroban_contract.Fees.Market.{create_premium_auction, place_bid, settle_auction}

-- The rewards that can be claimed, over all accounts.
abbrev pub promised : FeeManager → ℕ
promised s = sum_of (λ _ v. v) s.pending_rewards

-- What is promised was distributed, and what was distributed or lies in the treasury was collected.
pub record IsCovered (s : FeeManager) : Type 0 where
  pub earned : promised s ≤ s.total_distributed
  pub funded : s.total_distributed + s.fee_treasury ≤ s.total_fees_collected
  pub share : s.validator_share_bp ≤ 10000

credit_lem :
    (a x : ℕ) (m : Store AccountId ℕ)
    → sum_of (λ _ v. v) (insert a (sat_u128 (unwrap_or 0 (lookup a m) + x)) m)
      ≤ sum_of (λ _ v. v) m + x
credit_lem a x m =
    ground (arith, sum_of-insert (λ _ v. v) a (sat_u128 (unwrap_or 0 (lookup a m) + x)) m)

sum_of-remove :
    (a : AccountId) (m : Store AccountId ℕ) → sum_of (λ _ v. v) (remove a m) ≤ sum_of (λ _ v. v) m
unfolding sum_of remove
sum_of-remove a [] = omega arith
sum_of-remove a ((b, v) ∷ m) = ground (arith, sum_of-remove a m)

suc_mul : (n x : ℕ) → suc n * x ≡ n * x + x
suc_mul n x = grind arith

reward_all_books :
    (env : Env) (x : ℕ) (l : List AccountId) (s : FeeManager)
    → s.total_distributed + length l * x ≤ max_u128
    → let t = reward_all env x l s in
      (promised t ≤ promised s + length l * x)
      × (t.total_distributed ≡ s.total_distributed + length l * x)
      × (t.total_fees_collected ≡ s.total_fees_collected)
      × (t.validator_share_bp ≡ s.validator_share_bp)
      × (t.validator_list ≡ s.validator_list)
unfolding reward_all
reward_all_books env x [] s h = (omega arith, omega arith, refl, refl, refl)
reward_all_books env x (a ∷ l) s h =
    unfold reward_validator in
    let split = suc_mul (length l) x in
    let t = reward_validator env x a s in
    let credited = credit_lem a x s.pending_rewards in
    let exact : t.total_distributed ≡ s.total_distributed + x = ground arith in
    let (p, d, c, b, v) = reward_all_books env x l t (omega arith) in
    (omega arith, omega arith, c, b, v)

share_le : (amount bp : ℕ) → bp ≤ 10000 → sat_u128 (amount * bp) / 10000 ≤ amount
share_le amount bp h = let scaled : amount * bp ≤ amount * 10000 = grind arith in ground arith

shares_le : (total n : ℕ) → 0 < n → n * (total / n) ≤ total
shares_le total n h = grind arith

-- A distribution promises no more than the treasury holds.
pay_validators_books :
    (env : Env) (s : FeeManager)
    → IsCovered s
    → length s.validator_list ≤ max_u32
    → s.total_fees_collected < max_u128
    → let t = pay_validators env s in
      (promised t ≤ t.total_distributed)
      × (t.total_distributed ≤ t.total_fees_collected)
      × (t.total_fees_collected ≡ s.total_fees_collected)
      × (t.validator_share_bp ≡ s.validator_share_bp)
      × (t.validator_list ≡ s.validator_list)
pay_validators_books env s v few room =
    elim (Bool-cases (ltb 0 (u32 (length s.validator_list)) && ltb 0 (validator_total s))) [
      | inr none_paid ↦ rw none_paid (v.earned, omega (arith, v.funded), refl, refl, refl)
      | inl pays ↦
          let n = length s.validator_list in
          let same_length : u32 n ≡ n = omega arith in
          let some_listed : 0 < n = ground arith in
          let within : n * (validator_total s / n) ≤ s.fee_treasury = omega (
            arith,
            shares_le (validator_total s) n some_listed,
            share_le s.fee_treasury s.validator_share_bp v.share,
          ) in
          let (p, d, c, b, l) =
            reward_all_books env (validator_total s / n) s.validator_list s
              (omega (arith, v.funded)) in
          rw pays (rw same_length (omega (arith, v.earned), omega (arith, v.funded), c, b, l))
    ]

length-retain_others : (x : AccountId) (l : List AccountId) → length (retain_others x l) ≤ length l
unfolding retain_others
length-retain_others x [] = omega arith
length-retain_others x (y ∷ l) = ground (arith, length-retain_others x l)

reward_all_collected :
    (env : Env) (x : ℕ) (l : List AccountId) (s : FeeManager)
    → (reward_all env x l s).total_fees_collected ≡ s.total_fees_collected
unfolding reward_all
reward_all_collected env x [] s = refl
reward_all_collected env x (a ∷ l) s = reward_all_collected env x l (reward_validator env x a s)

-- The fees collected never fall: while they are below the largest u128, they were so before.
step-collected :
    (env : Env) (op : Op) (s : FeeManager)
    → (step env op s).total_fees_collected < max_u128
    → s.total_fees_collected < max_u128
unfolding step record_fee_collected update_fee_params set_operation_config create_premium_auction
    place_bid settle_auction add_validator remove_validator set_distribution_rates distribute_fees
    claim_rewards collect_fee
step-collected env distributes s h =
    ground (arith, reward_all_collected env (per_validator_of s) s.validator_list s)
step-collected env op s h = ground arith

run-collected :
    (ops : List (Env × Op)) (s : FeeManager)
    → (run ops s).total_fees_collected < max_u128
    → s.total_fees_collected < max_u128
unfolding run
run-collected [] s h = h
run-collected ((env, op) ∷ ops) s h = step-collected env op s (run-collected ops (step env op s) h)

step-IsCovered :
    (env : Env) (op : Op) (s : FeeManager)
    → length s.validator_list + 1 ≤ max_u32
    → s.total_fees_collected < max_u128
    → (step env op s).total_fees_collected < max_u128
    → IsCovered s
    → IsCovered (step env op s)
      × (length (step env op s).validator_list ≤ length s.validator_list + 1)
unfolding step record_fee_collected update_fee_params set_operation_config create_premium_auction
    place_bid settle_auction add_validator remove_validator set_distribution_rates distribute_fees
    claim_rewards collect_fee
step-IsCovered env distributes s few before room v =
    let paid = pay_validators_books env s v (omega arith) before in
    (
      record {
        earned = ground (arith, v.earned, paid);
        funded = ground (arith, v.funded, paid);
        share = ground (arith, v.share, paid);
      },
      ground (arith, paid),
    )
step-IsCovered env claims s few before room v = (
  record {
    earned = ground (arith, v.earned, sum_of-remove env.caller s.pending_rewards);
    funded = ground (arith, v.funded);
    share = ground (arith, v.share);
  },
  ground arith,
)
step-IsCovered env (adds a) s few before room v = (
  record {
    earned = ground (arith, v.earned);
    funded = ground (arith, v.funded);
    share = ground (arith, v.share);
  },
  ground (arith, length-push_back s.validator_list a),
)
step-IsCovered env (removes a) s few before room v = (
  record {
    earned = ground (arith, v.earned);
    funded = ground (arith, v.funded);
    share = ground (arith, v.share);
  },
  ground (arith, length-retain_others a s.validator_list),
)
step-IsCovered env op s few before room v = (
  record {
    earned = ground (arith, v.earned);
    funded = ground (arith, v.funded);
    share = ground (arith, v.share);
  },
  ground arith,
)

pub new-IsCovered : (env : Env) (base lo hi : ℕ) → IsCovered (new env base lo hi)
unfolding new sum_of
new-IsCovered env base lo hi = record {
  earned = omega arith;
  funded = omega arith;
  share = omega arith;
}

-- From a new manager, or any state in which it holds, after any messages in which the validators
-- listed stay a u32 and the fees collected in all stay below the largest u128: the rewards that
-- accounts can claim add up to no more than what was distributed, and what was distributed and
-- what lies in the treasury add up to no more than the fees that were collected.
pub run-IsCovered :
    (ops : List (Env × Op)) (s : FeeManager)
    → length s.validator_list + length ops ≤ max_u32
    → (run ops s).total_fees_collected < max_u128
    → IsCovered s
    → IsCovered (run ops s)
unfolding run
run-IsCovered [] s few room v = v
run-IsCovered ((env, op) ∷ ops) s few room v =
    let t = step env op s in
    let small = run-collected ops t room in
    let (w, longer) =
      step-IsCovered env op s (omega arith) (step-collected env op s small) small v in
    run-IsCovered ops t (omega arith) room w
