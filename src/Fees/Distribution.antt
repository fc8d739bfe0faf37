-- ===== src/Fees/Distribution.antt =====
-- contracts/fees/src/lib.rs: the validators, what they are given of the fees and what they claim.
use stellar_soroban_contract.Prelude.{
  ltb, if◌then◌else◌, ◌==◌, nat_eq, pair_eq, length, push_back, u32, u64, sat_u128, sat_u32, lookup,
  insert, remove, ℕ, ◌+◌, ◌*◌, ◌/◌, Bool, true, false, ◌&&◌, List, [], ◌∷◌,
}
use stellar_soroban_contract.Ink.{
  AccountId, Env, ok, ◌>>=◌, ◌>>◌, return, gets, modify, fail_if, unwrap_or,
}
use stellar_soroban_contract.Fees.Types.{
  operation_eq, RewardReason, validator_reward, invalid_config, rewards_distributed,
  validator_added, validator_removed, distribution_rates_set, FeeManager, Msg, emit_event,
  ensure_admin,
}

abbrev pub is_validator : AccountId → FeeManager → Bool
is_validator account s = unwrap_or false (lookup account s.validators)

-- The writes of `add_validator`, for an account that is no validator.
unfoldable pub enlist : Env → AccountId → Msg (Unit {0})
enlist env account = do
  modify (λ s. record s {
    validators = insert account true s.validators;
    validator_list = push_back s.validator_list account;
  })
  emit_event (validator_added account env.block_timestamp)

unfoldable pub add_validator : Env → AccountId → Msg (Unit {0})
unfolding ensure_admin enlist
add_validator env account = do
  ensure_admin env
  already ← gets (is_validator account)
  if already then return tt else enlist env account

-- `validator_list.retain(|&a| a != account)`
unfoldable pub retain_others : AccountId → List AccountId → List AccountId
retain_others account [] = []
retain_others account (a ∷ l) =
    let rest = retain_others account l in if a == account then rest else a ∷ rest

unfoldable pub remove_validator : Env → AccountId → Msg (Unit {0})
unfolding ensure_admin
remove_validator env account = do
  ensure_admin env
  modify (λ s. record s {
    validators = remove account s.validators;
    validator_list = retain_others account s.validator_list;
  })
  emit_event (validator_removed account env.block_timestamp)

unfoldable pub set_distribution_rates : Env → ℕ → ℕ → Msg (Unit {0})
unfolding ensure_admin
set_distribution_rates env validator_share_bp treasury_share_bp = do
  ensure_admin env
  fail_if (ltb 10000 (sat_u32 (validator_share_bp + treasury_share_bp))) invalid_config
  modify (λ s. record s {
    validator_share_bp = validator_share_bp;
    treasury_share_bp = treasury_share_bp;
  })
  emit_event (distribution_rates_set validator_share_bp treasury_share_bp env.block_timestamp)

abbrev pub pending_reward : AccountId → FeeManager → ℕ
pending_reward account s = unwrap_or 0 (lookup account s.pending_rewards)

unfoldable pub record_reward : Env → AccountId → ℕ → RewardReason → FeeManager → FeeManager
record_reward env account amount reason s =
    let count = u64 (s.reward_record_count + 1) in
    record s {
      reward_record_count = count;
      reward_records =
          insert count
            (record {
              account = account;
              amount = amount;
              reason = reason;
              timestamp = env.block_timestamp;
            })
            s.reward_records;
    }

-- The body of the loop of `distribute_fees`.
unfoldable pub reward_validator : Env → ℕ → AccountId → FeeManager → FeeManager
unfolding record_reward
reward_validator env per_validator acc s =
    let credited = record s {
      pending_rewards =
          insert acc (sat_u128 (pending_reward acc s + per_validator)) s.pending_rewards;
    } in
    let recorded = record_reward env acc per_validator validator_reward credited in
    record recorded {
      total_distributed = sat_u128 (recorded.total_distributed + per_validator);
      events =
          rewards_distributed acc per_validator validator_reward env.block_timestamp
          ∷ recorded.events;
    }

-- `for acc in validator_list`
unfoldable pub reward_all : Env → ℕ → List AccountId → FeeManager → FeeManager
unfolding reward_validator
reward_all env per_validator [] s = s
reward_all env per_validator (acc ∷ accs) s =
    reward_all env per_validator accs (reward_validator env per_validator acc s)

-- The validators' part of the treasury, and the part of one of them.
abbrev pub validator_total : FeeManager → ℕ
validator_total s = sat_u128 (s.fee_treasury * s.validator_share_bp) / 10000

abbrev pub per_validator_of : FeeManager → ℕ
per_validator_of s = validator_total s / u32 (length s.validator_list)

abbrev pub pay_validators : Env → FeeManager → FeeManager
pay_validators env s =
    if ltb 0 (u32 (length s.validator_list)) && ltb 0 (validator_total s)
    then reward_all env (per_validator_of s) s.validator_list s
    else s

unfoldable pub distribute_fees : Env → Msg (Unit {0})
unfolding ensure_admin
distribute_fees env = do
  ensure_admin env
  amount ← gets (λ s. s.fee_treasury)
  if amount == 0
      then return tt
      else modify (λ s. record (pay_validators env s) { fee_treasury = 0 })

unfoldable pub claim_rewards : Env → Msg ℕ
claim_rewards env s =
    let amount = pending_reward env.caller s in
    if amount == 0
    then ok (0, s)
    else ok (
      amount,
      record s {
        pending_rewards = remove env.caller s.pending_rewards;
        events =
            rewards_distributed env.caller amount validator_reward env.block_timestamp ∷ s.events;
      },
    )
