-- ===== src/Fees/Validators.antt =====
-- contracts/fees/src/lib.rs: the validators, as a list and as a mapping.
use stellar_soroban_contract.Prelude.{
  ltb, if◌then◌else◌, Bool-cases, nat_beq_sound, nat_beq_self, ◌==◌, nat_eq, pair_eq, length,
  contains, IsDistinct, contains-push_back, IsDistinct-push_back, u32, max_u128, sat_u128, max_u32,
  lookup, lookup-insert, lookup-remove, ℕ, ◌+◌, ◌*◌, ◌/◌, ◌≤◌, ◌≡◌, refl, sym, ap, subst, ◌∙◌, inl,
  inr, Bool, true, false, not, ◌&&◌, List, [], ◌∷◌, arith,
}
use stellar_soroban_contract.Ink.{AccountId, Env, err, kept}
use stellar_soroban_contract.Fees.Types.{operation_eq, unauthorized, FeeManager}
use stellar_soroban_contract.Fees.{
  new, record_fee_collected, update_fee_params, set_operation_config, collect_fee, Op, adds,
  removes, distributes, step, run,
}
use stellar_soroban_contract.Fees.Distribution.{
  is_validator, enlist, add_validator, retain_others, remove_validator, set_distribution_rates,
  pending_reward, reward_validator, reward_all, validator_total, per_validator_of, pay_validators,
  distribute_fees, claim_rewards,
}
use stellar_soroban_contract.Fees.Market.{create_premium_auction, place_bid, settle_auction}

-- The list has the accounts that the mapping calls validators, each once.
pub record IsListed (s : FeeManager) : Type 0 where
  pub agrees : (a : AccountId) → contains s.validator_list a ≡ is_validator a s
  pub distinct : IsDistinct s.validator_list

contains-retain_others :
    (x : AccountId) (l : List AccountId) (a : AccountId)
    → contains (retain_others x l) a ≡ (contains l a && not (a == x))
unfolding retain_others
contains-retain_others x [] a = refl
contains-retain_others x (y ∷ l) a =
    ground
      (arith, contains-retain_others x l a, nat_beq_sound y x, nat_beq_sound y a, nat_beq_self x)

IsDistinct-retain_others :
    (x : AccountId) (l : List AccountId) → IsDistinct l → IsDistinct (retain_others x l)
unfolding retain_others
IsDistinct-retain_others x [] d = tt
IsDistinct-retain_others x (y ∷ l) (new_one, d) = elim (Bool-cases (y == x)) [
  | inl gone ↦ rw gone (IsDistinct-retain_others x l d)
  | inr stays ↦
      rw stays
        (ground (arith, contains-retain_others x l y, new_one), IsDistinct-retain_others x l d)
]

unchanged-IsListed :
    (s t : FeeManager)
    → IsListed s
    → t.validators ≡ s.validators
    → t.validator_list ≡ s.validator_list
    → IsListed t
unchanged-IsListed s t v mapping same = record {
  agrees = λ a. ground (arith, v.agrees a);
  distinct = rw same v.distinct;
}

reward_all_lists :
    (env : Env) (x : ℕ) (l : List AccountId) (s : FeeManager)
    → ((reward_all env x l s).validators ≡ s.validators)
      × ((reward_all env x l s).validator_list ≡ s.validator_list)
unfolding reward_all
reward_all_lists env x [] s = (refl, refl)
reward_all_lists env x (a ∷ l) s = reward_all_lists env x l (reward_validator env x a s)

enlist-IsListed :
    (env : Env) (a : AccountId) (s : FeeManager)
    → IsListed s
    → is_validator a s ≡ false
    → IsListed (kept (enlist env a) s)
unfolding enlist
enlist-IsListed env a s v fresh = record {
  agrees = λ b. ground (
    arith,
    v.agrees b,
    contains-push_back s.validator_list a b,
    lookup-insert b a true s.validators,
    nat_beq_sound a b,
    nat_beq_sound b a,
    nat_beq_self a,
  );
  distinct = IsDistinct-push_back s.validator_list a (ground (arith, v.agrees a)) v.distinct;
}

remove-IsListed :
    (env : Env) (a : AccountId) (s : FeeManager)
    → IsListed s
    → IsListed (kept (remove_validator env a) s)
unfolding remove_validator
remove-IsListed env a s v = elim (Bool-cases (env.caller == s.admin)) [
  | inr refused ↦
      unchanged-IsListed s (kept (remove_validator env a) s) v (ground arith) (ground arith)
  | inl by_admin ↦ record {
    agrees = λ b. ground (
      arith,
      v.agrees b,
      contains-retain_others a s.validator_list b,
      lookup-remove b a s.validators,
    );
    distinct = rw (by_admin, kept) (IsDistinct-retain_others a s.validator_list v.distinct);
  }
]

add-IsListed :
    (env : Env) (a : AccountId) (s : FeeManager)
    → IsListed s
    → IsListed (kept (add_validator env a) s)
unfolding add_validator
add-IsListed env a s v = elim (Bool-cases (env.caller == s.admin && not (is_validator a s))) [
  | inl fresh ↦
      let new_state : kept (add_validator env a) s ≡ kept (enlist env a) s =
        unfold enlist in ground arith in
      subst IsListed (sym new_state) (enlist-IsListed env a s v (ground arith))
  | inr other ↦ unchanged-IsListed s (kept (add_validator env a) s) v (ground arith) (ground arith)
]

step-IsListed : (env : Env) (op : Op) (s : FeeManager) → IsListed s → IsListed (step env op s)
unfolding step record_fee_collected update_fee_params set_operation_config create_premium_auction
    place_bid settle_auction set_distribution_rates distribute_fees claim_rewards collect_fee
step-IsListed env (adds a) s v = add-IsListed env a s v
step-IsListed env (removes a) s v = remove-IsListed env a s v
step-IsListed env distributes s v =
    let (a, b) = reward_all_lists env (per_validator_of s) s.validator_list s in
    unchanged-IsListed s (step env distributes s) v (ground arith) (ground arith)
step-IsListed env op s v = unchanged-IsListed s (step env op s) v (ground arith) (ground arith)

pub new-IsListed : (env : Env) (base lo hi : ℕ) → IsListed (new env base lo hi)
unfolding new lookup
new-IsListed env base lo hi = record { agrees = λ a. refl; distinct = tt }

-- After any messages the list of validators has no account twice, and has exactly the accounts that
-- the mapping marks as validators.
pub run-IsListed : (ops : List (Env × Op)) (s : FeeManager) → IsListed s → IsListed (run ops s)
unfolding run
run-IsListed [] s v = v
run-IsListed ((env, op) ∷ ops) s v = run-IsListed ops (step env op s) (step-IsListed env op s v)

-- What the loop does to the rewards of one account.
reward_all_pending :
    (env : Env) (x : ℕ) (l : List AccountId) (s : FeeManager) (a : AccountId)
    → IsDistinct l
    → pending_reward a (reward_all env x l s)
      ≡ (if contains l a then sat_u128 (pending_reward a s + x) else pending_reward a s)
unfolding reward_all
reward_all_pending env x [] s a d = refl
reward_all_pending env x (b ∷ l) s a (new_one, d) =
    unfold reward_validator in
    ground (
      arith,
      reward_all_pending env x l (reward_validator env x b s) a d,
      lookup-insert a b (sat_u128 (pending_reward b s + x)) s.pending_rewards,
      nat_beq_sound a b,
      nat_beq_sound b a,
      nat_beq_self a,
    )

contains-nil : (l : List AccountId) (a : AccountId) → length l ≡ 0 → contains l a ≡ false
contains-nil [] a h = refl
contains-nil (x ∷ l) a h = absurd (omega arith)

-- The branch of `distribute_fees` that pays, or does not.
pay_validators_pending :
    (env : Env) (s : FeeManager) (a : AccountId)
    → IsListed s
    → length s.validator_list ≤ max_u32
    → pending_reward a s ≤ max_u128
    → let share = validator_total s / length s.validator_list in
      pending_reward a (pay_validators env s)
      ≡ (if is_validator a s then sat_u128 (pending_reward a s + share) else pending_reward a s)
pay_validators_pending env s a v few small =
    let same_length : u32 (length s.validator_list) ≡ length s.validator_list = omega arith in
    let agree = v.agrees a in
    rw same_length
      (elim (Bool-cases (ltb 0 (length s.validator_list) && ltb 0 (validator_total s))) [
        | inl pays ↦ rw pays (
            reward_all_pending env (validator_total s / length s.validator_list) s.validator_list s
              a v.distinct
            ∙ ap
                (λ (b : Bool).
                  if b
                  then sat_u128 (pending_reward a s + validator_total s / length s.validator_list)
                  else pending_reward a s)
                agree)
        | inr none_paid ↦ rw none_paid (unpaid none_paid agree)
      ])
  where
    unpaid :
        (ltb 0 (length s.validator_list) && ltb 0 (validator_total s)) ≡ false
        → contains s.validator_list a ≡ is_validator a s
        → pending_reward a s ≡ (
            if is_validator a s
            then sat_u128 (pending_reward a s + validator_total s / length s.validator_list)
            else pending_reward a s)
    unpaid none_paid agree = elim (Bool-cases (ltb 0 (length s.validator_list))) [
      | inl some_listed ↦
          let zero_total : validator_total s ≡ 0 = ground arith in
          let zero_share : validator_total s / length s.validator_list ≡ 0 =
            rw zero_total (omega arith) in
          ground (arith, zero_share)
      | inr empty ↦ ground (arith, contains-nil s.validator_list a)
    ]

-- When the validators are listed and are fewer than 2 ^ 32, and the account's rewards are a u128, a
-- distribution by the admin empties the treasury and adds to the rewards of each validator, up to
-- the largest u128, the same amount: the treasury times `validator_share_bp`, cut off at the largest
-- u128, over 10000 and then over the number of validators, both rounded down; nobody else's rewards
-- change. By anybody else it is refused.
pub distribute_fees_shares :
    (env : Env) (s : FeeManager) (a : AccountId)
    → IsListed s
    → length s.validator_list ≤ max_u32
    → pending_reward a s ≤ max_u128
    → let after = kept (distribute_fees env) s in
      let share =
        sat_u128 (s.fee_treasury * s.validator_share_bp) / 10000 / length s.validator_list in
      ((env.caller == s.admin) ≡ true
        → (after.fee_treasury ≡ 0)
          × (pending_reward a after ≡ (
              if is_validator a s
              then sat_u128 (pending_reward a s + share)
              else pending_reward a s)))
      × ((env.caller == s.admin) ≡ false → distribute_fees env s ≡ err unauthorized)
unfolding distribute_fees
distribute_fees_shares env s a v few small =
    let paid = pay_validators_pending env s a v few small in
    (
      λ by_admin. (
        ground arith,
        elim (Bool-cases (s.fee_treasury == 0)) [
          | inl empty ↦ ground (arith, paid)
          | inr some_fees ↦ ground (arith, paid)
        ],
      ),
      λ other. ground arith,
    )
