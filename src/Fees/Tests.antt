-- ===== src/Fees/Tests.antt =====
-- contracts/fees/src/lib.rs: runs of the contract, and the theorems at concrete inputs.
use stellar_soroban_contract.Prelude.{
  if◌then◌else◌, nat_beq_sound, nat_eq, pair_eq, max_u128, sat_u128, lookup, insert, remove, ℕ, ◌+◌,
  ◌*◌, ◌/◌, ◌≤◌, ◌<◌, ◌≡◌, refl, true, false, none, some, List, [], ◌∷◌, arith,
}
use stellar_soroban_contract.Ink.{AccountId, Env, err, kept}
use stellar_soroban_contract.Fees.Types.{
  issue_badge, operation_eq, FeeConfig, PremiumAuction, unauthorized, FeeManager,
}
use stellar_soroban_contract.Fees.{
  new, record_fee_collected, collect_fee, Op, creates, bids, settles, adds, distributes, claims,
  collects, step, run,
}
use stellar_soroban_contract.Fees.Distribution.{
  is_validator, add_validator, pending_reward, reward_all, distribute_fees, claim_rewards,
}
use stellar_soroban_contract.Fees.Market.{create_premium_auction, place_bid, settle_auction}
use stellar_soroban_contract.Fees.Pricing.{
  uncut_fee, compute_dynamic_fee, get_config, congestion_index, demand_factor_bp, calculate_fee,
}
use stellar_soroban_contract.Fees.Bounds.{calculate_fee_bounds}
use stellar_soroban_contract.Fees.Auctions.{IsAuctioned}
use stellar_soroban_contract.Fees.Bidding.{HasRoom}
use stellar_soroban_contract.Fees.Progress.{Later, new-IsAuctioned, run-IsAuctioned, run-Later}
use stellar_soroban_contract.Fees.Validators.{IsListed, distribute_fees_shares}
use stellar_soroban_contract.Fees.Coverage.{IsCovered, new-IsCovered, run-IsCovered}

abbrev at : AccountId → ℕ → Env
at a t = record { caller = a; block_timestamp = t; transferred_value = 500 }

abbrev fresh : FeeManager
fresh = new (at 1 1000) 100 10 1000

abbrev season : List (Env × Op)
season =
    (at 1 1000, adds 5)
    ∷ (at 1 1001, adds 6)
    ∷ (at 9 1002, collects issue_badge 9 400)
    ∷ (at 7 1003, creates 42 50 100)
    ∷ (at 8 1010, bids 1 60)
    ∷ (at 9 1011, bids 1 70)
    ∷ (at 8 1200, settles 1)
    ∷ (at 1 1201, distributes)
    ∷ (at 5 1202, claims)
    ∷ []

-- The auction costs 100, so 250 of 500 go to the two validators, and one of them claims.
after_season :
    let s = run season fresh in
    (s.fee_treasury ≡ 0)
    × (s.pending_rewards ≡ (6, 125) ∷ [])
    × (s.total_distributed ≡ 250)
    × (s.total_fees_collected ≡ 500)
unfolding run step new record_fee_collected create_premium_auction place_bid settle_auction
    add_validator distribute_fees claim_rewards collect_fee reward_all calculate_fee
    compute_dynamic_fee uncut_fee congestion_index demand_factor_bp lookup insert remove
after_season = (refl, refl, refl, refl)

calculate_fee_bounds_example :
    let s = run season fresh in
    (fee : ℕ) × (calculate_fee (at 3 1300) issue_badge s ≡ some fee)
    × ((get_config issue_badge s).min_fee ≤ fee)
    × (fee ≤ (get_config issue_badge s).max_fee)
calculate_fee_bounds_example =
    calculate_fee_bounds (at 1 1000) 100 10 1000 season (at 3 1300) issue_badge (omega arith)

abbrev terms_of_fees : FeeConfig
terms_of_fees = record {
  base_fee = 100;
  min_fee = 10;
  max_fee = 1000;
  congestion_sensitivity = 80;
  demand_factor_bp = 500;
  last_updated = 1000;
}

fee_when_quiet : compute_dynamic_fee terms_of_fees 0 0 ≡ some 100
unfolding compute_dynamic_fee uncut_fee
fee_when_quiet = refl

fee_when_busy : compute_dynamic_fee terms_of_fees 100 500 ≡ some 106
unfolding compute_dynamic_fee uncut_fee
fee_when_busy = refl

run-IsAuctioned_example : IsAuctioned (run season fresh)
unfolding new
run-IsAuctioned_example =
    run-IsAuctioned season fresh (omega arith) (new-IsAuctioned (at 1 1000) 100 10 1000)

abbrev sold : PremiumAuction
sold = record {
  property_id = 42;
  seller = 7;
  min_bid = 50;
  current_bid = 70;
  current_bidder = some 9;
  end_time = 1103;
  settled = true;
  fee_paid = 100;
}

abbrev afterwards : List (Env × Op)
afterwards = (at 8 1210, bids 1 900) ∷ (at 8 1211, settles 1) ∷ (at 7 1212, creates 43 5 100) ∷ []

sold_at_end : lookup 1 (run season fresh).auctions ≡ some sold
unfolding run step new record_fee_collected create_premium_auction place_bid settle_auction
    add_validator distribute_fees claim_rewards collect_fee reward_all calculate_fee
    compute_dynamic_fee uncut_fee congestion_index demand_factor_bp lookup insert remove
sold_at_end = refl

room_left : HasRoom 3 (run season fresh)
unfolding run step new record_fee_collected create_premium_auction place_bid settle_auction
    add_validator distribute_fees claim_rewards collect_fee reward_all calculate_fee
    compute_dynamic_fee uncut_fee congestion_index demand_factor_bp lookup insert remove
room_left = omega arith

run-Later_example :
    (b : PremiumAuction) × (lookup 1 (run afterwards (run season fresh)).auctions ≡ some b)
    × Later sold b
unfolding new
run-Later_example =
    run-Later afterwards (run season fresh) 1 sold room_left
      (run-IsAuctioned season fresh (omega arith) (new-IsAuctioned (at 1 1000) 100 10 1000))
      sold_at_end

abbrev unsold : PremiumAuction
unsold = record sold { current_bid = 0; current_bidder = none; settled = false }

abbrev full : FeeManager
full = record fresh {
  validators = (5, true) ∷ (6, true) ∷ [];
  validator_list = 5 ∷ 6 ∷ [];
  fee_treasury = 501;
  total_fees_collected = 501;
}

full-IsListed : IsListed full
unfolding lookup
full-IsListed = record {
  agrees = λ a.
      ground (arith, nat_beq_sound a 5, nat_beq_sound a 6, nat_beq_sound 5 a, nat_beq_sound 6 a);
  distinct = (refl, (refl, tt));
}

distribute_fees_shares_example :
    let after = kept (distribute_fees (at 1 1500)) full in
    let share = sat_u128 (full.fee_treasury * full.validator_share_bp) / 10000 / 2 in
    (true ≡ true
      → (after.fee_treasury ≡ 0)
        × (pending_reward 5 after ≡ (
            if is_validator 5 full
            then sat_u128 (pending_reward 5 full + share)
            else pending_reward 5 full)))
    × (true ≡ false → distribute_fees (at 1 1500) full ≡ err unauthorized)
unfolding new lookup
distribute_fees_shares_example =
    distribute_fees_shares (at 1 1500) full 5 full-IsListed (omega arith) (omega arith)

run-IsCovered_example : IsCovered (run season fresh)
unfolding new
run-IsCovered_example =
    run-IsCovered season fresh (omega arith) collected_little
      (new-IsCovered (at 1 1000) 100 10 1000)
  where
    collected_little : (run season fresh).total_fees_collected < max_u128
    collected_little = rw (after_season.3) (omega arith)
