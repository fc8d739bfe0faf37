-- ===== src/Fees/Auctions.antt =====
-- contracts/fees/src/lib.rs: the premium auctions.
use stellar_soroban_contract.Prelude.{
  ltb, leb, Bool-cases, Option-cases, nat_eq, pair_eq, u64, sat_u64, Store, lookup, insert, ℕ, ◌+◌,
  ◌≤◌, ◌<◌, ◌≡◌, refl, inl, inr, true, false, not, ◌&&◌, Option, none, some, List, [], ◌∷◌, arith,
}
use stellar_soroban_contract.Ink.{AccountId, Env, kept}
use stellar_soroban_contract.Fees.Types.{
  premium_listing_bid, operation_eq, PremiumAuction, AuctionBid, FeeManager,
}
use stellar_soroban_contract.Fees.Pricing.{calculate_fee}
use stellar_soroban_contract.Fees.{
  record_fee_collected, update_fee_params, set_operation_config, collect_fee, Op, creates, bids,
  settles, distributes, step,
}
use stellar_soroban_contract.Fees.Distribution.{
  add_validator, remove_validator, set_distribution_rates, reward_validator, reward_all,
  per_validator_of, distribute_fees, claim_rewards,
}
use stellar_soroban_contract.Fees.Market.{create_premium_auction, place_bid, settle_auction}

-- The bid that stands for an auction is the bidder's own and meets the least bid; an auction with
-- no bid is not settled.
abbrev pub Stands :
    ℕ → PremiumAuction → Store (ℕ × AccountId) AuctionBid → Option AccountId → Type 0
Stands k a offers none = (a.current_bid ≡ 0) × (a.settled ≡ false)
Stands k a offers (some b) =
    (a.min_bid ≤ a.current_bid)
    × (0 < a.current_bid)
    × ((r : AuctionBid) × (lookup (k, b) offers ≡ some r)
        × (r.bidder ≡ b)
        × (r.amount ≡ a.current_bid))

pub record IsAuctioned (s : FeeManager) : Type 0 where
  pub numbered : (k : ℕ) (a : PremiumAuction) → lookup k s.auctions ≡ some a → k ≤ s.auction_count
  pub placed :
      (k : ℕ) (b : AccountId) (r : AuctionBid)
      → lookup (k, b) s.auction_bids ≡ some r
      → k ≤ s.auction_count
  pub standing :
      (k : ℕ) (a : PremiumAuction)
      → lookup k s.auctions ≡ some a
      → Stands k a s.auction_bids a.current_bidder
  pub highest :
      (k : ℕ) (a : PremiumAuction) (b : AccountId) (r : AuctionBid)
      → lookup k s.auctions ≡ some a
      → lookup (k, b) s.auction_bids ≡ some r
      → r.amount ≤ a.current_bid

-- What a message may do to the auctions.
pub data AuctionEffect (now : ℕ) (s t : FeeManager) : Type 0 where
  nothing :
      t.auctions ≡ s.auctions
      → t.auction_bids ≡ s.auction_bids
      → t.auction_count ≡ s.auction_count
      → AuctionEffect now s t
  create :
      (a : PremiumAuction)
      → a.current_bid ≡ 0
      → a.current_bidder ≡ none
      → a.settled ≡ false
      → t.auction_count ≡ u64 (s.auction_count + 1)
      → t.auctions ≡ insert (u64 (s.auction_count + 1)) a s.auctions
      → t.auction_bids ≡ s.auction_bids
      → AuctionEffect now s t
  bid :
      (k : ℕ) (a : PremiumAuction) (b : AccountId) (r : AuctionBid)
      → lookup k s.auctions ≡ some a
      → a.settled ≡ false
      → now < a.end_time
      → a.min_bid ≤ r.amount
      → a.current_bid < r.amount
      → r.bidder ≡ b
      → t.auctions
        ≡ insert k (record a { current_bid = r.amount; current_bidder = some b }) s.auctions
      → t.auction_bids ≡ insert (k, b) r s.auction_bids
      → t.auction_count ≡ s.auction_count
      → AuctionEffect now s t
  settle :
      (k : ℕ) (a : PremiumAuction) (b : AccountId)
      → lookup k s.auctions ≡ some a
      → a.settled ≡ false
      → a.end_time ≤ now
      → a.current_bidder ≡ some b
      → t.auctions ≡ insert k (record a { settled = true }) s.auctions
      → t.auction_bids ≡ s.auction_bids
      → t.auction_count ≡ s.auction_count
      → AuctionEffect now s t

reward_all_auctions :
    (env : Env) (x : ℕ) (l : List AccountId) (s : FeeManager)
    → ((reward_all env x l s).auctions ≡ s.auctions)
      × ((reward_all env x l s).auction_bids ≡ s.auction_bids)
      × ((reward_all env x l s).auction_count ≡ s.auction_count)
unfolding reward_all
reward_all_auctions env x [] s = (refl, refl, refl)
reward_all_auctions env x (a ∷ l) s = reward_all_auctions env x l (reward_validator env x a s)

place_bid-AuctionEffect :
    (env : Env) (k x : ℕ) (s : FeeManager)
    → AuctionEffect env.block_timestamp s (kept (place_bid env k x) s)
unfolding place_bid
place_bid-AuctionEffect env k x s = elim (Option-cases (lookup k s.auctions)) [
  | inl missing ↦ nothing (ground arith) (ground arith) (ground arith)
  | inr (a, here) ↦
      elim (Bool-cases (
        not a.settled
        && ltb env.block_timestamp a.end_time
        && leb a.min_bid x
        && ltb a.current_bid x)) [
          | inl taken ↦
              let r : AuctionBid = record {
                bidder = env.caller;
                amount = x;
                timestamp = env.block_timestamp;
              } in
              bid k a env.caller r here (ground arith) (ground arith) (ground arith) (ground arith)
                refl (ground arith) (ground arith) (ground arith)
          | inr refused ↦ nothing (ground arith) (ground arith) (ground arith)
        ]
]

settle_auction-AuctionEffect :
    (env : Env) (k : ℕ) (s : FeeManager)
    → AuctionEffect env.block_timestamp s (kept (settle_auction env k) s)
unfolding settle_auction
settle_auction-AuctionEffect env k s = elim (Option-cases (lookup k s.auctions)) [
  | inl missing ↦ nothing (ground arith) (ground arith) (ground arith)
  | inr (a, here) ↦ elim (Option-cases a.current_bidder) [
    | inl unsold ↦ nothing (ground arith) (ground arith) (ground arith)
    | inr (b, won) ↦ elim (Bool-cases (not a.settled && leb a.end_time env.block_timestamp)) [
      | inl taken ↦
          settle k a b here (ground arith) (ground arith) won (ground arith) (ground arith)
            (ground arith)
      | inr refused ↦ nothing (ground arith) (ground arith) (ground arith)
    ]
  ]
]

create-AuctionEffect :
    (env : Env) (p m d : ℕ) (s : FeeManager)
    → AuctionEffect env.block_timestamp s (kept (create_premium_auction env p m d) s)
unfolding create_premium_auction
create-AuctionEffect env p m d s = elim (Option-cases (calculate_fee env premium_listing_bid s)) [
  | inl panics ↦ nothing (ground arith) (ground arith) (ground arith)
  | inr (fee, priced) ↦
      let a : PremiumAuction = record {
        property_id = p;
        seller = env.caller;
        min_bid = m;
        current_bid = 0;
        current_bidder = none;
        end_time = sat_u64 (env.block_timestamp + d);
        settled = false;
        fee_paid = fee;
      } in
      create a refl refl refl (ground arith) (ground arith) (ground arith)
]

pub step-AuctionEffect :
    (env : Env) (op : Op) (s : FeeManager) → AuctionEffect env.block_timestamp s (step env op s)
unfolding step record_fee_collected update_fee_params set_operation_config add_validator
    remove_validator set_distribution_rates distribute_fees claim_rewards collect_fee
step-AuctionEffect env (creates p m d) s = create-AuctionEffect env p m d s
step-AuctionEffect env (bids k x) s = place_bid-AuctionEffect env k x s
step-AuctionEffect env (settles k) s = settle_auction-AuctionEffect env k s
step-AuctionEffect env distributes s =
    let (a, b, c) = reward_all_auctions env (per_validator_of s) s.validator_list s in
    nothing (ground arith) (ground arith) (ground arith)
step-AuctionEffect env op s = nothing (ground arith) (ground arith) (ground arith)
