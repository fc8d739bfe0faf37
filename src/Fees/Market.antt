-- ===== src/Fees/Market.antt =====
-- contracts/fees/src/lib.rs: the auctions of premium listings.
use stellar_soroban_contract.Prelude.{
  ltb, leb, nat_eq, pair_eq, u64, sat_u128, sat_u64, lookup, insert, ℕ, ◌+◌, true, false, Option,
  none, some,
}
use stellar_soroban_contract.Ink.{Env, ◌>>=◌, ◌>>◌, return, gets, modify, fail_if, ok_or, or_trap}
use stellar_soroban_contract.Fees.Types.{
  premium_listing_bid, operation_eq, PremiumAuction, auction_not_found, auction_ended,
  auction_not_ended, bid_too_low, already_settled, premium_auction_created, premium_auction_bid,
  premium_auction_settled, FeeManager, Msg, emit_event,
}
use stellar_soroban_contract.Fees.Pricing.{calculate_fee}

abbrev pub set_auction : ℕ → PremiumAuction → Msg (Unit {0})
set_auction auction_id auction =
    modify (λ s. record s { auctions = insert auction_id auction s.auctions })

unfoldable pub create_premium_auction : Env → ℕ → ℕ → ℕ → Msg ℕ
unfolding calculate_fee
create_premium_auction env property_id min_bid duration_seconds = do
  priced ← gets (calculate_fee env premium_listing_bid)
  fee ← or_trap priced
  modify (λ s. record s {
    fee_treasury = sat_u128 (s.fee_treasury + fee);
    total_fees_collected = sat_u128 (s.total_fees_collected + fee);
  })
  modify (λ s. record s { auction_count = u64 (s.auction_count + 1) })
  auction_id ← gets (λ s. s.auction_count)
  let end_time = sat_u64 (env.block_timestamp + duration_seconds)
  set_auction auction_id (record {
    property_id = property_id;
    seller = env.caller;
    min_bid = min_bid;
    current_bid = 0;
    current_bidder = none;
    end_time = end_time;
    settled = false;
    fee_paid = fee;
  })
  emit_event (premium_auction_created auction_id property_id env.caller min_bid end_time fee)
  return auction_id

unfoldable pub place_bid : Env → ℕ → ℕ → Msg (Unit {0})
place_bid env auction_id amount = do
  stored ← gets (λ s. lookup auction_id s.auctions)
  auction ← ok_or stored auction_not_found
  fail_if auction.settled already_settled
  fail_if (leb auction.end_time env.block_timestamp) auction_ended
  fail_if (ltb amount auction.min_bid) bid_too_low
  fail_if (leb amount auction.current_bid) bid_too_low
  set_auction auction_id (record auction { current_bid = amount; current_bidder = some env.caller })
  modify (λ s. record s {
    auction_bids =
        insert (auction_id, env.caller)
          (record { bidder = env.caller; amount = amount; timestamp = env.block_timestamp })
          s.auction_bids;
  })
  emit_event (premium_auction_bid auction_id env.caller amount auction.current_bid)

unfoldable pub settle_auction : Env → ℕ → Msg (Unit {0})
settle_auction env auction_id = do
  stored ← gets (λ s. lookup auction_id s.auctions)
  auction ← ok_or stored auction_not_found
  fail_if auction.settled already_settled
  fail_if (ltb env.block_timestamp auction.end_time) auction_not_ended
  winner ← ok_or auction.current_bidder auction_not_found
  set_auction auction_id (record auction { settled = true })
  emit_event (
      premium_auction_settled auction_id auction.property_id winner auction.current_bid
        env.block_timestamp)

unfoldable pub get_auction : ℕ → FeeManager → Option PremiumAuction
get_auction auction_id s = lookup auction_id s.auctions
