-- ===== src/Fees/Progress.antt =====
-- contracts/fees/src/lib.rs: how the auctions go on over any messages.
use stellar_soroban_contract.Prelude.{
  Bool-cases, Option-cases, nat_beq_sound, ◌==◌, nat_eq, pair_eq, length, u64, lookup,
  lookup-insert, ℕ, ◌+◌, ◌≤◌, ◌≡◌, refl, ap, subst, ◌∙◌, inl, inr, Bool, true, false, not, ◌&&◌,
  Option, none, some, List, [], ◌∷◌, arith,
}
use stellar_soroban_contract.Ink.{AccountId, Env, err, is_ok}
use stellar_soroban_contract.Fees.Types.{
  operation_eq, PremiumAuction, auction_not_found, FeeManager,
}
use stellar_soroban_contract.Fees.{new, Op, step, run}
use stellar_soroban_contract.Fees.Market.{settle_auction}
use stellar_soroban_contract.Fees.Auctions.{
  IsAuctioned, AuctionEffect, nothing, create, bid, settle, step-AuctionEffect,
}
use stellar_soroban_contract.Fees.Bidding.{
  HasRoom, create-IsAuctioned, bid-IsAuctioned, settle-IsAuctioned,
}

-- An auction later on: its terms are the same and its bid has not fallen; once it is settled it
-- does not change at all.
pub record Later (a b : PremiumAuction) : Type 0 where
  pub terms :
      (b.property_id ≡ a.property_id)
      × (b.seller ≡ a.seller)
      × (b.min_bid ≡ a.min_bid)
      × (b.end_time ≡ a.end_time)
      × (b.fee_paid ≡ a.fee_paid)
  pub rises : a.current_bid ≤ b.current_bid
  pub frozen : a.settled ≡ true → b ≡ a

Later_refl : (a : PremiumAuction) → Later a a
Later_refl a = record {
  terms = (refl, refl, refl, refl, refl);
  rises = omega arith;
  frozen = λ _. refl;
}

Later_trans : (a b c : PremiumAuction) → Later a b → Later b c → Later a c
Later_trans a b c v w = record {
  terms = ground (arith, v.terms, w.terms);
  rises = omega (arith, v.rises, w.rises);
  frozen =
      λ h. let eq = v.frozen h in w.frozen (ap (λ (z : PremiumAuction). z.settled) eq ∙ h) ∙ eq;
}

unchanged-IsAuctioned :
    (s t : FeeManager)
    → IsAuctioned s
    → t.auctions ≡ s.auctions
    → t.auction_bids ≡ s.auction_bids
    → t.auction_count ≡ s.auction_count
    → IsAuctioned t
unchanged-IsAuctioned s t v same bids_same counted = record {
  numbered = λ k a h. ground (arith, v.numbered k a);
  placed = λ k b r h. ground (arith, v.placed k b r);
  standing = λ k a h. rw bids_same (v.standing k a (rw (← same) h));
  highest = λ k a b r h g. v.highest k a b r (rw (← same) h) (rw (← bids_same) g);
}

AuctionEffect-IsAuctioned :
    {now : ℕ} (s t : FeeManager)
    → HasRoom 1 s
    → IsAuctioned s
    → AuctionEffect now s t
    → IsAuctioned t × (t.auction_count ≤ s.auction_count + 1)
AuctionEffect-IsAuctioned s t room v (nothing same placed counted) =
    (unchanged-IsAuctioned s t v same placed counted, ground arith)
AuctionEffect-IsAuctioned s t room v (create a zeroed unsold fresh counted filed same) =
    (create-IsAuctioned s t a v room zeroed unsold fresh counted filed same, ground arith)
AuctionEffect-IsAuctioned s t room v (bid k a b r here _ _ least more own filed placed counted) =
    (bid-IsAuctioned s t k a b r v here least more own filed placed counted, ground arith)
AuctionEffect-IsAuctioned s t room v (settle k a b here _ _ won filed same counted) =
    (settle-IsAuctioned s t k a b v here won filed same counted, ground arith)

AuctionEffect-Later :
    {now : ℕ} (s t : FeeManager) (k : ℕ) (a : PremiumAuction)
    → HasRoom 1 s
    → IsAuctioned s
    → AuctionEffect now s t
    → lookup k s.auctions ≡ some a
    → (b : PremiumAuction) × (lookup k t.auctions ≡ some b) × Later a b
AuctionEffect-Later s t k a room v (nothing same _ _) h = (a, rw same h, Later_refl a)
AuctionEffect-Later s t k a room v (create c _ _ _ _ filed _) h = (
  a,
  ground (
    arith,
    v.numbered k a h,
    lookup-insert k (u64 (s.auction_count + 1)) c s.auctions,
    nat_beq_sound k (u64 (s.auction_count + 1)),
  ),
  Later_refl a,
)
AuctionEffect-Later s t k a room v (bid j c b r here fresh _ _ more _ filed _ _) h =
    let after : PremiumAuction = record c { current_bid = r.amount; current_bidder = some b } in
    let found = lookup-insert k j after s.auctions in
    elim (Bool-cases (k == j)) [
      | inl this ↦
          let eq : c ≡ a = ground (arith, nat_beq_sound k j) in
          (
            after,
            ground (arith, found),
            subst (λ (z : PremiumAuction). Later z after) eq
                (record {
                  terms = (refl, refl, refl, refl, refl);
                  rises = omega arith;
                  frozen = λ done. absurd (cc);
                }),
          )
      | inr other ↦ (a, ground (arith, found), Later_refl a)
    ]
AuctionEffect-Later s t k a room v (settle j c b here fresh _ _ filed _ _) h =
    let after : PremiumAuction = record c { settled = true } in
    let found = lookup-insert k j after s.auctions in
    elim (Bool-cases (k == j)) [
      | inl this ↦
          let eq : c ≡ a = ground (arith, nat_beq_sound k j) in
          (
            after,
            ground (arith, found),
            subst (λ (z : PremiumAuction). Later z after) eq
                (record {
                  terms = (refl, refl, refl, refl, refl);
                  rises = omega arith;
                  frozen = λ done. absurd (cc);
                }),
          )
      | inr other ↦ (a, ground (arith, found), Later_refl a)
    ]

pub new-IsAuctioned : (env : Env) (base lo hi : ℕ) → IsAuctioned (new env base lo hi)
unfolding new lookup
new-IsAuctioned env base lo hi = record {
  numbered = λ k a h. absurd (cc);
  placed = λ k b r h. absurd (cc);
  standing = λ k a h. absurd (cc);
  highest = λ k a b r h g. absurd (cc);
}

-- From a new manager, or any state in which it holds, after any messages, no more than the numbers
-- that the auction counter has left: the bid that stands for an auction is the highest of the bids
-- that are recorded for it, it is the recorded bid of the one who stands as bidder, it is at least
-- the least bid and positive, and an auction without a bidder is not settled.
pub run-IsAuctioned :
    (ops : List (Env × Op)) (s : FeeManager)
    → HasRoom (length ops) s
    → IsAuctioned s
    → IsAuctioned (run ops s)
unfolding run
run-IsAuctioned [] s room v = v
run-IsAuctioned ((env, op) ∷ ops) s room v =
    let (v', counted) =
      AuctionEffect-IsAuctioned s (step env op s) (omega arith) v (step-AuctionEffect env op s) in
    run-IsAuctioned ops (step env op s) (omega arith) v'

-- From such a state, over any messages, no more than the numbers that the auction counter has left,
-- an auction is never lost: its property, seller, least bid, end and fee stay, its bid never falls,
-- and once it is settled nothing of it changes.
pub run-Later :
    (ops : List (Env × Op)) (s : FeeManager) (k : ℕ) (a : PremiumAuction)
    → HasRoom (length ops) s
    → IsAuctioned s
    → lookup k s.auctions ≡ some a
    → (b : PremiumAuction) × (lookup k (run ops s).auctions ≡ some b) × Later a b
unfolding run
run-Later [] s k a room v h = (a, h, Later_refl a)
run-Later ((env, op) ∷ ops) s k a room v h =
    let t = step env op s in
    let effect = step-AuctionEffect env op s in
    let (v', counted) = AuctionEffect-IsAuctioned s t (omega arith) v effect in
    let (b, there, first) = AuctionEffect-Later s t k a (omega arith) v effect h in
    let (c, last, rest) = run-Later ops t k b (omega arith) v' there in
    (c, last, Later_trans a b c first rest)

abbrev pub has_bidder : Option AccountId → Bool
has_bidder none = false
has_bidder (some _) = true

-- For any auction that is stored and whose end has come, settling it succeeds exactly when it is
-- not settled and somebody has bid; when nobody has, it answers that there is no such auction,
-- however late it is.
pub settle_auction_decides :
    (env : Env) (k : ℕ) (a : PremiumAuction) (s : FeeManager)
    → lookup k s.auctions ≡ some a
    → a.end_time ≤ env.block_timestamp
    → (is_ok (settle_auction env k s) ≡ (not a.settled && has_bidder a.current_bidder))
      × (a.settled ≡ false
          → a.current_bidder ≡ none
          → settle_auction env k s ≡ err auction_not_found)
unfolding settle_auction
settle_auction_decides env k a s h late = elim (Option-cases a.current_bidder) [
  | inl unsold ↦ (ground arith, λ open_still nobody. ground arith)
  | inr (b, won) ↦ (ground arith, λ open_still nobody. absurd (cc))
]
