-- ===== src/Fees/Bidding.antt =====
-- contracts/fees/src/lib.rs: the highest bid wins an auction, and wins it once.
use stellar_soroban_contract.Prelude.{
  Bool-cases, nat_beq_sound, nat_beq_self, ◌==◌, nat_eq, pair_eq, u64, max_u64, lookup, insert,
  lookup-insert, ℕ, ◌+◌, ◌≤◌, ◌<◌, ◌≡◌, refl, subst, inl, inr, true, false, Option, none, some,
  arith,
}
use stellar_soroban_contract.Ink.{AccountId}
use stellar_soroban_contract.Fees.Types.{operation_eq, PremiumAuction, AuctionBid, FeeManager}
use stellar_soroban_contract.Fees.Auctions.{Stands, IsAuctioned}

-- The counter has numbers left for `n` more auctions.
abbrev pub HasRoom : ℕ → FeeManager → Type 0
HasRoom n s = s.auction_count + n ≤ max_u64

module _ (s t : FeeManager) where
  pub create-IsAuctioned :
      (a : PremiumAuction)
      → IsAuctioned s
      → HasRoom 1 s
      → a.current_bid ≡ 0
      → a.current_bidder ≡ none
      → a.settled ≡ false
      → t.auction_count ≡ u64 (s.auction_count + 1)
      → t.auctions ≡ insert (u64 (s.auction_count + 1)) a s.auctions
      → t.auction_bids ≡ s.auction_bids
      → IsAuctioned t
  create-IsAuctioned a v room zeroed unsold fresh counted filed same =
      let new_id = u64 (s.auction_count + 1) in
      let found = λ (j : ℕ). lookup-insert j new_id a s.auctions in
      record {
        numbered = λ k b h. ground (arith, found k, v.numbered k b);
        placed = λ k b r h. ground (arith, v.placed k b r);
        standing = λ k b h. elim (Bool-cases (k == new_id)) [
          | inl this ↦
              let eq : a ≡ b = ground (arith, found k) in
              subst (λ (z : PremiumAuction). Stands k z t.auction_bids z.current_bidder) eq
                (rw unsold (zeroed, fresh))
          | inr other ↦ rw same (v.standing k b (ground (arith, found k)))
        ];
        highest = λ k b c r h g.
            ground (arith, found k, v.placed k c r, v.highest k b c r, nat_beq_sound k new_id);
      }

  pub bid-IsAuctioned :
      (k : ℕ) (a : PremiumAuction) (b : AccountId) (r : AuctionBid)
      → IsAuctioned s
      → lookup k s.auctions ≡ some a
      → a.min_bid ≤ r.amount
      → a.current_bid < r.amount
      → r.bidder ≡ b
      → t.auctions
        ≡ insert k (record a { current_bid = r.amount; current_bidder = some b }) s.auctions
      → t.auction_bids ≡ insert (k, b) r s.auction_bids
      → t.auction_count ≡ s.auction_count
      → IsAuctioned t
  bid-IsAuctioned k a b r v here least more own filed placed counted =
      let after : PremiumAuction = record a { current_bid = r.amount; current_bidder = some b } in
      let found = λ (j : ℕ). lookup-insert j k after s.auctions in
      let offered = λ (j : ℕ) (c : AccountId). lookup-insert (j, c) (k, b) r s.auction_bids in
      record {
        numbered = λ j d h. ground (arith, found j, v.numbered j d, v.numbered k a here);
        placed = λ j c q h.
            ground (arith, offered j c, v.placed j c q, v.numbered k a here, nat_beq_sound j k);
        standing = λ j d h. elim (Bool-cases (j == k)) [
          | inl this ↦
              let eq : after ≡ d = ground (arith, found j) in
              subst (λ (z : PremiumAuction). Stands j z t.auction_bids z.current_bidder) eq
                (least, omega arith, (r, ground (arith, offered j b, nat_beq_self b), own, refl))
          | inr other ↦
              kept_offer j d (ground (arith, found j)) (λ c q g. ground (arith, offered j c, g))
        ];
        highest = λ j d c q h g. ground (
          arith,
          found j,
          offered j c,
          v.highest j d c q,
          v.highest k a c q here,
          nat_beq_sound j k,
        );
      }
    where
      kept_offer :
          (j : ℕ) (d : PremiumAuction)
          → lookup j s.auctions ≡ some d
          → ((c : AccountId) (q : AuctionBid)
              → lookup (j, c) s.auction_bids ≡ some q
              → lookup (j, c) t.auction_bids ≡ some q)
          → Stands j d t.auction_bids d.current_bidder
      kept_offer j d h keep = move d.current_bidder (v.standing j d h)
        where
          move : (o : Option AccountId) → Stands j d s.auction_bids o → Stands j d t.auction_bids o
          move none st = st
          move (some c) (lo, some_bid, (q, there, by, much)) =
              (lo, some_bid, (q, keep c q there, by, much))

  pub settle-IsAuctioned :
      (k : ℕ) (a : PremiumAuction) (b : AccountId)
      → IsAuctioned s
      → lookup k s.auctions ≡ some a
      → a.current_bidder ≡ some b
      → t.auctions ≡ insert k (record a { settled = true }) s.auctions
      → t.auction_bids ≡ s.auction_bids
      → t.auction_count ≡ s.auction_count
      → IsAuctioned t
  settle-IsAuctioned k a b v here won filed same counted =
      let after : PremiumAuction = record a { settled = true } in
      let found = λ (j : ℕ). lookup-insert j k after s.auctions in
      record {
        numbered = λ j d h. ground (arith, found j, v.numbered j d, v.numbered k a here);
        placed = λ j c q h. ground (arith, v.placed j c q);
        standing = λ j d h. elim (Bool-cases (j == k)) [
          | inl this ↦
              let eq : after ≡ d = ground (arith, found j) in
              subst (λ (z : PremiumAuction). Stands j z t.auction_bids z.current_bidder) eq
                (ground (arith, v.standing k a here, nat_beq_sound j k))
          | inr other ↦ rw same (v.standing j d (ground (arith, found j)))
        ];
        highest = λ j d c q h g.
            ground (arith, found j, v.highest j d c q, v.highest k a c q here, nat_beq_sound j k);
      }
