-- ===== src/Fees/Types.antt =====
-- contracts/fees/src/lib.rs: the data of the fee manager; contracts/traits/src/lib.rs: the
-- operations that it prices.
use stellar_soroban_contract.Prelude.{
  nat_beq, if◌then◌else◌, nat_beq_sound, nat_beq_self, Comparable, ◌==◌, nat_eq, pair_eq, Store, ℕ,
  String, ◌≡◌, refl, sym, ap, ◌∙◌, Bool, true, not, Option, List, ◌∷◌,
}
use stellar_soroban_contract.Ink.{AccountId, Env, Message, ◌>>=◌, gets, modify, fail_if}

pub data FeeOperation : Type 0 where
  register_property : FeeOperation
  transfer_property : FeeOperation
  update_metadata : FeeOperation
  create_escrow : FeeOperation
  release_escrow : FeeOperation
  premium_listing_bid : FeeOperation
  issue_badge : FeeOperation
  oracle_update : FeeOperation
  bridge_transfer : FeeOperation

-- The discriminant, by which a mapping tells the operations apart.
abbrev pub operation_index : FeeOperation → ℕ
operation_index register_property = 0
operation_index transfer_property = 1
operation_index update_metadata = 2
operation_index create_escrow = 3
operation_index release_escrow = 4
operation_index premium_listing_bid = 5
operation_index issue_badge = 6
operation_index oracle_update = 7
operation_index bridge_transfer = 8

abbrev pub nth_operation : ℕ → FeeOperation
nth_operation n =
    if n == 0
    then register_property
    else if n == 1
    then transfer_property
    else if n == 2
    then update_metadata
    else if n == 3
    then create_escrow
    else if n == 4
    then release_escrow
    else if n == 5
    then premium_listing_bid
    else if n == 6
    then issue_badge
    else if n == 7
    then oracle_update
    else bridge_transfer

pub nth_operation-operation_index : (o : FeeOperation) → nth_operation (operation_index o) ≡ o
nth_operation-operation_index register_property = refl
nth_operation-operation_index transfer_property = refl
nth_operation-operation_index update_metadata = refl
nth_operation-operation_index create_escrow = refl
nth_operation-operation_index release_escrow = refl
nth_operation-operation_index premium_listing_bid = refl
nth_operation-operation_index issue_badge = refl
nth_operation-operation_index oracle_update = refl
nth_operation-operation_index bridge_transfer = refl

abbrev pub operation_beq : FeeOperation → FeeOperation → Bool
operation_beq o p = nat_beq (operation_index o) (operation_index p)

pub operation_beq_sound : (o p : FeeOperation) → operation_beq o p ≡ true → o ≡ p
operation_beq_sound o p h =
    sym (nth_operation-operation_index o)
    ∙ ap nth_operation (nat_beq_sound (operation_index o) (operation_index p) h)
    ∙ nth_operation-operation_index p

pub operation_beq_self : (o : FeeOperation) → operation_beq o o ≡ true
operation_beq_self o = nat_beq_self (operation_index o)

instance abbrev pub operation_eq : Comparable FeeOperation
operation_eq = record {
  same = operation_beq;
  same_sound = operation_beq_sound;
  same_self = operation_beq_self;
}

pub record FeeConfig : Type 0 where
  pub base_fee : ℕ
  pub min_fee : ℕ
  pub max_fee : ℕ
  pub congestion_sensitivity : ℕ
  pub demand_factor_bp : ℕ
  pub last_updated : ℕ

pub record PremiumAuction : Type 0 where
  pub property_id : ℕ
  pub seller : AccountId
  pub min_bid : ℕ
  pub current_bid : ℕ
  pub current_bidder : Option AccountId
  pub end_time : ℕ
  pub settled : Bool
  pub fee_paid : ℕ

pub record AuctionBid : Type 0 where
  pub bidder : AccountId
  pub amount : ℕ
  pub timestamp : ℕ

pub data RewardReason : Type 0 where
  validator_reward liquidity_provider premium_listing_fee participation_incentive : RewardReason

pub record RewardRecord : Type 0 where
  pub account : AccountId
  pub amount : ℕ
  pub reason : RewardReason
  pub timestamp : ℕ

pub record FeeReport : Type 0 where
  pub config : FeeConfig
  pub congestion_index : ℕ
  pub recommended_fee : ℕ
  pub total_fees_collected : ℕ
  pub total_distributed : ℕ
  pub operation_count_24h : ℕ
  pub premium_auctions_active : ℕ
  pub timestamp : ℕ

pub record FeeEstimate : Type 0 where
  pub operation : FeeOperation
  pub estimated_fee : ℕ
  pub min_fee : ℕ
  pub max_fee : ℕ
  pub congestion_level : String
  pub recommendation : String

pub data FeeError : Type 0 where
  unauthorized auction_not_found auction_ended auction_not_ended bid_too_low : FeeError
  already_settled invalid_config invalid_property invalid_fee_amount : FeeError

pub data Event : Type 0 where
  fee_config_updated : AccountId → Option FeeOperation → ℕ → ℕ → Event
  premium_auction_created : ℕ → ℕ → AccountId → ℕ → ℕ → ℕ → Event
  premium_auction_bid : ℕ → AccountId → ℕ → ℕ → Event
  premium_auction_settled : ℕ → ℕ → AccountId → ℕ → ℕ → Event
  rewards_distributed : AccountId → ℕ → RewardReason → ℕ → Event
  validator_added : AccountId → ℕ → Event
  validator_removed : AccountId → ℕ → Event
  distribution_rates_set : ℕ → ℕ → ℕ → Event

pub record FeeManager : Type 0 where
  pub admin : AccountId
  pub operation_config : Store FeeOperation FeeConfig
  pub default_config : FeeConfig
  pub recent_ops_count : ℕ
  pub last_congestion_reset : ℕ
  pub auctions : Store ℕ PremiumAuction
  pub auction_bids : Store (ℕ × AccountId) AuctionBid
  pub auction_count : ℕ
  pub fee_treasury : ℕ
  pub pending_rewards : Store AccountId ℕ
  pub reward_records : Store ℕ RewardRecord
  pub reward_record_count : ℕ
  pub total_fees_collected : ℕ
  pub total_distributed : ℕ
  pub validators : Store AccountId Bool
  pub validator_list : List AccountId
  pub validator_share_bp : ℕ
  pub treasury_share_bp : ℕ
  pub events : List Event

abbrev pub Msg : Type 0 → Type 0
Msg A = Message FeeManager FeeError A

abbrev pub emit_event : Event → Msg (Unit {0})
emit_event e = modify (λ s. record s { events = e ∷ s.events })

unfoldable pub ensure_admin : Env → Msg (Unit {0})
ensure_admin env = do admin ← gets (λ s. s.admin); fail_if (not (env.caller == admin)) unauthorized
