-- ===== src/Fractional/Types.antt =====
-- contracts/fractional/src/lib.rs: the data of the contract.
use stellar_soroban_contract.Prelude.{nat_eq, pair_eq, Store, ℕ, Bool, Option, List, ◌∷◌}
use stellar_soroban_contract.Ink.{AccountId, Message, modify}

pub record PortfolioItem : Type 0 where
  pub token_id : ℕ
  pub shares : ℕ
  pub price_per_share : ℕ

pub record PortfolioAggregation : Type 0 where
  pub total_value : ℕ
  pub positions : List (ℕ × ℕ × ℕ)

pub record TaxReport : Type 0 where
  pub total_dividends : ℕ
  pub total_proceeds : ℕ
  pub transactions : ℕ

pub data Error : Type 0 where
  insufficient_balance unauthorized kyc_required invalid_amount token_not_found overflow : Error

pub data Event : Type 0 where
  transferred : ℕ → AccountId → AccountId → ℕ → Event
  minted : ℕ → AccountId → ℕ → Event
  burned : ℕ → AccountId → ℕ → Event
  price_updated : ℕ → ℕ → Event
  kyc_updated : AccountId → Bool → Event
  authorized_minter_set : ℕ → AccountId → Event
  governance_contract_set : AccountId → Event

pub record Fractional : Type 0 where
  pub last_prices : Store ℕ ℕ
  pub balances : Store (ℕ × AccountId) ℕ
  pub total_supply : Store ℕ ℕ
  pub authorized_minters : Store ℕ AccountId
  pub kyc_passed : Store AccountId Bool
  pub dividend_per_share : Store ℕ ℕ
  pub last_claimed_dividend_per_share : Store (ℕ × AccountId) ℕ
  pub governance_contract : Option AccountId
  pub admin : AccountId
  pub events : List Event

abbrev pub Msg : Type 0 → Type 0
Msg A = Message Fractional Error A

abbrev pub emit_event : Event → Msg (Unit {0})
emit_event e = modify (λ s. record s { events = e ∷ s.events })
