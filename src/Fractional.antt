-- ===== src/Fractional.antt =====
-- contracts/fractional/src/lib.rs: shares of a property, their prices and their dividends.
pub mod Types
pub mod Shares
pub mod Dividends
pub mod Portfolio
mod Tests
use stellar_soroban_contract.Prelude.{
  ltb, if◌then◌else◌, ◌==◌, nat_eq, pair_eq, length, push_back, u64, sat_u128, sub_u128,
  checked_u128, lookup, insert, ℕ, ◌+◌, ◌-◌, ◌*◌, ◌/◌, Bool, false, not, ◌&&◌, ◌||◌, Option, none,
  some, List, [], ◌∷◌,
}
use stellar_soroban_contract.Ink.{
  AccountId, Env, ok, ◌>>=◌, ◌>>◌, gets, modify, fail_if, ok_or, unwrap_or, kept,
}
use stellar_soroban_contract.Fractional.Types.{
  PortfolioItem, PortfolioAggregation, TaxReport, insufficient_balance, unauthorized, kyc_required,
  invalid_amount, overflow, transferred, minted, burned, price_updated, kyc_updated,
  authorized_minter_set, governance_contract_set, Fractional, Msg, emit_event,
}

unfoldable pub new : Env → Fractional
new env = record {
  last_prices = [];
  balances = [];
  total_supply = [];
  authorized_minters = [];
  kyc_passed = [];
  dividend_per_share = [];
  last_claimed_dividend_per_share = [];
  governance_contract = none;
  admin = env.caller;
  events = [];
}

unfoldable pub set_last_price : ℕ → ℕ → Msg (Unit {0})
unfolding emit_event
set_last_price token_id price_per_share = do
  modify (λ s. record s { last_prices = insert token_id price_per_share s.last_prices })
  emit_event (price_updated token_id price_per_share)

unfoldable pub get_last_price : ℕ → Fractional → Option ℕ
get_last_price token_id s = lookup token_id s.last_prices

-- The price of an item: its own, or the last one that was stored.
abbrev pub price_of : Fractional → PortfolioItem → ℕ
price_of s item =
    if ltb 0 item.price_per_share
    then item.price_per_share
    else unwrap_or 0 (lookup item.token_id s.last_prices)

-- `for it in items.iter()`
unfoldable pub aggregate_loop :
    Fractional → List PortfolioItem → ℕ → List (ℕ × ℕ × ℕ) → PortfolioAggregation
aggregate_loop s [] sum positions = record { total_value = sum; positions = positions }
aggregate_loop s (item ∷ items) sum positions =
    let price = price_of s item in
    aggregate_loop s items (sat_u128 (sum + sat_u128 (price * item.shares)))
      (push_back positions (item.token_id, item.shares, price))

unfoldable pub aggregate_portfolio : List PortfolioItem → Fractional → PortfolioAggregation
unfolding aggregate_loop
aggregate_portfolio items s = aggregate_loop s items 0 []

-- `for d in dividends.iter() { total = total.saturating_add(d.1) }`
unfoldable pub add_up : List (ℕ × ℕ) → ℕ → ℕ
add_up [] sum = sum
add_up ((_, amount) ∷ rest) sum = add_up rest (sat_u128 (sum + amount))

unfoldable pub summarize_tax : List (ℕ × ℕ) → List (ℕ × ℕ) → TaxReport
unfolding add_up
summarize_tax dividends proceeds = record {
  total_dividends = add_up dividends 0;
  total_proceeds = add_up proceeds 0;
  transactions = u64 (length dividends + length proceeds);
}

unfoldable pub balance_of : ℕ → AccountId → Fractional → ℕ
balance_of token_id account s = unwrap_or 0 (lookup (token_id, account) s.balances)

unfoldable pub total_supply_of : ℕ → Fractional → ℕ
total_supply_of token_id s = unwrap_or 0 (lookup token_id s.total_supply)

set_balance : ℕ → AccountId → ℕ → Msg (Unit {0})
set_balance token_id account amount =
    modify (λ s. record s { balances = insert (token_id, account) amount s.balances })

set_supply : ℕ → ℕ → Msg (Unit {0})
set_supply token_id amount =
    modify (λ s. record s { total_supply = insert token_id amount s.total_supply })

-- The minter of a token has to be the caller.
unfoldable pub require_minter : Env → ℕ → Msg (Unit {0})
require_minter env token_id = do
  stored ← gets (λ s. lookup token_id s.authorized_minters)
  minter ← ok_or stored unauthorized
  fail_if (not (env.caller == minter)) unauthorized

unfoldable pub mint : Env → ℕ → AccountId → ℕ → Msg (Unit {0})
unfolding require_minter balance_of total_supply_of set_balance set_supply emit_event
mint env token_id to amount = do
  require_minter env token_id
  fail_if (amount == 0) invalid_amount
  current_balance ← gets (balance_of token_id to)
  new_balance ← ok_or (checked_u128 (current_balance + amount)) overflow
  set_balance token_id to new_balance
  current_supply ← gets (total_supply_of token_id)
  new_supply ← ok_or (checked_u128 (current_supply + amount)) overflow
  set_supply token_id new_supply
  emit_event (minted token_id to amount)

unfoldable pub burn : Env → ℕ → AccountId → ℕ → Msg (Unit {0})
unfolding balance_of total_supply_of set_balance set_supply emit_event
burn env token_id from amount = do
  admin ← gets (λ s. s.admin)
  fail_if (not (env.caller == from) && not (env.caller == admin)) unauthorized
  fail_if (amount == 0) invalid_amount
  current_balance ← gets (balance_of token_id from)
  fail_if (ltb current_balance amount) insufficient_balance
  set_balance token_id from (current_balance - amount)
  current_supply ← gets (total_supply_of token_id)
  set_supply token_id (sub_u128 current_supply amount)
  emit_event (burned token_id from amount)

unfoldable pub transfer : Env → ℕ → AccountId → ℕ → Msg (Unit {0})
unfolding balance_of set_balance emit_event
transfer env token_id to amount = do
  let from = env.caller
  from_kyc ← gets (λ s. unwrap_or false (lookup from s.kyc_passed))
  to_kyc ← gets (λ s. unwrap_or false (lookup to s.kyc_passed))
  fail_if (not from_kyc || not to_kyc) kyc_required
  fail_if (amount == 0) invalid_amount
  from_balance ← gets (balance_of token_id from)
  fail_if (ltb from_balance amount) insufficient_balance
  to_balance ← gets (balance_of token_id to)
  new_to_balance ← ok_or (checked_u128 (to_balance + amount)) overflow
  set_balance token_id from (from_balance - amount)
  set_balance token_id to new_to_balance
  emit_event (transferred token_id from to amount)

-- The dividends of one share since the beginning, and up to the account's last claim.
abbrev pub per_share_of : ℕ → Fractional → ℕ
per_share_of token_id s = unwrap_or 0 (lookup token_id s.dividend_per_share)

abbrev pub last_claimed_of : ℕ → AccountId → Fractional → ℕ
last_claimed_of token_id account s =
    unwrap_or 0 (lookup (token_id, account) s.last_claimed_dividend_per_share)

unfoldable pub distribute_dividends : Env → ℕ → ℕ → Msg (Unit {0})
unfolding require_minter total_supply_of
distribute_dividends env token_id total_dividend = do
  require_minter env token_id
  supply ← gets (total_supply_of token_id)
  fail_if (supply == 0) invalid_amount
  current ← gets (per_share_of token_id)
  new_dividend_per_share ← ok_or (checked_u128 (current + total_dividend / supply)) overflow
  modify (λ s. record s {
    dividend_per_share = insert token_id new_dividend_per_share s.dividend_per_share;
  })

-- What an account can claim; the dividends of one share never fall, so `saturating_sub` is `-`.
unfoldable pub claimable : ℕ → AccountId → Fractional → ℕ
unfolding balance_of
claimable token_id account s =
    sat_u128 (
      (per_share_of token_id s - last_claimed_of token_id account s)
      * balance_of token_id account s)

unfoldable pub claim_dividends : Env → ℕ → Msg ℕ
unfolding balance_of claimable
claim_dividends env token_id s =
    let account = env.caller in
    if balance_of token_id account s == 0
    then ok (0, s)
    else ok (
      claimable token_id account s,
      record s {
        last_claimed_dividend_per_share =
            insert (token_id, account) (per_share_of token_id s) s.last_claimed_dividend_per_share;
      },
    )

unfoldable pub require_admin : Env → Msg (Unit {0})
require_admin env = do admin ← gets (λ s. s.admin); fail_if (not (env.caller == admin)) unauthorized

unfoldable pub set_kyc : Env → AccountId → Bool → Msg (Unit {0})
unfolding require_admin emit_event
set_kyc env account passed = do
  require_admin env
  modify (λ s. record s { kyc_passed = insert account passed s.kyc_passed })
  emit_event (kyc_updated account passed)

unfoldable pub set_authorized_minter : Env → ℕ → AccountId → Msg (Unit {0})
unfolding require_admin emit_event
set_authorized_minter env token_id minter = do
  require_admin env
  modify (λ s. record s { authorized_minters = insert token_id minter s.authorized_minters })
  emit_event (authorized_minter_set token_id minter)

unfoldable pub set_governance_contract : Env → AccountId → Msg (Unit {0})
unfolding require_admin emit_event
set_governance_contract env gov_contract = do
  require_admin env
  modify (λ s. record s { governance_contract = some gov_contract })
  emit_event (governance_contract_set gov_contract)

-- One call of a message that writes.
pub data Op : Type 0 where
  sets_price : ℕ → ℕ → Op
  mints : ℕ → AccountId → ℕ → Op
  burns : ℕ → AccountId → ℕ → Op
  transfers : ℕ → AccountId → ℕ → Op
  distributes : ℕ → ℕ → Op
  claims : ℕ → Op
  sets_kyc : AccountId → Bool → Op
  sets_minter : ℕ → AccountId → Op
  sets_governance : AccountId → Op

unfoldable pub step : Env → Op → Fractional → Fractional
step env (sets_price t p) s = kept (set_last_price t p) s
step env (mints t a x) s = kept (mint env t a x) s
step env (burns t a x) s = kept (burn env t a x) s
step env (transfers t a x) s = kept (transfer env t a x) s
step env (distributes t x) s = kept (distribute_dividends env t x) s
step env (claims t) s = kept (claim_dividends env t) s
step env (sets_kyc a b) s = kept (set_kyc env a b) s
step env (sets_minter t a) s = kept (set_authorized_minter env t a) s
step env (sets_governance a) s = kept (set_governance_contract env a) s

unfoldable pub run : List (Env × Op) → Fractional → Fractional
run [] s = s
run ((env, op) ∷ ops) s = run ops (step env op s)
