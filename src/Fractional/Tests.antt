-- ===== src/Fractional/Tests.antt =====
-- contracts/fractional/src/lib.rs: runs of the contract, and the theorems at concrete inputs.
use stellar_soroban_contract.Prelude.{
  if◌then◌else◌, ◌==◌, nat_eq, sat_u128, lookup, insert, ℕ, ◌+◌, ◌-◌, ◌≡◌, refl, true, ◌&&◌, none,
  List, [], ◌∷◌,
}
use stellar_soroban_contract.Ink.{AccountId, Env, kept, is_ok}
use stellar_soroban_contract.Fractional.{
  new, aggregate_portfolio, balance_of, mint, burn, transfer, set_kyc, set_authorized_minter, Op,
  mints, burns, transfers, sets_kyc, sets_minter, step, run,
}
use stellar_soroban_contract.Fractional.Types.{PortfolioItem, Fractional}
use stellar_soroban_contract.Fractional.Shares.{IsBacked, new-IsBacked, run-IsBacked}
use stellar_soroban_contract.Fractional.Portfolio.{
  exact_value, positions_of, aggregate_portfolio-exact,
}
use stellar_soroban_contract.Fractional.Dividends.{may_move, transfer_decides}

abbrev call : AccountId → Env
call a = record { caller = a; block_timestamp = 100; transferred_value = 0 }

abbrev opening : List (Env × Op)
opening =
    (call 1, sets_minter 7 2)
    ∷ (call 2, mints 7 3 100)
    ∷ (call 1, sets_kyc 3 true)
    ∷ (call 1, sets_kyc 4 true)
    ∷ (call 3, transfers 7 4 30)
    ∷ (call 3, burns 7 3 10)
    ∷ []

balances_after : (run opening (new (call 1))).balances ≡ ((7, 3), 60) ∷ ((7, 4), 30) ∷ []
unfolding run step new mint burn transfer set_kyc set_authorized_minter lookup insert
balances_after = refl

run-IsBacked_example : IsBacked (run opening (new (call 1)))
run-IsBacked_example =
    run-IsBacked opening (new (call 1)) (refl, (refl, (refl, (refl, (refl, (refl, tt))))))
      (new-IsBacked (call 1))

abbrev items : List PortfolioItem
items =
    (record { token_id = 7; shares = 3; price_per_share = 0 })
    ∷ (record { token_id = 8; shares = 2; price_per_share = 5 })
    ∷ []

abbrev priced : Fractional
priced = record {
  last_prices = (7, 11) ∷ [];
  balances = ((7, 3), 60) ∷ ((7, 4), 30) ∷ [];
  total_supply = (7, 90) ∷ [];
  authorized_minters = (7, 2) ∷ [];
  kyc_passed = (3, true) ∷ (4, true) ∷ [];
  dividend_per_share = (7, 5) ∷ [];
  last_claimed_dividend_per_share = [];
  governance_contract = none;
  admin = 1;
  events = [];
}

aggregate_portfolio-exact_example :
    ((aggregate_portfolio items priced).total_value ≡ sat_u128 (exact_value priced items))
    × ((aggregate_portfolio items priced).positions ≡ positions_of priced items)
aggregate_portfolio-exact_example = aggregate_portfolio-exact items priced

value_of_items : (aggregate_portfolio items priced).total_value ≡ 43
unfolding aggregate_portfolio lookup
value_of_items = refl

transfer_decides_example :
    (is_ok (transfer (call 3) 7 3 50 priced) ≡ may_move (call 3) 7 3 50 priced)
    × ((u : ℕ) (a : AccountId)
        → balance_of u a (kept (transfer (call 3) 7 3 50) priced) ≡ (
            if may_move (call 3) 7 3 50 priced && (u == 7)
            then (if a == 3
                then balance_of 7 3 priced + 50
                else (if a == 3 then balance_of 7 3 priced - 50 else balance_of u a priced))
            else balance_of u a priced))
    × ((kept (transfer (call 3) 7 3 50) priced).total_supply ≡ priced.total_supply)
transfer_decides_example = transfer_decides (call 3) 7 3 50 priced

-- A transfer of 50 of 60 shares to oneself leaves 110.
to_self : balance_of 7 3 (kept (transfer (call 3) 7 3 50) priced) ≡ 110
unfolding transfer balance_of lookup insert
to_self = refl
