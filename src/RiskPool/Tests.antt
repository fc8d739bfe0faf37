-- ===== src/RiskPool/Tests.antt =====
-- A pool with a deposit, a payout and a withdrawal, over a token whose ledger keeps two balances.
use stellar_soroban_contract.Prelude.{
  leb, if◌then◌else◌, ◌==◌, nat_eq, beq_refl, beq→eq, pos, pos_part, ◌+ℤ◌, ◌-ℤ◌, ltb_ℤ, i128,
  lookup, insert, ℕ, ◌+◌, ◌-◌, ◌≡◌, refl, ◌&&◌, none, some, List, [], ◌∷◌, arith,
}
use stellar_soroban_contract.Host.{Env}
use stellar_soroban_contract.Sample.{by}
use stellar_soroban_contract.Token.{Token, IsSep41}
use stellar_soroban_contract.RiskPool.{
  deposit_made, withdrawal_made, payout_made, deployed, Op, initializes, deposits, withdraws, pays,
  Pool, initialize, deposit_liquidity, withdraw_liquidity, payout_claim, step, run,
}
use stellar_soroban_contract.RiskPool.Accounting.{IsBalanced, deployed-IsBalanced, run-IsBalanced}
use stellar_soroban_contract.RiskPool.Solvency.{AllCall, IsSolvent, run-IsSolvent}

-- Of a thousand tokens the pool at address 100 holds so many, and address 2 the rest.
abbrev pool_part : ℕ → ℕ
pool_part n = if leb n 1000 then n else 1000

abbrev coin : Token
coin = record {
  Ledger = ℕ;
  balance = λ a n.
      if a == 100 then pos (pool_part n) else if a == 2 then pos (1000 - pool_part n) else pos 0;
  transfer = λ env a b x n.
      if ltb_ℤ x (pos 0)
      then none
      else if a == b
      then some n
      else if (a == 2 && b == 100) && leb (pos_part x) (1000 - pool_part n)
      then some (pool_part n + pos_part x)
      else if (a == 100 && b == 2) && leb (pos_part x) (pool_part n)
      then some (pool_part n - pos_part x)
      else none;
}

coin-IsSep41 : IsSep41 coin
unfolding ◌+ℤ◌
coin-IsSep41 = record {
  amount_nonneg = λ env a b x l l' h. ground arith;
  moves_out = λ env a b x l l' other h. ground (arith, beq→eq a b);
  moves_in = λ env a b x l l' other h. ground (arith, beq→eq a b);
  self_keeps = λ env a x l l' h. ground (arith, beq_refl a);
  balance_fits = λ a l. ground arith;
  balance_nonneg = λ a l. ground arith;
}

abbrev start_pool : Pool coin
start_pool = record { own = deployed; others = 0 }

abbrev history : List (Env × Op)
history =
    (by 1 0, initializes 1 50 (pos 100))
    ∷ (by 2 10, deposits 2 (pos 600))
    ∷ (by 1 20, pays 2 (pos 150))
    ∷ (by 2 30, withdraws 2 (pos 500))
    ∷ (by 2 40, withdraws 2 (pos 200))
    ∷ []

abbrev after : Pool coin
after = record {
  own = record {
    admin = some 1;
    token = some 50;
    min_stake = some (pos 100);
    total_capital = some (pos 400);
    available_capital = some (pos 250);
    claims_paid = some (pos 150);
    provider_stake = (2, pos 400) ∷ [];
    events =
        withdrawal_made 2 (pos 200) (pos 400)
        ∷ payout_made 2 (pos 150) (pos 450)
        ∷ deposit_made 2 (pos 600) (pos 600)
        ∷ [];
  };
  others = 250;
}

-- The first withdrawal is refused: only 450 are available.
history-after : run coin history start_pool ≡ after
unfolding run step initialize deposit_liquidity withdraw_liquidity payout_claim insert i128 ◌+ℤ◌
    ◌-ℤ◌ lookup
history-after = refl

run-IsBalanced_example : IsBalanced (run coin history start_pool).own
run-IsBalanced_example = run-IsBalanced coin history start_pool deployed-IsBalanced

start-IsSolvent : IsSolvent coin coin-IsSep41 100 start_pool
start-IsSolvent = record { nonneg = omega arith; covered = omega arith }

history-AllCall : AllCall 100 history
history-AllCall = ((refl, refl), ((refl, refl), ((refl, refl), ((refl, refl), ((refl, refl), tt)))))

run-IsSolvent_example : IsSolvent coin coin-IsSep41 100 (run coin history start_pool)
run-IsSolvent_example =
    run-IsSolvent coin coin-IsSep41 100 history start_pool history-AllCall start-IsSolvent
