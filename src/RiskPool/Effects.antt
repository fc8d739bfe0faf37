-- ===== src/RiskPool/Effects.antt =====
-- contracts/risk_pool/src/lib.rs: what one transaction may do to the pool and to the token.
use stellar_soroban_contract.Prelude.{
  Option-cases, nat_eq, ℤ, pos, ◌+ℤ◌, ◌-ℤ◌, ◌≤ℤ◌, i128, insert, lookup_or, ◌≡◌, inl, inr, true,
  none, some, arith,
}
use stellar_soroban_contract.Host.{Address, Env, ok, Call, kept, is_some, kept_cases}
use stellar_soroban_contract.Token.{Token}
use stellar_soroban_contract.RiskPool.{
  State, or_zero, Op, initializes, deposits, withdraws, pays, Pool, initialize, deposit_liquidity,
  withdraw_liquidity, payout_claim, step,
}

abbrev pub stake_of : Address → State → ℤ
stake_of p s = lookup_or (pos 0) p s.provider_stake

-- The addresses and the minimum that `initialize` stores are the same.
abbrev pub SameConfig : State → State → Type 0
SameConfig s t = (t.admin ≡ s.admin) × (t.token ≡ s.token) × (t.min_stake ≡ s.min_stake)

module _ (tokens : Token) where
  pub data PoolEffect (env : Env) (w v : Pool tokens) : Type 0 where
    nothing : v ≡ w → PoolEffect env w v
    set_up :
        w.own.admin ≡ none
        → is_some v.own.admin ≡ true
        → v.own.total_capital ≡ some (pos 0)
        → v.own.available_capital ≡ some (pos 0)
        → v.own.claims_paid ≡ some (pos 0)
        → v.own.provider_stake ≡ w.own.provider_stake
        → v.others ≡ w.others
        → PoolEffect env w v
    deposit :
        (p : Address) (x least : ℤ)
        → env.authorised p ≡ true
        → w.own.min_stake ≡ some least
        → is_some w.own.token ≡ true
        → least ≤ℤ x
        → tokens.transfer env p env.current_contract x w.others ≡ some v.others
        → v.own.provider_stake ≡ insert p (i128 (stake_of p w.own +ℤ x)) w.own.provider_stake
        → v.own.total_capital ≡ some (i128 (or_zero w.own.total_capital +ℤ x))
        → v.own.available_capital ≡ some (i128 (or_zero w.own.available_capital +ℤ x))
        → v.own.claims_paid ≡ w.own.claims_paid
        → SameConfig w.own v.own
        → PoolEffect env w v
    withdraw :
        (p : Address) (x : ℤ)
        → env.authorised p ≡ true
        → is_some w.own.token ≡ true
        → x ≤ℤ stake_of p w.own
        → x ≤ℤ or_zero w.own.available_capital
        → tokens.transfer env env.current_contract p x w.others ≡ some v.others
        → v.own.provider_stake ≡ insert p (i128 (stake_of p w.own -ℤ x)) w.own.provider_stake
        → v.own.total_capital ≡ some (i128 (or_zero w.own.total_capital -ℤ x))
        → v.own.available_capital ≡ some (i128 (or_zero w.own.available_capital -ℤ x))
        → v.own.claims_paid ≡ w.own.claims_paid
        → SameConfig w.own v.own
        → PoolEffect env w v
    pay :
        (a r : Address) (x : ℤ)
        → w.own.admin ≡ some a
        → env.authorised a ≡ true
        → x ≤ℤ or_zero w.own.available_capital
        → tokens.transfer env env.current_contract r x w.others ≡ some v.others
        → v.own.provider_stake ≡ w.own.provider_stake
        → v.own.total_capital ≡ w.own.total_capital
        → v.own.available_capital ≡ some (i128 (or_zero w.own.available_capital -ℤ x))
        → v.own.claims_paid ≡ some (i128 (or_zero w.own.claims_paid +ℤ x))
        → SameConfig w.own v.own
        → PoolEffect env w v

  initialize-PoolEffect :
      (env : Env) (a t : Address) (m : ℤ) (w v : Pool tokens) {u : Unit {0}}
      → initialize tokens a t m w ≡ ok (u, v)
      → PoolEffect env w v
  unfolding initialize
  initialize-PoolEffect env a t m w v h =
      set_up (ground arith) (ground arith) (ground arith) (ground arith) (ground arith)
        (ground arith) (ground arith)

  deposit-PoolEffect :
      (env : Env) (p : Address) (x : ℤ) (w v : Pool tokens) {u : Unit {0}}
      → deposit_liquidity tokens env p x w ≡ ok (u, v)
      → PoolEffect env w v
  unfolding deposit_liquidity
  deposit-PoolEffect env p x w v h = elim (Option-cases w.own.min_stake) [
    | inl e ↦ absurd (ground arith)
    | inr (m, em) ↦ elim (Option-cases w.own.token) [
      | inl e ↦ absurd (ground arith)
      | inr (t, et) ↦ elim (Option-cases (tokens.transfer env p env.current_contract x w.others)) [
        | inl e ↦ absurd (ground arith)
        | inr (l, el) ↦
            deposit p x m (ground arith) em (ground arith) (ground arith) (ground arith)
              (ground arith) (ground arith) (ground arith) (ground arith)
              (ground arith, ground arith, ground arith)
      ]
    ]
  ]

  withdraw-PoolEffect :
      (env : Env) (p : Address) (x : ℤ) (w v : Pool tokens) {u : Unit {0}}
      → withdraw_liquidity tokens env p x w ≡ ok (u, v)
      → PoolEffect env w v
  unfolding withdraw_liquidity
  withdraw-PoolEffect env p x w v h = elim (Option-cases w.own.token) [
    | inl e ↦ absurd (ground arith)
    | inr (t, et) ↦ elim (Option-cases (tokens.transfer env env.current_contract p x w.others)) [
      | inl e ↦ absurd (ground arith)
      | inr (l, el) ↦
          withdraw p x (ground arith) (ground arith) (ground arith) (ground arith) (ground arith)
            (ground arith) (ground arith) (ground arith) (ground arith)
            (ground arith, ground arith, ground arith)
    ]
  ]

  pay-PoolEffect :
      (env : Env) (r : Address) (x : ℤ) (w v : Pool tokens) {u : Unit {0}}
      → payout_claim tokens env r x w ≡ ok (u, v)
      → PoolEffect env w v
  unfolding payout_claim
  pay-PoolEffect env r x w v h = elim (Option-cases w.own.admin) [
    | inl e ↦ absurd (ground arith)
    | inr (a, ea) ↦ elim (Option-cases w.own.token) [
      | inl e ↦ absurd (ground arith)
      | inr (t, et) ↦ elim (Option-cases (tokens.transfer env env.current_contract r x w.others)) [
        | inl e ↦ absurd (ground arith)
        | inr (l, el) ↦
            pay a r x ea (ground arith) (ground arith) (ground arith) (ground arith) (ground arith)
              (ground arith) (ground arith) (ground arith, ground arith, ground arith)
      ]
    ]
  ]

  abbrev kept-PoolEffect :
      {A : Type 0} (env : Env) (m : Call (Pool tokens) A) (w : Pool tokens)
      → ((a : A) (v : Pool tokens) → m w ≡ ok (a, v) → PoolEffect env w v)
      → PoolEffect env w (kept m w)
  kept-PoolEffect env m w h = elim (kept_cases m w) [
    | inl same ↦ nothing same
    | inr (a, v, e, k) ↦ rw k (h a v e)
  ]

  -- Every transaction of the pool changes nothing, sets the pool up once, or is a deposit, a
  -- withdrawal or a payout that the right address authorised, that passed its limits, that moved
  -- the tokens, and that booked the same amount.
  pub step-PoolEffect :
      (env : Env) (op : Op) (w : Pool tokens) → PoolEffect env w (step tokens env op w)
  unfolding step
  step-PoolEffect env (initializes a t m) w =
      kept-PoolEffect env (initialize tokens a t m) w (λ u v. initialize-PoolEffect env a t m w v)
  step-PoolEffect env (deposits p x) w =
      kept-PoolEffect env (deposit_liquidity tokens env p x) w
        (λ u v. deposit-PoolEffect env p x w v)
  step-PoolEffect env (withdraws p x) w =
      kept-PoolEffect env (withdraw_liquidity tokens env p x) w
        (λ u v. withdraw-PoolEffect env p x w v)
  step-PoolEffect env (pays r x) w =
      kept-PoolEffect env (payout_claim tokens env r x) w (λ u v. pay-PoolEffect env r x w v)
