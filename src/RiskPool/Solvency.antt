-- ===== src/RiskPool/Solvency.antt =====
-- contracts/risk_pool/src/lib.rs: the available capital against the tokens that the pool holds.
use stellar_soroban_contract.Prelude.{
  Bool-cases, ◌==◌, nat_eq, beq→eq, ℤ, pos, ◌+ℤ◌, ◌-ℤ◌, ◌≤ℤ◌, int_laws, neg_part-nonneg, i128,
  i128_self, ◌≡◌, subst, ◌≢◌, inl, inr, false, some, List, [], ◌∷◌, arith,
}
use stellar_soroban_contract.Host.{Address, Env}
use stellar_soroban_contract.Token.{Token, IsSep41}
use stellar_soroban_contract.RiskPool.{or_zero, Op, Pool, step, run}
use stellar_soroban_contract.RiskPool.Effects.{
  PoolEffect, nothing, set_up, deposit, withdraw, pay, step-PoolEffect,
}

-- The transaction calls the pool at `me`, and the pool itself authorises nothing.
abbrev pub Calls : Address → Env → Type 0
Calls me env = (env.current_contract ≡ me) × (env.authorised me ≡ false)

abbrev pub AllCall : Address → List (Env × Op) → Type 0
AllCall me [] = Unit {0}
AllCall me ((env, op) ∷ ops) = Calls me env × AllCall me ops

module _ (tokens : Token) (laws : IsSep41 tokens) (me : Address) where
  -- The available capital is not negative, and the pool holds that many tokens.
  pub record IsSolvent (w : Pool tokens) : Type 0 where
    pub nonneg : pos 0 ≤ℤ or_zero w.own.available_capital
    pub covered : or_zero w.own.available_capital ≤ℤ tokens.balance me w.others

  -- A change of the available capital that stays within the balance does not wrap around.
  within_balance : (z : ℤ) (l : tokens.Ledger) → pos 0 ≤ℤ z → z ≤ℤ tokens.balance me l → i128 z ≡ z
  within_balance z l low high = i128_self z (
      omega (
        arith,
        laws.balance_fits me l,
        neg_part-nonneg z low,
        neg_part-nonneg (tokens.balance me l) (laws.balance_nonneg me l),
      ))

  pay-IsSolvent :
      (env : Env) (r : Address) (x : ℤ) (w v : Pool tokens)
      → IsSolvent w
      → x ≤ℤ or_zero w.own.available_capital
      → tokens.transfer env me r x w.others ≡ some v.others
      → v.own.available_capital ≡ some (i128 (or_zero w.own.available_capital -ℤ x))
      → IsSolvent v
  pay-IsSolvent env r x w v s low moved avail =
      let avail0 = or_zero w.own.available_capital in
      let x_nonneg : pos 0 ≤ℤ x = laws.amount_nonneg env me r x w.others v.others moved in
      let left : avail0 -ℤ x ≤ℤ tokens.balance me v.others = elim (Bool-cases (r == me)) [
        | inl same ↦ grind (int_laws, laws.self_keeps env me x w.others v.others, beq→eq r me same)
        | inr other ↦ grind (int_laws, laws.moves_out env me r x w.others v.others)
      ] in
      let kept_value : i128 (avail0 -ℤ x) ≡ avail0 -ℤ x =
        within_balance (avail0 -ℤ x) v.others (grind int_laws) left in
      record {
        nonneg = rw (avail, kept_value) (grind int_laws);
        covered = rw (avail, kept_value) left;
      }

  PoolEffect-IsSolvent :
      {env : Env} {w v : Pool tokens}
      → Calls me env
      → PoolEffect tokens env w v
      → IsSolvent w
      → IsSolvent v
  PoolEffect-IsSolvent c (nothing e) s = rw e s
  PoolEffect-IsSolvent {v = v} c (set_up _ _ _ avail _ _ f) s = record {
    nonneg = rw avail (omega arith);
    covered = rw avail (laws.balance_nonneg me v.others);
  }
  PoolEffect-IsSolvent {env} {w} {v} (here, alone)
        (deposit p x least auth _ _ _ moved _ _ avail _ _) s =
      let avail0 = or_zero w.own.available_capital in
      let to_me = subst (λ a. tokens.transfer env p a x w.others ≡ some v.others) here moved in
      let x_nonneg : pos 0 ≤ℤ x = laws.amount_nonneg env p me x w.others v.others to_me in
      let other : p ≢ me = λ e. absurd (ground (arith, e)) in
      let paid_in = laws.moves_in env p me x w.others v.others other to_me in
      let covered' : avail0 +ℤ x ≤ℤ tokens.balance me v.others =
        rw paid_in (omega (int_laws, s.covered)) in
      let kept_value : i128 (avail0 +ℤ x) ≡ avail0 +ℤ x =
        within_balance (avail0 +ℤ x) v.others (omega (int_laws, s.nonneg)) covered' in
      record {
        nonneg = rw (avail, kept_value) (omega (int_laws, s.nonneg));
        covered = rw (avail, kept_value) covered';
      }
  PoolEffect-IsSolvent {env} {w} {v} (here, alone) (withdraw p x _ _ _ low moved _ _ avail _ _) s =
      pay-IsSolvent env p x w v s low (rw (← here) moved) avail
  PoolEffect-IsSolvent {env} {w} {v} (here, alone) (pay a r x _ _ low moved _ _ avail _ _) s =
      pay-IsSolvent env r x w v s low (rw (← here) moved) avail

  -- From a solvent pool at `me`, for every SEP-41 token, and as long as the pool's own address
  -- authorises no call: after any transactions its available capital is not negative and not above
  -- the tokens that it holds.
  pub run-IsSolvent :
      (ops : List (Env × Op)) (w : Pool tokens)
      → AllCall me ops
      → IsSolvent w
      → IsSolvent (run tokens ops w)
  unfolding run
  run-IsSolvent [] w c s = s
  run-IsSolvent ((env, op) ∷ ops) w (c, cs) s =
      run-IsSolvent ops (step tokens env op w) cs
        (PoolEffect-IsSolvent c (step-PoolEffect tokens env op w) s)
