-- ===== src/Fractional/Shares.antt =====
-- contracts/fractional/src/lib.rs: the balances of a token against its supply.
use stellar_soroban_contract.Prelude.{
  if◌then◌else◌, nat_beq_sound, nat_beq_self, ◌==◌, nat_eq, pair_eq, max_u128, sub_u128, Store,
  sum_of, lookup, insert, lookup-insert, sum_of-insert, part_of-le-sum_of, ℕ, ◌+◌, ◌-◌, ◌≤◌, ◌≡◌,
  refl, Bool, false, List, [], ◌∷◌, arith,
}
use stellar_soroban_contract.Ink.{AccountId, Env, unwrap_or, kept}
use stellar_soroban_contract.Fractional.{
  new, set_last_price, balance_of, total_supply_of, mint, burn, transfer, distribute_dividends,
  claim_dividends, set_kyc, set_authorized_minter, set_governance_contract, Op, mints, burns,
  transfers, step, run,
}
use stellar_soroban_contract.Fractional.Types.{Fractional}

-- What a balance counts towards the shares of a token.
abbrev pub held : ℕ → ℕ × AccountId → ℕ → ℕ
held t k v = if k.0 == t then v else 0

-- All shares of a token, over the accounts.
abbrev pub shares_of : ℕ → Fractional → ℕ
shares_of t s = sum_of (held t) s.balances

-- Every token's shares add up to its supply, which is a u128.
pub record IsBacked (s : Fractional) : Type 0 where
  pub backed : (t : ℕ) → shares_of t s ≡ total_supply_of t s
  pub bounded : (t : ℕ) → total_supply_of t s ≤ max_u128

sum_of-held :
    (t u : ℕ) (a : AccountId) (v : ℕ) (m : Store (ℕ × AccountId) ℕ)
    → sum_of (held t) (insert (u, a) v m) + (if u == t then unwrap_or 0 (lookup (u, a) m) else 0)
      ≡ sum_of (held t) m + (if u == t then v else 0)
sum_of-held t u a v m = ground (arith, sum_of-insert (held t) (u, a) v m)

balance_of-le : (t : ℕ) (a : AccountId) (s : Fractional) → balance_of t a s ≤ shares_of t s
unfolding balance_of
balance_of-le t a s = ground (arith, part_of-le-sum_of (held t) (t, a) s.balances, nat_beq_self t)

module _ (env : Env) (u : ℕ) (a : AccountId) (x : ℕ) (s : Fractional) where
  mint-IsBacked : IsBacked s → IsBacked (kept (mint env u a x) s)
  unfolding mint total_supply_of balance_of
  mint-IsBacked v = record {
    backed = λ t. ground (
      arith,
      v.backed t,
      nat_beq_sound u t,
      nat_beq_sound t u,
      nat_beq_self t,
      sum_of-held t u a (balance_of u a s + x) s.balances,
      lookup-insert t u (total_supply_of u s + x) s.total_supply,
    );
    bounded = λ t.
        ground (arith, v.bounded t, lookup-insert t u (total_supply_of u s + x) s.total_supply);
  }

  burn-IsBacked : IsBacked s → IsBacked (kept (burn env u a x) s)
  unfolding burn total_supply_of balance_of
  burn-IsBacked v = record {
    backed = λ t. ground (
      arith,
      v.backed t,
      v.backed u,
      v.bounded u,
      balance_of-le u a s,
      nat_beq_sound u t,
      nat_beq_sound t u,
      nat_beq_self t,
      sum_of-held t u a (balance_of u a s - x) s.balances,
      lookup-insert t u (sub_u128 (total_supply_of u s) x) s.total_supply,
    );
    bounded = λ t.
        ground
          (arith, v.bounded t, lookup-insert t u (sub_u128 (total_supply_of u s) x) s.total_supply);
  }

  transfer-IsBacked :
      (env.caller == a) ≡ false → IsBacked s → IsBacked (kept (transfer env u a x) s)
  unfolding transfer total_supply_of balance_of
  transfer-IsBacked other v =
      let paid = insert (u, env.caller) (balance_of u env.caller s - x) s.balances in
      record {
        backed = λ t. ground (
          arith,
          v.backed t,
          nat_beq_sound u t,
          nat_beq_sound a env.caller,
          nat_beq_self a,
          nat_beq_self u,
          sum_of-held t u env.caller (balance_of u env.caller s - x) s.balances,
          sum_of-held t u a (balance_of u a s + x) paid,
          lookup-insert (u, a) (u, env.caller) (balance_of u env.caller s - x) s.balances,
        );
        bounded = λ t. ground (arith, v.bounded t);
      }

-- A transfer to the caller itself.
abbrev pub is_to_self : Env → Op → Bool
is_to_self env (transfers _ to _) = env.caller == to
is_to_self env _ = false

abbrev pub NoneToSelf : List (Env × Op) → Type 0
NoneToSelf [] = Unit {0}
NoneToSelf ((env, op) ∷ ops) = (is_to_self env op ≡ false) × NoneToSelf ops

pub new-IsBacked : (env : Env) → IsBacked (new env)
unfolding new total_supply_of sum_of lookup
new-IsBacked env = record { backed = λ t. refl; bounded = λ t. omega arith }

pub step-IsBacked :
    (env : Env) (op : Op) (s : Fractional)
    → is_to_self env op ≡ false
    → IsBacked s
    → IsBacked (step env op s)
unfolding step set_last_price distribute_dividends claim_dividends set_kyc set_authorized_minter
    set_governance_contract total_supply_of
step-IsBacked env (mints t a x) s other v = mint-IsBacked env t a x s v
step-IsBacked env (burns t a x) s other v = burn-IsBacked env t a x s v
step-IsBacked env (transfers t a x) s other v = transfer-IsBacked env t a x s other v
step-IsBacked env _ s other v = record {
  backed = λ t. ground (arith, v.backed t);
  bounded = λ t. ground (arith, v.bounded t);
}

-- From a new contract, or any state whose books agree, after any messages of which none is a
-- transfer from an account to itself, the balances of every token add up to its total supply, and
-- the supply is a u128.
pub run-IsBacked :
    (ops : List (Env × Op)) (s : Fractional) → NoneToSelf ops → IsBacked s → IsBacked (run ops s)
unfolding run
run-IsBacked [] s none_to_self v = v
run-IsBacked ((env, op) ∷ ops) s (other, none_to_self) v =
    run-IsBacked ops (step env op s) none_to_self (step-IsBacked env op s other v)
