-- ===== src/RiskPool/Accounting.antt =====
-- contracts/risk_pool/src/lib.rs: the pool's books.
use stellar_soroban_contract.Prelude.{
  nat_eq, ℤ, pos, ◌+ℤ◌, ◌-ℤ◌, int_laws, i128, i128_add, total, insert, total-insert, ◌≡◌, refl, sym,
  ap, ◌≡⟨◌⟩◌, ◌∎, true, none, some, List, [], ◌∷◌, arith,
}
use stellar_soroban_contract.Host.{Address, Env, is_some}
use stellar_soroban_contract.RiskPool.{State, deployed, or_zero, Op, Pool, step, run}
use stellar_soroban_contract.RiskPool.Effects.{
  stake_of, SameConfig, PoolEffect, nothing, set_up, deposit, withdraw, pay, step-PoolEffect,
}
use stellar_soroban_contract.Token.{Token}

abbrev pub stake_sum : State → ℤ
stake_sum s = total (λ (p : Address) (z : ℤ). z) s.provider_stake

-- The books, in the arithmetic of `i128`: the stakes add up to the total capital, and so do what
-- is available and what was paid. Nothing is booked before `initialize`.
pub record IsBalanced (s : State) : Type 0 where
  pub stakes : i128 (stake_sum s) ≡ or_zero s.total_capital
  pub uses : i128 (or_zero s.available_capital +ℤ or_zero s.claims_paid) ≡ or_zero s.total_capital
  pub unset : s.admin ≡ none → (s.token ≡ none) × (s.min_stake ≡ none) × (s.provider_stake ≡ [])

pub deployed-IsBalanced : IsBalanced deployed
unfolding total i128 ◌+ℤ◌
deployed-IsBalanced = record { stakes = refl; uses = refl; unset = λ h. (refl, refl, refl) }

-- A stake that changes by `d` changes the sum by `d`.
sum_moves :
    (sum sum' old cap d : ℤ)
    → sum' +ℤ old ≡ sum +ℤ i128 (old +ℤ d)
    → i128 sum ≡ cap
    → i128 sum' ≡ i128 (cap +ℤ d)
sum_moves sum sum' old cap d moved held =
    i128 sum'
    ≡⟨ ap i128 (grind int_laws) ⟩ i128 (i128 (old +ℤ d) +ℤ (sum -ℤ old))
    ≡⟨ i128_add (old +ℤ d) (sum -ℤ old) ⟩ i128 (old +ℤ d +ℤ (sum -ℤ old))
    ≡⟨ ap i128 (omega int_laws) ⟩ i128 (sum +ℤ d)
    ≡⟨ sym (i128_add sum d) ⟩ i128 (i128 sum +ℤ d)
    ≡⟨ rw held refl ⟩ i128 (cap +ℤ d) ∎

-- What is available changes by `d`, and what was paid does not.
uses_move :
    (avail paid cap d : ℤ)
    → i128 (avail +ℤ paid) ≡ cap
    → i128 (i128 (avail +ℤ d) +ℤ paid) ≡ i128 (cap +ℤ d)
uses_move avail paid cap d held =
    i128 (i128 (avail +ℤ d) +ℤ paid)
    ≡⟨ i128_add (avail +ℤ d) paid ⟩ i128 (avail +ℤ d +ℤ paid)
    ≡⟨ ap i128 (omega int_laws) ⟩ i128 (avail +ℤ paid +ℤ d)
    ≡⟨ sym (i128_add (avail +ℤ paid) d) ⟩ i128 (i128 (avail +ℤ paid) +ℤ d)
    ≡⟨ rw held refl ⟩ i128 (cap +ℤ d) ∎

-- What is paid leaves the available part.
uses_pay :
    (avail paid cap x : ℤ)
    → i128 (avail +ℤ paid) ≡ cap
    → i128 (i128 (avail -ℤ x) +ℤ i128 (paid +ℤ x)) ≡ cap
uses_pay avail paid cap x held =
    i128 (i128 (avail -ℤ x) +ℤ i128 (paid +ℤ x))
    ≡⟨ i128_add (avail -ℤ x) (i128 (paid +ℤ x)) ⟩ i128 (avail -ℤ x +ℤ i128 (paid +ℤ x))
    ≡⟨ ap i128 (omega int_laws) ⟩ i128 (i128 (paid +ℤ x) +ℤ (avail -ℤ x))
    ≡⟨ i128_add (paid +ℤ x) (avail -ℤ x) ⟩ i128 (paid +ℤ x +ℤ (avail -ℤ x))
    ≡⟨ ap i128 (omega int_laws) ⟩ i128 (avail +ℤ paid)
    ≡⟨ held ⟩ cap ∎

sub-eq-add : (a x : ℤ) → a -ℤ x ≡ a +ℤ (pos 0 -ℤ x)
sub-eq-add a x = omega int_laws

-- One provider's stake and the two capitals move by `d`.
move-IsBalanced :
    (p : Address) (d : ℤ) (s t : State)
    → IsBalanced s
    → is_some s.token ≡ true
    → t.provider_stake ≡ insert p (i128 (stake_of p s +ℤ d)) s.provider_stake
    → t.total_capital ≡ some (i128 (or_zero s.total_capital +ℤ d))
    → t.available_capital ≡ some (i128 (or_zero s.available_capital +ℤ d))
    → t.claims_paid ≡ s.claims_paid
    → SameConfig s t
    → IsBalanced t
move-IsBalanced p d s t b set st cap avail paid (a, k, m) = record {
  stakes =
      rw (st, cap)
        (sum_moves (stake_sum s) _ (stake_of p s) _ d
          (total-insert (λ (a : Address) (z : ℤ). z) p (i128 (stake_of p s +ℤ d)) s.provider_stake)
          b.stakes);
  uses =
      rw (avail, paid, cap)
        (uses_move (or_zero s.available_capital) (or_zero s.claims_paid) _ d b.uses);
  unset = λ e. absurd (ground (arith, (b.unset (ground arith)).0));
}

module _ (tokens : Token) where
  PoolEffect-IsBalanced :
      {env : Env} {w v : Pool tokens}
      → PoolEffect tokens env w v
      → IsBalanced w.own
      → IsBalanced v.own
  PoolEffect-IsBalanced (nothing e) b = rw e b
  PoolEffect-IsBalanced {w = w} {v = v} (set_up fresh set cap avail paid st _) b = record {
    stakes = unfold total i128 in rw (st, (b.unset fresh).2, cap) refl;
    uses = unfold i128 ◌+ℤ◌ in rw (avail, paid, cap) refl;
    unset = λ e. absurd (ground arith);
  }
  PoolEffect-IsBalanced {w = w} {v = v} (deposit p x least _ em set _ _ st cap avail paid same) b =
      move-IsBalanced p x w.own v.own b set st cap avail paid same
  PoolEffect-IsBalanced {w = w} {v = v} (withdraw p x _ set _ _ _ st cap avail paid same) b =
      move-IsBalanced p (pos 0 -ℤ x) w.own v.own b set (rw (← sub-eq-add (stake_of p w.own) x) st)
        (rw (← sub-eq-add (or_zero w.own.total_capital) x) cap)
        (rw (← sub-eq-add (or_zero w.own.available_capital) x) avail) paid same
  PoolEffect-IsBalanced {w = w} {v = v} (pay a r x ea _ _ _ st cap avail paid (sa, sk, sm)) b =
      record {
        stakes = rw (st, cap) b.stakes;
        uses =
            rw (avail, paid, cap)
              (uses_pay (or_zero w.own.available_capital) (or_zero w.own.claims_paid) _ x b.uses);
        unset = λ e. absurd (ground arith);
      }

  -- From balanced books, as at deployment, after any transactions and with any token, the
  -- providers' stakes add up to the total capital, and so does what is available with what was paid
  -- out, in `i128` arithmetic.
  pub run-IsBalanced :
      (ops : List (Env × Op)) (w : Pool tokens)
      → IsBalanced w.own
      → IsBalanced (run tokens ops w).own
  unfolding run
  run-IsBalanced [] w b = b
  run-IsBalanced ((env, op) ∷ ops) w b =
      run-IsBalanced ops (step tokens env op w)
        (PoolEffect-IsBalanced (step-PoolEffect tokens env op w) b)
