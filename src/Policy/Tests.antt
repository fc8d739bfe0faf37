-- ===== src/Policy/Tests.antt =====
-- A policy that is issued, renewed and cancelled.
use stellar_soroban_contract.Prelude.{
  leb, nat_eq, pos, lookup, insert, ℕ, ◌+◌, ◌*◌, ◌≡◌, refl, subst, ◌≢◌, false, some, List, [], ◌∷◌,
  arith,
}
use stellar_soroban_contract.Host.{Env, ok, succeeds}
use stellar_soroban_contract.InsuranceTypes.{active, renewed, cancelled, standard, InsurancePolicy}
use stellar_soroban_contract.Sample.{by}
use stellar_soroban_contract.Policy.{
  issued, renewal, cancellation, State, deployed, initialize, issue_policy, get_pol, is_active,
  renew_policy, cancel_policy, Op, initializes, issues, renews, cancels, step, run,
}
use stellar_soroban_contract.Policy.Invariant.{
  IsFiled, deployed-IsFiled, run-IsFiled, IsOver, over_for_good,
}
use stellar_soroban_contract.Policy.Terms.{issue_policy-get_pol}

abbrev history : List (Env × Op)
history =
    (by 1 0, initializes 1 9)
    ∷ (by 1 50, issues 2 (pos 1000) (pos 10) 30 standard)
    ∷ (by 2 60, renews 1 10)
    ∷ []

abbrev cancelled_history : List (Env × Op)
cancelled_history = (by 2 70, cancels 1) ∷ []

abbrev covered : InsurancePolicy
covered = record {
  policy_id = 1;
  holder = 2;
  coverage_amount = pos 1000;
  premium_amount = pos 10;
  start_time = 50;
  duration_days = 40;
  policy_type = standard;
  status = renewed;
  risk_pool = 9;
}

abbrev sold : State
sold = record {
  admin = some 1;
  risk_pool = some 9;
  policies = (1, covered) ∷ [];
  policy_counter = some 1;
  events = renewal 1 2 10 ∷ issued 1 2 (pos 1000) (pos 10) 30 ∷ [];
}

abbrev closed : State
closed = record sold {
  policies = (1, record covered { status = cancelled }) ∷ [];
  events = cancellation 1 2 (pos 1000) ∷ sold.events;
}

history-sold : run history deployed ≡ sold
unfolding run step initialize issue_policy renew_policy lookup insert
history-sold = refl

sold-closed : run cancelled_history sold ≡ closed
unfolding run step cancel_policy lookup insert
sold-closed = refl

sold-IsFiled : IsFiled sold
sold-IsFiled =
    subst IsFiled history-sold (run-IsFiled history deployed (omega arith) deployed-IsFiled)

closed-IsFiled : IsFiled closed
closed-IsFiled =
    subst IsFiled sold-closed (run-IsFiled cancelled_history sold (omega arith) sold-IsFiled)

closed-IsOver : IsOver 1 closed
unfolding lookup
closed-IsOver = (record covered { status = cancelled }, refl, refl)

over_for_good_example :
    let s = run ((by 2 80, renews 1 5) ∷ []) closed in
    (is_active (by 0 90) 1 s ≡ ok (false, s)) × (succeeds (renew_policy (by 0 90) 1 5 s) ≡ false)
over_for_good_example =
    over_for_good 1 5 ((by 2 80, renews 1 5) ∷ []) closed (by 0 90) (omega arith) closed-IsFiled
      closed-IsOver

abbrev second : InsurancePolicy
second = record {
  policy_id = 2;
  holder = 3;
  coverage_amount = pos 500;
  premium_amount = pos 5;
  start_time = 70;
  duration_days = 7;
  policy_type = standard;
  status = active;
  risk_pool = 9;
}

issue_policy-get_pol_example :
    (t : State) × (issue_policy (by 1 70) 3 (pos 500) (pos 5) 7 standard sold ≡ ok (2, t))
    × (get_pol 2 t ≡ ok (second, t))
    × ((later : Env) → is_active later 2 t ≡ ok (leb later.timestamp (70 + 7 * 86400), t))
    × ((k : ℕ) → k ≢ 2 → lookup k t.policies ≡ lookup k sold.policies)
issue_policy-get_pol_example =
    issue_policy-get_pol (by 1 70) 3 (pos 500) (pos 5) 7 standard sold 1 9 (omega arith)
      (omega arith) refl refl refl
