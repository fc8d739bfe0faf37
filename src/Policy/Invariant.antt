-- ===== src/Policy/Invariant.antt =====
-- contracts/policy/src/lib.rs: what holds of the stored policies after any transactions.
use stellar_soroban_contract.Prelude.{
  Bool-cases, ◌==◌, nat_eq, length, lookup, lookup-insert, ℕ, ◌+◌, ◌≤◌, ◌<◌, ◌≡◌, refl, inl, inr,
  false, none, some, List, [], ◌∷◌, arith,
}
use stellar_soroban_contract.Host.{Env, ok, succeeds}
use stellar_soroban_contract.InsuranceTypes.{InsurancePolicy}
use stellar_soroban_contract.Policy.{
  State, deployed, counter_of, is_live, is_active, renew_policy, Op, step, run,
}
use stellar_soroban_contract.Policy.Lifecycle.{
  Edge, renew, cancel, expire, PolicyEffect, nothing, set_up, issue, update, step-PolicyEffect,
}

-- Every policy is filed under its own number, which is one that the counter has given out, and
-- nothing is stored before `initialize`.
pub record IsFiled (s : State) : Type 0 where
  pub own_id : (k : ℕ) (p : InsurancePolicy) → lookup k s.policies ≡ some p → p.policy_id ≡ k
  pub given_out : (k : ℕ) (p : InsurancePolicy) → lookup k s.policies ≡ some p → k ≤ counter_of s
  pub empty_before : s.admin ≡ none → (k : ℕ) → lookup k s.policies ≡ none

pub deployed-IsFiled : IsFiled deployed
unfolding lookup
deployed-IsFiled = record {
  own_id = λ k p h. cc;
  given_out = λ k p h. cc;
  empty_before = λ h k. refl;
}

pub Edge-policy_id : {env : Env} {p q : InsurancePolicy} → Edge env p q → q.policy_id ≡ p.policy_id
Edge-policy_id (renew d a l x) = refl
Edge-policy_id (cancel a x) = refl
Edge-policy_id (expire x) = refl

-- The counter has numbers left for `n` more policies.
abbrev pub HasRoom : ℕ → State → Type 0
HasRoom n s = counter_of s + n < 0x1_0000_0000_0000_0000

PolicyEffect-IsFiled :
    {env : Env} {s t : State}
    → HasRoom 1 s
    → IsFiled s
    → PolicyEffect env s t
    → IsFiled t × (counter_of t ≤ counter_of s + 1)
PolicyEffect-IsFiled {s = s} {t = t} room v (nothing e) = rw e (v, omega arith)
PolicyEffect-IsFiled {s = s} {t = t} room v (set_up fresh same zeroed taken) = (
  record {
    own_id = λ k p e. ground (arith, v.empty_before fresh k);
    given_out = λ k p e. ground (arith, v.empty_before fresh k);
    empty_before = λ e k. ground (arith, v.empty_before fresh k);
  },
  ground arith,
)
PolicyEffect-IsFiled {s = s} {t = t} room v
      (issue a p admin auth id live started filed counted kept_admin) =
    (
      record {
        own_id = λ k q e. ground (arith, lookup-insert k p.policy_id p s.policies, v.own_id k q);
        given_out =
            λ k q e. ground (arith, lookup-insert k p.policy_id p s.policies, v.given_out k q);
        empty_before = λ e k. absurd (ground arith);
      },
      ground arith,
    )
PolicyEffect-IsFiled {s = s} {t = t} room v (update i p q found edge filed counted kept_admin) = (
  record {
    own_id = λ k r e. ground (
      arith,
      lookup-insert k i q s.policies,
      v.own_id k r,
      v.own_id i p found,
      Edge-policy_id edge,
    );
    given_out = λ k r e.
        ground (arith, lookup-insert k i q s.policies, v.given_out k r, v.given_out i p found);
    empty_before = λ e k. absurd (ground (arith, v.empty_before (ground arith) i));
  },
  ground arith,
)

pub step-IsFiled :
    (env : Env) (op : Op) (s : State)
    → HasRoom 1 s
    → IsFiled s
    → IsFiled (step env op s) × (counter_of (step env op s) ≤ counter_of s + 1)
step-IsFiled env op s room v = PolicyEffect-IsFiled room v (step-PolicyEffect env op s)

-- From filed policies, as at deployment, after any transactions, fewer than the numbers that the
-- counter has left, every stored policy carries the number under which it is filed, and that number
-- is not above the counter.
pub run-IsFiled :
    (ops : List (Env × Op)) (s : State) → HasRoom (length ops) s → IsFiled s → IsFiled (run ops s)
unfolding run
run-IsFiled [] s room v = v
run-IsFiled ((env, op) ∷ ops) s room v =
    let (v', counted) = step-IsFiled env op s (omega arith) v in
    run-IsFiled ops (step env op s) (omega arith) v'

-- The policy was cancelled, or it expired.
abbrev pub IsOver : ℕ → State → Type 0
IsOver k s = (p : InsurancePolicy) × (lookup k s.policies ≡ some p) × (is_live p.status ≡ false)

Edge-over :
    {env : Env} {p q : InsurancePolicy}
    → Edge env p q
    → is_live p.status ≡ false
    → is_live q.status ≡ false
Edge-over (renew d a l x) h = absurd (cc)
Edge-over (cancel a x) h = refl
Edge-over (expire x) h = refl

PolicyEffect-IsOver :
    {env : Env} (k : ℕ) {s t : State}
    → HasRoom 1 s
    → IsFiled s
    → PolicyEffect env s t
    → IsOver k s
    → IsOver k t
PolicyEffect-IsOver k room v (nothing e) o = rw e o
PolicyEffect-IsOver k room v (set_up fresh same zeroed taken) (p, e, h) = (p, rw same e, h)
PolicyEffect-IsOver k {s} room v (issue a q admin auth id live started filed counted kept_admin)
      (p, e, h) =
    (p, rw (filed, lookup-insert k q.policy_id q s.policies) (ground (arith, v.given_out k p e)), h)
PolicyEffect-IsOver k {s} room v (update i p' q found edge filed counted kept_admin) (p, e, h) =
    elim (Bool-cases (k == i)) [
      | inl same ↦
          (q, rw (filed, lookup-insert k i q s.policies, same) refl, Edge-over edge (ground arith))
      | inr other ↦ (p, rw (filed, lookup-insert k i q s.policies, other) e, h)
    ]

-- A policy that was cancelled or has expired stays so whatever transactions follow.
pub run-IsOver :
    (k : ℕ) (ops : List (Env × Op)) (s : State)
    → HasRoom (length ops) s
    → IsFiled s
    → IsOver k s
    → IsOver k (run ops s)
unfolding run
run-IsOver k [] s room v o = o
run-IsOver k ((env, op) ∷ ops) s room v o =
    let (v', counted) = step-IsFiled env op s (omega arith) v in
    run-IsOver k ops (step env op s) (omega arith) v'
      (PolicyEffect-IsOver k (omega arith) v (step-PolicyEffect env op s) o)

-- From filed policies, with a counter that has numbers left for all the transactions: for a policy
-- that was cancelled or has expired `is_active` answers false after them, at any time, and
-- `renew_policy` fails.
pub over_for_good :
    (k d : ℕ) (ops : List (Env × Op)) (s : State) (env : Env)
    → HasRoom (length ops) s
    → IsFiled s
    → IsOver k s
    → (is_active env k (run ops s) ≡ ok (false, run ops s))
      × (succeeds (renew_policy env k d (run ops s)) ≡ false)
unfolding is_active renew_policy
over_for_good k d ops s env room v o =
    let (p, e, h) = run-IsOver k ops s room v o in (ground arith, ground arith)
