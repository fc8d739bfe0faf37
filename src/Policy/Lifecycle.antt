-- ===== src/Policy/Lifecycle.antt =====
-- contracts/policy/src/lib.rs: the life of one policy, as a step relation.
use stellar_soroban_contract.Prelude.{
  Option-cases, nat_eq, ℤ, u32, u64, lookup, insert, ℕ, ◌+◌, ◌≤◌, ◌≡◌, refl, inl, inr, true, none,
  some, arith,
}
use stellar_soroban_contract.Host.{Address, Env, ok, Call, kept, is_some, kept_cases}
use stellar_soroban_contract.InsuranceTypes.{
  active, renewed, expired, cancelled, PolicyType, InsurancePolicy,
}
use stellar_soroban_contract.Policy.{
  State, counter_of, initialize, issue_policy, expiry, is_live, renew_policy, cancel_policy,
  expire_policy, Op, initializes, issues, renews, cancels, expires, step,
}

-- What one transaction may do to a stored policy.
pub data Edge (env : Env) (p : InsurancePolicy) : InsurancePolicy → Type 0 where
  renew :
      (days : ℕ)
      → env.authorised p.holder ≡ true
      → is_live p.status ≡ true
      → env.timestamp ≤ expiry p
      → Edge env p (record p { duration_days = u32 (p.duration_days + days); status = renewed })
  cancel :
      env.authorised p.holder ≡ true
      → env.timestamp ≤ expiry p
      → Edge env p (record p { status = cancelled })
  expire : expiry p ≤ env.timestamp → Edge env p (record p { status = expired })

-- What one transaction may do to the storage.
pub data PolicyEffect (env : Env) (s t : State) : Type 0 where
  nothing : t ≡ s → PolicyEffect env s t
  set_up :
      s.admin ≡ none
      → t.policies ≡ s.policies
      → t.policy_counter ≡ some 0
      → is_some t.admin ≡ true
      → PolicyEffect env s t
  issue :
      (a : Address) (p : InsurancePolicy)
      → s.admin ≡ some a
      → env.authorised a ≡ true
      → p.policy_id ≡ u64 (counter_of s + 1)
      → p.status ≡ active
      → p.start_time ≡ env.timestamp
      → t.policies ≡ insert p.policy_id p s.policies
      → t.policy_counter ≡ some p.policy_id
      → t.admin ≡ s.admin
      → PolicyEffect env s t
  update :
      (k : ℕ) (p q : InsurancePolicy)
      → lookup k s.policies ≡ some p
      → Edge env p q
      → t.policies ≡ insert k q s.policies
      → t.policy_counter ≡ s.policy_counter
      → t.admin ≡ s.admin
      → PolicyEffect env s t

renew-PolicyEffect :
    (env : Env) (k d : ℕ) (s t : State) {a : Unit {0}}
    → renew_policy env k d s ≡ ok (a, t)
    → PolicyEffect env s t
unfolding renew_policy
renew-PolicyEffect env k d s t h = elim (Option-cases (lookup k s.policies)) [
  | inl e ↦ absurd (ground arith)
  | inr (p, e) ↦
      update k p (record p { duration_days = u32 (p.duration_days + d); status = renewed }) e
        (renew d (ground arith) (ground arith) (ground arith)) (ground arith) (ground arith)
        (ground arith)
]

cancel-PolicyEffect :
    (env : Env) (k : ℕ) (s t : State) {a : Unit {0}}
    → cancel_policy env k s ≡ ok (a, t)
    → PolicyEffect env s t
unfolding cancel_policy
cancel-PolicyEffect env k s t h = elim (Option-cases (lookup k s.policies)) [
  | inl e ↦ absurd (ground arith)
  | inr (p, e) ↦
      update k p (record p { status = cancelled }) e (cancel (ground arith) (ground arith))
        (ground arith) (ground arith) (ground arith)
]

expire-PolicyEffect :
    (env : Env) (k : ℕ) (s t : State) {a : Unit {0}}
    → expire_policy env k s ≡ ok (a, t)
    → PolicyEffect env s t
unfolding expire_policy
expire-PolicyEffect env k s t h = elim (Option-cases (lookup k s.policies)) [
  | inl e ↦ absurd (ground arith)
  | inr (p, e) ↦
      update k p (record p { status = expired }) e (expire (ground arith)) (ground arith)
        (ground arith) (ground arith)
]

issue-PolicyEffect :
    (env : Env) (h : Address) (c m : ℤ) (d : ℕ) (y : PolicyType) (s t : State) {n : ℕ}
    → issue_policy env h c m d y s ≡ ok (n, t)
    → PolicyEffect env s t
unfolding issue_policy
issue-PolicyEffect env h c m d y s t e = elim (Option-cases s.admin) [
  | inl no_admin ↦ absurd (ground arith)
  | inr (a, admin) ↦ elim (Option-cases s.risk_pool) [
    | inl no_pool ↦ absurd (ground arith)
    | inr (q, pool) ↦
        issue a
          (record {
            policy_id = u64 (counter_of s + 1);
            holder = h;
            coverage_amount = c;
            premium_amount = m;
            start_time = env.timestamp;
            duration_days = d;
            policy_type = y;
            status = active;
            risk_pool = q;
          })
          admin (ground arith) refl refl refl (ground arith) (ground arith) (ground arith)
  ]
]

initialize-PolicyEffect :
    (env : Env) (a q : Address) (s t : State) {n : Unit {0}}
    → initialize a q s ≡ ok (n, t)
    → PolicyEffect env s t
unfolding initialize
initialize-PolicyEffect env a q s t h =
    set_up (ground arith) (ground arith) (ground arith) (ground arith)

abbrev kept-PolicyEffect :
    {A : Type 0} (env : Env) (m : Call State A) (s : State)
    → ((a : A) (t : State) → m s ≡ ok (a, t) → PolicyEffect env s t)
    → PolicyEffect env s (kept m s)
kept-PolicyEffect env m s h = elim (kept_cases m s) [
  | inl same ↦ nothing same
  | inr (a, t, e, k) ↦ rw k (h a t e)
]

-- Every transaction has one of four effects: it changes nothing, sets the contract up once, files
-- one new active policy under the next number by the admin's authority, or moves one stored policy
-- along an edge of its life: a renewal by the holder of a live policy up to its expiry, a
-- cancellation by the holder up to the expiry, or an expiration from the expiry on.
pub step-PolicyEffect : (env : Env) (op : Op) (s : State) → PolicyEffect env s (step env op s)
unfolding step
step-PolicyEffect env (initializes a q) s =
    kept-PolicyEffect env (initialize a q) s (λ n t. initialize-PolicyEffect env a q s t)
step-PolicyEffect env (issues h c m d y) s =
    kept-PolicyEffect env (issue_policy env h c m d y) s
      (λ n t. issue-PolicyEffect env h c m d y s t)
step-PolicyEffect env (renews k d) s =
    kept-PolicyEffect env (renew_policy env k d) s (λ n t. renew-PolicyEffect env k d s t)
step-PolicyEffect env (cancels k) s =
    kept-PolicyEffect env (cancel_policy env k) s (λ n t. cancel-PolicyEffect env k s t)
step-PolicyEffect env (expires k) s =
    kept-PolicyEffect env (expire_policy env k) s (λ n t. expire-PolicyEffect env k s t)
