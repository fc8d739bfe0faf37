-- ===== src/Policy/Terms.antt =====
-- contracts/policy/src/lib.rs: what single calls do, branch by branch.
use stellar_soroban_contract.Prelude.{
  leb, nat_eq, beq_refl, beq_ne, ℤ, u32, lookup, insert, lookup-insert, ℕ, ◌+◌, ◌*◌, ◌≤◌, ◌<◌, ◌≡◌,
  refl, ◌≢◌, true, false, ◌&&◌, none, some, ◌∷◌, arith,
}
use stellar_soroban_contract.Host.{Address, Env, ok, kept, succeeds}
use stellar_soroban_contract.InsuranceTypes.{active, renewed, PolicyType, InsurancePolicy}
use stellar_soroban_contract.Policy.{
  issued, State, counter_of, issue_policy, get_pol, expiry, is_live, is_active, renew_policy,
  cancel_policy, expire_policy,
}
use stellar_soroban_contract.Policy.Invariant.{HasRoom}

-- The storage after a successful `issue_policy`.
abbrev issue_state : Address → ℤ → ℤ → ℕ → InsurancePolicy → State → State
issue_state h c m d p s = record s {
  policies = insert p.policy_id p s.policies;
  policy_counter = some p.policy_id;
  events = issued p.policy_id h c m d ∷ s.events;
}

-- On a contract that is initialized, with a number left and a term that fits a `u64`, and with the
-- admin's authority, `issue_policy` returns the next number; the policy that `get_pol` then reads
-- under it has the terms given and starts now as active, `is_active` holds of it up to `d` days
-- later, and no other policy has changed.
pub issue_policy-get_pol :
    (env : Env) (h : Address) (c m : ℤ) (d : ℕ) (y : PolicyType) (s : State) (a q : Address)
    → HasRoom 1 s
    → env.timestamp + d * 86400 < 0x1_0000_0000_0000_0000
    → s.admin ≡ some a
    → env.authorised a ≡ true
    → s.risk_pool ≡ some q
    → let n = counter_of s + 1 in
      let p : InsurancePolicy = record {
        policy_id = n;
        holder = h;
        coverage_amount = c;
        premium_amount = m;
        start_time = env.timestamp;
        duration_days = d;
        policy_type = y;
        status = active;
        risk_pool = q;
      } in
      (t : State) × (issue_policy env h c m d y s ≡ ok (n, t))
      × (get_pol n t ≡ ok (p, t))
      × ((later : Env)
          → is_active later n t ≡ ok (leb later.timestamp (env.timestamp + d * 86400), t))
      × ((k : ℕ) → k ≢ n → lookup k t.policies ≡ lookup k s.policies)
unfolding issue_policy get_pol is_active
issue_policy-get_pol env h c m d y s a q room short admin auth pool =
    let n = counter_of s + 1 in
    let p : InsurancePolicy = record {
      policy_id = n;
      holder = h;
      coverage_amount = c;
      premium_amount = m;
      start_time = env.timestamp;
      duration_days = d;
      policy_type = y;
      status = active;
      risk_pool = q;
    } in
    (
      issue_state h c m d p s,
      ground arith,
      rw (lookup-insert n n p s.policies, beq_refl n) refl,
      λ later. ground (arith, lookup-insert n n p s.policies),
      λ k other. rw (lookup-insert k n p s.policies, beq_ne k n other) refl,
    )

-- On a stored policy `renew_policy` succeeds exactly when the holder authorises it, the policy is
-- active or renewed, and its expiry is not past; `cancel_policy` asks for the first and the last
-- only, and `expire_policy` only that the expiry is reached. On a number with no policy all fail.
pub guards_decide :
    (env : Env) (k d : ℕ) (s : State)
    → ((p : InsurancePolicy)
        → lookup k s.policies ≡ some p
        → (succeeds (renew_policy env k d s)
            ≡ (env.authorised p.holder && (is_live p.status && leb env.timestamp (expiry p))))
          × (succeeds (cancel_policy env k s)
              ≡ (env.authorised p.holder && leb env.timestamp (expiry p)))
          × (succeeds (expire_policy env k s) ≡ leb (expiry p) env.timestamp))
      × (lookup k s.policies ≡ none
          → (succeeds (renew_policy env k d s) ≡ false)
            × (succeeds (cancel_policy env k s) ≡ false)
            × (succeeds (expire_policy env k s) ≡ false))
unfolding renew_policy cancel_policy expire_policy
guards_decide env k d s = (
  λ p e. (ground arith, ground arith, ground arith),
  λ e. (ground arith, ground arith, ground arith),
)

-- A renewal by the holder of a live policy up to its expiry, within the bounds of the machine
-- words, moves the expiry by exactly the days given, and leaves the holder and the coverage as they
-- were.
pub renew_extends :
    (env : Env) (k d : ℕ) (s : State) (p : InsurancePolicy)
    → lookup k s.policies ≡ some p
    → env.authorised p.holder ≡ true
    → is_live p.status ≡ true
    → env.timestamp ≤ expiry p
    → p.duration_days + d < 0x1_0000_0000
    → p.start_time + (p.duration_days + d) * 86400 < 0x1_0000_0000_0000_0000
    → (q : InsurancePolicy) × (lookup k (kept (renew_policy env k d) s).policies ≡ some q)
      × (expiry q ≡ expiry p + d * 86400)
      × (q.status ≡ renewed)
      × (q.holder ≡ p.holder)
      × (q.coverage_amount ≡ p.coverage_amount)
unfolding renew_policy
renew_extends env k d s p e auth live due small short =
    let q : InsurancePolicy = record p {
      duration_days = u32 (p.duration_days + d);
      status = renewed;
    } in
    (q, ground (arith, lookup-insert k k q s.policies), omega arith, refl, refl, refl)
