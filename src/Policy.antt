-- ===== src/Policy.antt =====
-- contracts/policy/src/lib.rs: issue, renewal, cancellation and expiry of policies.
pub mod Lifecycle
pub mod Invariant
pub mod Terms
mod Tests
use stellar_soroban_contract.Prelude.{
  ltb, leb, if◌then◌else◌, nat_eq, ℤ, u32, u64, Store, lookup, insert, ℕ, ◌+◌, ◌*◌, Bool, true,
  false, not, Option, none, some, List, [], ◌∷◌,
}
use stellar_soroban_contract.Host.{
  Address, Env, Call, ◌>>=◌, ◌>>◌, return, gets, modify, panic_if, expect, unwrap, require_auth,
  kept, is_some,
}
use stellar_soroban_contract.InsuranceTypes.{
  PolicyStatus, active, renewed, expired, cancelled, PolicyType, InsurancePolicy,
}

-- What the handlers publish.
pub data Event : Type 0 where
  issued : ℕ → Address → ℤ → ℤ → ℕ → Event
  renewal : ℕ → Address → ℕ → Event
  cancellation : ℕ → Address → ℤ → Event
  expiration : ℕ → Address → Event

-- The storage, a field for each `DataKey`, and the events published so far, the latest first.
pub record State : Type 0 where
  pub admin : Option Address
  pub risk_pool : Option Address
  pub policies : Store ℕ InsurancePolicy
  pub policy_counter : Option ℕ
  pub events : List Event

-- The storage of a contract that has just been deployed.
abbrev pub deployed : State
deployed = record {
  admin = none;
  risk_pool = none;
  policies = [];
  policy_counter = none;
  events = [];
}

get_admin : Call State Address
get_admin = do unwrap (← gets (λ s. s.admin))

abbrev pub counter_of : State → ℕ
counter_of s = elim s.policy_counter [ none ↦ 0 | some n ↦ n ]

get_policy_counter : Call State ℕ
get_policy_counter = gets counter_of

get_policy_inner : ℕ → Call State InsurancePolicy
get_policy_inner policy_id = do
  found ← gets (λ s. lookup policy_id s.policies)
  expect found "Policy not found"

set_policy : ℕ → InsurancePolicy → Call State (Unit {0})
set_policy policy_id policy =
    modify (λ s. record s { policies = insert policy_id policy s.policies })

publish : Event → Call State (Unit {0})
publish e = modify (λ s. record s { events = e ∷ s.events })

unfoldable pub initialize : Address → Address → Call State (Unit {0})
initialize admin pool = do
  old ← gets (λ s. s.admin)
  panic_if (is_some old) "Already initialized"
  modify (λ s. record s { admin = some admin; risk_pool = some pool; policy_counter = some 0 })

unfoldable pub issue_policy : Env → Address → ℤ → ℤ → ℕ → PolicyType → Call State ℕ
unfolding get_admin get_policy_counter set_policy publish
issue_policy env holder coverage_amount premium_amount duration_days policy_type = do
  stored ← gets (λ s. s.admin)
  expect stored "Contract not initialized"
  admin ← get_admin
  require_auth env admin
  old ← get_policy_counter
  let counter = u64 (old + 1)
  modify (λ s. record s { policy_counter = some counter })
  pool ← gets (λ s. s.risk_pool)
  risk_pool ← expect pool "Contract not initialized"
  set_policy counter (record {
    policy_id = counter;
    holder = holder;
    coverage_amount = coverage_amount;
    premium_amount = premium_amount;
    start_time = env.timestamp;
    duration_days = duration_days;
    policy_type = policy_type;
    status = active;
    risk_pool = risk_pool;
  })
  publish (issued counter holder coverage_amount premium_amount duration_days)
  return counter

unfoldable pub get_policy : ℕ → Call State InsurancePolicy
unfolding get_policy_inner
get_policy policy_id = get_policy_inner policy_id

unfoldable pub get_pol : ℕ → Call State InsurancePolicy
unfolding get_policy_inner
get_pol policy_id = get_policy_inner policy_id

-- `policy.start_time + (policy.duration_days as u64 * 86400)`
abbrev pub expiry : InsurancePolicy → ℕ
expiry p = u64 (p.start_time + u64 (p.duration_days * 86400))

abbrev pub is_live : PolicyStatus → Bool
is_live active = true
is_live renewed = true
is_live _ = false

unfoldable pub is_active : Env → ℕ → Call State Bool
unfolding get_policy_inner
is_active env policy_id = do
  policy ← get_policy_inner policy_id
  return (if is_live policy.status then leb env.timestamp (expiry policy) else false)

unfoldable pub renew_policy : Env → ℕ → ℕ → Call State (Unit {0})
unfolding get_policy_inner set_policy publish
renew_policy env policy_id duration_days = do
  policy ← get_policy_inner policy_id
  require_auth env policy.holder
  panic_if (not (is_live policy.status)) "Policy not active"
  panic_if (ltb (expiry policy) env.timestamp) "Policy has expired and cannot be renewed"
  set_policy policy_id (record policy {
    duration_days = u32 (policy.duration_days + duration_days);
    status = renewed;
  })
  publish (renewal policy_id policy.holder duration_days)

unfoldable pub cancel_policy : Env → ℕ → Call State (Unit {0})
unfolding get_policy_inner set_policy publish
cancel_policy env policy_id = do
  policy ← get_policy_inner policy_id
  require_auth env policy.holder
  panic_if (ltb (expiry policy) env.timestamp) "Policy has already expired"
  set_policy policy_id (record policy { status = cancelled })
  publish (cancellation policy_id policy.holder policy.coverage_amount)

unfoldable pub expire_policy : Env → ℕ → Call State (Unit {0})
unfolding get_policy_inner set_policy publish
expire_policy env policy_id = do
  policy ← get_policy_inner policy_id
  panic_if (ltb env.timestamp (expiry policy)) "Policy not yet expired"
  set_policy policy_id (record policy { status = expired })
  publish (expiration policy_id policy.holder)

unfoldable pub get_stats : Call State ℕ
unfolding get_policy_counter
get_stats = get_policy_counter

-- One transaction that calls a handler which writes.
pub data Op : Type 0 where
  initializes : Address → Address → Op
  issues : Address → ℤ → ℤ → ℕ → PolicyType → Op
  renews : ℕ → ℕ → Op
  cancels : ℕ → Op
  expires : ℕ → Op

-- The storage after one transaction: that of before if it fails.
unfoldable pub step : Env → Op → State → State
step env (initializes a p) s = kept (initialize a p) s
step env (issues h c p d t) s = kept (issue_policy env h c p d t) s
step env (renews i d) s = kept (renew_policy env i d) s
step env (cancels i) s = kept (cancel_policy env i) s
step env (expires i) s = kept (expire_policy env i) s

-- The storage after a list of transactions, each in an environment of its own.
unfoldable pub run : List (Env × Op) → State → State
run [] s = s
run ((env, op) ∷ ops) s = run ops (step env op s)
