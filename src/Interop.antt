-- ===== src/Interop.antt =====
-- Calls from one contract to another (`env.invoke_contract`): the values that cross, and the
-- interface through which a contract reaches the others. The host refuses re-entry, so a call
-- changes the storage of other contracts only; `W` is that storage.
use stellar_soroban_contract.Prelude.{ℤ, ℕ, Bool, List}
use stellar_soroban_contract.Host.{Address, Symbol, Env, host_error, Result, ok, err, Call}
use stellar_soroban_contract.InsuranceTypes.{InsurancePolicy, PoolStats}

pub data Val : Type 0 where
  void : Val
  bool : Bool → Val
  u64_val : ℕ → Val
  i128_val : ℤ → Val
  address : Address → Val
  policy_val : InsurancePolicy → Val
  stats_val : PoolStats → Val

-- What the contract at an address does with a call of one of its functions, made in the caller's
-- environment.
pub record Contracts (W : Type 0) : Type 0 where
  pub invoke : Env → Address → Symbol → List Val → W → Result (Val × W)

-- A contract's own storage beside that of the others.
pub record World (S W : Type 0) : Type 0 where
  pub own : S
  pub others : W

module _ {S W : Type 0} where
  abbrev pub read : {A : Type 0} → (S → A) → Call (World S W) A
  read f w = ok (f w.own, w)

  abbrev pub write : (S → S) → Call (World S W) (Unit {0})
  write f w = ok (tt, record { own = f w.own; others = w.others })

  abbrev pub invoke_contract :
      Contracts W → Env → Address → Symbol → List Val → Call (World S W) Val
  invoke_contract c env a f args w = elim (c.invoke env a f args w.others) [
    | ok r ↦ ok (r.0, record { own = w.own; others = r.1 })
    | err e ↦ err e
  ]

  -- The conversions from `Val`; another kind of value is a host error.
  abbrev pub to_bool : Val → Call (World S W) Bool
  to_bool (bool b) w = ok (b, w)
  to_bool _ w = err host_error

  abbrev pub to_policy : Val → Call (World S W) InsurancePolicy
  to_policy (policy_val p) w = ok (p, w)
  to_policy _ w = err host_error

  abbrev pub to_stats : Val → Call (World S W) PoolStats
  to_stats (stats_val p) w = ok (p, w)
  to_stats _ w = err host_error

  abbrev pub to_void : Val → Call (World S W) (Unit {0})
  to_void void w = ok (tt, w)
  to_void _ w = err host_error
