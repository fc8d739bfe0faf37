-- ===== src/Insurance/Authority.antt =====
-- contracts/insurance/src/insurance_impl.rs: what only an admin can change.
use stellar_soroban_contract.Prelude.{
  ltb, if◌then◌else◌, Bool-cases, Option-cases, nat_eq, string_eq, pair_eq, push_back, u32, u64,
  sat_u64, lookup, insert, ℕ, zero, suc, ◌+◌, ◌-◌, String, ◌≡◌, refl, ◌∙◌, inl, inr, Bool, true,
  false, Option, List, [], ◌∷◌, arith,
}
use stellar_soroban_contract.Ink.{AccountId, Env, unwrap_or, kept, Outcome-cases}
use stellar_soroban_contract.Insurance.Types.{
  CoverageType, approved, EvidenceMetadata, InsurancePolicy, InsuranceClaim,
}
use stellar_soroban_contract.Insurance.Rbac.{admin_role, RoleManager, has_role}
use stellar_soroban_contract.Insurance.Storage.{claim_submitted, PropertyInsurance, Msg}
use stellar_soroban_contract.Insurance.Pools.{file_provider, withdraw_liquidity}
use stellar_soroban_contract.Insurance.Policies.{create_policy, expire_one, expire_loop}
use stellar_soroban_contract.Insurance.Payouts.{
  recovery_loop, try_reinsurance_recovery, pay_claim, execute_payout, assessed, approve_claim,
  reject_claim, process_claim_inner, process_claim,
}
use stellar_soroban_contract.Insurance.Evidence.{submit_evidence}
use stellar_soroban_contract.Insurance.{Op}
use stellar_soroban_contract.Insurance.Claims.{
  check_evidence, check_cover, new_claim, auto_verify, enter_claim, submit_claim,
}
use stellar_soroban_contract.Insurance.Filing.{check_evidence_same, check_cover_same}

-- The part of the storage that the admin role guards.
pub record Settings : Type 0 where
  pub role_manager : RoleManager
  pub admin : AccountId
  pub is_paused : Bool
  pub pending_pause_after : Option ℕ
  pub pending_admin : Option AccountId
  pub pending_admin_after : Option ℕ
  pub platform_fee_rate : ℕ
  pub claim_cooldown_period : ℕ
  pub oracle_contract : Option AccountId
  pub pool_count : ℕ
  pub reinsurance_count : ℕ

abbrev pub settings : PropertyInsurance → Settings
settings s = record {
  role_manager = s.role_manager;
  admin = s.admin;
  is_paused = s.is_paused;
  pending_pause_after = s.pending_pause_after;
  pending_admin = s.pending_admin;
  pending_admin_after = s.pending_admin_after;
  platform_fee_rate = s.platform_fee_rate;
  claim_cooldown_period = s.claim_cooldown_period;
  oracle_contract = s.oracle_contract;
  pool_count = s.pool_count;
  reinsurance_count = s.reinsurance_count;
}

pub recovery_loop-settings :
    (rounds now c x i : ℕ) (s : PropertyInsurance)
    → settings (recovery_loop rounds now c x i s) ≡ settings s
unfolding recovery_loop
recovery_loop-settings zero now c x i s = refl
recovery_loop-settings (suc rounds) now c x i s =
    ground (arith, recovery_loop-settings rounds now c x (i + 1) s)

pub expire_one-settings :
    (now i : ℕ) (s : PropertyInsurance) → settings (expire_one now i s).1 ≡ settings s
unfolding expire_one
expire_one-settings now i s = elim (Option-cases (lookup i s.policies)) [
  | inl missing ↦ ground arith
  | inr (p, here) ↦ elim (Option-cases (lookup p.pool_id s.pools)) [
    | inl no_pool ↦ ground arith
    | inr (q, there) ↦ ground arith
  ]
]

pub expire_loop-settings :
    (rounds now limit i n : ℕ) (s : PropertyInsurance)
    → settings (expire_loop rounds now limit i n s).1 ≡ settings s
unfolding expire_loop
expire_loop-settings zero now limit i n s = refl
expire_loop-settings (suc rounds) now limit i n s =
    let r = expire_one now i s in
    elim (Bool-cases (ltb n limit)) [
      | inl goes_on ↦ rw goes_on (
          expire_loop-settings rounds now limit (i + 1) (if r.0 then sat_u64 (n + 1) else n) r.1
          ∙ expire_one-settings now i s)
      | inr stops ↦ rw stops refl
    ]

-- A message that succeeds keeps the settings.
abbrev pub Keeps : {A : Type 0} → Msg A → Type 0
Keeps {A} m = (s : PropertyInsurance) → settings (kept m s) ≡ settings s

-- None of the messages is sent by a holder of the admin role.
abbrev pub NoneByAdmin : RoleManager → List (Env × Op) → Type 0
NoneByAdmin m [] = Unit {0}
NoneByAdmin m ((env, op) ∷ ops) = (has_role env.caller admin_role m ≡ false) × NoneByAdmin m ops

pub submit_evidence-settings :
    (env : Env) (i : ℕ) (t h : String) (c : List ℕ) (z : ℕ) (u : Option String)
    → Keeps (submit_evidence env i t h c z u)
unfolding submit_evidence
submit_evidence-settings env i t h c z u s = ground arith

pub withdraw-settings : (env : Env) (i x : ℕ) → Keeps (withdraw_liquidity env i x)
unfolding withdraw_liquidity file_provider
withdraw-settings env i x s = ground arith

pub create_policy-settings :
    (env : Env) (i : ℕ) (c : CoverageType) (x p d : ℕ) (u : String)
    → Keeps (create_policy env i c x p d u)
unfolding create_policy
create_policy-settings env i c x p d u s = ground arith

pub pay_claim-settings :
    (env : Env) (c i : ℕ) (a : AccountId) (x : ℕ) → Keeps (pay_claim env c i a x)
unfolding pay_claim try_reinsurance_recovery
pay_claim-settings env c i a x s =
    ground (arith, recovery_loop-settings s.reinsurance_count env.block_timestamp c x 1 s)

pub execute_payout-settings :
    (env : Env) (c i : ℕ) (a : AccountId) (x : ℕ) → Keeps (execute_payout env c i a x)
unfolding execute_payout
execute_payout-settings env c i a x s = ground (arith, pay_claim-settings env c i a x s)

pub approve_claim-settings :
    (env : Env) (i : ℕ) (c : InsuranceClaim) → Keeps (approve_claim env i c)
unfolding approve_claim
approve_claim-settings env i c s = elim (Option-cases (lookup c.policy_id s.policies)) [
  | inl missing ↦ ground arith
  | inr (p, here) ↦
      let payout = c.claim_amount - p.deductible in
      let filed : PropertyInsurance = record s {
        claims = insert i (record c { payout_amount = payout; status = approved }) s.claims;
      } in
      ground (arith, execute_payout-settings env i c.policy_id c.claimant payout filed)
]

pub process_claim-settings :
    (env : Env) (i : ℕ) (b : Bool) (u r : String) → Keeps (process_claim env i b u r)
unfolding process_claim process_claim_inner reject_claim
process_claim-settings env i b u r s = elim (Option-cases (lookup i s.claims)) [
  | inl missing ↦ ground arith
  | inr (c, here) ↦ ground (arith, approve_claim-settings env i (assessed env u c) s)
]

pub auto_verify-settings :
    (env : Env) (i : ℕ) (p : InsurancePolicy) (c : InsuranceClaim) → Keeps (auto_verify env i p c)
unfolding auto_verify
auto_verify-settings env i p c s =
    let filed : PropertyInsurance = record s {
      claims = insert c.claim_id c s.claims;
      policy_claims =
          insert i (push_back (unwrap_or [] (lookup i s.policy_claims)) c.claim_id) s.policy_claims;
      policies = insert i (record p { claims_count = u32 (p.claims_count + 1) }) s.policies;
      events =
          claim_submitted c.claim_id i env.caller c.claim_amount env.block_timestamp ∷ s.events;
    } in
    ground
      (arith, process_claim-settings env c.claim_id true "Auto-verified by ClaimOracle" "" filed)

pub enter_claim-settings :
    (env : Env) (i : ℕ) (p : InsurancePolicy) (c : InsuranceClaim) (n : ℕ)
    → Keeps (enter_claim env i p c n)
unfolding enter_claim
enter_claim-settings env i p c n s = ground arith

pub submit_claim-settings :
    (env : Env) (i x : ℕ) (d : String) (e : EvidenceMetadata) (n : ℕ)
    → Keeps (submit_claim env i x d e n)
unfolding submit_claim
submit_claim-settings env i x d e n s = elim (Outcome-cases (check_evidence i e s)) [
  | inr (inl (y, bad)) ↦ ground arith
  | inr (inr bad) ↦ ground arith
  | inl ((r, s1), fine) ↦ elim (Option-cases (lookup i s.policies)) [
    | inl missing ↦ ground (arith, check_evidence_same i e s s1)
    | inr (p, here) ↦ elim (Outcome-cases (check_cover env p x s)) [
      | inr (inl (y, bad)) ↦ ground (arith, check_evidence_same i e s s1)
      | inr (inr bad) ↦ ground (arith, check_evidence_same i e s s1)
      | inl ((q, s2), covered) ↦
          let counted : PropertyInsurance = record s { claim_count = u64 (s.claim_count + 1) } in
          let c = new_claim env counted i x d e counted.claim_count in
          ground (
            arith,
            check_evidence_same i e s s1,
            check_cover_same env p x s s2,
            auto_verify-settings env i p c counted,
            enter_claim-settings env i p c n counted,
          )
    ]
  ]
]
