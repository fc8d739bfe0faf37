-- ===== src/Insurance/Payouts.antt =====
-- contracts/insurance/src/insurance_impl.rs: the decision on a claim and its payout. The two batch
-- messages are left out: their loops name a variable that is not declared.
use stellar_soroban_contract.Prelude.{
  ltb, leb, if◌then◌else◌, min, ◌==◌, nat_eq, pair_eq, length, u64, sat_u64, u128, lookup, insert,
  ℕ, zero, suc, ◌+◌, ◌-◌, String, Bool, true, not, ◌||◌, Option, none, some, List, ◌∷◌,
}
use stellar_soroban_contract.Ink.{
  AccountId, Env, ◌>>=◌, ◌>>◌, return, gets, modify, fail_if, unwrap_or,
}
use stellar_soroban_contract.Insurance.Types.{
  unauthorized, insufficient_pool_funds, claim_already_processed, invalid_parameters, claimed,
  CoverageType, approved, rejected, paid, disputed, InsurancePolicy, InsuranceClaim,
  ReinsuranceAgreement,
}
use stellar_soroban_contract.Insurance.Rbac.{admin_role, assessor_role, has_role}
use stellar_soroban_contract.Insurance.Storage.{
  claim_approved_event, claim_disputed, claim_rejected_event, payout_executed,
  reinsurance_activated, PropertyInsurance, Msg, emit_event, set_pool, set_policy, set_claim,
  find_pool, find_policy, find_claim, ensure_role, require_running, is_open,
}

-- What an agreement gives back of a payout at a time; nothing when it is not in force.
abbrev pub recovery_of : ℕ → ℕ → ReinsuranceAgreement → ℕ
recovery_of now amount agreement =
    if not agreement.is_active || ltb agreement.end_time now
    then 0
    else min (amount - agreement.retention_limit) agreement.coverage_limit

abbrev pub recovery_at : ℕ → ℕ → Option ReinsuranceAgreement → ℕ
recovery_at now amount none = 0
recovery_at now amount (some agreement) = recovery_of now amount agreement

-- The agreement after a recovery.
abbrev pub with_recovery : ℕ → ReinsuranceAgreement → ReinsuranceAgreement
with_recovery recovered agreement = record agreement {
  total_recoveries = u128 (agreement.total_recoveries + recovered);
}

abbrev pub recover_from : ℕ → ℕ → ℕ → ℕ → PropertyInsurance → PropertyInsurance
recover_from now claim_id i recovered s = elim (lookup i s.reinsurance_agreements) [
  | none ↦ s
  | some agreement ↦ record s {
    reinsurance_agreements = insert i (with_recovery recovered agreement) s.reinsurance_agreements;
    events = reinsurance_activated claim_id i recovered now ∷ s.events;
  }
]

-- `for i in 1..=self.reinsurance_count`, up to the first agreement that gives something.
unfoldable pub recovery_loop : ℕ → ℕ → ℕ → ℕ → ℕ → PropertyInsurance → PropertyInsurance
recovery_loop zero now claim_id amount i s = s
recovery_loop (suc rounds) now claim_id amount i s =
    let rest = recovery_loop rounds now claim_id amount (i + 1) s in
    let recovered = recovery_at now amount (lookup i s.reinsurance_agreements) in
    if ltb 0 recovered then recover_from now claim_id i recovered s else rest

unfoldable pub try_reinsurance_recovery : Env → ℕ → ℕ → PropertyInsurance → PropertyInsurance
unfolding recovery_loop
try_reinsurance_recovery env claim_id amount s =
    recovery_loop s.reinsurance_count env.block_timestamp claim_id amount 1 s

-- The policy after a payout.
abbrev pub with_payout : ℕ → InsurancePolicy → InsurancePolicy
with_payout amount policy =
    let total_claimed = u128 (policy.total_claimed + amount) in
    record policy {
      total_claimed = total_claimed;
      status = if leb policy.coverage_amount total_claimed then claimed else policy.status;
    }

-- `if let Some(mut claim) = self.claims.get(&claim_id)`
abbrev pub mark_paid : ℕ → PropertyInsurance → PropertyInsurance
mark_paid claim_id s = elim (lookup claim_id s.claims) [
  | none ↦ s
  | some claim ↦ record s { claims = insert claim_id (record claim { status = paid }) s.claims }
]

-- `execute_payout` of an amount that is not 0.
unfoldable pub pay_claim : Env → ℕ → ℕ → AccountId → ℕ → Msg (Unit {0})
pay_claim env claim_id policy_id recipient amount = do
  policy ← find_policy policy_id
  pool ← find_pool policy.pool_id
  modify (λ s.
      if ltb pool.reinsurance_threshold amount
      then try_reinsurance_recovery env claim_id amount s
      else s)
  fail_if (ltb pool.available_capital amount) insufficient_pool_funds
  set_pool policy.pool_id (record pool {
    available_capital = pool.available_capital - amount;
    total_claims_paid = u128 (pool.total_claims_paid + amount);
  })
  set_policy policy_id (with_payout amount policy)
  modify (λ s. record s {
    claim_cooldowns = insert policy.property_id env.block_timestamp s.claim_cooldowns;
  })
  modify (mark_paid claim_id)
  emit_event (payout_executed claim_id recipient amount env.block_timestamp)

unfoldable pub execute_payout : Env → ℕ → ℕ → AccountId → ℕ → Msg (Unit {0})
execute_payout env claim_id policy_id recipient amount =
    if amount == 0 then return tt else pay_claim env claim_id policy_id recipient amount

-- A claim that has been looked at.
abbrev pub assessed : Env → String → InsuranceClaim → InsuranceClaim
assessed env oracle_report_url claim = record claim {
  assessor = some env.caller;
  oracle_report_url = oracle_report_url;
  processed_at = some env.block_timestamp;
}

unfoldable pub approve_claim : Env → ℕ → InsuranceClaim → Msg (Unit {0})
approve_claim env claim_id claim = do
  policy ← find_policy claim.policy_id
  let payout = claim.claim_amount - policy.deductible
  set_claim claim_id (record claim { payout_amount = payout; status = approved })
  execute_payout env claim_id claim.policy_id claim.claimant payout
  emit_event (claim_approved_event claim_id claim.policy_id payout env.caller env.block_timestamp)

unfoldable pub reject_claim : Env → ℕ → InsuranceClaim → String → Msg (Unit {0})
reject_claim env claim_id claim rejection_reason = do
  set_claim claim_id (record claim { status = rejected; rejection_reason = rejection_reason })
  emit_event (
      claim_rejected_event claim_id claim.policy_id rejection_reason env.caller env.block_timestamp)

unfoldable pub process_claim_inner : Env → ℕ → Bool → String → String → Msg (Unit {0})
process_claim_inner env claim_id approves oracle_report_url rejection_reason = do
  claim ← find_claim claim_id
  fail_if (not (is_open claim.status)) claim_already_processed
  let looked_at = assessed env oracle_report_url claim
  if approves
      then approve_claim env claim_id looked_at
      else reject_claim env claim_id looked_at rejection_reason

unfoldable pub process_claim : Env → ℕ → Bool → String → String → Msg (Unit {0})
unfolding has_role
process_claim env claim_id approves oracle_report_url rejection_reason = do
  require_running
  allowed ← gets (λ s. has_role env.caller assessor_role s.role_manager)
  fail_if (not allowed) unauthorized
  process_claim_inner env claim_id approves oracle_report_url rejection_reason

-- The repository's text has the two ends of this message in different places, with three queries and
-- a part of `get_policy_metrics` between them; a test of the dispute window is not in it.
unfoldable pub move_to_dispute : Env → ℕ → Msg (Unit {0})
move_to_dispute env claim_id = do
  require_running
  claim ← find_claim claim_id
  set_claim claim_id (record claim { status = disputed })
  emit_event (
      claim_disputed claim_id env.caller (unwrap_or 0 claim.dispute_deadline) claim.status
        env.block_timestamp)

unfoldable pub register_reinsurance : Env → AccountId → ℕ → ℕ → ℕ → List CoverageType → ℕ → Msg ℕ
unfolding ensure_role
register_reinsurance env reinsurer coverage_limit retention_limit premium_ceded_rate coverage_types
      duration_seconds =
    do
      ensure_role env admin_role
      fail_if
          (reinsurer == 0
            || coverage_limit == 0
            || retention_limit == 0
            || ltb coverage_limit retention_limit
            || premium_ceded_rate == 0
            || ltb 10000 premium_ceded_rate
            || length coverage_types == 0
            || duration_seconds == 0)
          invalid_parameters
      modify (λ s. record s { reinsurance_count = u64 (s.reinsurance_count + 1) })
      agreement_id ← gets (λ s. s.reinsurance_count)
      modify (λ s. record s {
        reinsurance_agreements =
            insert agreement_id
              (record {
                agreement_id = agreement_id;
                reinsurer = reinsurer;
                coverage_limit = coverage_limit;
                retention_limit = retention_limit;
                premium_ceded_rate = premium_ceded_rate;
                coverage_types = coverage_types;
                start_time = env.block_timestamp;
                end_time = sat_u64 (env.block_timestamp + duration_seconds);
                is_active = true;
                total_ceded_premiums = 0;
                total_recoveries = 0;
              })
              s.reinsurance_agreements;
      })
      return agreement_id
