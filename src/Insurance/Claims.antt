-- ===== src/Insurance/Claims.antt =====
-- contracts/insurance/src/insurance_impl.rs: the claims, up to their decision.
use stellar_soroban_contract.Prelude.{
  ltb, if◌then◌else◌, ◌==◌, nat_eq, string_eq, pair_eq, length, push_back, u32, u64, sat_u64,
  lookup, insert, ℕ, ◌+◌, ◌-◌, String, starts_with, Bool, true, false, not, ◌&&◌, Option, none,
  some, [],
}
use stellar_soroban_contract.Ink.{
  AccountId, Env, ◌>>=◌, ◌>>◌, return, gets, modify, fail_if, unwrap_or,
}
use stellar_soroban_contract.Insurance.Types.{
  unauthorized, policy_expired, policy_inactive, claim_exceeds_coverage, cooldown_period_active,
  nonce_already_used, evidence_nonce_empty, evidence_invalid_uri_scheme,
  evidence_invalid_hash_length, zero_amount, pending, EvidenceMetadata, InsurancePolicy,
  InsuranceClaim,
}
use stellar_soroban_contract.Insurance.Storage.{
  claim_submitted, replay_protected, PropertyInsurance, Msg, emit_event, set_policy, set_claim,
  find_policy, require_running, is_in_force, is_parametric,
}
use stellar_soroban_contract.Insurance.Payouts.{process_claim}

abbrev pub nonce_of : AccountId → PropertyInsurance → ℕ
nonce_of caller s = unwrap_or 0 (lookup caller s.caller_nonces)

-- The checks of the evidence that comes with a claim, and of its key.
unfoldable pub check_evidence : ℕ → EvidenceMetadata → Msg (Unit {0})
check_evidence policy_id evidence = do
  fail_if (evidence.evidence_type == "") evidence_nonce_empty
  fail_if
      (not (starts_with evidence.reference_uri "ipfs://")
        && not (starts_with evidence.reference_uri "https://"))
      evidence_invalid_uri_scheme
  fail_if (not (length evidence.content_hash == 32)) evidence_invalid_hash_length
  used ←
      gets
        (λ s. unwrap_or false (lookup (policy_id, evidence.evidence_type) s.used_evidence_nonces))
  fail_if used nonce_already_used

-- The checks of the policy, the amount and the two cooldowns.
unfoldable pub check_cover : Env → InsurancePolicy → ℕ → Msg (Unit {0})
check_cover env policy claim_amount = do
  let now = env.block_timestamp
  fail_if (not (policy.policyholder == env.caller)) unauthorized
  fail_if (not (is_in_force policy.status)) policy_inactive
  fail_if (ltb policy.end_time now) policy_expired
  fail_if (ltb (policy.coverage_amount - policy.total_claimed) claim_amount) claim_exceeds_coverage
  period ← gets (λ s. s.claim_cooldown_period)
  last_claim ← gets (λ s. unwrap_or 0 (lookup policy.property_id s.claim_cooldowns))
  fail_if (ltb (now - last_claim) period) cooldown_period_active
  caller_last ← gets (λ s. unwrap_or 0 (lookup env.caller s.caller_last_claim))
  fail_if (ltb (now - caller_last) period) cooldown_period_active

-- The claim is stored and listed, and the policy counts it.
unfoldable pub file_claim : Env → ℕ → InsurancePolicy → InsuranceClaim → Msg (Unit {0})
file_claim env policy_id policy claim = do
  set_claim claim.claim_id claim
  modify (λ s. record s {
    policy_claims =
        insert policy_id
          (push_back (unwrap_or [] (lookup policy_id s.policy_claims)) claim.claim_id)
          s.policy_claims;
  })
  set_policy policy_id (record policy { claims_count = u32 (policy.claims_count + 1) })

abbrev pub is_test_event : Option ℕ → Bool
is_test_event none = false
is_test_event (some event_id) = event_id == 101

abbrev pub has_oracle : Option AccountId → Bool
has_oracle none = false
has_oracle (some _) = true

-- The parametric claims that are decided at once: on event 101, when an oracle contract is set.
abbrev pub verifies_itself : InsurancePolicy → PropertyInsurance → Bool
verifies_itself policy s =
    is_parametric policy.policy_type
    && has_oracle s.oracle_contract
    && is_test_event policy.event_id

abbrev pub new_claim :
    Env → PropertyInsurance → ℕ → ℕ → String → EvidenceMetadata → ℕ → InsuranceClaim
new_claim env s policy_id claim_amount description evidence claim_id = record {
  claim_id = claim_id;
  policy_id = policy_id;
  claimant = env.caller;
  claim_amount = claim_amount;
  description = description;
  evidence = evidence;
  evidence_ids = [];
  oracle_report_url = "";
  status = pending;
  submitted_at = env.block_timestamp;
  under_review_at = none;
  dispute_deadline = some (sat_u64 (env.block_timestamp + s.dispute_window_seconds));
  processed_at = none;
  payout_amount = 0;
  assessor = none;
  rejection_reason = "";
}

-- The parametric path: the claim is filed and processed with the caller's own roles.
unfoldable pub auto_verify : Env → ℕ → InsurancePolicy → InsuranceClaim → Msg ℕ
unfolding file_claim
auto_verify env policy_id policy claim = do
  file_claim env policy_id policy claim
  emit_event
      (claim_submitted claim.claim_id policy_id env.caller claim.claim_amount env.block_timestamp)
  process_claim env claim.claim_id true "Auto-verified by ClaimOracle" ""
  return claim.claim_id

-- The ordinary path: the claim is filed, and the nonces and the caller's time are written.
unfoldable pub enter_claim : Env → ℕ → InsurancePolicy → InsuranceClaim → ℕ → Msg ℕ
unfolding file_claim
enter_claim env policy_id policy claim nonce = do
  file_claim env policy_id policy claim
  modify (λ s. record s {
    used_evidence_nonces =
        insert (policy_id, claim.evidence.evidence_type) true s.used_evidence_nonces;
    caller_last_claim = insert env.caller env.block_timestamp s.caller_last_claim;
    caller_nonces = insert env.caller (sat_u64 (nonce + 1)) s.caller_nonces;
  })
  emit_event (replay_protected env.caller nonce claim.claim_id)
  emit_event
      (claim_submitted claim.claim_id policy_id env.caller claim.claim_amount env.block_timestamp)
  return claim.claim_id

unfoldable pub submit_claim : Env → ℕ → ℕ → String → EvidenceMetadata → ℕ → Msg ℕ
submit_claim env policy_id claim_amount description evidence nonce = do
  require_running
  expected_nonce ← gets (nonce_of env.caller)
  fail_if (not (nonce == expected_nonce)) nonce_already_used
  fail_if (claim_amount == 0) zero_amount
  check_evidence policy_id evidence
  policy ← find_policy policy_id
  check_cover env policy claim_amount
  modify (λ s. record s { claim_count = u64 (s.claim_count + 1) })
  claim_id ← gets (λ s. s.claim_count)
  claim ← gets (λ s. new_claim env s policy_id claim_amount description evidence claim_id)
  at_once ← gets (verifies_itself policy)
  if at_once
      then auto_verify env policy_id policy claim
      else enter_claim env policy_id policy claim nonce
