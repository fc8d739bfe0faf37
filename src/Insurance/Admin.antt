-- ===== src/Insurance/Admin.antt =====
-- contracts/insurance/src/insurance_impl.rs: roles, settings, the pause and the change of admin.
use stellar_soroban_contract.Prelude.{
  ltb, ◌==◌, nat_eq, pair_eq, u64, sat_u64, insert, ℕ, ◌+◌, Bool, true, false, not, ◌||◌, none,
  some, [],
}
use stellar_soroban_contract.Ink.{
  AccountId, Env, ◌>>=◌, ◌>>◌, return, gets, modify, fail_if, ok_or, trap_if, is_some,
}
use stellar_soroban_contract.Insurance.Types.{
  unauthorized, invalid_parameters, time_lock_pending, time_lock_not_ready, CoverageType,
}
use stellar_soroban_contract.Insurance.Rbac.{
  Role, admin_role, assessor_role, oracle_role, grant, revoke, has_role,
}
use stellar_soroban_contract.Insurance.Storage.{
  contract_paused_event, contract_unpaused_event, pause_proposed, admin_proposed, admin_changed,
  role_granted, role_revoked, Msg, emit_event, find_pool, ensure_role,
}

unfoldable pub grant_role : Env → AccountId → Role → Msg (Unit {0})
unfolding ensure_role grant
grant_role env account role = do
  ensure_role env admin_role
  trap_if (account == 0)
  modify (λ s. record s { role_manager = grant account role s.role_manager })
  emit_event (role_granted account role env.caller)

unfoldable pub revoke_role : Env → AccountId → Role → Msg (Unit {0})
unfolding ensure_role revoke
revoke_role env account role = do
  ensure_role env admin_role
  trap_if (account == 0)
  modify (λ s. record s { role_manager = revoke account role s.role_manager })
  emit_event (role_revoked account role env.caller)

unfoldable pub authorize_oracle : Env → AccountId → Msg (Unit {0})
unfolding grant_role
authorize_oracle env oracle = do trap_if (oracle == 0); grant_role env oracle oracle_role

unfoldable pub authorize_assessor : Env → AccountId → Msg (Unit {0})
unfolding grant_role
authorize_assessor env assessor = do trap_if (assessor == 0); grant_role env assessor assessor_role

unfoldable pub set_oracle_contract : Env → AccountId → Msg (Unit {0})
unfolding ensure_role
set_oracle_contract env oracle = do
  ensure_role env admin_role
  trap_if (oracle == 0)
  modify (λ s. record s { oracle_contract = some oracle })

unfoldable pub set_platform_fee_rate : Env → ℕ → Msg (Unit {0})
unfolding ensure_role
set_platform_fee_rate env rate = do
  ensure_role env admin_role
  fail_if (ltb 1000 rate) invalid_parameters
  modify (λ s. record s { platform_fee_rate = rate })

unfoldable pub set_claim_cooldown : Env → ℕ → Msg (Unit {0})
unfolding ensure_role
set_claim_cooldown env period_seconds = do
  ensure_role env admin_role
  fail_if (period_seconds == 0) invalid_parameters
  modify (λ s. record s { claim_cooldown_period = period_seconds })

unfoldable pub propose_pause : Env → Msg (Unit {0})
unfolding ensure_role
propose_pause env = do
  ensure_role env admin_role
  paused_now ← gets (λ s. s.is_paused)
  fail_if paused_now invalid_parameters
  waiting ← gets (λ s. is_some s.pending_pause_after)
  fail_if waiting time_lock_pending
  earliest ← gets (λ s. sat_u64 (env.block_timestamp + s.admin_timelock_delay))
  modify (λ s. record s { pending_pause_after = some earliest })
  emit_event (pause_proposed env.caller earliest)

unfoldable pub execute_pause : Env → Msg (Unit {0})
unfolding ensure_role
execute_pause env = do
  ensure_role env admin_role
  stored ← gets (λ s. s.pending_pause_after)
  earliest ← ok_or stored invalid_parameters
  fail_if (ltb env.block_timestamp earliest) time_lock_not_ready
  modify (λ s. record s { pending_pause_after = none; is_paused = true })
  emit_event (contract_paused_event env.caller env.block_timestamp)

unfoldable pub pause : Env → Msg (Unit {0})
unfolding ensure_role
pause env = do
  ensure_role env admin_role
  paused_now ← gets (λ s. s.is_paused)
  fail_if paused_now invalid_parameters
  modify (λ s. record s { is_paused = true })
  emit_event (contract_paused_event env.caller env.block_timestamp)

unfoldable pub unpause : Env → Msg (Unit {0})
unfolding ensure_role
unpause env = do
  ensure_role env admin_role
  paused_now ← gets (λ s. s.is_paused)
  fail_if (not paused_now) invalid_parameters
  modify (λ s. record s { is_paused = false })
  emit_event (contract_unpaused_event env.caller env.block_timestamp)

unfoldable pub propose_set_admin : Env → AccountId → Msg (Unit {0})
unfolding ensure_role
propose_set_admin env new_admin = do
  ensure_role env admin_role
  waiting ← gets (λ s. is_some s.pending_admin_after)
  fail_if waiting time_lock_pending
  earliest ← gets (λ s. sat_u64 (env.block_timestamp + s.admin_timelock_delay))
  modify (λ s. record s { pending_admin = some new_admin; pending_admin_after = some earliest })
  emit_event (admin_proposed env.caller new_admin earliest)

unfoldable pub execute_set_admin : Env → Msg (Unit {0})
unfolding ensure_role
execute_set_admin env = do
  ensure_role env admin_role
  stored ← gets (λ s. s.pending_admin_after)
  earliest ← ok_or stored invalid_parameters
  fail_if (ltb env.block_timestamp earliest) time_lock_not_ready
  proposed ← gets (λ s. s.pending_admin)
  new_admin ← ok_or proposed invalid_parameters
  old_admin ← gets (λ s. s.admin)
  modify (λ s. record s { admin = new_admin; pending_admin = none; pending_admin_after = none })
  emit_event (admin_changed old_admin new_admin env.block_timestamp)

unfoldable pub cancel_pending_admin : Env → Msg (Unit {0})
unfolding ensure_role
cancel_pending_admin env = do
  ensure_role env admin_role
  modify (λ s. record s { pending_admin = none; pending_admin_after = none })

unfoldable pub update_actuarial_model : Env → CoverageType → ℕ → ℕ → ℕ → ℕ → ℕ → Msg ℕ
unfolding has_role
update_actuarial_model env coverage_type loss_frequency average_loss_severity expected_loss_ratio
      confidence_level data_points =
    do
      allowed ← gets (λ s. has_role env.caller oracle_role s.role_manager)
      fail_if (not allowed) unauthorized
      fail_if
          (loss_frequency == 0
            || average_loss_severity == 0
            || expected_loss_ratio == 0
            || ltb 10000 expected_loss_ratio
            || confidence_level == 0
            || ltb 100 confidence_level
            || data_points == 0)
          invalid_parameters
      modify (λ s. record s { model_count = u64 (s.model_count + 1) })
      model_id ← gets (λ s. s.model_count)
      modify (λ s. record s {
        actuarial_models =
            insert model_id
              (record {
                model_id = model_id;
                coverage_type = coverage_type;
                loss_frequency = loss_frequency;
                average_loss_severity = average_loss_severity;
                expected_loss_ratio = expected_loss_ratio;
                confidence_level = confidence_level;
                last_updated = env.block_timestamp;
                data_points = data_points;
              })
              s.actuarial_models;
      })
      return model_id

unfoldable pub set_underwriting_criteria : Env → ℕ → ℕ → ℕ → ℕ → Bool → ℕ → ℕ → Msg (Unit {0})
unfolding ensure_role
set_underwriting_criteria env pool_id max_property_age_years min_property_value max_property_value
      required_safety_features max_previous_claims min_risk_score =
    do
      ensure_role env admin_role
      find_pool pool_id
      fail_if
          (min_property_value == 0
            || max_property_value == 0
            || ltb max_property_value min_property_value
            || ltb 100 min_risk_score)
          invalid_parameters
      modify (λ s. record s {
        underwriting_criteria =
            insert pool_id
              (record {
                max_property_age_years = max_property_age_years;
                min_property_value = min_property_value;
                max_property_value = max_property_value;
                excluded_locations = [];
                required_safety_features = required_safety_features;
                max_previous_claims = max_previous_claims;
                min_risk_score = min_risk_score;
              })
              s.underwriting_criteria;
      })
