-- ===== src/Insurance/Governing.antt =====
-- contracts/insurance/src/insurance_impl.rs: over any messages, the settings are the admins' own.
use stellar_soroban_contract.Prelude.{
  leb, if◌then◌else◌, ◌==◌, nat_eq, string_eq, pair_eq, ℕ, String, ◌≡◌, refl, sym, ap, subst, ◌∙◌,
  inl, inr, false, ◌&&◌, none, some, List, [], ◌∷◌, arith,
}
use stellar_soroban_contract.Ink.{AccountId, Env, kept, is_ok, Outcome-cases}
use stellar_soroban_contract.Insurance.Types.{CoverageType}
use stellar_soroban_contract.Insurance.Rbac.{Role, admin_role, has_role}
use stellar_soroban_contract.Insurance.Storage.{PropertyInsurance, Accepts}
use stellar_soroban_contract.Insurance.Pools.{
  create_risk_pool, deposit_liquidity, configure_pool_vesting,
}
use stellar_soroban_contract.Insurance.Rewards.{
  take_rewards, claim_rewards, compound, reinvest_rewards, pay_vested, claim_vested_rewards,
}
use stellar_soroban_contract.Insurance.Underwriting.{update_risk_assessment}
use stellar_soroban_contract.Insurance.Policies.{
  create_parametric_policy, renew_policy, leave_pool, cancel_policy, expire_policies,
}
use stellar_soroban_contract.Insurance.Market.{list_token_for_sale, purchase_token}
use stellar_soroban_contract.Insurance.Payouts.{move_to_dispute, register_reinsurance}
use stellar_soroban_contract.Insurance.Evidence.{
  submit_evidence, verify_evidence, Submission, batch_submit_evidence,
}
use stellar_soroban_contract.Insurance.Admin.{
  grant_role, revoke_role, authorize_oracle, authorize_assessor, set_oracle_contract,
  set_platform_fee_rate, set_claim_cooldown, propose_pause, execute_pause, pause, unpause,
  propose_set_admin, execute_set_admin, cancel_pending_admin, update_actuarial_model,
  set_underwriting_criteria,
}
use stellar_soroban_contract.Insurance.{
  Op, withdraws, creates_policy, creates_parametric, expires, submits, processes, submits_evidence,
  submits_batch, step, run,
}
use stellar_soroban_contract.Insurance.Authority.{
  Settings, settings, expire_loop-settings, Keeps, NoneByAdmin, submit_evidence-settings,
  withdraw-settings, create_policy-settings, process_claim-settings, submit_claim-settings,
}

batch-settings : (env : Env) (i : ℕ) (l : List Submission) → Keeps (batch_submit_evidence env i l)
unfolding batch_submit_evidence
batch-settings env i [] s = refl
batch-settings env i ((t, h, c, z, u) ∷ l) s =
    elim (Outcome-cases (submit_evidence env i t h c z u s)) [
      | inr (inl (e, bad)) ↦ ground arith
      | inr (inr bad) ↦ ground arith
      | inl ((n, s1), fine) ↦
          ground (arith, submit_evidence-settings env i t h c z u s, batch-settings env i l s1)
    ]

parametric-settings :
    (env : Env) (i : ℕ) (c : CoverageType) (x p d e : ℕ) (u : String)
    → Keeps (create_parametric_policy env i c x p d e u)
unfolding create_parametric_policy
parametric-settings env i c x p d e u s = ground (arith, create_policy-settings env i c x p d u s)

-- A message whose sender is no admin leaves the settings as they are.
step-settings :
    (f : Accepts) (env : Env) (op : Op) (s : PropertyInsurance)
    → has_role env.caller admin_role s.role_manager ≡ false
    → settings (step f env op s) ≡ settings s
unfolding step create_risk_pool deposit_liquidity configure_pool_vesting claim_rewards take_rewards
    move_to_dispute reinvest_rewards compound claim_vested_rewards pay_vested update_risk_assessment
    renew_policy cancel_policy leave_pool expire_policies list_token_for_sale purchase_token
    register_reinsurance verify_evidence grant_role revoke_role authorize_oracle authorize_assessor
    set_oracle_contract set_platform_fee_rate set_claim_cooldown propose_pause execute_pause pause
    unpause propose_set_admin execute_set_admin cancel_pending_admin update_actuarial_model
    set_underwriting_criteria
step-settings f env (withdraws p x) s none_admin = withdraw-settings env p x s
step-settings f env (creates_policy i c x p d u) s none_admin =
    create_policy-settings env i c x p d u s
step-settings f env (creates_parametric i c x p d e u) s none_admin =
    parametric-settings env i c x p d e u s
step-settings f env (expires n) s none_admin =
    expire_loop-settings s.policy_count env.block_timestamp (if n == 0 then s.policy_count else n) 1
      0 s
step-settings f env (submits i x d e n) s none_admin = submit_claim-settings env i x d e n s
step-settings f env (processes i b u r) s none_admin = process_claim-settings env i b u r s
step-settings f env (submits_evidence i (t, h, c, z, u)) s none_admin =
    submit_evidence-settings env i t h c z u s
step-settings f env (submits_batch i l) s none_admin = batch-settings env i l s
step-settings f env op s none_admin = ground arith

-- After any messages of which none is sent by a holder of the admin role, nobody's role, the
-- admin, the pause and its time-lock, the proposed admin, the fee rate, the cooldown, the oracle
-- contract and the numbers of pools and of reinsurance agreements have changed.
pub run-settings :
    (f : Accepts) (ops : List (Env × Op)) (s : PropertyInsurance)
    → NoneByAdmin s.role_manager ops
    → settings (run f ops s) ≡ settings s
unfolding run
run-settings f [] s none_admin = refl
run-settings f ((env, op) ∷ ops) s (other, none_admin) =
    let same = step-settings f env op s other in
    let same_roles : (step f env op s).role_manager ≡ s.role_manager =
      ap (λ (z : Settings). z.role_manager) same in
    run-settings f ops (step f env op s)
      (subst (λ m. NoneByAdmin m ops) (sym same_roles) none_admin)
    ∙ same

-- Executing a proposed change of admin succeeds exactly for a holder of the admin role, once the
-- proposed time has come. It then stores the proposed account as the admin and clears the proposal,
-- but every account has the roles that it had before: the new admin is given none and the old one
-- keeps its own.
pub execute_set_admin_decides :
    (env : Env) (s : PropertyInsurance) (a t : ℕ)
    → s.pending_admin ≡ some a
    → s.pending_admin_after ≡ some t
    → let taken = has_role env.caller admin_role s.role_manager && leb t env.block_timestamp in
      let after = kept (execute_set_admin env) s in
      (is_ok (execute_set_admin env s) ≡ taken)
      × (after.admin ≡ (if taken then a else s.admin))
      × (after.pending_admin ≡ (if taken then none else some a))
      × (after.pending_admin_after ≡ (if taken then none else some t))
      × ((b : AccountId) (r : Role) → has_role b r after.role_manager ≡ has_role b r s.role_manager)
unfolding execute_set_admin
execute_set_admin_decides env s a t proposed due =
    (ground arith, ground arith, ground arith, ground arith, λ b r. ground arith)
