-- ===== src/Insurance.antt =====
-- contracts/insurance/src: the insurance core contract, its creation and the calls of its messages.
pub mod Types
pub mod Rbac
pub mod Storage
pub mod Pools
pub mod Rewards
pub mod Underwriting
pub mod Policies
pub mod Market
pub mod Payouts
pub mod Claims
pub mod Evidence
pub mod Admin
pub mod Views
pub mod Premiums
pub mod Filing
pub mod Withdrawals
pub mod Verdicts
pub mod Decisions
pub mod Deciding
pub mod Finality
pub mod Untouched
pub mod Authority
pub mod Governing
mod Tests
use stellar_soroban_contract.Prelude.{
  if◌then◌else◌, ◌==◌, nat_eq, pair_eq, insert, ℕ, String, Bool, true, false, Option, none, some,
  List, [], ◌∷◌,
}
use stellar_soroban_contract.Ink.{AccountId, Env, kept}
use stellar_soroban_contract.Insurance.Types.{CoverageType, EvidenceMetadata}
use stellar_soroban_contract.Insurance.Rbac.{Role}
use stellar_soroban_contract.Insurance.Storage.{PropertyInsurance, Accepts}
use stellar_soroban_contract.Insurance.Pools.{
  create_risk_pool, deposit_liquidity, configure_pool_vesting, withdraw_liquidity,
}
use stellar_soroban_contract.Insurance.Rewards.{
  claim_rewards, reinvest_rewards, claim_vested_rewards,
}
use stellar_soroban_contract.Insurance.Underwriting.{update_risk_assessment}
use stellar_soroban_contract.Insurance.Policies.{
  create_policy, create_parametric_policy, renew_policy, cancel_policy, expire_policies,
}
use stellar_soroban_contract.Insurance.Market.{list_token_for_sale, purchase_token}
use stellar_soroban_contract.Insurance.Payouts.{
  process_claim, move_to_dispute, register_reinsurance,
}
use stellar_soroban_contract.Insurance.Claims.{submit_claim}
use stellar_soroban_contract.Insurance.Evidence.{
  submit_evidence, verify_evidence, Submission, batch_submit_evidence,
}
use stellar_soroban_contract.Insurance.Admin.{
  grant_role, revoke_role, authorize_oracle, authorize_assessor, set_oracle_contract,
  set_platform_fee_rate, set_claim_cooldown, propose_pause, execute_pause, pause, unpause,
  propose_set_admin, execute_set_admin, cancel_pending_admin, update_actuarial_model,
  set_underwriting_criteria,
}

abbrev pub fresh : AccountId → PropertyInsurance
fresh admin = record {
  admin = admin;
  role_manager = insert (admin, 0) true [];
  policies = [];
  policy_count = 0;
  policyholder_policies = [];
  property_policies = [];
  claims = [];
  claim_count = 0;
  policy_claims = [];
  pools = [];
  pool_count = 0;
  risk_assessments = [];
  reinsurance_agreements = [];
  reinsurance_count = 0;
  insurance_tokens = [];
  token_count = 0;
  token_listings = [];
  actuarial_models = [];
  model_count = 0;
  underwriting_criteria = [];
  liquidity_providers = [];
  pool_providers = [];
  claim_cooldowns = [];
  caller_last_claim = [];
  evidence_count = 0;
  evidence_items = [];
  claim_evidence = [];
  evidence_verifications = [];
  oracle_contract = none;
  platform_fee_rate = 200;
  claim_cooldown_period = 2_592_000;
  dispute_window_seconds = 604_800;
  used_evidence_nonces = [];
  caller_nonces = [];
  is_paused = false;
  pending_pause_after = none;
  pending_admin = none;
  pending_admin_after = none;
  admin_timelock_delay = 86_400;
  total_platform_fees_collected = 0;
  min_premium_amount = 1_000_000;
  transfers = [];
  events = [];
}

-- The constructor panics for the zero address.
unfoldable pub new : AccountId → Option PropertyInsurance
new admin = if admin == 0 then none else some (fresh admin)

-- One call of a message that writes. `provide_pool_liquidity` is `deposits`, and
-- `add_authorized_assessor` is `authorizes_assessor`.
pub data Op : Type 0 where
  creates_pool : String → CoverageType → ℕ → ℕ → Op
  deposits : ℕ → Op
  configures_vesting : ℕ → ℕ → ℕ → ℕ → Op
  withdraws : ℕ → ℕ → Op
  claims_rewards : ℕ → Op
  reinvests : ℕ → Op
  claims_vested : ℕ → Op
  assesses : ℕ → ℕ → ℕ → ℕ → ℕ → ℕ → Op
  creates_policy : ℕ → CoverageType → ℕ → ℕ → ℕ → String → Op
  creates_parametric : ℕ → CoverageType → ℕ → ℕ → ℕ → ℕ → String → Op
  renews : ℕ → ℕ → Op
  cancels : ℕ → Op
  expires : ℕ → Op
  lists : ℕ → ℕ → Op
  purchases : ℕ → Op
  submits : ℕ → ℕ → String → EvidenceMetadata → ℕ → Op
  processes : ℕ → Bool → String → String → Op
  disputes : ℕ → Op
  reinsures : AccountId → ℕ → ℕ → ℕ → List CoverageType → ℕ → Op
  submits_evidence : ℕ → Submission → Op
  submits_batch : ℕ → List Submission → Op
  verifies : ℕ → Bool → String → Op
  grants : AccountId → Role → Op
  revokes : AccountId → Role → Op
  authorizes_oracle : AccountId → Op
  authorizes_assessor : AccountId → Op
  sets_oracle : AccountId → Op
  sets_fee_rate : ℕ → Op
  sets_cooldown : ℕ → Op
  proposes_pause : Op
  executes_pause : Op
  pauses : Op
  unpauses : Op
  proposes_admin : AccountId → Op
  executes_admin : Op
  cancels_admin : Op
  models_risk : CoverageType → ℕ → ℕ → ℕ → ℕ → ℕ → Op
  sets_criteria : ℕ → ℕ → ℕ → ℕ → Bool → ℕ → ℕ → Op

unfoldable pub step : Accepts → Env → Op → PropertyInsurance → PropertyInsurance
step f env (creates_pool n c m r) s = kept (create_risk_pool env n c m r) s
step f env (deposits p) s = kept (deposit_liquidity env p) s
step f env (configures_vesting p c d b) s = kept (configure_pool_vesting env p c d b) s
step f env (withdraws p x) s = kept (withdraw_liquidity env p x) s
step f env (claims_rewards p) s = kept (claim_rewards f env p) s
step f env (reinvests p) s = kept (reinvest_rewards env p) s
step f env (claims_vested p) s = kept (claim_vested_rewards f env p) s
step f env (assesses i l c a h v) s = kept (update_risk_assessment env i l c a h v) s
step f env (creates_policy i c x p d u) s = kept (create_policy env i c x p d u) s
step f env (creates_parametric i c x p d e u) s =
    kept (create_parametric_policy env i c x p d e u) s
step f env (renews i d) s = kept (renew_policy env i d) s
step f env (cancels i) s = kept (cancel_policy env i) s
step f env (expires n) s = kept (expire_policies env n) s
step f env (lists i x) s = kept (list_token_for_sale env i x) s
step f env (purchases i) s = kept (purchase_token env i) s
step f env (submits i x d e n) s = kept (submit_claim env i x d e n) s
step f env (processes i b u r) s = kept (process_claim env i b u r) s
step f env (disputes i) s = kept (move_to_dispute env i) s
step f env (reinsures a c r p l d) s = kept (register_reinsurance env a c r p l d) s
step f env (submits_evidence i (t, h, c, z, u)) s = kept (submit_evidence env i t h c z u) s
step f env (submits_batch i l) s = kept (batch_submit_evidence env i l) s
step f env (verifies i b n) s = kept (verify_evidence env i b n) s
step f env (grants a r) s = kept (grant_role env a r) s
step f env (revokes a r) s = kept (revoke_role env a r) s
step f env (authorizes_oracle a) s = kept (authorize_oracle env a) s
step f env (authorizes_assessor a) s = kept (authorize_assessor env a) s
step f env (sets_oracle a) s = kept (set_oracle_contract env a) s
step f env (sets_fee_rate n) s = kept (set_platform_fee_rate env n) s
step f env (sets_cooldown n) s = kept (set_claim_cooldown env n) s
step f env proposes_pause s = kept (propose_pause env) s
step f env executes_pause s = kept (execute_pause env) s
step f env pauses s = kept (pause env) s
step f env unpauses s = kept (unpause env) s
step f env (proposes_admin a) s = kept (propose_set_admin env a) s
step f env executes_admin s = kept (execute_set_admin env) s
step f env cancels_admin s = kept (cancel_pending_admin env) s
step f env (models_risk c l a e n d) s = kept (update_actuarial_model env c l a e n d) s
step f env (sets_criteria p a l h b n r) s = kept (set_underwriting_criteria env p a l h b n r) s

unfoldable pub run : Accepts → List (Env × Op) → PropertyInsurance → PropertyInsurance
run f [] s = s
run f ((env, op) ∷ ops) s = run f ops (step f env op s)
