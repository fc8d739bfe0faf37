-- ===== src/Insurance/Untouched.antt =====
-- contracts/insurance/src/insurance_impl.rs: the messages that leave every claim as it is.
use stellar_soroban_contract.Prelude.{
  ltb, if◌then◌else◌, Bool-cases, Option-cases, ◌==◌, nat_eq, string_eq, pair_eq, sat_u64, lookup,
  ℕ, zero, suc, ◌+◌, ◌≡◌, refl, ◌∙◌, inl, inr, Bool, true, false, arith,
}
use stellar_soroban_contract.Ink.{Env}
use stellar_soroban_contract.Insurance.Storage.{PropertyInsurance, Accepts}
use stellar_soroban_contract.Insurance.Evidence.{verify_evidence}
use stellar_soroban_contract.Insurance.Pools.{
  create_risk_pool, deposit_liquidity, configure_pool_vesting, file_provider, withdraw_liquidity,
}
use stellar_soroban_contract.Insurance.Rewards.{
  take_rewards, claim_rewards, compound, reinvest_rewards, pay_vested, claim_vested_rewards,
}
use stellar_soroban_contract.Insurance.Underwriting.{update_risk_assessment}
use stellar_soroban_contract.Insurance.Policies.{
  create_policy, create_parametric_policy, renew_policy, leave_pool, cancel_policy, expire_one,
  expire_loop, expire_policies,
}
use stellar_soroban_contract.Insurance.Market.{list_token_for_sale, purchase_token}
use stellar_soroban_contract.Insurance.Payouts.{register_reinsurance}
use stellar_soroban_contract.Insurance.Admin.{
  grant_role, revoke_role, authorize_oracle, authorize_assessor, set_oracle_contract,
  set_platform_fee_rate, set_claim_cooldown, propose_pause, execute_pause, pause, unpause,
  propose_set_admin, execute_set_admin, cancel_pending_admin, update_actuarial_model,
  set_underwriting_criteria,
}
use stellar_soroban_contract.Insurance.{
  Op, expires, submits, processes, disputes, submits_evidence, submits_batch, step,
}

expire_one-claims :
    (now i : ℕ) (s : PropertyInsurance)
    → ((expire_one now i s).1.claims ≡ s.claims)
      × ((expire_one now i s).1.claim_count ≡ s.claim_count)
unfolding expire_one
expire_one-claims now i s = elim (Option-cases (lookup i s.policies)) [
  | inl missing ↦ ground arith
  | inr (p, here) ↦ elim (Option-cases (lookup p.pool_id s.pools)) [
    | inl no_pool ↦ ground arith
    | inr (q, there) ↦ ground arith
  ]
]

expire_loop-claims :
    (rounds now limit i n : ℕ) (s : PropertyInsurance)
    → ((expire_loop rounds now limit i n s).1.claims ≡ s.claims)
      × ((expire_loop rounds now limit i n s).1.claim_count ≡ s.claim_count)
unfolding expire_loop
expire_loop-claims zero now limit i n s = (refl, refl)
expire_loop-claims (suc rounds) now limit i n s =
    let r = expire_one now i s in
    elim (Bool-cases (ltb n limit)) [
      | inl goes_on ↦
          let (one, one_count) = expire_one-claims now i s in
          let (all, all_count) =
            expire_loop-claims rounds now limit (i + 1) (if r.0 then sat_u64 (n + 1) else n) r.1 in
          rw goes_on (all ∙ one, all_count ∙ one_count)
      | inr stops ↦ rw stops (refl, refl)
    ]

-- The messages that take claims in hand.
abbrev pub takes_claims : Op → Bool
takes_claims (submits _ _ _ _ _) = true
takes_claims (processes _ _ _ _) = true
takes_claims (submits_evidence _ _) = true
takes_claims (submits_batch _ _) = true
takes_claims (disputes _) = true
takes_claims _ = false

pub plain_step :
    (f : Accepts) (env : Env) (op : Op) (s : PropertyInsurance)
    → takes_claims op ≡ false
    → ((step f env op s).claims ≡ s.claims) × ((step f env op s).claim_count ≡ s.claim_count)
unfolding step create_risk_pool deposit_liquidity configure_pool_vesting withdraw_liquidity
    file_provider claim_rewards take_rewards reinvest_rewards compound claim_vested_rewards
    pay_vested update_risk_assessment create_policy create_parametric_policy renew_policy
    cancel_policy leave_pool expire_policies list_token_for_sale purchase_token register_reinsurance
    verify_evidence grant_role revoke_role authorize_oracle authorize_assessor set_oracle_contract
    set_platform_fee_rate set_claim_cooldown propose_pause execute_pause pause unpause
    propose_set_admin execute_set_admin cancel_pending_admin update_actuarial_model
    set_underwriting_criteria
plain_step f env (submits i x d e n) s plain = absurd (cc)
plain_step f env (processes i b u r) s plain = absurd (cc)
plain_step f env (submits_evidence i l) s plain = absurd (cc)
plain_step f env (submits_batch i l) s plain = absurd (cc)
plain_step f env (disputes i) s plain = absurd (cc)
plain_step f env (expires n) s plain =
    expire_loop-claims s.policy_count env.block_timestamp (if n == 0 then s.policy_count else n) 1 0
      s
plain_step f env op s plain = (ground arith, ground arith)
