-- ===== src/Insurance/Tests.antt =====
-- contracts/insurance/src: runs of the contract, and the theorems at concrete inputs.
use stellar_soroban_contract.Prelude.{
  leb, if◌then◌else◌, nat_eq, string_eq, pair_eq, part_of, lookup, insert, ℕ, zero, suc, ◌-◌, ◌*◌,
  ◌≤◌, ◌<◌, ◌≡◌, refl, ◌⊎◌, true, false, ◌&&◌, none, some, List, [], ◌∷◌, arith,
}
use stellar_soroban_contract.Ink.{AccountId, Env, ok, err, kept, is_ok}
use stellar_soroban_contract.Insurance.Premiums.{premium_for_bounds}
use stellar_soroban_contract.Insurance.Filing.{renewed_cannot_claim, submit_claim_once}
use stellar_soroban_contract.Insurance.Withdrawals.{stake_of, withdraw_liquidity_pays_nothing}
use stellar_soroban_contract.Insurance.Authority.{settings}
use stellar_soroban_contract.Insurance.Governing.{run-settings, execute_set_admin_decides}
use stellar_soroban_contract.Insurance.Decisions.{Later, IsFiled}
use stellar_soroban_contract.Insurance.Finality.{run-Continues}
use stellar_soroban_contract.Insurance.Types.{
  nonce_already_used, active, standard, parametric, fire, comprehensive, pending, disputed, low,
  EvidenceMetadata, InsurancePolicy, InsuranceClaim, RiskPool, PoolLiquidityProvider,
}
use stellar_soroban_contract.Insurance.Rbac.{Role, admin_role, has_role}
use stellar_soroban_contract.Insurance.Storage.{PropertyInsurance, Accepts}
use stellar_soroban_contract.Insurance.Pools.{
  synced_reward_debt, pending_reward_amount, early_penalty, scheduled_provider, scheduled_pool,
  file_provider, withdraw_liquidity,
}
use stellar_soroban_contract.Insurance.Underwriting.{premium_for}
use stellar_soroban_contract.Insurance.Payouts.{
  pay_claim, execute_payout, approve_claim, reject_claim, process_claim_inner, process_claim,
  move_to_dispute,
}
use stellar_soroban_contract.Insurance.Claims.{
  nonce_of, check_evidence, check_cover, enter_claim, submit_claim,
}
use stellar_soroban_contract.Insurance.Admin.{execute_set_admin}
use stellar_soroban_contract.Insurance.{
  fresh, Op, withdraws, submits, processes, disputes, grants, sets_fee_rate, pauses, step, run,
}
use stellar_soroban_contract.Insurance.Policies.{renew_policy}

abbrev at : AccountId → ℕ → ℕ → Env
at a t v = record { caller = a; block_timestamp = t; transferred_value = v }

abbrev any : Accepts
any a x = true

abbrev pool : RiskPool
pool = record {
  pool_id = 1;
  name = "homes";
  coverage_type = fire;
  total_capital = 5000;
  available_capital = 5000;
  total_premiums_collected = 0;
  total_claims_paid = 0;
  active_policies = 1;
  max_coverage_ratio = 10000;
  reinsurance_threshold = 100000;
  created_at = 10;
  is_active = true;
  total_provider_stake = 5000;
  accumulated_reward_per_share = 0;
  vesting_cliff_seconds = 0;
  vesting_duration_seconds = 0;
  early_withdrawal_penalty_bps = 0;
}

abbrev provider : PoolLiquidityProvider
provider = record {
  provider = 4;
  pool_id = 1;
  provider_stake = 5000;
  reward_debt = 0;
  deposited_at = 10;
  vesting_total = 0;
  vesting_claimed = 0;
  vesting_start = 0;
}

abbrev policy : InsurancePolicy
policy = record {
  policy_id = 1;
  property_id = 9;
  policyholder = 7;
  coverage_type = fire;
  coverage_amount = 1000;
  premium_amount = 20;
  deductible = 50;
  start_time = 10;
  end_time = 9_000_000;
  status = active;
  risk_level = low;
  pool_id = 1;
  claims_count = 0;
  total_claimed = 0;
  metadata_url = "";
  policy_type = standard;
  event_id = none;
}

abbrev zeros : ℕ → List ℕ
zeros zero = []
zeros (suc n) = 0 ∷ zeros n

abbrev photo : EvidenceMetadata
photo = record {
  evidence_type = "photo";
  reference_uri = "ipfs://Qm1";
  content_hash = zeros 32;
  description = none;
}

abbrev office : PropertyInsurance
office = record (fresh 1) {
  role_manager = ((1, 0), true) ∷ ((2, 1), true) ∷ [];
  policies = (1, policy) ∷ [];
  policy_count = 1;
  pools = (1, pool) ∷ [];
  pool_count = 1;
  liquidity_providers = ((1, 4), provider) ∷ [];
  pool_providers = (1, 4 ∷ []) ∷ [];
}

premium_for_bounds_example :
    let p = premium_for 10 1_000_000_000_000 comprehensive in
    (p.annual_premium * 1_000_000 ≤ 1_000_000_000_000 * 15)
    × (p.monthly_premium * 12 ≤ p.annual_premium)
    × (p.deductible * 50 ≤ 1_000_000_000_000)
premium_for_bounds_example = premium_for_bounds 10 1_000_000_000_000 comprehensive

-- The premium for a year of the riskiest cover of 10 ^ 12 is 15 000 000.
dearest : (premium_for 10 1_000_000_000_000 comprehensive).annual_premium ≡ 15_000_000
unfolding premium_for
dearest = refl

abbrev renewed_office : PropertyInsurance
renewed_office = kept (renew_policy (at 7 2_900_000 500) 1 100) office

renewed_cannot_claim_example :
    is_ok (submit_claim (at 7 3_000_000 0) 1 300 "fire" photo 0 renewed_office) ≡ false
unfolding renew_policy lookup insert
renewed_cannot_claim_example =
    renewed_cannot_claim (at 7 2_900_000 500) 1 100 office renewed_office refl (at 7 3_000_000 0)
      300 "fire" photo 0

abbrev flight : InsurancePolicy
flight = record policy { policy_type = parametric; event_id = some 101 }

abbrev parametric_office : PropertyInsurance
parametric_office = record office { policies = (1, flight) ∷ []; oracle_contract = some 6 }

abbrev claim_filed : PropertyInsurance
claim_filed = kept (submit_claim (at 7 3_000_000 0) 1 300 "fire" photo 0) office

claim_accepted : submit_claim (at 7 3_000_000 0) 1 300 "fire" photo 0 office ≡ ok (1, claim_filed)
unfolding submit_claim check_evidence check_cover enter_claim lookup insert
claim_accepted = refl

submit_claim_once_example :
    (nonce_of 7 claim_filed ≡ 1)
    × (submit_claim (at 7 9_000_000 0) 1 100 "more" photo 0 claim_filed ≡ err nonce_already_used)
    × (photo.evidence_type ≡ photo.evidence_type
        → is_ok (submit_claim (at 7 9_000_000 0) 1 100 "more" photo 1 claim_filed) ≡ false)
unfolding lookup
submit_claim_once_example =
    submit_claim_once (at 7 3_000_000 0) (at 7 9_000_000 0) 1 300 1 100 "fire" "more" photo photo 0
      1 policy office claim_filed (omega arith) refl refl refl claim_accepted

withdraw_liquidity_pays_nothing_example :
    let t = kept (withdraw_liquidity (at 4 20 0) 1 2000) office in
    (t.transfers ≡ [])
    × ((t ≡ office)
        ⊎ ((q r : RiskPool) × (p : PoolLiquidityProvider) × (lookup 1 office.pools ≡ some q)
            × (lookup 1 t.pools ≡ some r)
            × (lookup (1, 4) office.liquidity_providers ≡ some p)
            × (0 < 2000)
            × (2000 ≤ p.provider_stake)
            × (stake_of 1 4 t ≡ p.provider_stake - 2000)
            × (r.total_provider_stake ≡ q.total_provider_stake - 2000)
            × (r.total_capital ≡ q.total_capital - 2000)))
withdraw_liquidity_pays_nothing_example = withdraw_liquidity_pays_nothing (at 4 20 0) 1 2000 office

-- The stake falls to 3000, and nothing is sent.
withdrawn : stake_of 1 4 (kept (withdraw_liquidity (at 4 20 0) 1 2000) office) ≡ 3000
unfolding withdraw_liquidity file_provider scheduled_provider scheduled_pool pending_reward_amount
    synced_reward_debt early_penalty lookup insert
withdrawn = refl

abbrev others : List (Env × Op)
others =
    (at 7 20 0, sets_fee_rate 0)
    ∷ (at 4 21 0, withdraws 1 100)
    ∷ (at 2 22 0, grants 2 admin_role)
    ∷ (at 7 23 0, pauses)
    ∷ []

run-settings_example : settings (run any others office) ≡ settings office
unfolding has_role lookup
run-settings_example = run-settings any others office (refl, (refl, (refl, (refl, tt))))

abbrev handing_over : PropertyInsurance
handing_over = record office { pending_admin = some 5; pending_admin_after = some 90_000 }

execute_set_admin_decides_example :
    let taken = has_role 1 admin_role handing_over.role_manager && leb 90_000 95_000 in
    let after = kept (execute_set_admin (at 1 95_000 0)) handing_over in
    (is_ok (execute_set_admin (at 1 95_000 0) handing_over) ≡ taken)
    × (after.admin ≡ (if taken then 5 else 1))
    × (after.pending_admin ≡ (if taken then none else some 5))
    × (after.pending_admin_after ≡ (if taken then none else some 90_000))
    × ((b : AccountId) (r : Role)
        → has_role b r after.role_manager ≡ has_role b r handing_over.role_manager)
execute_set_admin_decides_example =
    execute_set_admin_decides (at 1 95_000 0) handing_over 5 90_000 refl refl

abbrev decisions : List (Env × Op)
decisions =
    (at 7 3_000_000 0, submits 1 300 "fire" photo 0)
    ∷ (at 2 3_000_100 0, processes 1 true "report" "")
    ∷ (at 2 3_000_200 0, processes 1 false "" "no")
    ∷ []

abbrev decided_office : PropertyInsurance
decided_office = run any decisions office

decided_office-IsFiled : IsFiled decided_office
unfolding lookup
decided_office-IsFiled =
    (run-Continues any decisions office (omega arith)
      (record { numbered = λ k c h. absurd (cc); limited = λ k c h. absurd (cc) })).0

one_claim : decided_office.claim_count ≡ 1
unfolding run step submit_claim check_evidence check_cover enter_claim process_claim
    process_claim_inner approve_claim reject_claim execute_payout pay_claim has_role lookup insert
one_claim = refl

-- A paid claim is refused a second decision, is disputed, and is refused a third one.
abbrev aftermath : List (Env × Op)
aftermath =
    (at 2 3_000_300 0, processes 1 false "" "no")
    ∷ (at 7 3_000_400 0, disputes 1)
    ∷ (at 2 3_000_500 0, processes 1 true "again" "")
    ∷ []

run-Continues_example :
    IsFiled (run any aftermath decided_office)
    × ((k : ℕ) (a : InsuranceClaim)
        → lookup k decided_office.claims ≡ some a
        → (b : InsuranceClaim) × (lookup k (run any aftermath decided_office).claims ≡ some b)
          × Later a b)
run-Continues_example =
    run-Continues any aftermath decided_office (omega (arith, one_claim)) decided_office-IsFiled

-- The claim is paid 250, which the pool and the policy book, and a second decision changes nothing.
decided :
    let s = run any decisions office in
    (part_of (λ c. c.payout_amount) (lookup 1 s.claims) ≡ 250)
    × (part_of (λ q. q.available_capital) (lookup 1 s.pools) ≡ 4750)
    × (part_of (λ p. p.total_claimed) (lookup 1 s.policies) ≡ 250)
unfolding run step submit_claim check_evidence check_cover enter_claim process_claim
    process_claim_inner approve_claim reject_claim execute_payout pay_claim has_role lookup insert
decided = (refl, refl, refl)

disputed_later :
    let s = run any aftermath decided_office in
    (part_of (λ c. c.payout_amount) (lookup 1 s.claims) ≡ 250)
    × (elim (lookup 1 s.claims) [ none ↦ pending | some c ↦ c.status ] ≡ disputed)
unfolding run step submit_claim check_evidence check_cover enter_claim process_claim
    process_claim_inner approve_claim reject_claim execute_payout pay_claim has_role move_to_dispute
    lookup insert
disputed_later = (refl, refl)
