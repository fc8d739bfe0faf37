-- ===== src/Claims/Tests.antt =====
-- A claim that is submitted, reviewed, approved and settled, with other contracts that answer every
-- question and pay.
use stellar_soroban_contract.Prelude.{
  if◌then◌else◌, ◌==◌, nat_eq, string_eq, ℤ, pos, ◌+ℤ◌, lookup, insert, remove, ◌≡◌, refl, subst,
  true, some, List, [], ◌∷◌, arith,
}
use stellar_soroban_contract.Host.{Symbol, Env, host_error, Result, ok, err}
use stellar_soroban_contract.InsuranceTypes.{
  active, standard, InsurancePolicy, approved, settled, InsuranceClaim, PoolStats,
}
use stellar_soroban_contract.Interop.{
  Val, void, bool, i128_val, address, policy_val, stats_val, Contracts, World,
}
use stellar_soroban_contract.Sample.{by}
use stellar_soroban_contract.Claims.{
  submission, review, approval, settlement, State, deployed, Op, initializes, submits, reviews,
  approves, settles, initialize, start_review, approve_claim, submit_claim, settle_claim, step, run,
}
use stellar_soroban_contract.Claims.Workflow.{ClaimsEffect, step-ClaimsEffect}
use stellar_soroban_contract.Claims.Locks.{
  IsIndexed, deployed-IsIndexed, run-IsIndexed, one_open_claim,
}
use stellar_soroban_contract.Claims.Payment.{settled_total, PaysOut, run-conserves, closed_for_good}

abbrev cover : InsurancePolicy
cover = record {
  policy_id = 7;
  holder = 2;
  coverage_amount = pos 1000;
  premium_amount = pos 10;
  start_time = 0;
  duration_days = 30;
  policy_type = standard;
  status = active;
  risk_pool = 9;
}

abbrev funds : PoolStats
funds = record {
  total_capital = pos 5000;
  available_capital = pos 5000;
  total_claims_paid = pos 0;
  provider_count = 1;
}

-- The storage of the others is the sum that they have paid.
abbrev pay : List Val → ℤ → Result (Val × ℤ)
pay (address to ∷ i128_val x ∷ []) w = ok (void, w +ℤ x)
pay _ w = err host_error

abbrev answer : Symbol → Val
answer f =
    if f == "is_active"
    then bool true
    else if f == "get_pol"
    then policy_val cover
    else stats_val funds

abbrev others : Contracts ℤ
others = record {
  invoke = λ env a f args w. if f == "payout" then pay args w else ok (answer f, w);
}

abbrev paid_out : ℤ → ℤ
paid_out w = w

others-PaysOut : PaysOut others paid_out
others-PaysOut = record {
  is_active_reads = λ env a args w w' v h. cc;
  get_pol_reads = λ env a args w w' v h. cc;
  get_stats_reads = λ env a args w w' v h. cc;
  payout_pays = λ env a to x w w' v h. cc;
}

abbrev start_world : World State ℤ
start_world = record { own = deployed; others = pos 0 }

abbrev history : List (Env × Op)
history =
    (by 1 0, initializes 1 8 9)
    ∷ (by 2 10, submits 7 (pos 300))
    ∷ (by 1 20, reviews 1)
    ∷ (by 1 30, approves 1)
    ∷ []

abbrev claimed : InsuranceClaim
claimed = record {
  claim_id = 1;
  policy_id = 7;
  claimant = 2;
  amount = pos 300;
  status = approved;
  submitted_at = 10;
}

abbrev approved_world : World State ℤ
approved_world = record {
  own = record {
    admin = some 1;
    policy_contract = some 8;
    risk_pool = some 9;
    claims = (1, claimed) ∷ [];
    claim_counter = some 1;
    policy_active_claim = (7, 1) ∷ [];
    events = approval 1 7 (pos 300) 2 ∷ review 1 7 (pos 300) ∷ submission 1 7 2 (pos 300) ∷ [];
  };
  others = pos 0;
}

history-approved : run others history start_world ≡ approved_world
unfolding run step initialize submit_claim start_review approve_claim lookup insert
history-approved = refl

approved-IsIndexed : IsIndexed approved_world.own
approved-IsIndexed =
    subst (λ (w : World State ℤ). IsIndexed w.own) history-approved
      (run-IsIndexed others history start_world (omega arith) deployed-IsIndexed)

abbrev settling : List (Env × Op)
settling = (by 1 40, settles 1) ∷ (by 1 50, settles 1) ∷ []

abbrev settled_world : World State ℤ
settled_world = record {
  own = record approved_world.own {
    claims = (1, record claimed { status = settled }) ∷ [];
    policy_active_claim = [];
    events = settlement 1 (pos 300) 2 ∷ approved_world.own.events;
  };
  others = pos 300;
}

settling-settled : run others settling approved_world ≡ settled_world
unfolding run step settle_claim lookup insert remove ◌+ℤ◌
settling-settled = refl

settled-IsIndexed : IsIndexed settled_world.own
settled-IsIndexed =
    subst (λ (w : World State ℤ). IsIndexed w.own) settling-settled
      (run-IsIndexed others settling approved_world (omega arith) approved-IsIndexed)

step-ClaimsEffect_example :
    ClaimsEffect others
      (by 1 40)
      approved_world
      (step others (by 1 40) (settles 1) approved_world).own
      (step others (by 1 40) (settles 1) approved_world).others
step-ClaimsEffect_example = step-ClaimsEffect others (by 1 40) (settles 1) approved_world

run-IsIndexed_example : IsIndexed (run others history start_world).own
run-IsIndexed_example = run-IsIndexed others history start_world (omega arith) deployed-IsIndexed

-- The second submission for the policy is refused.
one_open_claim_example : claimed.claim_id ≡ 1
unfolding run step submit_claim lookup
one_open_claim_example =
    one_open_claim others ((by 2 35, submits 7 (pos 300)) ∷ []) approved_world (omega arith)
      approved-IsIndexed 1 1 claimed claimed refl refl refl refl refl

run-conserves_example :
    let v = run others settling approved_world in
    paid_out v.others +ℤ settled_total approved_world.own ≡ pos 0 +ℤ settled_total v.own
run-conserves_example =
    run-conserves others others-PaysOut settling approved_world (omega arith) approved-IsIndexed

closed_for_good_example :
    lookup 1 (run others settling settled_world).own.claims
    ≡ some (record claimed { status = settled })
unfolding lookup
closed_for_good_example =
    closed_for_good others settling settled_world (omega arith) settled-IsIndexed 1
      (record claimed { status = settled }) refl refl
