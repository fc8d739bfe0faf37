-- ===== src/Insurance/Deciding.antt =====
-- contracts/insurance/src/insurance_impl.rs: a claim is decided once.
use stellar_soroban_contract.Prelude.{
  if◌then◌else◌, Bool-cases, Option-cases, nat_beq_self, ◌==◌, nat_eq, string_eq, pair_eq,
  push_back, u32, lookup, insert, lookup-insert, ℕ, ◌+◌, ◌-◌, ◌≤◌, String, ◌≡◌, refl, ap, inl, inr,
  Bool, true, some, [], ◌∷◌, arith,
}
use stellar_soroban_contract.Ink.{Env, ok, unwrap_or, Outcome-cases}
use stellar_soroban_contract.Insurance.Types.{
  approved, rejected, paid, InsurancePolicy, InsuranceClaim,
}
use stellar_soroban_contract.Insurance.Storage.{claim_submitted, PropertyInsurance, is_open}
use stellar_soroban_contract.Insurance.Payouts.{
  pay_claim, execute_payout, assessed, approve_claim, reject_claim, process_claim_inner,
  process_claim,
}
use stellar_soroban_contract.Insurance.Claims.{auto_verify, enter_claim}
use stellar_soroban_contract.Insurance.Decisions.{
  IsFiled, Continues, replace-Continues, settled, pay_claim-claims,
}

approve_claim-claims :
    (env : Env) (i : ℕ) (c : InsuranceClaim) (s t : PropertyInsurance)
    → approve_claim env i c s ≡ ok (tt, t)
    → (payout : ℕ) × (payout ≤ c.claim_amount)
      × ((k : ℕ)
          → lookup k t.claims ≡ (if k == i then some (settled payout c) else lookup k s.claims))
      × (t.claim_count ≡ s.claim_count)
unfolding approve_claim execute_payout
approve_claim-claims env i c s t h = elim (Option-cases (lookup c.policy_id s.policies)) [
  | inl missing ↦ absurd (ground arith)
  | inr (p, here) ↦
      let payout = c.claim_amount - p.deductible in
      let c' : InsuranceClaim = record c { payout_amount = payout; status = approved } in
      let first : PropertyInsurance = record s { claims = insert i c' s.claims } in
      let mine : lookup i first.claims ≡ some c' =
        ground (arith, lookup-insert i i c' s.claims, nat_beq_self i) in
      elim (Bool-cases (payout == 0)) [
        | inl nothing_due ↦
            (payout, omega arith, λ k. ground (arith, lookup-insert k i c' s.claims), ground arith)
        | inr something ↦
            elim (Outcome-cases (pay_claim env i c.policy_id c.claimant payout first)) [
              | inr (inl (e, bad)) ↦ absurd (ground arith)
              | inr (inr bad) ↦ absurd (ground arith)
              | inl ((u, t1), fine) ↦
                  let (after, count) =
                    pay_claim-claims env i c.policy_id c.claimant payout c' first t1 mine fine in
                  let paid_claim : InsuranceClaim = record c' { status = paid } in
                  (
                    payout,
                    omega arith,
                    λ k. ground (
                      arith,
                      lookup-insert k i c' s.claims,
                      lookup-insert k i paid_claim first.claims,
                      ap (λ m. lookup k m) after,
                    ),
                    ground (arith, count),
                  )
            ]
      ]
]

-- Processing replaces one open claim by a decided one.
process_inner-Continues :
    (env : Env) (i : ℕ) (b : Bool) (u r : String) (s t : PropertyInsurance)
    → IsFiled s
    → process_claim_inner env i b u r s ≡ ok (tt, t)
    → Continues s t × (t.claim_count ≡ s.claim_count)
unfolding process_claim_inner reject_claim
process_inner-Continues env i b u r s t v h = elim (Option-cases (lookup i s.claims)) [
  | inl missing ↦ absurd (ground arith)
  | inr (c, here) ↦
      let looked_at = assessed env u c in
      let was_open : is_open c.status ≡ true = ground arith in
      elim (Bool-cases b) [
        | inl yes_pay ↦
            let (payout, small, found, count) =
              approve_claim-claims env i looked_at s t (ground arith) in
            (
              replace-Continues s t i c (settled payout looked_at) v here
                  (record { terms = (refl, refl, refl); final = λ closed. absurd (cc) }) small found
                  count,
              count,
            )
        | inr no_pay ↦
            let refused : InsuranceClaim = record looked_at {
              status = rejected;
              rejection_reason = r;
            } in
            let found = λ (k : ℕ). lookup-insert k i refused s.claims in
            (
              replace-Continues s t i c refused v here
                  (record { terms = (refl, refl, refl); final = λ closed. absurd (cc) })
                  (v.limited i c here) (λ k. ground (arith, found k)) (ground arith),
              ground arith,
            )
      ]
]

pub process_claim-Continues :
    (env : Env) (i : ℕ) (b : Bool) (u r : String) (s t : PropertyInsurance)
    → IsFiled s
    → process_claim env i b u r s ≡ ok (tt, t)
    → Continues s t × (t.claim_count ≡ s.claim_count)
unfolding process_claim
process_claim-Continues env i b u r s t v h =
    process_inner-Continues env i b u r s t v (ground arith)

pub enter_claim-claims :
    (env : Env) (i : ℕ) (p : InsurancePolicy) (c : InsuranceClaim) (n id : ℕ)
    (s t : PropertyInsurance)
    → enter_claim env i p c n s ≡ ok (id, t)
    → (t.claims ≡ insert c.claim_id c s.claims) × (t.claim_count ≡ s.claim_count)
unfolding enter_claim
enter_claim-claims env i p c n id s t h = (ground arith, ground arith)

pub auto_verify-claims :
    (env : Env) (i : ℕ) (p : InsurancePolicy) (c : InsuranceClaim) (id : ℕ)
    (s t : PropertyInsurance)
    → auto_verify env i p c s ≡ ok (id, t)
    → (u : PropertyInsurance) × (u.claims ≡ insert c.claim_id c s.claims)
      × (u.claim_count ≡ s.claim_count)
      × (process_claim env c.claim_id true "Auto-verified by ClaimOracle" "" u ≡ ok (tt, t))
unfolding auto_verify
auto_verify-claims env i p c id s t h =
    let filed : PropertyInsurance = record s {
      claims = insert c.claim_id c s.claims;
      policy_claims =
          insert i (push_back (unwrap_or [] (lookup i s.policy_claims)) c.claim_id) s.policy_claims;
      policies = insert i (record p { claims_count = u32 (p.claims_count + 1) }) s.policies;
      events =
          claim_submitted c.claim_id i env.caller c.claim_amount env.block_timestamp ∷ s.events;
    } in
    (filed, refl, refl, ground arith)
