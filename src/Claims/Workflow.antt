-- ===== src/Claims/Workflow.antt =====
-- contracts/claims/src/lib.rs: the stages of one claim, as a step relation.
use stellar_soroban_contract.Prelude.{
  if◌then◌else◌, Option-cases, nat_eq, ℤ, pos, ◌≤ℤ◌, ◌<ℤ◌, u64, lookup, insert, remove, ℕ, ◌+◌, ◌≡◌,
  refl, subst, inl, inr, Bool, true, false, none, some, arith,
}
use stellar_soroban_contract.Host.{Address, Env, ok, Call, kept, is_some, kept_cases, Result-cases}
use stellar_soroban_contract.InsuranceTypes.{
  InsurancePolicy, ClaimStatus, submitted, under_review, approved, rejected, settled,
  InsuranceClaim,
}
use stellar_soroban_contract.Interop.{Contracts, World}
use stellar_soroban_contract.Claims.{
  State, is_submitted, is_under_review, is_approved, Op, initializes, submits, reviews, approves,
  rejects, settles, counter_of, initialize, file_claim, start_review, approve_claim, reject_claim,
  close_settled, fetch_policy, submit_claim, pay_out, settle_claim, step,
}

-- A claim that holds the lock of its policy.
abbrev pub is_open : ClaimStatus → Bool
is_open submitted = true
is_open under_review = true
is_open approved = true
is_open _ = false

abbrev pub is_settled : ClaimStatus → Bool
is_settled settled = true
is_settled _ = false

-- Submitted → UnderReview → Approved or Rejected, and Approved → Settled.
infix 40 ◌⟶◌
pub data ◌⟶◌ : ClaimStatus → ClaimStatus → Type 0 where
  start : submitted ⟶ under_review
  approve : under_review ⟶ approved
  reject : under_review ⟶ rejected
  settle : approved ⟶ settled

-- The addresses that `initialize` stores are the same.
abbrev pub SameConfig : State → State → Type 0
SameConfig s t =
    (t.admin ≡ s.admin) × (t.policy_contract ≡ s.policy_contract) × (t.risk_pool ≡ s.risk_pool)

module _ {W : Type 0} (contracts : Contracts W) where
  -- What a move to a stage does outside the contract: a settlement is the payment that the risk
  -- pool makes, any other move nothing.
  abbrev pub Outside : Env → InsuranceClaim → ClaimStatus → World State W → W → Type 0
  Outside env c settled w o =
      (r : World State W) × (pay_out contracts env c w ≡ ok (tt, r)) × (o ≡ r.others)
  Outside env c _ w o = o ≡ w.others

  -- What one transaction may do to the contract's own storage `s` and to the others' `o`.
  pub data ClaimsEffect (env : Env) (w : World State W) (t : State) (o : W) : Type 0 where
    nothing : t ≡ w.own → o ≡ w.others → ClaimsEffect env w t o
    set_up :
        (a p r : Address)
        → w.own.admin ≡ none
        → t.claims ≡ w.own.claims
        → t.policy_active_claim ≡ w.own.policy_active_claim
        → t.claim_counter ≡ some 0
        → t.admin ≡ some a
        → t.policy_contract ≡ some p
        → t.risk_pool ≡ some r
        → o ≡ w.others
        → ClaimsEffect env w t o
    submit :
        (c : InsuranceClaim) (policy : InsurancePolicy) (r : World State W)
        → fetch_policy contracts env c.policy_id w ≡ ok (policy, r)
        → env.authorised policy.holder ≡ true
        → c.claimant ≡ policy.holder
        → pos 0 <ℤ c.amount
        → c.amount ≤ℤ policy.coverage_amount
        → c.claim_id ≡ u64 (counter_of w.own + 1)
        → c.status ≡ submitted
        → lookup c.policy_id w.own.policy_active_claim ≡ none
        → t.claims ≡ insert c.claim_id c w.own.claims
        → t.policy_active_claim ≡ insert c.policy_id c.claim_id w.own.policy_active_claim
        → t.claim_counter ≡ some c.claim_id
        → is_some w.own.policy_contract ≡ true
        → SameConfig w.own t
        → o ≡ r.others
        → ClaimsEffect env w t o
    advance :
        (k : ℕ) (a : Address) (c : InsuranceClaim) (next : ClaimStatus)
        → w.own.admin ≡ some a
        → env.authorised a ≡ true
        → lookup k w.own.claims ≡ some c
        → c.status ⟶ next
        → t.claims ≡ insert k (record c { status = next }) w.own.claims
        → t.policy_active_claim ≡ (
            if is_open next
            then w.own.policy_active_claim
            else remove c.policy_id w.own.policy_active_claim)
        → t.claim_counter ≡ w.own.claim_counter
        → SameConfig w.own t
        → Outside env c next w o
        → ClaimsEffect env w t o

-- The conversion of a test into the equation that it decides.
submitted_of : (st : ClaimStatus) → is_submitted st ≡ true → submitted ≡ st
submitted_of st h = ground arith

under_review_of : (st : ClaimStatus) → is_under_review st ≡ true → under_review ≡ st
under_review_of st h = ground arith

approved_of : (st : ClaimStatus) → is_approved st ≡ true → approved ≡ st
approved_of st h = ground arith

-- The three handlers that move a claim without a call of another contract.
module _ {W : Type 0} (contracts : Contracts W) (env : Env) (k : ℕ) (w v : World State W) where
  review-ClaimsEffect :
      {u : Unit {0}}
      → start_review env k w ≡ ok (u, v)
      → ClaimsEffect contracts env w v.own v.others
  unfolding start_review
  review-ClaimsEffect h = elim (Option-cases w.own.admin) [
    | inl e ↦ absurd (ground arith)
    | inr (a, ea) ↦ elim (Option-cases (lookup k w.own.claims)) [
      | inl e ↦ absurd (ground arith)
      | inr (c, ec) ↦
          advance k a c under_review ea (ground arith) ec
            (subst (λ x. x ⟶ under_review) (submitted_of c.status (ground arith)) start)
            (ground arith) (ground arith) (ground arith) (ground arith, ground arith, ground arith)
            (ground arith)
    ]
  ]

  approve-ClaimsEffect :
      {u : Unit {0}}
      → approve_claim env k w ≡ ok (u, v)
      → ClaimsEffect contracts env w v.own v.others
  unfolding approve_claim
  approve-ClaimsEffect h = elim (Option-cases w.own.admin) [
    | inl e ↦ absurd (ground arith)
    | inr (a, ea) ↦ elim (Option-cases (lookup k w.own.claims)) [
      | inl e ↦ absurd (ground arith)
      | inr (c, ec) ↦
          advance k a c approved ea (ground arith) ec
            (subst (λ x. x ⟶ approved) (under_review_of c.status (ground arith)) approve)
            (ground arith) (ground arith) (ground arith) (ground arith, ground arith, ground arith)
            (ground arith)
    ]
  ]

  reject-ClaimsEffect :
      {u : Unit {0}}
      → reject_claim env k w ≡ ok (u, v)
      → ClaimsEffect contracts env w v.own v.others
  unfolding reject_claim
  reject-ClaimsEffect h = elim (Option-cases w.own.admin) [
    | inl e ↦ absurd (ground arith)
    | inr (a, ea) ↦ elim (Option-cases (lookup k w.own.claims)) [
      | inl e ↦ absurd (ground arith)
      | inr (c, ec) ↦
          advance k a c rejected ea (ground arith) ec
            (subst (λ x. x ⟶ rejected) (under_review_of c.status (ground arith)) reject)
            (ground arith) (ground arith) (ground arith) (ground arith, ground arith, ground arith)
            (ground arith)
    ]
  ]

module _ {W : Type 0} (contracts : Contracts W) where
  initialize-ClaimsEffect :
      (env : Env) (a p r : Address) (w v : World State W) {u : Unit {0}}
      → initialize a p r w ≡ ok (u, v)
      → ClaimsEffect contracts env w v.own v.others
  unfolding initialize
  initialize-ClaimsEffect env a p r w v h =
      set_up a p r (ground arith) (ground arith) (ground arith) (ground arith) (ground arith)
        (ground arith) (ground arith) (ground arith)

  file_claim-ClaimsEffect :
      (env : Env) (p : ℕ) (x : ℤ) (policy : InsurancePolicy) (w r v : World State W) {n : ℕ}
      → fetch_policy contracts env p w ≡ ok (policy, r)
      → r.own ≡ w.own
      → is_some w.own.policy_contract ≡ true
      → file_claim env p x policy r ≡ ok (n, v)
      → ClaimsEffect contracts env w v.own v.others
  unfolding file_claim
  file_claim-ClaimsEffect env p x policy w r v fetched own set h =
      submit
        (record {
          claim_id = u64 (counter_of w.own + 1);
          policy_id = p;
          claimant = policy.holder;
          amount = x;
          status = submitted;
          submitted_at = env.timestamp;
        })
        policy r fetched (ground arith) refl (ground arith) (ground arith) refl refl (ground arith)
        (ground arith) (ground arith) (ground arith) set (ground arith, ground arith, ground arith)
        (ground arith)

  abbrev kept-ClaimsEffect :
      {A : Type 0} (env : Env) (m : Call (World State W) A) (w : World State W)
      → ((a : A) (v : World State W)
          → m w ≡ ok (a, v)
          → ClaimsEffect contracts env w v.own v.others)
      → ClaimsEffect contracts env w (kept m w).own (kept m w).others
  kept-ClaimsEffect env m w h = elim (kept_cases m w) [
    | inl same ↦ rw same (nothing refl refl)
    | inr (a, v, e, k) ↦ rw k (h a v e)
  ]

  -- The payment is the risk pool's affair: the contract's own storage does not change.
  pub own-pay_out :
      (env : Env) (c : InsuranceClaim) (w v : World State W) {u : Unit {0}}
      → pay_out contracts env c w ≡ ok (u, v)
      → v.own ≡ w.own
  unfolding pay_out
  own-pay_out env c w v h = elim (Option-cases w.own.risk_pool) [
    | inl e ↦ absurd (ground arith)
    | inr (r, e) ↦ ground arith
  ]

  settle-ClaimsEffect :
      (env : Env) (k : ℕ) (w v : World State W) {u : Unit {0}}
      → settle_claim contracts env k w ≡ ok (u, v)
      → ClaimsEffect contracts env w v.own v.others
  unfolding settle_claim close_settled
  settle-ClaimsEffect env k w v h = elim (Option-cases w.own.admin) [
    | inl e ↦ absurd (ground arith)
    | inr (a, ea) ↦ elim (Option-cases (lookup k w.own.claims)) [
      | inl e ↦ absurd (ground arith)
      | inr (c, ec) ↦ elim (Result-cases (pay_out contracts env c w)) [
        | inl (e, failed) ↦ absurd (ground arith)
        | inr (r, paid) ↦
            let own : r.1.own ≡ w.own = own-pay_out env c w r.1 paid in
            advance k a c settled ea (ground arith) ec
              (subst (λ x. x ⟶ settled) (approved_of c.status (ground arith)) settle) (ground arith)
              (ground arith) (ground arith) (ground arith, ground arith, ground arith)
              (r.1, paid, ground arith)
      ]
    ]
  ]

  own-fetch_policy :
      (env : Env) (p : ℕ) (w v : World State W) {policy : InsurancePolicy}
      → fetch_policy contracts env p w ≡ ok (policy, v)
      → (v.own ≡ w.own) × (is_some w.own.policy_contract ≡ true)
  unfolding fetch_policy
  own-fetch_policy env p w v h = elim (Option-cases w.own.policy_contract) [
    | inl e ↦ absurd (ground arith)
    | inr (r, e) ↦ (ground arith, ground arith)
  ]

  submit-ClaimsEffect :
      (env : Env) (p : ℕ) (x : ℤ) (w v : World State W) {n : ℕ}
      → submit_claim contracts env p x w ≡ ok (n, v)
      → ClaimsEffect contracts env w v.own v.others
  unfolding submit_claim
  submit-ClaimsEffect env p x w v {n} h = elim (Result-cases (fetch_policy contracts env p w)) [
    | inl (e, failed) ↦ absurd (ground arith)
    | inr (r, fetched) ↦
        let (own, set) = own-fetch_policy env p w r.1 fetched in
        file_claim-ClaimsEffect env p x r.0 w r.1 v {n = n} fetched own set (ground arith)
  ]

  -- Every transaction has one of four effects on the contract's own storage, whatever the other
  -- contracts answer: it changes nothing, sets the contract up once, with an admin, a policy
  -- contract and a risk pool and no claim touched, files one claim on a policy that has no open
  -- claim, by the holder's authority and for a positive amount within the coverage, or moves one
  -- claim one stage on, by the admin's authority; leaving the open stages releases the lock of the
  -- policy. The last two leave the admin and both addresses as they are.
  pub step-ClaimsEffect :
      (env : Env) (op : Op) (w : World State W)
      → ClaimsEffect contracts env w (step contracts env op w).own (step contracts env op w).others
  unfolding step
  step-ClaimsEffect env (initializes a p r) w =
      kept-ClaimsEffect env (initialize a p r) w (λ n v. initialize-ClaimsEffect env a p r w v)
  step-ClaimsEffect env (submits p x) w =
      kept-ClaimsEffect env (submit_claim contracts env p x) w
        (λ n v. submit-ClaimsEffect env p x w v)
  step-ClaimsEffect env (reviews k) w =
      kept-ClaimsEffect env (start_review env k) w (λ n v. review-ClaimsEffect contracts env k w v)
  step-ClaimsEffect env (approves k) w =
      kept-ClaimsEffect env (approve_claim env k) w
        (λ n v. approve-ClaimsEffect contracts env k w v)
  step-ClaimsEffect env (rejects k) w =
      kept-ClaimsEffect env (reject_claim env k) w (λ n v. reject-ClaimsEffect contracts env k w v)
  step-ClaimsEffect env (settles k) w =
      kept-ClaimsEffect env (settle_claim contracts env k) w (λ n v. settle-ClaimsEffect env k w v)
