-- ===== src/Governance/Steps.antt =====
-- contracts/governance/src/lib.rs: which effect a transaction has.
use stellar_soroban_contract.Prelude.{
  Option-cases, nat_eq, pair_eq, ℤ, ◌+ℤ◌, u64, i128, lookup, remove, ℕ, ◌+◌, String, ◌≡◌, refl, inl,
  inr, Bool, true, Option, none, some, arith,
}
use stellar_soroban_contract.Host.{Address, Symbol, Env, ok, Call, kept, kept_cases, Result-cases}
use stellar_soroban_contract.InsuranceTypes.{
  Proposal, GovernanceAction, claim_approval, fund_allocation, policy_change,
}
use stellar_soroban_contract.Interop.{Contracts, World}
use stellar_soroban_contract.Governance.{
  initialize, create_proposal, create_slashing_proposal, create_claim_approval_proposal,
  create_fund_allocation_proposal, vote, finalize_proposal, check_threshold, mark_executed, Op,
  initializes, creates, creates_slashing, creates_claim_approval, creates_fund_allocation, votes,
  finalizes, executes, executes_slashing, perform, perform_pending, execute_proposal,
  execute_slashing_proposal, step,
}
use stellar_soroban_contract.Governance.Effects.{
  meets_threshold, GovernanceEffect, nothing, set_up, propose, cast, finalize, execute,
}
use stellar_soroban_contract.Governance.Types.{State, counter_of, opened, deadline, percentage}

module _ {W : Type 0} (contracts : Contracts W) where
  initialize-GovernanceEffect :
      (env : Env) (a k s : Address) (n : ℕ) (c r p : Address) (w v : World State W) {u : Unit {0}}
      → initialize a k s n c r p w ≡ ok (u, v)
      → GovernanceEffect contracts env w v.own v.others
  unfolding initialize
  initialize-GovernanceEffect env a k s n c r p w v h =
      set_up (ground arith) (ground arith) (ground arith) (ground arith) (ground arith)
        (ground arith) (ground arith)

  create-GovernanceEffect :
      (env : Env) (c : Address) (a d e : String) (h : ℕ) (w v : World State W) {n : ℕ}
      → create_proposal env c a d e h w ≡ ok (n, v)
      → GovernanceEffect contracts env w v.own v.others
  unfolding create_proposal
  create-GovernanceEffect env c a d e h w v g = elim (Option-cases w.own.voting_period) [
    | inl x ↦ absurd (ground arith)
    | inr (y, x) ↦
        propose (opened (u64 (counter_of w.own + 1)) a d e c (deadline env y) h) y (ground arith) x
          refl refl refl refl refl refl (ground arith) (ground arith) (ground arith)
          (ground arith, ground arith) (ground arith)
  ]

  create_slashing-GovernanceEffect :
      (env : Env) (c b : Address) (r : Symbol) (a : String) (x : ℤ) (h : ℕ) (w v : World State W)
      {n : ℕ}
      → create_slashing_proposal env c b r a x h w ≡ ok (n, v)
      → GovernanceEffect contracts env w v.own v.others
  unfolding create_slashing_proposal
  create_slashing-GovernanceEffect env c b r a x h w v g = elim (Option-cases w.own.voting_period) [
    | inl x ↦ absurd (ground arith)
    | inr (y, x) ↦
        propose
          (opened (u64 (counter_of w.own + 1)) "Slashing Proposal" a "slash_call" c (deadline env y)
            h)
          y (ground arith) x refl refl refl refl refl refl (ground arith) (ground arith)
          (ground arith) (ground arith, ground arith) (ground arith)
  ]

  create_claim-GovernanceEffect :
      (env : Env) (c : Address) (b h : ℕ) (w v : World State W) {n : ℕ}
      → create_claim_approval_proposal env c b h w ≡ ok (n, v)
      → GovernanceEffect contracts env w v.own v.others
  unfolding create_claim_approval_proposal
  create_claim-GovernanceEffect env c b h w v g = elim (Option-cases w.own.voting_period) [
    | inl x ↦ absurd (ground arith)
    | inr (y, x) ↦
        propose
          (opened (u64 (counter_of w.own + 1)) "Claim Approval Proposal"
            "DAO vote required for claim approval" "approve_claim" c (deadline env y) h)
          y (ground arith) x refl refl refl refl refl refl (ground arith) (ground arith)
          (ground arith) (ground arith, ground arith) (ground arith)
  ]

  create_fund-GovernanceEffect :
      (env : Env) (c b : Address) (z : ℤ) (h : ℕ) (w v : World State W) {n : ℕ}
      → create_fund_allocation_proposal env c b z h w ≡ ok (n, v)
      → GovernanceEffect contracts env w v.own v.others
  unfolding create_fund_allocation_proposal
  create_fund-GovernanceEffect env c b z h w v g = elim (Option-cases w.own.voting_period) [
    | inl x ↦ absurd (ground arith)
    | inr (y, x) ↦
        propose
          (opened (u64 (counter_of w.own + 1)) "Fund Allocation Proposal"
            "DAO vote required for fund allocation" "allocate_funds" c (deadline env y) h)
          y (ground arith) x refl refl refl refl refl refl (ground arith) (ground arith)
          (ground arith) (ground arith, ground arith) (ground arith)
  ]

  vote-GovernanceEffect :
      (env : Env) (b : Address) (k : ℕ) (z : ℤ) (y : Bool) (w v : World State W) {u : Unit {0}}
      → vote env b k z y w ≡ ok (u, v)
      → GovernanceEffect contracts env w v.own v.others
  unfolding vote
  vote-GovernanceEffect env b k z y w v h = elim (Option-cases (lookup k w.own.proposals)) [
    | inl x ↦ absurd (ground arith)
    | inr (p, x) ↦
        cast b k z y p (ground arith) x (ground arith) (ground arith) (ground arith) (ground arith)
          (ground arith) (ground arith, ground arith) (ground arith)
  ]

  finalize-GovernanceEffect :
      (env : Env) (k : ℕ) (w v : World State W) {u : Unit {0}}
      → finalize_proposal env k w ≡ ok (u, v)
      → GovernanceEffect contracts env w v.own v.others
  unfolding finalize_proposal
  finalize-GovernanceEffect env k w v h = elim (Option-cases (lookup k w.own.proposals)) [
    | inl x ↦ absurd (ground arith)
    | inr (p, x) ↦
        finalize k p x (ground arith) (ground arith) (ground arith) (ground arith)
          (ground arith, ground arith) (ground arith)
  ]

  check_threshold_meets :
      (p : Proposal) (w v : World State W) {u : Unit {0}}
      → check_threshold p w ≡ ok (u, v)
      → (v ≡ w) × (meets_threshold p ≡ true)
  unfolding check_threshold
  check_threshold_meets p w v h =
      elim (Option-cases (percentage p.yes_votes (i128 (p.yes_votes +ℤ p.no_votes)))) [
        | inl x ↦ absurd (ground arith)
        | inr (q, x) ↦ (ground arith, ground arith)
      ]

  own-perform :
      (env : Env) (a : GovernanceAction) (w v : World State W) {u : Unit {0}}
      → perform contracts env a w ≡ ok (u, v)
      → v.own ≡ w.own
  unfolding perform
  own-perform env (claim_approval c) w v h = elim (Option-cases w.own.claims_contract) [
    | inl x ↦ absurd (ground arith)
    | inr (a, x) ↦ ground arith
  ]
  own-perform env (fund_allocation b z) w v h = elim (Option-cases w.own.risk_pool_contract) [
    | inl x ↦ absurd (ground arith)
    | inr (a, x) ↦ ground arith
  ]
  own-perform env (policy_change k) w v h = elim (Option-cases w.own.policy_contract) [
    | inl x ↦ absurd (ground arith)
    | inr (a, x) ↦ ground arith
  ]

  -- An action leaves the contract's own storage alone; it is then removed from those pending.
  pub own-perform_pending :
      (env : Env) (k : ℕ) (o : Option GovernanceAction) (w v : World State W) {u : Unit {0}}
      → perform_pending contracts env k o w ≡ ok (u, v)
      → v.own ≡ record w.own {
        pending_actions = elim o [
          | none ↦ w.own.pending_actions
          | some _ ↦ remove k w.own.pending_actions
        ];
      }
  unfolding perform_pending
  own-perform_pending env k none w v h = ground arith
  own-perform_pending env k (some a) w v h = elim (Result-cases (perform contracts env a w)) [
    | inl (e, failed) ↦ absurd (ground arith)
    | inr ((_, r), done) ↦ ground (arith, own-perform env a w r done)
  ]

  execute-GovernanceEffect :
      (env : Env) (k : ℕ) (w v : World State W) {u : Unit {0}}
      → execute_proposal contracts env k w ≡ ok (u, v)
      → GovernanceEffect contracts env w v.own v.others
  unfolding execute_proposal mark_executed
  execute-GovernanceEffect env k w v h = elim (Option-cases (lookup k w.own.proposals)) [
    | inl x ↦ absurd (ground arith)
    | inr (p, x) ↦ elim (Result-cases (check_threshold p w)) [
      | inl (e, failed) ↦ absurd (ground arith)
      | inr ((_, w1), checked) ↦
          let (same, meets) = check_threshold_meets p w w1 checked in
          let pending = lookup k w.own.pending_actions in
          elim (Result-cases (perform_pending contracts env k pending w)) [
            | inl (e, failed) ↦ absurd (ground arith)
            | inr ((_, r), done) ↦
                let left = own-perform_pending env k pending w r done in
                execute k p r x (ground arith) (ground arith) meets done (ground arith)
                  (ground arith) (ground arith) (ground arith) (ground arith, ground arith)
                  (ground arith)
          ]
    ]
  ]

  abbrev kept-GovernanceEffect :
      {A : Type 0} (env : Env) (m : Call (World State W) A) (w : World State W)
      → ((a : A) (v : World State W)
          → m w ≡ ok (a, v)
          → GovernanceEffect contracts env w v.own v.others)
      → GovernanceEffect contracts env w (kept m w).own (kept m w).others
  kept-GovernanceEffect env m w h = elim (kept_cases m w) [
    | inl same ↦ rw same (nothing refl refl)
    | inr (a, v, e, k) ↦ rw k (h a v e)
  ]

  -- Every transaction changes nothing, sets the contract up once, opens one proposal with no votes,
  -- adds one vote of an address that had not voted on an open proposal, finalizes one proposal
  -- after its deadline, or executes one that is finalized, was not executed and meets its
  -- threshold, performing its pending action.
  pub step-GovernanceEffect :
      (env : Env) (op : Op) (w : World State W)
      → GovernanceEffect contracts env w
          (step contracts env op w).own
          (step contracts env op w).others
  unfolding step execute_slashing_proposal
  step-GovernanceEffect env (initializes a k s n c r p) w =
      kept-GovernanceEffect env (initialize a k s n c r p) w
        (λ u v. initialize-GovernanceEffect env a k s n c r p w v)
  step-GovernanceEffect env (creates c a d e h) w =
      kept-GovernanceEffect env (create_proposal env c a d e h) w
        (λ u v. create-GovernanceEffect env c a d e h w v)
  step-GovernanceEffect env (creates_slashing c b r a x h) w =
      kept-GovernanceEffect env (create_slashing_proposal env c b r a x h) w
        (λ u v. create_slashing-GovernanceEffect env c b r a x h w v)
  step-GovernanceEffect env (creates_claim_approval c b h) w =
      kept-GovernanceEffect env (create_claim_approval_proposal env c b h) w
        (λ u v. create_claim-GovernanceEffect env c b h w v)
  step-GovernanceEffect env (creates_fund_allocation c b z h) w =
      kept-GovernanceEffect env (create_fund_allocation_proposal env c b z h) w
        (λ u v. create_fund-GovernanceEffect env c b z h w v)
  step-GovernanceEffect env (votes b k z y) w =
      kept-GovernanceEffect env (vote env b k z y) w (λ u v. vote-GovernanceEffect env b k z y w v)
  step-GovernanceEffect env (finalizes k) w =
      kept-GovernanceEffect env (finalize_proposal env k) w
        (λ u v. finalize-GovernanceEffect env k w v)
  step-GovernanceEffect env (executes k) w =
      kept-GovernanceEffect env (execute_proposal contracts env k) w
        (λ u v. execute-GovernanceEffect env k w v)
  step-GovernanceEffect env (executes_slashing k) w =
      kept-GovernanceEffect env (execute_proposal contracts env k) w
        (λ u v. execute-GovernanceEffect env k w v)
