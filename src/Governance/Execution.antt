-- ===== src/Governance/Execution.antt =====
-- contracts/governance/src/lib.rs: finalization and execution in the order of time.
use stellar_soroban_contract.Prelude.{
  nat_eq, pair_eq, length, lookup, lookup-insert, ℕ, ◌+◌, ◌≤◌, ◌≡◌, refl, sym, ◌∙◌, true, some,
  List, [], ◌∷◌, arith,
}
use stellar_soroban_contract.Host.{Env, panicked, err}
use stellar_soroban_contract.InsuranceTypes.{Proposal}
use stellar_soroban_contract.Interop.{Contracts, World}
use stellar_soroban_contract.Governance.{Op, execute_proposal, step, run}
use stellar_soroban_contract.Governance.Effects.{
  GovernanceEffect, nothing, set_up, propose, cast, finalize, execute,
}
use stellar_soroban_contract.Governance.Steps.{step-GovernanceEffect}
use stellar_soroban_contract.Governance.Timing.{
  IsTimely, HasRoom, InOrder, end_time, Continues, Continues-refl, Continues-trans,
  replace-IsTimely, propose-IsTimely, later-IsTimely, set_up-IsTimely, add_vote-Continues,
  add_vote-keeps, replace-Continues, open_yet,
}
use stellar_soroban_contract.Governance.Types.{State, counter_of, add_vote}

module _ {W : Type 0} (contracts : Contracts W) where
  pub GovernanceEffect-IsTimely :
      (now : ℕ) (env : Env) (w : World State W) (t : State) (o : W)
      → now ≤ env.timestamp
      → HasRoom 1 w.own
      → IsTimely now w.own
      → GovernanceEffect contracts env w t o
      → IsTimely env.timestamp t × (counter_of t ≤ counter_of w.own + 1)
  GovernanceEffect-IsTimely now env w t o order room v (nothing e _) =
      rw e (later-IsTimely now env.timestamp w.own order v, omega arith)
  GovernanceEffect-IsTimely now env w t o order room v (set_up fresh set counted same _ _ _) = (
    set_up-IsTimely env.timestamp w.own t (later-IsTimely now env.timestamp w.own order v) fresh set
        same,
    ground arith,
  )
  GovernanceEffect-IsTimely now env w t o order room v
        (propose p period _ set id _ _ _ f x filed counted _ same _) =
      (
        propose-IsTimely now env.timestamp w.own t p order v (omega arith) f x (ground arith) filed
            counted same,
        ground arith,
      )
  GovernanceEffect-IsTimely now env w t o order room v
        (cast voter k z y p _ here due _ filed _ counted same _) =
      let (id, f, x) = add_vote-keeps y z p in
      (
        replace-IsTimely now env.timestamp w.own t k p (add_vote y z p) order v here id
            (λ g. absurd (omega (arith, v.closed k p here (sym f ∙ g))))
            (λ g. absurd (omega (arith, v.closed k p here (v.earned k p here (sym x ∙ g)).0))) filed
            counted same,
        ground arith,
      )
  GovernanceEffect-IsTimely now env w t o order room v
        (finalize k p here due filed _ counted same _) =
      (
        replace-IsTimely now env.timestamp w.own t k p (record p { is_finalized = true }) order v
            here refl (λ g. due) (λ g. (refl, (v.earned k p here g).1)) filed counted same,
        ground arith,
      )
  GovernanceEffect-IsTimely now env w t o order room v
        (execute k p r here final _ meets _ filed _ _ counted same _) =
      (
        replace-IsTimely now env.timestamp w.own t k p (record p { is_executed = true }) order v
            here refl (λ g. omega (arith, v.closed k p here final)) (λ g. (final, meets)) filed
            counted same,
        ground arith,
      )

  -- No transaction reopens, recounts or forgets a proposal.
  GovernanceEffect-Continues :
      (now : ℕ) (env : Env) (w : World State W) (t : State) (o : W)
      → now ≤ env.timestamp
      → HasRoom 1 w.own
      → IsTimely now w.own
      → GovernanceEffect contracts env w t o
      → (j : ℕ) (a : Proposal) → lookup j w.own.proposals ≡ some a
      → (b : Proposal) × (lookup j t.proposals ≡ some b) × Continues a b
  GovernanceEffect-Continues now env w t o order room v (nothing e _) j a there =
      (a, rw e there, Continues-refl a)
  GovernanceEffect-Continues now env w t o order room v (set_up fresh set counted same _ _ _) j a
        there =
      (a, rw same there, Continues-refl a)
  GovernanceEffect-Continues now env w t o order room v
        (propose p period _ set id _ _ _ f x filed counted _ same _) j a there =
      (
        a,
        ground (arith, lookup-insert j p.id p w.own.proposals, v.listed j a there),
        Continues-refl a,
      )
  GovernanceEffect-Continues now env w t o order room v
        (cast voter k z y p _ here due _ filed _ counted same _) j a there =
      let (f, x) = open_yet now env w.own k p order v here due in
      replace-Continues w.own t k p (add_vote y z p) here (add_vote-Continues y z p f x) filed j a
        there
  GovernanceEffect-Continues now env w t o order room v
        (finalize k p here due filed _ counted same _) j a there =
      replace-Continues w.own t k p (record p { is_finalized = true }) here (ground arith) filed j a
        there
  GovernanceEffect-Continues now env w t o order room v
        (execute k p r here final _ meets _ filed _ _ counted same _) j a there =
      replace-Continues w.own t k p (record p { is_executed = true }) here (ground arith) filed j a
        there

  -- From a timely storage, with a counter that has numbers left, and after transactions in the
  -- order of the ledger's time, the storage is timely at the time of the last one: every proposal
  -- is filed under its own number, one that was finalized is past its deadline, and one that was
  -- executed is finalized and meets its threshold.
  pub run-IsTimely :
      (now : ℕ) (ops : List (Env × Op)) (w : World State W)
      → InOrder now ops
      → HasRoom (length ops) w.own
      → IsTimely now w.own
      → IsTimely (end_time now ops) (run contracts ops w).own
  unfolding run
  run-IsTimely now [] w order room v = v
  run-IsTimely now ((env, op) ∷ ops) w (first, order) room v =
      let next = step contracts env op w in
      let (v', counted) =
        GovernanceEffect-IsTimely now env w next.own next.others first (omega arith) v
          (step-GovernanceEffect contracts env op w) in
      run-IsTimely env.timestamp ops next order (omega arith) v'

  run-Continues :
      (now : ℕ) (ops : List (Env × Op)) (w : World State W)
      → InOrder now ops
      → HasRoom (length ops) w.own
      → IsTimely now w.own
      → (k : ℕ) (p : Proposal) → lookup k w.own.proposals ≡ some p
      → (q : Proposal) × (lookup k (run contracts ops w).own.proposals ≡ some q) × Continues p q
  unfolding run
  run-Continues now [] w order room v k p here = (p, here, Continues-refl p)
  run-Continues now ((env, op) ∷ ops) w (first, order) room v k p here =
      let next = step contracts env op w in
      let effect = step-GovernanceEffect contracts env op w in
      let (v', counted) =
        GovernanceEffect-IsTimely now env w next.own next.others first (omega arith) v effect in
      let (a, there, c) =
        GovernanceEffect-Continues now env w next.own next.others first (omega arith) v effect k p
          here in
      let (q, e, d) = run-Continues env.timestamp ops next order (omega arith) v' k a there in
      (q, e, Continues-trans p a q c d)

  -- From a timely storage, with a counter that has numbers left, and after transactions in the
  -- order of the ledger's time: the votes, the deadline and the threshold of a proposal that was
  -- finalized are the same, and if it was executed as well `execute_proposal` fails on it.
  pub final_for_good :
      (now : ℕ) (ops : List (Env × Op)) (w : World State W)
      → InOrder now ops
      → HasRoom (length ops) w.own
      → IsTimely now w.own
      → (k : ℕ) (p : Proposal) → lookup k w.own.proposals ≡ some p
      → p.is_finalized ≡ true
      → let v = run contracts ops w in
        (q : Proposal) × (lookup k v.own.proposals ≡ some q)
        × (q.is_finalized ≡ true)
        × (q.yes_votes ≡ p.yes_votes)
        × (q.no_votes ≡ p.no_votes)
        × (q.expires_at ≡ p.expires_at)
        × (q.threshold_percentage ≡ p.threshold_percentage)
        × ((env : Env)
            → p.is_executed ≡ true
            → execute_proposal contracts env k v ≡ err (panicked "Already executed"))
  unfolding execute_proposal
  final_for_good now ops w order room valid k p here final =
      let (q, there, c) = run-Continues now ops w order room valid k p here in
      (
        q,
        there,
        c.still_final final,
        c.same_yes final,
        c.same_no final,
        c.same_terms.0,
        c.same_terms.1,
        λ env done. ground (arith, c.still_final final, c.still_executed done),
      )
