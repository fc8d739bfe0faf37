-- ===== src/Governance/Tally.antt =====
-- contracts/governance/src/lib.rs: the tallies of a proposal against the records of its votes.
use stellar_soroban_contract.Prelude.{
  if◌then◌else◌, Bool-cases, Option-cases, ◌==◌, nat_eq, pair_eq, beq→eq, length, ℤ, pos, ◌+ℤ◌,
  int_laws, i128, i128_add, total, lookup, insert, lookup-insert, total-insert, ℕ, ◌<◌, ◌≡◌, refl,
  sym, ap, ◌∙◌, inl, inr, Bool, true, false, none, some, List, [], ◌∷◌, arith,
}
use stellar_soroban_contract.Host.{Address, Env}
use stellar_soroban_contract.InsuranceTypes.{Proposal}
use stellar_soroban_contract.Interop.{Contracts, World}
use stellar_soroban_contract.Governance.{Op, step, run}
use stellar_soroban_contract.Governance.Effects.{
  GovernanceEffect, nothing, set_up, propose, cast, finalize, execute,
}
use stellar_soroban_contract.Governance.Execution.{GovernanceEffect-IsTimely}
use stellar_soroban_contract.Governance.Steps.{step-GovernanceEffect}
use stellar_soroban_contract.Governance.Timing.{IsTimely, HasRoom, InOrder}
use stellar_soroban_contract.Governance.Types.{VoteRecord, State, deployed, counter_of, add_vote}

-- The votes for (`true`) or against (`false`) a proposal.
abbrev pub votes_of : Bool → Proposal → ℤ
votes_of true p = p.yes_votes
votes_of false p = p.no_votes

abbrev pub side_weight : Bool → VoteRecord → ℤ
side_weight true r = if r.is_yes then r.weight else pos 0
side_weight false r = if r.is_yes then pos 0 else r.weight

-- The weight that a record gives to one side of proposal `k`.
abbrev pub weight_for : Bool → ℕ → ℕ × Address → VoteRecord → ℤ
weight_for y k key r = if k == key.0 then side_weight y r else pos 0

-- The sum of the weights recorded for one side of proposal `k`; every address has one record.
pub recorded : Bool → ℕ → State → ℤ
recorded y k s = total (weight_for y k) s.voter_records

pub record IsTallied (s : State) : Type 0 where
  pub tallied :
      (y : Bool) (k : ℕ) (p : Proposal)
      → lookup k s.proposals ≡ some p
      → i128 (recorded y k s) ≡ votes_of y p
  pub unused : (y : Bool) (k : ℕ) → lookup k s.proposals ≡ none → recorded y k s ≡ pos 0
  pub unvoted :
      (k : ℕ) (a : Address) → lookup k s.proposals ≡ none → lookup (k, a) s.voter_records ≡ none

pub deployed-IsTallied : IsTallied deployed
unfolding lookup recorded total
deployed-IsTallied = record {
  tallied = λ y k p h. absurd (cc);
  unused = λ y k h. refl;
  unvoted = λ k a h. refl;
}

-- A proposal is rewritten with its votes as they were, and no vote is recorded.
same_votes-IsTallied :
    (s t : State) (k : ℕ) (p q : Proposal)
    → IsTallied s
    → lookup k s.proposals ≡ some p
    → q.yes_votes ≡ p.yes_votes
    → q.no_votes ≡ p.no_votes
    → t.proposals ≡ insert k q s.proposals
    → t.voter_records ≡ s.voter_records
    → IsTallied t
unfolding recorded
same_votes-IsTallied s t k p q v here same_yes same_no filed recs = record {
  tallied = λ y j r e. ground (
    arith,
    lookup-insert j k q s.proposals,
    v.tallied y k p here,
    v.tallied y j r,
    sides y q p same_yes same_no,
  );
  unused = λ y j e. ground (arith, lookup-insert j k q s.proposals, v.unused y j);
  unvoted = λ j a e. ground (arith, lookup-insert j k q s.proposals, v.unvoted j a);
}
  where
    sides :
        (y : Bool) (a b : Proposal)
        → a.yes_votes ≡ b.yes_votes
        → a.no_votes ≡ b.no_votes
        → votes_of y a ≡ votes_of y b
    sides true a b e f = e
    sides false a b e f = f

beq-key : (k : ℕ) (key : ℕ × Address) → key.0 ≡ k → (k == key.0) ≡ true
beq-key k key h = ground arith

-- One more record adds its weight to the side and the proposal that it names.
recorded-cast :
    (side : Bool) (j k : ℕ) (voter : Address) (r : VoteRecord) (s t : State)
    → lookup (k, voter) s.voter_records ≡ none
    → t.voter_records ≡ insert (k, voter) r s.voter_records
    → recorded side j t ≡ recorded side j s +ℤ weight_for side j (k, voter) r
unfolding recorded
recorded-cast side j k voter r s t new recs =
    grind (int_laws, total-insert (weight_for side j) (k, voter) r s.voter_records)

add_zero : (z : ℤ) → z +ℤ pos 0 ≡ z
add_zero z = omega int_laws

-- A wrapped sum that counts `a` counts `a + z` after the addition of `z`.
count_on : (a z tally : ℤ) → i128 a ≡ tally → i128 (a +ℤ z) ≡ i128 (tally +ℤ z)
count_on a z tally held = sym (i128_add a z) ∙ ap (λ (x : ℤ). i128 (x +ℤ z)) held

cast-tally :
    (y side : Bool) (k : ℕ) (sum z : ℤ) (key : ℕ × Address) (r : VoteRecord) (p : Proposal)
    → key.0 ≡ k
    → r.weight ≡ z
    → r.is_yes ≡ y
    → i128 sum ≡ votes_of side p
    → i128 (sum +ℤ weight_for side k key r) ≡ votes_of side (add_vote y z p)
cast-tally true true k sum z key r p same weighs voted_so held =
    rw (beq-key k key same, voted_so, weighs) (count_on sum z p.yes_votes held)
cast-tally true false k sum z key r p same weighs voted_so held =
    rw (beq-key k key same, voted_so, add_zero sum) held
cast-tally false true k sum z key r p same weighs voted_so held =
    rw (beq-key k key same, voted_so, add_zero sum) held
cast-tally false false k sum z key r p same weighs voted_so held =
    rw (beq-key k key same, voted_so, weighs) (count_on sum z p.no_votes held)

cast-IsTallied :
    (env : Env) (voter : Address) (k : ℕ) (z : ℤ) (y : Bool) (s t : State) (p : Proposal)
    → IsTallied s
    → lookup k s.proposals ≡ some p
    → lookup (k, voter) s.voter_records ≡ none
    → t.proposals ≡ insert k (add_vote y z p) s.proposals
    → t.voter_records
      ≡ insert
          (k, voter)
          (record { voter = voter; weight = z; is_yes = y; timestamp = env.timestamp })
          s.voter_records
    → IsTallied t
cast-IsTallied env voter k z y s t p v here new filed recs =
    let r : VoteRecord = record {
      voter = voter;
      weight = z;
      is_yes = y;
      timestamp = env.timestamp;
    } in
    let found = λ (j : ℕ). lookup-insert j k (add_vote y z p) s.proposals in
    let counted = λ (side : Bool) (j : ℕ). recorded-cast side j k voter r s t new recs in
    record {
      tallied = λ side j q e. elim (Bool-cases (j == k)) [
        | inl this ↦
            let key : j ≡ k = beq→eq j k this in
            let same : add_vote y z p ≡ q = ground (arith, found j) in
            rw (counted side j, key)
              (cast-tally y side k (recorded side k s) z (k, voter) r p refl refl refl
                  (v.tallied side k p here)
                ∙ ap (votes_of side) same)
        | inr other ↦
            rw (counted side j, other, add_zero (recorded side j s))
              (v.tallied side j q (ground (arith, found j)))
      ];
      unused = λ side j e. elim (Bool-cases (j == k)) [
        | inl this ↦ absurd (ground (arith, found j))
        | inr other ↦
            rw (counted side j, other, add_zero (recorded side j s))
              (v.unused side j (ground (arith, found j)))
      ];
      unvoted = λ j a e. elim (Bool-cases (j == k)) [
        | inl this ↦ absurd (ground (arith, found j))
        | inr other ↦
            rw (recs, lookup-insert (j, a) (k, voter) r s.voter_records, other)
              (v.unvoted j a (ground (arith, found j)))
      ];
    }

same_records :
    (y : Bool) (k : ℕ) (s t : State)
    → t.voter_records ≡ s.voter_records
    → recorded y k t ≡ recorded y k s
unfolding recorded
same_records y k s t recs = ap (total (weight_for y k)) recs

set_up-IsTallied :
    (s t : State)
    → IsTallied s
    → t.proposals ≡ s.proposals
    → t.voter_records ≡ s.voter_records
    → IsTallied t
set_up-IsTallied s t v same recs = record {
  tallied = λ y k p e. rw (same_records y k s t recs) (v.tallied y k p (rw (← same) e));
  unused = λ y k e. rw (same_records y k s t recs) (v.unused y k (rw (← same) e));
  unvoted = λ k a e. rw recs (v.unvoted k a (rw (← same) e));
}

i128_zero : i128 (pos 0) ≡ pos 0
unfolding i128
i128_zero = refl

votes_of_zero :
    (y : Bool) (p : Proposal) → p.yes_votes ≡ pos 0 → p.no_votes ≡ pos 0 → votes_of y p ≡ pos 0
votes_of_zero true p a b = a
votes_of_zero false p a b = b

-- A new proposal has no votes, and no record names it yet.
propose-IsTallied :
    (s t : State) (p : Proposal)
    → IsTallied s
    → lookup p.id s.proposals ≡ none
    → p.yes_votes ≡ pos 0
    → p.no_votes ≡ pos 0
    → t.proposals ≡ insert p.id p s.proposals
    → t.voter_records ≡ s.voter_records
    → IsTallied t
propose-IsTallied s t p v free none_yes none_no filed recs =
    let found = λ (j : ℕ). lookup-insert j p.id p s.proposals in
    record {
      tallied = λ y j q e. elim (Bool-cases (j == p.id)) [
        | inl this ↦
            let key : j ≡ p.id = beq→eq j p.id this in
            let same : p ≡ q = ground (arith, found j) in
            rw (same_records y j s t recs, key, v.unused y p.id free)
              (i128_zero ∙ sym (votes_of_zero y p none_yes none_no) ∙ ap (votes_of y) same)
        | inr other ↦ rw (same_records y j s t recs) (v.tallied y j q (ground (arith, found j)))
      ];
      unused = λ y j e. elim (Bool-cases (j == p.id)) [
        | inl this ↦ absurd (ground (arith, found j))
        | inr other ↦ rw (same_records y j s t recs) (v.unused y j (ground (arith, found j)))
      ];
      unvoted = λ j a e. elim (Bool-cases (j == p.id)) [
        | inl this ↦ absurd (ground (arith, found j))
        | inr other ↦ rw recs (v.unvoted j a (ground (arith, found j)))
      ];
    }

-- A number above the counter is free.
free_above :
    (now : ℕ) (s : State) (k : ℕ) → IsTimely now s → counter_of s < k → lookup k s.proposals ≡ none
free_above now s k valid above = elim (Option-cases (lookup k s.proposals)) [
  | inl e ↦ e
  | inr (p, e) ↦ absurd (omega (arith, valid.listed k p e))
]

module _ {W : Type 0} (contracts : Contracts W) where
  GovernanceEffect-IsTallied :
      (now : ℕ) (env : Env) (w : World State W) (t : State) (o : W)
      → HasRoom 1 w.own
      → IsTimely now w.own
      → GovernanceEffect contracts env w t o
      → IsTallied w.own
      → IsTallied t
  GovernanceEffect-IsTallied now env w t o room valid (nothing e _) v = rw e v
  GovernanceEffect-IsTallied now env w t o room valid (set_up _ _ _ same recs _ _) v =
      set_up-IsTallied w.own t v same recs
  GovernanceEffect-IsTallied now env w t o room valid
        (propose p _ _ _ id _ none_yes none_no _ _ filed _ recs _ _) v =
      propose-IsTallied w.own t p v (free_above now w.own p.id valid (omega arith)) none_yes none_no
        filed recs
  GovernanceEffect-IsTallied now env w t o room valid
        (cast voter k z y p _ here _ new filed recs _ _ _) v =
      cast-IsTallied env voter k z y w.own t p v here new filed recs
  GovernanceEffect-IsTallied now env w t o room valid (finalize k p here _ filed recs _ _ _) v =
      same_votes-IsTallied w.own t k p (record p { is_finalized = true }) v here refl refl filed
        recs
  GovernanceEffect-IsTallied now env w t o room valid
        (execute k p r here _ _ _ _ filed _ recs _ _ _) v =
      same_votes-IsTallied w.own t k p (record p { is_executed = true }) v here refl refl filed recs

  -- From a timely and tallied storage, with a counter that has numbers left, and after transactions
  -- in the order of the ledger's time, the yes votes and the no votes of every proposal are the
  -- sums of the weights that the stored vote records hold for it, in `i128` arithmetic, and no vote
  -- record is stored for a proposal that does not exist.
  pub run-IsTallied :
      (now : ℕ) (ops : List (Env × Op)) (w : World State W)
      → InOrder now ops
      → HasRoom (length ops) w.own
      → IsTimely now w.own
      → IsTallied w.own
      → IsTallied (run contracts ops w).own
  unfolding run
  run-IsTallied now [] w order room valid v = v
  run-IsTallied now ((env, op) ∷ ops) w (first, order) room valid v =
      let next = step contracts env op w in
      let effect = step-GovernanceEffect contracts env op w in
      let (valid', counted) =
        GovernanceEffect-IsTimely contracts now env w next.own next.others first (omega arith) valid
          effect in
      run-IsTallied env.timestamp ops next order (omega arith) valid'
        (GovernanceEffect-IsTallied now env w next.own next.others (omega arith) valid effect v)
