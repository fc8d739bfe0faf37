-- ===== src/Governance/Timing.antt =====
-- contracts/governance/src/lib.rs: what holds of the proposals as time goes by.
use stellar_soroban_contract.Prelude.{
  Bool-cases, ◌==◌, nat_eq, pair_eq, ℤ, lookup, insert, lookup-insert, ℕ, ◌+◌, ◌≤◌, ◌<◌, ◌≡◌, refl,
  subst, inl, inr, Bool, true, false, none, some, List, [], ◌∷◌, arith,
}
use stellar_soroban_contract.Host.{Env, is_some}
use stellar_soroban_contract.InsuranceTypes.{Proposal}
use stellar_soroban_contract.Governance.{Op}
use stellar_soroban_contract.Governance.Effects.{meets_threshold, SameConfig}
use stellar_soroban_contract.Governance.Types.{State, deployed, counter_of, add_vote}

-- What holds of the proposals at a time that no transaction so far was later than.
pub record IsTimely (now : ℕ) (s : State) : Type 0 where
  pub listed :
      (k : ℕ) (p : Proposal) → lookup k s.proposals ≡ some p → (p.id ≡ k) × (k ≤ counter_of s)
  pub closed :
      (k : ℕ) (p : Proposal)
      → lookup k s.proposals ≡ some p
      → p.is_finalized ≡ true
      → p.expires_at < now
  pub earned :
      (k : ℕ) (p : Proposal)
      → lookup k s.proposals ≡ some p
      → p.is_executed ≡ true
      → (p.is_finalized ≡ true) × (meets_threshold p ≡ true)
  pub unset_before :
      s.admin ≡ none → (s.voting_period ≡ none) × ((k : ℕ) → lookup k s.proposals ≡ none)

pub deployed-IsTimely : IsTimely 0 deployed
unfolding lookup
deployed-IsTimely = record {
  listed = λ k p h. absurd (cc);
  closed = λ k p h f. absurd (cc);
  earned = λ k p h f. absurd (cc);
  unset_before = λ h. (refl, λ k. refl);
}

-- The counter has numbers left for `n` more proposals.
abbrev pub HasRoom : ℕ → State → Type 0
HasRoom n s = counter_of s + n < 0x1_0000_0000_0000_0000

-- The ledger's time does not run backwards.
abbrev pub InOrder : ℕ → List (Env × Op) → Type 0
InOrder now [] = Unit {0}
InOrder now ((env, op) ∷ ops) = (now ≤ env.timestamp) × InOrder env.timestamp ops

abbrev pub end_time : ℕ → List (Env × Op) → ℕ
end_time now [] = now
end_time now ((env, op) ∷ ops) = end_time env.timestamp ops

-- What a stored proposal has become, seen from the one that it was.
pub record Continues (p q : Proposal) : Type 0 where
  pub still_final : p.is_finalized ≡ true → q.is_finalized ≡ true
  pub still_executed : p.is_executed ≡ true → q.is_executed ≡ true
  pub same_yes : p.is_finalized ≡ true → q.yes_votes ≡ p.yes_votes
  pub same_no : p.is_finalized ≡ true → q.no_votes ≡ p.no_votes
  pub same_terms : (q.expires_at ≡ p.expires_at) × (q.threshold_percentage ≡ p.threshold_percentage)

pub Continues-refl : (p : Proposal) → Continues p p
Continues-refl p = ground arith

pub Continues-trans : (p q r : Proposal) → Continues p q → Continues q r → Continues p r
Continues-trans p q r a b = ground arith

-- One proposal `k` of a valid storage is replaced by one that continues it.
pub replace-IsTimely :
    (now later : ℕ) (s t : State) (k : ℕ) (p q : Proposal)
    → now ≤ later
    → IsTimely now s
    → lookup k s.proposals ≡ some p
    → q.id ≡ p.id
    → (q.is_finalized ≡ true → q.expires_at < later)
    → (q.is_executed ≡ true → (q.is_finalized ≡ true) × (meets_threshold q ≡ true))
    → t.proposals ≡ insert k q s.proposals
    → t.proposal_counter ≡ s.proposal_counter
    → SameConfig s t
    → IsTimely later t
replace-IsTimely now later s t k p q order v here id final done filed counted (a, c) =
    let found = λ (j : ℕ). lookup-insert j k q s.proposals in
    record {
      listed = λ j r e. elim (Bool-cases (j == k)) [
        | inl this ↦
            (ground (arith, found j, v.listed k p here), ground (arith, found j, v.listed k p here))
        | inr other ↦ (ground (arith, found j, v.listed j r), ground (arith, found j, v.listed j r))
      ];
      closed = λ j r e f. elim (Bool-cases (j == k)) [
        | inl this ↦
            let same : q ≡ r = ground (arith, found j) in
            subst (λ (x : Proposal). x.expires_at < later) same (final (rw same f))
        | inr other ↦
            let old : lookup j s.proposals ≡ some r = ground (arith, found j) in
            omega (arith, v.closed j r old f)
      ];
      earned = λ j r e f. elim (Bool-cases (j == k)) [
        | inl this ↦
            let same : q ≡ r = ground (arith, found j) in
            subst (λ (x : Proposal). (x.is_finalized ≡ true) × (meets_threshold x ≡ true)) same
              (done (rw same f))
        | inr other ↦ v.earned j r (ground (arith, found j)) f
      ];
      unset_before = λ e. absurd (ground (arith, (v.unset_before (ground arith)).1 k));
    }

-- A new proposal takes a number that is free.
pub propose-IsTimely :
    (now later : ℕ) (s t : State) (p : Proposal)
    → now ≤ later
    → IsTimely now s
    → p.id ≡ counter_of s + 1
    → p.is_finalized ≡ false
    → p.is_executed ≡ false
    → is_some s.voting_period ≡ true
    → t.proposals ≡ insert p.id p s.proposals
    → t.proposal_counter ≡ some p.id
    → SameConfig s t
    → IsTimely later t
propose-IsTimely now later s t p order v id f x set filed counted same =
    let found = λ (j : ℕ). lookup-insert j p.id p s.proposals in
    record {
      listed = λ j r e. elim (Bool-cases (j == p.id)) [
        | inl this ↦ (ground (arith, found j), ground (arith, found j))
        | inr other ↦ (ground (arith, found j, v.listed j r), ground (arith, found j, v.listed j r))
      ];
      closed = λ j r e g. elim (Bool-cases (j == p.id)) [
        | inl this ↦ absurd (ground (arith, found j))
        | inr other ↦
            let old : lookup j s.proposals ≡ some r = ground (arith, found j) in
            omega (arith, v.closed j r old g)
      ];
      earned = λ j r e g. elim (Bool-cases (j == p.id)) [
        | inl this ↦ absurd (ground (arith, found j))
        | inr other ↦ v.earned j r (ground (arith, found j)) g
      ];
      unset_before = λ e. absurd (ground (arith, (v.unset_before (ground arith)).0));
    }

pub later-IsTimely : (now later : ℕ) (s : State) → now ≤ later → IsTimely now s → IsTimely later s
later-IsTimely now later s order v = record {
  listed = v.listed;
  closed = λ k p e f. omega (arith, v.closed k p e f);
  earned = v.earned;
  unset_before = v.unset_before;
}

pub set_up-IsTimely :
    (now : ℕ) (s t : State)
    → IsTimely now s
    → s.admin ≡ none
    → is_some t.admin ≡ true
    → t.proposals ≡ s.proposals
    → IsTimely now t
set_up-IsTimely now s t v fresh set same =
    let gone = (v.unset_before fresh).1 in
    record {
      listed = λ k p e. absurd (ground (arith, gone k));
      closed = λ k p e f. absurd (ground (arith, gone k));
      earned = λ k p e f. absurd (ground (arith, gone k));
      unset_before = λ e. absurd (ground arith);
    }

pub add_vote-Continues :
    (y : Bool) (z : ℤ) (p : Proposal)
    → p.is_finalized ≡ false
    → p.is_executed ≡ false
    → Continues p (add_vote y z p)
add_vote-Continues true z p f x = ground arith
add_vote-Continues false z p f x = ground arith

pub add_vote-keeps :
    (y : Bool) (z : ℤ) (p : Proposal)
    → ((add_vote y z p).id ≡ p.id)
      × ((add_vote y z p).is_finalized ≡ p.is_finalized)
      × ((add_vote y z p).is_executed ≡ p.is_executed)
add_vote-keeps true z p = (refl, refl, refl)
add_vote-keeps false z p = (refl, refl, refl)

pub replace-Continues :
    (s t : State) (k : ℕ) (p q : Proposal)
    → lookup k s.proposals ≡ some p
    → Continues p q
    → t.proposals ≡ insert k q s.proposals
    → (j : ℕ) (a : Proposal) → lookup j s.proposals ≡ some a
    → (b : Proposal) × (lookup j t.proposals ≡ some b) × Continues a b
replace-Continues s t k p q here c filed j a there = elim (Bool-cases (j == k)) [
  | inl this ↦
      let same : p ≡ a = ground arith in
      (
        q,
        ground (arith, lookup-insert j k q s.proposals),
        subst (λ (x : Proposal). Continues x q) same c,
      )
  | inr other ↦ (a, ground (arith, lookup-insert j k q s.proposals), Continues-refl a)
]

-- An open proposal is neither final nor executed.
pub open_yet :
    (now : ℕ) (env : Env) (s : State) (k : ℕ) (p : Proposal)
    → now ≤ env.timestamp
    → IsTimely now s
    → lookup k s.proposals ≡ some p
    → env.timestamp ≤ p.expires_at
    → (p.is_finalized ≡ false) × (p.is_executed ≡ false)
open_yet now env s k p order v here due =
    let not_final : p.is_finalized ≡ false = elim (Bool-cases p.is_finalized) [
      | inl g ↦ absurd (omega (arith, v.closed k p here g))
      | inr f ↦ f
    ] in
    (
      not_final,
      elim (Bool-cases p.is_executed) [
        | inl g ↦ absurd (ground (arith, (v.earned k p here g).0))
        | inr x ↦ x
      ],
    )
