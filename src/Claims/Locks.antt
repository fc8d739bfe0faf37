-- ===== src/Claims/Locks.antt =====
-- contracts/claims/src/lib.rs: the `PolicyActiveClaim` keys against the open claims.
use stellar_soroban_contract.Prelude.{
  if◌then◌else◌, Bool-cases, ◌==◌, nat_eq, length, pos, ◌<ℤ◌, lookup, insert, remove, lookup-insert,
  lookup-remove, ℕ, ◌+◌, ◌≤◌, ◌<◌, ◌≡◌, refl, inl, inr, true, none, some, List, [], ◌∷◌, arith,
}
use stellar_soroban_contract.Host.{Address, Env, is_some}
use stellar_soroban_contract.InsuranceTypes.{ClaimStatus, submitted, InsuranceClaim}
use stellar_soroban_contract.Interop.{Contracts, World}
use stellar_soroban_contract.Claims.{State, deployed, Op, counter_of, step, run}
use stellar_soroban_contract.Claims.Workflow.{
  is_open, ◌⟶◌, start, approve, reject, settle, SameConfig, ClaimsEffect, nothing, set_up, submit,
  advance, step-ClaimsEffect,
}

-- What the contract knows of its claims between two transactions.
pub record IsIndexed (s : State) : Type 0 where
  pub own_id :
      (k : ℕ) (c : InsuranceClaim)
      → lookup k s.claims ≡ some c
      → (c.claim_id ≡ k) × (k ≤ counter_of s) × (pos 0 <ℤ c.amount)
  pub open_locked :
      (k : ℕ) (c : InsuranceClaim)
      → lookup k s.claims ≡ some c
      → is_open c.status ≡ true
      → lookup c.policy_id s.policy_active_claim ≡ some k
  pub locked_open :
      (p k : ℕ)
      → lookup p s.policy_active_claim ≡ some k
      → (c : InsuranceClaim) × (lookup k s.claims ≡ some c)
        × (c.policy_id ≡ p)
        × (is_open c.status ≡ true)
  pub unset_before : s.admin ≡ none → s.policy_contract ≡ none
  pub empty_before : s.admin ≡ none → (k : ℕ) → lookup k s.claims ≡ none

pub deployed-IsIndexed : IsIndexed deployed
unfolding lookup
deployed-IsIndexed = record {
  own_id = λ k c h. absurd (cc);
  open_locked = λ k c h o. cc;
  locked_open = λ p k h. absurd (cc);
  unset_before = λ h. refl;
  empty_before = λ h k. refl;
}

-- The counter has numbers left for `n` more claims.
abbrev pub HasRoom : ℕ → State → Type 0
HasRoom n s = counter_of s + n < 0x1_0000_0000_0000_0000

pub ⟶-open : {a b : ClaimStatus} → a ⟶ b → is_open a ≡ true
⟶-open start = refl
⟶-open approve = refl
⟶-open reject = refl
⟶-open settle = refl

submit-IsIndexed :
    {s t : State} (c : InsuranceClaim)
    → IsIndexed s
    → pos 0 <ℤ c.amount
    → c.claim_id ≡ counter_of s + 1
    → c.status ≡ submitted
    → lookup c.policy_id s.policy_active_claim ≡ none
    → t.claims ≡ insert c.claim_id c s.claims
    → t.policy_active_claim ≡ insert c.policy_id c.claim_id s.policy_active_claim
    → t.claim_counter ≡ some c.claim_id
    → is_some s.policy_contract ≡ true
    → SameConfig s t
    → IsIndexed t
submit-IsIndexed {s} {t} c v positive id st free filed locked counted set same =
    let found = λ (k : ℕ). lookup-insert k c.claim_id c s.claims in
    let lock = λ (p : ℕ). lookup-insert p c.policy_id c.claim_id s.policy_active_claim in
    record {
      own_id = λ k d e. (
        ground (arith, found k, v.own_id k d),
        ground (arith, found k, v.own_id k d),
        ground (arith, found k, v.own_id k d),
      );
      open_locked = λ k d e o. ground (arith, found k, lock d.policy_id, v.open_locked k d);
      locked_open = λ p k e. elim (Bool-cases (p == c.policy_id)) [
        | inl this ↦ (c, ground (arith, found k, lock p), ground arith, ground arith)
        | inr other ↦
            let (d, e', p', o) = v.locked_open p k (ground (arith, lock p)) in
            (d, ground (arith, found k, v.own_id k d), p', o)
      ];
      unset_before = λ e. absurd (ground (arith, v.unset_before (ground arith)));
      empty_before = λ e k. absurd (ground (arith, v.unset_before (ground arith)));
    }

advance-IsIndexed :
    {s t : State} (k : ℕ) (a : Address) (c : InsuranceClaim) (next : ClaimStatus)
    → IsIndexed s
    → s.admin ≡ some a
    → lookup k s.claims ≡ some c
    → is_open c.status ≡ true
    → t.claims ≡ insert k (record c { status = next }) s.claims
    → t.policy_active_claim
      ≡ (if is_open next then s.policy_active_claim else remove c.policy_id s.policy_active_claim)
    → t.claim_counter ≡ s.claim_counter
    → SameConfig s t
    → IsIndexed t
advance-IsIndexed {s} {t} k a c next v admin here was filed locked counted same =
    let d : InsuranceClaim = record c { status = next } in
    let found = λ (j : ℕ). lookup-insert j k d s.claims in
    let lock = λ (p : ℕ). lookup-remove p c.policy_id s.policy_active_claim in
    record {
      own_id = λ j b e. (
        ground (arith, found j, v.own_id j b, v.own_id k c here),
        ground (arith, found j, v.own_id j b, v.own_id k c here),
        ground (arith, found j, v.own_id j b, v.own_id k c here),
      );
      open_locked = λ j b e o.
          ground (arith, found j, lock b.policy_id, v.open_locked j b, v.open_locked k c here was);
      locked_open = λ p j e.
          let old : lookup p s.policy_active_claim ≡ some j = ground (arith, lock p) in
          let (b, there, on, still) = v.locked_open p j old in
          elim (Bool-cases (j == k)) [
            | inl this ↦ (
              d,
              ground (arith, found j),
              ground (arith, found j),
              ground (arith, found j, lock p),
            )
            | inr other ↦ (b, ground (arith, found j), on, still)
          ];
      unset_before = λ e. absurd (ground arith);
      empty_before = λ e j. absurd (ground arith);
    }

set_up-IsIndexed :
    {s t : State}
    → IsIndexed s
    → s.admin ≡ none
    → t.claims ≡ s.claims
    → t.policy_active_claim ≡ s.policy_active_claim
    → is_some t.admin ≡ true
    → IsIndexed t
set_up-IsIndexed {s} {t} v fresh claims locks set = record {
  own_id = λ k c e. absurd (ground (arith, v.empty_before fresh k));
  open_locked = λ k c e o. absurd (ground (arith, v.empty_before fresh k));
  locked_open = λ p k e.
      let (c, here, _, _) = v.locked_open p k (rw (← locks) e) in
      absurd (ground (arith, v.empty_before fresh k));
  unset_before = λ e. absurd (ground arith);
  empty_before = λ e k. absurd (ground arith);
}

module _ {W : Type 0} (contracts : Contracts W) where
  pub ClaimsEffect-IsIndexed :
      {env : Env} {w : World State W} {t : State} {o : W}
      → HasRoom 1 w.own
      → IsIndexed w.own
      → ClaimsEffect contracts env w t o
      → IsIndexed t × (counter_of t ≤ counter_of w.own + 1)
  ClaimsEffect-IsIndexed room v (nothing e _) = rw e (v, omega arith)
  ClaimsEffect-IsIndexed room v (set_up a p r fresh claims locks counted set _ _ _) =
      (set_up-IsIndexed v fresh claims locks (rw set refl), ground arith)
  ClaimsEffect-IsIndexed {w = w} room v
        (submit c policy r _ _ _ positive _ id st free filed locked counted set same _) =
      (
        submit-IsIndexed c v positive (omega arith) st free filed locked counted set same,
        ground arith,
      )
  ClaimsEffect-IsIndexed room v (advance k a c next admin _ here edge filed locked counted same _) =
      (
        advance-IsIndexed k a c next v admin here (⟶-open edge) filed locked counted same,
        ground arith,
      )

  -- From indexed claims, with a counter that has numbers left for all the transactions, and
  -- whatever the other contracts answer, the claims stay indexed: every claim is filed under its
  -- own number and is for a positive amount, and a policy's `PolicyActiveClaim` key is present
  -- exactly while one of its claims is submitted, under review or approved, and names that claim.
  pub run-IsIndexed :
      (ops : List (Env × Op)) (w : World State W)
      → HasRoom (length ops) w.own
      → IsIndexed w.own
      → IsIndexed (run contracts ops w).own
  unfolding run
  run-IsIndexed [] w room v = v
  run-IsIndexed ((env, op) ∷ ops) w room v =
      let (v', counted) =
        ClaimsEffect-IsIndexed (omega arith) v (step-ClaimsEffect contracts env op w) in
      run-IsIndexed ops (step contracts env op w) (omega arith) v'

  -- From indexed claims, with a counter that has numbers left for all the transactions, two claims
  -- of one policy that are both submitted, under review or approved after them are the same claim.
  pub one_open_claim :
      (ops : List (Env × Op)) (w : World State W)
      → HasRoom (length ops) w.own
      → IsIndexed w.own
      → (j k : ℕ) (c d : InsuranceClaim) → lookup j (run contracts ops w).own.claims ≡ some c
      → lookup k (run contracts ops w).own.claims ≡ some d
      → is_open c.status ≡ true
      → is_open d.status ≡ true
      → c.policy_id ≡ d.policy_id
      → j ≡ k
  one_open_claim ops w room v j k c d ec ed oc od same =
      let v' = run-IsIndexed ops w room v in
      ground (arith, v'.open_locked j c ec oc, v'.open_locked k d ed od)
