-- ===== src/Insurance/Filing.antt =====
-- contracts/insurance/src/insurance_impl.rs: which claims are taken.
use stellar_soroban_contract.Prelude.{
  Option-cases, nat_beq_self, ◌==◌, nat_eq, string_eq, pair_eq, beq_refl, u64, sat_u128, max_u64,
  sat_u64, lookup, lookup-insert, ℕ, ◌+◌, ◌<◌, String, ◌≡◌, refl, sym, ap, ◌∙◌, inl, inr, true,
  false, some, arith,
}
use stellar_soroban_contract.Ink.{AccountId, Env, ok, err, unwrap_or, is_ok, Outcome-cases}
use stellar_soroban_contract.Insurance.Types.{
  nonce_already_used, renewed, EvidenceMetadata, InsurancePolicy, InsuranceClaim,
}
use stellar_soroban_contract.Insurance.Storage.{PropertyInsurance, is_in_force}
use stellar_soroban_contract.Insurance.Claims.{
  nonce_of, check_evidence, check_cover, verifies_itself, new_claim, auto_verify, enter_claim,
  submit_claim,
}
use stellar_soroban_contract.Insurance.Rbac.{assessor_role, has_role}
use stellar_soroban_contract.Insurance.Policies.{renew_policy}
use stellar_soroban_contract.Insurance.Payouts.{process_claim}

inactive_cannot_claim :
    (env : Env) (policy_id amount : ℕ) (text : String) (e : EvidenceMetadata) (nonce : ℕ)
    (p : InsurancePolicy) (s : PropertyInsurance)
    → lookup policy_id s.policies ≡ some p
    → is_in_force p.status ≡ false
    → is_ok (submit_claim env policy_id amount text e nonce s) ≡ false
unfolding submit_claim check_evidence check_cover
inactive_cannot_claim env policy_id amount text e nonce p s here other = ground arith

renew_policy-renewed :
    (env : Env) (policy_id duration : ℕ) (s t : PropertyInsurance)
    → renew_policy env policy_id duration s ≡ ok (tt, t)
    → (p : InsurancePolicy) × (lookup policy_id t.policies ≡ some p)
      × (is_in_force p.status ≡ false)
unfolding renew_policy
renew_policy-renewed env policy_id duration s t done =
    elim (Option-cases (lookup policy_id s.policies)) [
      | inl missing ↦ absurd (ground arith)
      | inr (p, here) ↦ elim (Option-cases (lookup p.pool_id s.pools)) [
        | inl no_pool ↦ absurd (ground arith)
        | inr (q, there) ↦
            let r : InsurancePolicy = record p {
              end_time = sat_u64 (p.end_time + duration);
              premium_amount = sat_u128 (p.premium_amount + env.transferred_value);
              status = renewed;
            } in
            (
              r,
              ground
                  (arith, lookup-insert policy_id policy_id r s.policies, nat_beq_self policy_id),
              refl,
            )
      ]
    ]

-- A renewal of a policy that succeeds makes claims on the policy impossible: on the storage that it
-- leaves, `submit_claim` for this policy fails, whatever the caller, the amount, the evidence, the
-- nonce and the time.
pub renewed_cannot_claim :
    (env : Env) (policy_id duration : ℕ) (s t : PropertyInsurance)
    → renew_policy env policy_id duration s ≡ ok (tt, t)
    → (later : Env) (amount : ℕ) (text : String) (e : EvidenceMetadata) (nonce : ℕ)
    → is_ok (submit_claim later policy_id amount text e nonce t) ≡ false
renewed_cannot_claim env policy_id duration s t done later amount text e nonce =
    let (p, here, other) = renew_policy-renewed env policy_id duration s t done in
    inactive_cannot_claim later policy_id amount text e nonce p t here other

-- On event 101 the claim of a parametric policy is processed with the roles of the holder: when an
-- oracle contract is set, a holder without the assessor role is always refused.
pub parametric_refused :
    (env : Env) (policy_id amount : ℕ) (text : String) (e : EvidenceMetadata) (nonce : ℕ)
    (p : InsurancePolicy) (s : PropertyInsurance)
    → lookup policy_id s.policies ≡ some p
    → verifies_itself p s ≡ true
    → has_role env.caller assessor_role s.role_manager ≡ false
    → is_ok (submit_claim env policy_id amount text e nonce s) ≡ false
unfolding submit_claim check_evidence check_cover auto_verify process_claim
parametric_refused env policy_id amount text e nonce p s here itself no_role = ground arith

pub check_evidence_same :
    (i : ℕ) (e : EvidenceMetadata) (s t : PropertyInsurance)
    → check_evidence i e s ≡ ok (tt, t)
    → t ≡ s
unfolding check_evidence
check_evidence_same i e s t h = ground arith

pub check_cover_same :
    (env : Env) (p : InsurancePolicy) (x : ℕ) (s t : PropertyInsurance)
    → check_cover env p x s ≡ ok (tt, t)
    → t ≡ s
unfolding check_cover
check_cover_same env p x s t h = ground arith

used_refused :
    (i : ℕ) (e : EvidenceMetadata) (s : PropertyInsurance)
    → unwrap_or false (lookup (i, e.evidence_type) s.used_evidence_nonces) ≡ true
    → is_ok (check_evidence i e s) ≡ false
unfolding check_evidence
used_refused i e s h = ground arith

-- What the ordinary path leaves behind.
record Entered (caller : AccountId) (i nonce : ℕ) (kind : String) (s t : PropertyInsurance)
    : Type 0 where
  same_pause : t.is_paused ≡ s.is_paused
  counted : nonce_of caller t ≡ sat_u64 (nonce + 1)
  keyed : unwrap_or false (lookup (i, kind) t.used_evidence_nonces) ≡ true

enter_claim-Entered :
    (env : Env) (i : ℕ) (p : InsurancePolicy) (c : InsuranceClaim) (nonce id : ℕ)
    (s t : PropertyInsurance)
    → enter_claim env i p c nonce s ≡ ok (id, t)
    → Entered env.caller i nonce c.evidence.evidence_type s t
unfolding enter_claim
enter_claim-Entered env i p c nonce id s t h =
    let kind = c.evidence.evidence_type in
    record {
      same_pause = ground arith;
      counted = ground (
        arith,
        lookup-insert env.caller env.caller (sat_u64 (nonce + 1)) s.caller_nonces,
        nat_beq_self env.caller,
      );
      keyed = ground (
        arith,
        lookup-insert (i, kind) (i, kind) true s.used_evidence_nonces,
        nat_beq_self i,
        beq_refl kind,
      );
    }

submit_claim-Entered :
    (env : Env) (i amount : ℕ) (text : String) (e : EvidenceMetadata) (nonce id : ℕ)
    (p : InsurancePolicy) (s t : PropertyInsurance)
    → lookup i s.policies ≡ some p
    → verifies_itself p s ≡ false
    → submit_claim env i amount text e nonce s ≡ ok (id, t)
    → (c : InsuranceClaim) × (u : PropertyInsurance) × (c.evidence ≡ e)
      × (u.is_paused ≡ false)
      × (enter_claim env i p c nonce u ≡ ok (id, t))
unfolding submit_claim
submit_claim-Entered env i amount text e nonce id p s t here plain accepted =
    let counted = record s { claim_count = u64 (s.claim_count + 1) } in
    (
      new_claim env counted i amount text e (u64 (s.claim_count + 1)),
      counted,
      refl,
      ground arith,
      elim (Outcome-cases (check_evidence i e s)) [
        | inr (inl (x, bad)) ↦ absurd (ground arith)
        | inr (inr bad) ↦ absurd (ground arith)
        | inl ((r, s1), fine) ↦ elim (Outcome-cases (check_cover env p amount s)) [
          | inr (inl (x, bad)) ↦ absurd (ground (arith, check_evidence_same i e s s1))
          | inr (inr bad) ↦ absurd (ground (arith, check_evidence_same i e s s1))
          | inl ((q, s2), covered) ↦
              ground (arith, check_evidence_same i e s s1, check_cover_same env p amount s s2)
        ]
      ],
    )

wrong_nonce :
    (env : Env) (i amount : ℕ) (text : String) (e : EvidenceMetadata) (nonce : ℕ)
    (s : PropertyInsurance)
    → s.is_paused ≡ false
    → (nonce == nonce_of env.caller s) ≡ false
    → submit_claim env i amount text e nonce s ≡ err nonce_already_used
unfolding submit_claim
wrong_nonce env i amount text e nonce s running other = ground arith

used_key :
    (env : Env) (i amount : ℕ) (text : String) (e : EvidenceMetadata) (nonce : ℕ)
    (s : PropertyInsurance)
    → unwrap_or false (lookup (i, e.evidence_type) s.used_evidence_nonces) ≡ true
    → is_ok (submit_claim env i amount text e nonce s) ≡ false
unfolding submit_claim
used_key env i amount text e nonce s used = ground (arith, used_refused i e s used)

-- After a claim that was entered in the ordinary way, the next nonce of its caller is one higher,
-- the evidence's key is used, and the same caller's next claim with the old nonce is refused,
-- whatever else it says and whenever it comes; with the new nonce, a claim on the same policy with
-- the same kind of evidence fails as well.
pub submit_claim_once :
    (env later : Env) (policy_id amount other_policy other_amount : ℕ) (text other_text : String)
    (e other_evidence : EvidenceMetadata) (nonce id : ℕ) (p : InsurancePolicy)
    (s t : PropertyInsurance)
    → nonce < max_u64
    → lookup policy_id s.policies ≡ some p
    → verifies_itself p s ≡ false
    → later.caller ≡ env.caller
    → submit_claim env policy_id amount text e nonce s ≡ ok (id, t)
    → (nonce_of env.caller t ≡ nonce + 1)
      × (submit_claim later other_policy other_amount other_text other_evidence nonce t
          ≡ err nonce_already_used)
      × (other_evidence.evidence_type ≡ e.evidence_type
          → is_ok
              (submit_claim later policy_id other_amount other_text other_evidence (nonce + 1) t)
            ≡ false)
unfolding submit_claim
submit_claim_once env later policy_id amount other_policy other_amount text other_text e
      other_evidence nonce id p s t room here plain same_caller accepted =
    let (c, u, same, running, entered) =
      submit_claim-Entered env policy_id amount text e nonce id p s t here plain accepted in
    let v = enter_claim-Entered env policy_id p c nonce id u t entered in
    let next : nonce_of env.caller t ≡ nonce + 1 = ground (arith, v.counted) in
    let same_key : c.evidence.evidence_type ≡ e.evidence_type =
      ap (λ (z : EvidenceMetadata). z.evidence_type) same in
    let still : t.is_paused ≡ false = v.same_pause ∙ running in
    let now_next : nonce_of later.caller t ≡ nonce + 1 = rw same_caller next in
    (
      next,
      wrong_nonce later other_policy other_amount other_text other_evidence nonce t still
          (ground (arith, now_next)),
      λ same_kind.
          used_key later policy_id other_amount other_text other_evidence (nonce + 1) t
            (rw (same_kind ∙ sym same_key) v.keyed),
    )
