-- ===== src/Insurance/Finality.antt =====
-- contracts/insurance/src/insurance_impl.rs: over any messages, a decided claim is decided for good.
use stellar_soroban_contract.Prelude.{
  if◌then◌else◌, Bool-cases, Option-cases, ◌==◌, nat_eq, string_eq, pair_eq, length, push_back, u64,
  max_u64, lookup, insert, lookup-insert, ℕ, ◌+◌, ◌≤◌, ◌<◌, String, ◌≡◌, refl, ap, subst, ◌∙◌, ◌⊎◌,
  inl, inr, true, Option, some, List, [], ◌∷◌, arith,
}
use stellar_soroban_contract.Ink.{Env, ok, unwrap_or, kept, Outcome-cases}
use stellar_soroban_contract.Insurance.Types.{
  disputed, EvidenceMetadata, InsurancePolicy, InsuranceClaim,
}
use stellar_soroban_contract.Insurance.Storage.{PropertyInsurance, Accepts}
use stellar_soroban_contract.Insurance.Claims.{
  check_evidence, check_cover, verifies_itself, new_claim, auto_verify, enter_claim, submit_claim,
}
use stellar_soroban_contract.Insurance.Evidence.{submit_evidence, Submission, batch_submit_evidence}
use stellar_soroban_contract.Insurance.Filing.{check_evidence_same, check_cover_same}
use stellar_soroban_contract.Insurance.Decisions.{
  Later, Later_refl, Later_trans, IsFiled, Continues, same-Continues, replace-Continues,
  enter-Continues,
}
use stellar_soroban_contract.Insurance.Deciding.{
  process_claim-Continues, enter_claim-claims, auto_verify-claims,
}
use stellar_soroban_contract.Insurance.Untouched.{plain_step}
use stellar_soroban_contract.Insurance.Payouts.{process_claim, move_to_dispute}
use stellar_soroban_contract.Insurance.{
  Op, submits, processes, disputes, submits_evidence, submits_batch, step, run,
}

join-Continues :
    (s u t : PropertyInsurance)
    → Continues s u
    → Continues u t
    → t.claim_count ≡ u.claim_count
    → Continues s t
join-Continues s u t v w count = record {
  later = λ k a h.
      let (b, there, first) = v.later k a h in
      let (c, last, rest) = w.later k b there in (c, last, Later_trans a b c first rest);
  filed = w.filed;
  counted = omega (arith, v.counted);
}

abbrev counted_state : PropertyInsurance → PropertyInsurance
counted_state s = record s { claim_count = u64 (s.claim_count + 1) }

-- A claim that is accepted was entered, or filed and processed at once.
submit_claim-paths :
    (env : Env) (i x : ℕ) (d : String) (e : EvidenceMetadata) (n id : ℕ) (s t : PropertyInsurance)
    → submit_claim env i x d e n s ≡ ok (id, t)
    → let u = counted_state s in
      let c = new_claim env u i x d e u.claim_count in
      (p : InsurancePolicy) × ((enter_claim env i p c n u ≡ ok (id, t))
        ⊎ (auto_verify env i p c u ≡ ok (id, t)))
unfolding submit_claim
submit_claim-paths env i x d e n id s t h = elim (Outcome-cases (check_evidence i e s)) [
  | inr (inl (y, bad)) ↦ absurd (ground arith)
  | inr (inr bad) ↦ absurd (ground arith)
  | inl ((r, s1), fine) ↦ elim (Option-cases (lookup i s.policies)) [
    | inl missing ↦ absurd (ground (arith, check_evidence_same i e s s1))
    | inr (p, here) ↦ elim (Outcome-cases (check_cover env p x s)) [
      | inr (inl (y, bad)) ↦ absurd (ground (arith, check_evidence_same i e s s1))
      | inr (inr bad) ↦ absurd (ground (arith, check_evidence_same i e s s1))
      | inl ((q, s2), covered) ↦ (
        p,
        elim (Bool-cases (verifies_itself p s)) [
          | inl itself ↦
              inr (ground (arith, check_evidence_same i e s s1, check_cover_same env p x s s2))
          | inr plain ↦
              inl (ground (arith, check_evidence_same i e s s1, check_cover_same env p x s s2))
        ],
      )
    ]
  ]
]

submit_claim-Continues :
    (env : Env) (i x : ℕ) (d : String) (e : EvidenceMetadata) (n id : ℕ) (s t : PropertyInsurance)
    → IsFiled s
    → s.claim_count < max_u64
    → submit_claim env i x d e n s ≡ ok (id, t)
    → Continues s t
submit_claim-Continues env i x d e n id s t v room h =
    let u = counted_state s in
    let c = new_claim env u i x d e u.claim_count in
    let (p, paths) = submit_claim-paths env i x d e n id s t h in
    let next : u64 (s.claim_count + 1) ≡ s.claim_count + 1 = omega arith in
    let found = λ (k : ℕ). lookup-insert k (u64 (s.claim_count + 1)) c s.claims in
    let slot = λ (k j : ℕ). if k == j then some c else lookup k s.claims in
    elim paths [
      | inl entered ↦
          let (filed, count) = enter_claim-claims env i p c n id u t entered in
          enter-Continues s t c v room (omega arith)
            (λ k. ap (λ m. lookup k m) filed ∙ found k ∙ ap (slot k) next) (count ∙ next)
      | inr itself ↦
          let (w, filed, count, processed) = auto_verify-claims env i p c id u t itself in
          let first =
            enter-Continues s w c v room (omega arith)
              (λ k. ap (λ m. lookup k m) filed ∙ found k ∙ ap (slot k) next) (count ∙ next) in
          let (second, same) =
            process_claim-Continues env c.claim_id true "Auto-verified by ClaimOracle" "" w t
              first.filed processed in
          join-Continues s w t first second same
    ]

submit_evidence-Continues :
    (env : Env) (i : ℕ) (k h : String) (l : List ℕ) (z : ℕ) (u : Option String) (n : ℕ)
    (s t : PropertyInsurance)
    → IsFiled s
    → submit_evidence env i k h l z u s ≡ ok (n, t)
    → Continues s t × (t.claim_count ≡ s.claim_count)
unfolding submit_evidence
submit_evidence-Continues env i k h l z u n s t v done = elim (Option-cases (lookup i s.claims)) [
  | inl missing ↦ absurd (ground arith)
  | inr (c, here) ↦
      let ids = push_back (unwrap_or [] (lookup i s.claim_evidence)) (u64 (s.evidence_count + 1)) in
      let noted : InsuranceClaim = record c { evidence_ids = ids } in
      let filed : t.claims ≡ insert i noted s.claims = ground arith in
      (
        replace-Continues s t i c noted v here
            (record { terms = (refl, refl, refl); final = λ _. (refl, inl refl) })
            (v.limited i c here) (λ j. rw filed (lookup-insert j i noted s.claims)) (ground arith),
        ground arith,
      )
]

-- A claim that is disputed keeps its terms and its payout.
move_to_dispute-Continues :
    (env : Env) (i : ℕ) (s t : PropertyInsurance) {u : Unit {0}}
    → IsFiled s
    → move_to_dispute env i s ≡ ok (u, t)
    → Continues s t
unfolding move_to_dispute
move_to_dispute-Continues env i s t v done = elim (Option-cases (lookup i s.claims)) [
  | inl missing ↦ absurd (ground arith)
  | inr (c, here) ↦
      let late : InsuranceClaim = record c { status = disputed } in
      let filed : t.claims ≡ insert i late s.claims = ground arith in
      replace-Continues s t i c late v here
        (record { terms = (refl, refl, refl); final = λ _. (refl, inr refl) }) (v.limited i c here)
        (λ j. rw filed (lookup-insert j i late s.claims)) (ground arith)
]

batch-Continues :
    (env : Env) (i : ℕ) (l : List Submission) (r : List ℕ) (s t : PropertyInsurance)
    → IsFiled s
    → batch_submit_evidence env i l s ≡ ok (r, t)
    → Continues s t × (t.claim_count ≡ s.claim_count)
unfolding batch_submit_evidence
batch-Continues env i [] r s t v done =
    (same-Continues s t v (ground arith) (ground arith), ground arith)
batch-Continues env i ((k, h, c, z, u) ∷ l) r s t v done =
    elim (Outcome-cases (submit_evidence env i k h c z u s)) [
      | inr (inl (e, bad)) ↦ absurd (ground arith)
      | inr (inr bad) ↦ absurd (ground arith)
      | inl ((n, s1), fine) ↦ elim (Outcome-cases (batch_submit_evidence env i l s1)) [
        | inr (inl (e, bad)) ↦ absurd (ground arith)
        | inr (inr bad) ↦ absurd (ground arith)
        | inl ((ns, s2), rest) ↦
            let (first, same) = submit_evidence-Continues env i k h c z u n s s1 v fine in
            let (second, same') = batch-Continues env i l ns s1 s2 first.filed rest in
            let last : s2 ≡ t = ground arith in
            subst (λ w. Continues s w × (w.claim_count ≡ s.claim_count)) last
              (join-Continues s s1 s2 first second same', same' ∙ same)
      ]
    ]

step-Continues :
    (f : Accepts) (env : Env) (op : Op) (s : PropertyInsurance)
    → IsFiled s
    → s.claim_count < max_u64
    → Continues s (step f env op s)
unfolding step
step-Continues f env (submits i x d e n) s v room =
    elim (Outcome-cases (submit_claim env i x d e n s)) [
      | inl ((id, t), fine) ↦
          rw (fine, kept) (submit_claim-Continues env i x d e n id s t v room fine)
      | inr (inl (e', bad)) ↦ rw (bad, kept) (same-Continues s s v refl refl)
      | inr (inr bad) ↦ rw (bad, kept) (same-Continues s s v refl refl)
    ]
step-Continues f env (processes i b u r) s v room =
    elim (Outcome-cases (process_claim env i b u r s)) [
      | inl ((x, t), fine) ↦ rw (fine, kept) (process_claim-Continues env i b u r s t v fine).0
      | inr (inl (e', bad)) ↦ rw (bad, kept) (same-Continues s s v refl refl)
      | inr (inr bad) ↦ rw (bad, kept) (same-Continues s s v refl refl)
    ]
step-Continues f env (submits_evidence i (k, h, l, z, u)) s v room =
    elim (Outcome-cases (submit_evidence env i k h l z u s)) [
      | inl ((n, t), fine) ↦
          rw (fine, kept) (submit_evidence-Continues env i k h l z u n s t v fine).0
      | inr (inl (e', bad)) ↦ rw (bad, kept) (same-Continues s s v refl refl)
      | inr (inr bad) ↦ rw (bad, kept) (same-Continues s s v refl refl)
    ]
step-Continues f env (submits_batch i l) s v room =
    elim (Outcome-cases (batch_submit_evidence env i l s)) [
      | inl ((ns, t), fine) ↦ rw (fine, kept) (batch-Continues env i l ns s t v fine).0
      | inr (inl (e', bad)) ↦ rw (bad, kept) (same-Continues s s v refl refl)
      | inr (inr bad) ↦ rw (bad, kept) (same-Continues s s v refl refl)
    ]
step-Continues f env (disputes i) s v room = elim (Outcome-cases (move_to_dispute env i s)) [
  | inl ((x, t), fine) ↦ rw (fine, kept) (move_to_dispute-Continues env i s t v fine)
  | inr (inl (e', bad)) ↦ rw (bad, kept) (same-Continues s s v refl refl)
  | inr (inr bad) ↦ rw (bad, kept) (same-Continues s s v refl refl)
]
step-Continues f env op s v room =
    let (same, count) = plain_step f env op s refl in
    same-Continues s (step f env op s) v same count

-- From a storage in which the claims are numbered by their counter and no payout exceeds its claim,
-- over any of the messages of `Op`, which are those that write but the two batches of decisions, no
-- more messages than the numbers that the counter has left: both still hold, and a claim that was
-- stored is stored, for the same policy, claimant and amount; once it is approved, rejected or paid
-- its payout never changes again, and its status only to disputed, which it then stays.
pub run-Continues :
    (f : Accepts) (ops : List (Env × Op)) (s : PropertyInsurance)
    → s.claim_count + length ops ≤ max_u64
    → IsFiled s
    → IsFiled (run f ops s)
      × ((k : ℕ) (a : InsuranceClaim)
          → lookup k s.claims ≡ some a
          → (b : InsuranceClaim) × (lookup k (run f ops s).claims ≡ some b) × Later a b)
unfolding run
run-Continues f [] s room v = (v, λ k a h. (a, h, Later_refl a))
run-Continues f ((env, op) ∷ ops) s room v =
    let t = step f env op s in
    let one = step-Continues f env op s v (omega arith) in
    let (filed, rest) = run-Continues f ops t (omega (arith, one.counted)) one.filed in
    (
      filed,
      λ k a h.
          let (b, there, first) = one.later k a h in
          let (c, last, then_on) = rest k b there in (c, last, Later_trans a b c first then_on),
    )
