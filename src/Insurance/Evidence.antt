-- ===== src/Insurance/Evidence.antt =====
-- contracts/insurance/src/insurance_impl.rs: the evidence for a claim, and its verification.
use Prim.Native.String.{◌++◌ as string_append}
use stellar_soroban_contract.Prelude.{
  ltb, if◌then◌else◌, ◌==◌, nat_eq, string_eq, pair_eq, length, push_back, u64, u128, lookup,
  insert, ℕ, ◌+◌, ◌-◌, ◌*◌, String, starts_with, Bool, true, false, not, ◌&&◌, ◌||◌, Option, none,
  some, List, [], ◌∷◌,
}
use stellar_soroban_contract.Ink.{
  AccountId, Env, ◌>>=◌, ◌>>◌, return, gets, modify, fail_if, ok_or, unwrap_or,
}
use stellar_soroban_contract.Insurance.Types.{
  unauthorized, claim_not_found, invalid_parameters, duplicate_claim, evidence_nonce_empty,
  evidence_invalid_hash_length, EvidenceItem, EvidenceVerification,
}
use stellar_soroban_contract.Insurance.Rbac.{admin_role, assessor_role, has_role}
use stellar_soroban_contract.Insurance.Storage.{
  evidence_submitted, evidence_verified, PropertyInsurance, Msg, emit_event, set_claim, find_claim,
}

abbrev pub is_assessor_of : AccountId → Option AccountId → Bool
is_assessor_of caller none = false
is_assessor_of caller (some a) = a == caller

unfoldable pub submit_evidence : Env → ℕ → String → String → List ℕ → ℕ → Option String → Msg ℕ
unfolding has_role
submit_evidence env claim_id evidence_type ipfs_hash content_hash file_size metadata_url = do
  fail_if (claim_id == 0) invalid_parameters
  fail_if (evidence_type == "") evidence_nonce_empty
  fail_if (file_size == 0) invalid_parameters
  fail_if (not (starts_with ipfs_hash "Qm") && not (starts_with ipfs_hash "bafy"))
      invalid_parameters
  fail_if (not (length content_hash == 32)) evidence_invalid_hash_length
  claim ← find_claim claim_id
  is_admin ← gets (λ s. has_role env.caller admin_role s.role_manager)
  fail_if
      (not (env.caller == claim.claimant || is_assessor_of env.caller claim.assessor || is_admin))
      unauthorized
  modify (λ s. record s { evidence_count = u64 (s.evidence_count + 1) })
  evidence_id ← gets (λ s. s.evidence_count)
  modify (λ s. record s {
    evidence_items =
        insert evidence_id
          (record {
            id = evidence_id;
            claim_id = claim_id;
            evidence_type = evidence_type;
            ipfs_hash = ipfs_hash;
            ipfs_uri = string_append "ipfs://" ipfs_hash;
            content_hash = content_hash;
            file_size = file_size;
            submitter = env.caller;
            submitted_at = env.block_timestamp;
            verified = false;
            verified_by = none;
            verified_at = none;
            verification_notes = none;
            metadata_url = metadata_url;
          })
          s.evidence_items;
  })
  listed ← gets (λ s. push_back (unwrap_or [] (lookup claim_id s.claim_evidence)) evidence_id)
  modify (λ s. record s { claim_evidence = insert claim_id listed s.claim_evidence })
  set_claim claim_id (record claim { evidence_ids = listed })
  emit_event (
      evidence_submitted evidence_id claim_id evidence_type ipfs_hash env.caller
        env.block_timestamp)
  return evidence_id

abbrev pub verifications_of : ℕ → PropertyInsurance → List EvidenceVerification
verifications_of evidence_id s = unwrap_or [] (lookup evidence_id s.evidence_verifications)

-- `for verification in &verifications { if verification.verifier == caller { .. } }`
abbrev pub verified_before : AccountId → List EvidenceVerification → Bool
verified_before caller [] = false
verified_before caller (v ∷ vs) = (v.verifier == caller) || verified_before caller vs

-- The item after a first valid verification.
abbrev pub with_verification : Env → Bool → String → EvidenceItem → EvidenceItem
with_verification env is_valid notes item =
    if is_valid && not item.verified
    then record item {
      verified = true;
      verified_by = some env.caller;
      verified_at = some env.block_timestamp;
      verification_notes = some notes;
    }
    else item

unfoldable pub verify_evidence : Env → ℕ → Bool → String → Msg (Unit {0})
unfolding has_role
verify_evidence env evidence_id is_valid notes = do
  allowed ← gets (λ s. has_role env.caller assessor_role s.role_manager)
  fail_if (not allowed) unauthorized
  stored ← gets (λ s. lookup evidence_id s.evidence_items)
  item ← ok_or stored claim_not_found
  before ← gets (verifications_of evidence_id)
  fail_if (verified_before env.caller before) duplicate_claim
  modify (λ s. record s {
    evidence_items =
        if is_valid && not item.verified
        then insert evidence_id (with_verification env is_valid notes item) s.evidence_items
        else s.evidence_items;
    evidence_verifications =
        insert evidence_id
          (push_back before (record {
            evidence_id = evidence_id;
            verifier = env.caller;
            verified_at = env.block_timestamp;
            is_valid = is_valid;
            notes = notes;
            ipfs_accessible = true;
            hash_matches = length item.content_hash == 32;
          }))
          s.evidence_verifications;
  })
  emit_event (evidence_verified evidence_id env.caller is_valid env.block_timestamp)

-- `verifications.iter().filter(|v| v.is_valid).count()`
abbrev pub count_valid : List EvidenceVerification → ℕ
count_valid [] = 0
count_valid (v ∷ vs) = (if v.is_valid then 1 else 0) + count_valid vs

-- The same with `|v| !v.is_valid`.
abbrev pub count_invalid : List EvidenceVerification → ℕ
count_invalid [] = 0
count_invalid (v ∷ vs) = (if v.is_valid then 0 else 1) + count_invalid vs

unfoldable pub is_evidence_verified : ℕ → PropertyInsurance → Bool
is_evidence_verified evidence_id s =
    let l = verifications_of evidence_id s in
    not (length l == 0) && ltb (length l - count_valid l) (count_valid l)

unfoldable pub get_evidence_verification_status : ℕ → PropertyInsurance → Option (ℕ × ℕ × ℕ × Bool)
get_evidence_verification_status evidence_id s =
    let l = verifications_of evidence_id s in
    if length l == 0
    then none
    else some (length l, count_valid l, count_invalid l, ltb (count_invalid l) (count_valid l))

-- The arguments of one piece of evidence in a batch.
abbrev pub Submission : Type 0
Submission = String × String × List ℕ × ℕ × Option String

-- `for (..) in evidence_items { .. submit_evidence(..)? .. }`
unfoldable pub batch_submit_evidence : Env → ℕ → List Submission → Msg (List ℕ)
unfolding submit_evidence
batch_submit_evidence env claim_id [] = return []
batch_submit_evidence env claim_id ((kind, hash, content, size, url) ∷ rest) = do
  evidence_id ← submit_evidence env claim_id kind hash content size url
  evidence_ids ← batch_submit_evidence env claim_id rest
  return (evidence_id ∷ evidence_ids)

abbrev pub storage_cost : EvidenceItem → ℕ
storage_cost item = u128 (1000 + item.file_size * 10 + (if item.verified then 500 else 0))

unfoldable pub calculate_evidence_storage_cost : ℕ → PropertyInsurance → Option ℕ
calculate_evidence_storage_cost evidence_id s = elim (lookup evidence_id s.evidence_items) [
  | none ↦ none
  | some item ↦ some (storage_cost item)
]

-- `for evidence_id in evidence_ids`
unfoldable pub cost_loop : PropertyInsurance → List ℕ → ℕ → ℕ
unfolding calculate_evidence_storage_cost
cost_loop s [] total_cost = total_cost
cost_loop s (i ∷ ids) total_cost =
    cost_loop s ids (u128 (total_cost + unwrap_or 0 (calculate_evidence_storage_cost i s)))

unfoldable pub get_claim_evidence_total_cost : ℕ → PropertyInsurance → ℕ
unfolding cost_loop
get_claim_evidence_total_cost claim_id s =
    cost_loop s (unwrap_or [] (lookup claim_id s.claim_evidence)) 0
