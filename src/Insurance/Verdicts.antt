-- ===== src/Insurance/Verdicts.antt =====
-- contracts/insurance/src/insurance_impl.rs: the two answers on a piece of evidence.
use stellar_soroban_contract.Prelude.{
  nat_eq, string_eq, pair_eq, length, ℕ, ◌+◌, ◌≡◌, Bool, false, Option, none, some, List, [], ◌∷◌,
  arith,
}
use stellar_soroban_contract.Insurance.Types.{EvidenceVerification}
use stellar_soroban_contract.Insurance.Storage.{PropertyInsurance}
use stellar_soroban_contract.Insurance.Evidence.{
  verifications_of, count_valid, count_invalid, is_evidence_verified,
  get_evidence_verification_status,
}

count_lem : (l : List EvidenceVerification) → count_valid l + count_invalid l ≡ length l
count_lem [] = omega arith
count_lem (v ∷ vs) = ground (arith, count_lem vs)

abbrev pub consensus_of : Option (ℕ × ℕ × ℕ × Bool) → Bool
consensus_of none = false
consensus_of (some (n, v, i, c)) = c

-- For any evidence, the test of a majority agrees with the verdict of the summary, in which the
-- valid and the invalid verifications add up to all of them; without a verification there is no
-- summary and no majority.
pub is_evidence_verified_agrees :
    (i : ℕ) (s : PropertyInsurance)
    → (is_evidence_verified i s ≡ consensus_of (get_evidence_verification_status i s))
      × ((n v w : ℕ) (c : Bool)
          → get_evidence_verification_status i s ≡ some (n, v, w, c)
          → (v + w ≡ n) × (n ≡ length (verifications_of i s)))
unfolding is_evidence_verified get_evidence_verification_status
is_evidence_verified_agrees i s = (
  ground (arith, count_lem (verifications_of i s)),
  λ n v w c h. ground (arith, count_lem (verifications_of i s)),
)
