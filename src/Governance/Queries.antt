-- ===== src/Governance/Queries.antt =====
-- contracts/governance/src/lib.rs: the threshold, and the list of the proposals open to votes.
use native.Mathlib.Nat.{le-div_iff_mul-le}
use stellar_soroban_contract.Prelude.{
  ltb, leb, Bool-cases, Option-cases, nat_eq, pair_eq, push_back, contains, contains-push_back, pos,
  ◌+ℤ◌, ◌-ℤ◌, ◌*ℤ◌, is_zero_ℤ, int_laws, half_i128, i128, i128_self, quot_i128, lookup, ℕ, zero,
  suc, ◌+◌, ◌*◌, ◌/◌, ◌<◌, ◌≡◌, refl, subst, ◌∙◌, inl, inr, true, false, not, ◌&&◌, ◌||◌, none,
  some, List, [], arith,
}
use stellar_soroban_contract.Host.{Env, Failure, missing_value, panicked, ok, err, succeeds}
use stellar_soroban_contract.InsuranceTypes.{Proposal}
use stellar_soroban_contract.Interop.{Contracts, World}
use stellar_soroban_contract.Governance.Effects.{meets_threshold}
use stellar_soroban_contract.Governance.{
  check_threshold, mark_executed, perform_pending, execute_proposal,
}
use stellar_soroban_contract.Governance.Types.{State, counter_of, percentage}
use stellar_soroban_contract.Governance.Views.{is_votable, active_from, get_active_proposals}

contains-active_from :
    (s : State) (now i n x : ℕ) (list : List ℕ)
    → contains (active_from s now i n list) x
      ≡ (contains list x || (leb i x && (ltb x (i + n) && is_votable now (lookup x s.proposals))))
unfolding active_from
contains-active_from s now i zero x list = ground arith
contains-active_from s now i (suc n) x list =
    elim (Bool-cases (is_votable now (lookup i s.proposals))) [
      | inl t ↦
          rw
            (
              t,
              contains-active_from s now (suc i) n x (push_back list i),
              contains-push_back list i x,
            )
            (ground (
              arith,
              λ (e : i ≡ x). subst (λ (j : ℕ). is_votable now (lookup j s.proposals) ≡ true) e t,
            ))
      | inr f ↦
          rw (f, contains-active_from s now (suc i) n x list)
            (ground (
              arith,
              λ (e : i ≡ x). subst (λ (j : ℕ). is_votable now (lookup j s.proposals) ≡ false) e f,
            ))
    ]

-- A number is in the answer of `get_active_proposals` exactly when it was given out, a proposal is
-- stored under it, and that proposal is not finalized and not past its deadline.
pub contains-get_active_proposals :
    (env : Env) (s : State) (k : ℕ)
    → contains (get_active_proposals env s) k
      ≡ (leb 1 k && (leb k (counter_of s) && is_votable env.timestamp (lookup k s.proposals)))
unfolding get_active_proposals
contains-get_active_proposals env s k =
    contains-active_from s env.timestamp 1 (counter_of s) k [] ∙ ground arith

mul_pos : (y k : ℕ) → pos y *ℤ pos k ≡ pos (y * k)
unfolding ◌*ℤ◌
mul_pos y k = ground arith

quot_pos : (a b : ℕ) → quot_i128 (pos a) (pos b) ≡ pos (a / b)
unfolding quot_i128 ◌-ℤ◌
quot_pos zero b = ground arith
quot_pos (suc a) b = ground arith

add_pos : (a b : ℕ) → pos a +ℤ pos b ≡ pos (a + b)
add_pos a b = omega int_laws

self_pos : (a : ℕ) → a < half_i128 → i128 (pos a) ≡ pos a
self_pos a h = i128_self (pos a) (h, omega arith)

percentage_lem :
    (y t : ℕ) → y * 100 < half_i128 → percentage (pos y) (pos t) ≡ some (pos (y * 100 / t))
percentage_lem y t fits = rw (mul_pos y 100, self_pos (y * 100) fits, quot_pos (y * 100) t) refl

-- A rounded quotient reaches a threshold exactly when the product does.
quotient_reaches : (a t h : ℕ) → 0 < t → not (ltb (a / t) h) ≡ leb (h * t) a
quotient_reaches a t h p = ground (
  arith,
  (le-div_iff_mul-le {k = t} {x = h} {y = a} p).0,
  (le-div_iff_mul-le {k = t} {x = h} {y = a} p).1,
)

meets_threshold_lem :
    (p : Proposal) (y n : ℕ)
    → p.yes_votes ≡ pos y
    → p.no_votes ≡ pos n
    → y * 100 < half_i128
    → y + n < half_i128
    → meets_threshold p ≡ (ltb 0 (y + n) && leb (p.threshold_percentage * (y + n)) (y * 100))
meets_threshold_lem p y n ey en fits sum_fits =
    let all : i128 (p.yes_votes +ℤ p.no_votes) ≡ pos (y + n) =
      rw (ey, en, add_pos y n) (self_pos (y + n) sum_fits) in
    let share : percentage p.yes_votes (pos (y + n)) ≡ some (pos (y * 100 / (y + n))) =
      rw ey (percentage_lem y (y + n) fits) in
    elim (Bool-cases (ltb 0 (y + n))) [
      | inl some_votes ↦
          let reaches = quotient_reaches (y * 100) (y + n) p.threshold_percentage (ground arith) in
          rw (all, share) (ground (arith, reaches))
      | inr no_votes ↦ rw all (ground arith)
    ]

-- The test of the threshold passes exactly when the threshold is met, and writes nothing.
check_threshold_decides :
    {W : Type 0} (p : Proposal) (w : World State W)
    → (meets_threshold p ≡ true → check_threshold p w ≡ ok (tt, w))
      × (meets_threshold p ≡ false → (e : Failure) × (check_threshold p w ≡ err e))
unfolding check_threshold
check_threshold_decides p w =
    let total_votes = i128 (p.yes_votes +ℤ p.no_votes) in
    elim (Option-cases (percentage p.yes_votes total_votes)) [
      | inl x ↦ (
        λ h. ground arith,
        λ h. elim (Bool-cases (is_zero_ℤ total_votes)) [
          | inl z ↦ (panicked "Threshold not met", ground arith)
          | inr z ↦ (missing_value, ground arith)
        ],
      )
      | inr (q, x) ↦ (λ h. ground arith, λ h. (panicked "Threshold not met", ground arith))
    ]

-- On a stored proposal without a pending action, with yes and no votes that are not negative, whose
-- hundredfold and sum fit an `i128`, `execute_proposal` succeeds exactly when the proposal is
-- finalized and not executed, there is a vote, and a hundred times the yes votes are at least the
-- threshold times all votes.
pub threshold_exact :
    {W : Type 0} (contracts : Contracts W) (env : Env) (k : ℕ) (w : World State W) (p : Proposal)
    (y n : ℕ)
    → lookup k w.own.proposals ≡ some p
    → lookup k w.own.pending_actions ≡ none
    → p.yes_votes ≡ pos y
    → p.no_votes ≡ pos n
    → y * 100 < half_i128
    → y + n < half_i128
    → succeeds (execute_proposal contracts env k w) ≡ (
        p.is_finalized
        && (not p.is_executed
            && (ltb 0 (y + n) && leb (p.threshold_percentage * (y + n)) (y * 100))))
unfolding execute_proposal perform_pending mark_executed
threshold_exact contracts env k w p y n here no_action ey en fits sum_fits =
    let exact = meets_threshold_lem p y n ey en fits sum_fits in
    let (passes, fails) = check_threshold_decides p w in
    elim (Bool-cases (meets_threshold p)) [
      | inl met ↦ ground (arith, passes met, exact)
      | inr unmet ↦ let (e, failed) = fails unmet in ground (arith, failed, exact)
    ]
