-- ===== src/Insurance/Decisions.antt =====
-- contracts/insurance/src/insurance_impl.rs: what one message may do to the claims.
use stellar_soroban_contract.Prelude.{
  if◌then◌else◌, Bool-cases, nat_beq_sound, ◌==◌, nat_eq, string_eq, pair_eq, max_u64, lookup,
  insert, ℕ, zero, suc, ◌+◌, ◌≤◌, ◌<◌, ◌≡◌, refl, ap, subst, ◌∙◌, ◌⊎◌, inl, inr, false, some, arith,
}
use stellar_soroban_contract.Ink.{AccountId, Env, ok}
use stellar_soroban_contract.Insurance.Types.{approved, paid, disputed, InsuranceClaim}
use stellar_soroban_contract.Insurance.Storage.{PropertyInsurance, is_open}
use stellar_soroban_contract.Insurance.Payouts.{recovery_loop, try_reinsurance_recovery, pay_claim}

-- A claim later on: its terms are the same, and once it is decided so is its payout, and its status
-- too, unless the claim is disputed.
pub record Later (a b : InsuranceClaim) : Type 0 where
  pub terms :
      (b.policy_id ≡ a.policy_id) × (b.claimant ≡ a.claimant) × (b.claim_amount ≡ a.claim_amount)
  pub final :
      is_open a.status ≡ false
      → (b.payout_amount ≡ a.payout_amount) × ((b.status ≡ a.status) ⊎ (b.status ≡ disputed))

pub Later_refl : (a : InsuranceClaim) → Later a a
Later_refl a = record { terms = (refl, refl, refl); final = λ _. (refl, inl refl) }

pub Later_trans : (a b c : InsuranceClaim) → Later a b → Later b c → Later a c
Later_trans a b c v w = record {
  terms = ground (arith, v.terms, w.terms);
  final = λ h.
      let (payout, status) = v.final h in
      elim status [
        | inl same ↦
            let (payout', status') = w.final (ap is_open same ∙ h) in
            (
              payout' ∙ payout,
              elim status' [ inl same' ↦ inl (same' ∙ same) | inr late ↦ inr late ],
            )
        | inr early ↦
            let (payout', status') = w.final (ap is_open early) in
            (
              payout' ∙ payout,
              elim status' [ inl same' ↦ inr (same' ∙ early) | inr late ↦ inr late ],
            )
      ];
}

-- The claims are numbered by the counter, and a payout is never more than was claimed.
pub record IsFiled (s : PropertyInsurance) : Type 0 where
  pub numbered : (k : ℕ) (c : InsuranceClaim) → lookup k s.claims ≡ some c → k ≤ s.claim_count
  pub limited :
      (k : ℕ) (c : InsuranceClaim) → lookup k s.claims ≡ some c → c.payout_amount ≤ c.claim_amount

-- The claims of one storage are found again in another.
pub record Continues (s t : PropertyInsurance) : Type 0 where
  pub later :
      (k : ℕ) (a : InsuranceClaim)
      → lookup k s.claims ≡ some a
      → (b : InsuranceClaim) × (lookup k t.claims ≡ some b) × Later a b
  pub filed : IsFiled t
  pub counted : t.claim_count ≤ s.claim_count + 1

pub same-Continues :
    (s t : PropertyInsurance)
    → IsFiled s
    → t.claims ≡ s.claims
    → t.claim_count ≡ s.claim_count
    → Continues s t
same-Continues s t v same count = record {
  later = λ k a h. (a, rw same h, Later_refl a);
  filed = record {
    numbered = λ k c h. ground (arith, v.numbered k c);
    limited = λ k c h. v.limited k c (rw (← same) h);
  };
  counted = omega arith;
}

-- One claim that is stored is replaced.
pub replace-Continues :
    (s t : PropertyInsurance) (i : ℕ) (a b : InsuranceClaim)
    → IsFiled s
    → lookup i s.claims ≡ some a
    → Later a b
    → b.payout_amount ≤ b.claim_amount
    → ((k : ℕ) → lookup k t.claims ≡ (if k == i then some b else lookup k s.claims))
    → t.claim_count ≡ s.claim_count
    → Continues s t
replace-Continues s t i a b v here step_on small found count = record {
  later = λ k c h. elim (Bool-cases (k == i)) [
    | inl this ↦
        let eq : a ≡ c = ground (arith, nat_beq_sound k i) in
        (b, ground (arith, found k), subst (λ (z : InsuranceClaim). Later z b) eq step_on)
    | inr other ↦ (c, ground (arith, found k), Later_refl c)
  ];
  filed = record {
    numbered =
        λ k c h. ground (arith, found k, v.numbered k c, v.numbered i a here, nat_beq_sound k i);
    limited = λ k c h. elim (Bool-cases (k == i)) [
      | inl this ↦
          let eq : b ≡ c = ground (arith, found k) in
          subst (λ (z : InsuranceClaim). z.payout_amount ≤ z.claim_amount) eq small
      | inr other ↦ v.limited k c (ground (arith, found k))
    ];
  };
  counted = omega arith;
}

-- A claim is entered under the next number.
pub enter-Continues :
    (s t : PropertyInsurance) (c : InsuranceClaim)
    → IsFiled s
    → s.claim_count < max_u64
    → c.payout_amount ≤ c.claim_amount
    → ((k : ℕ) → lookup k t.claims ≡ (if k == s.claim_count + 1 then some c else lookup k s.claims))
    → t.claim_count ≡ s.claim_count + 1
    → Continues s t
enter-Continues s t c v room small found count =
    let new_id = s.claim_count + 1 in
    record {
      later = λ k a h.
          (a, ground (arith, found k, v.numbered k a h, nat_beq_sound k new_id), Later_refl a);
      filed = record {
        numbered = λ k a h. ground (arith, found k, v.numbered k a, nat_beq_sound k new_id);
        limited = λ k a h. elim (Bool-cases (k == new_id)) [
          | inl this ↦
              let eq : c ≡ a = ground (arith, found k) in
              subst (λ (z : InsuranceClaim). z.payout_amount ≤ z.claim_amount) eq small
          | inr other ↦ v.limited k a (ground (arith, found k))
        ];
      };
      counted = omega arith;
    }

pub recovery_loop-claims :
    (rounds now c x i : ℕ) (s : PropertyInsurance)
    → ((recovery_loop rounds now c x i s).claims ≡ s.claims)
      × ((recovery_loop rounds now c x i s).claim_count ≡ s.claim_count)
unfolding recovery_loop
recovery_loop-claims zero now c x i s = (refl, refl)
recovery_loop-claims (suc rounds) now c x i s =
    ground (arith, recovery_loop-claims rounds now c x (i + 1) s)

-- The claim as a payout leaves it.
abbrev pub settled : ℕ → InsuranceClaim → InsuranceClaim
settled payout c = record c {
  payout_amount = payout;
  status = if payout == 0 then approved else paid;
}

pub pay_claim-claims :
    (env : Env) (i p : ℕ) (a : AccountId) (x : ℕ) (c : InsuranceClaim) (s t : PropertyInsurance)
    → lookup i s.claims ≡ some c
    → pay_claim env i p a x s ≡ ok (tt, t)
    → (t.claims ≡ insert i (record c { status = paid }) s.claims) × (t.claim_count ≡ s.claim_count)
unfolding pay_claim try_reinsurance_recovery
pay_claim-claims env i p a x c s t here h =
    ground (arith, recovery_loop-claims s.reinsurance_count env.block_timestamp i x 1 s)
