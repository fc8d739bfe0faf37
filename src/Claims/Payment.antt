-- ===== src/Claims/Payment.antt =====
-- contracts/claims/src/lib.rs: settlements against payouts, and the closed claims.
use stellar_soroban_contract.Prelude.{
  if◌then◌else◌, Option-cases, nat_eq, length, ℤ, pos, ◌+ℤ◌, int_laws, total, lookup, insert,
  lookup-insert, total-insert, ℕ, ◌≡◌, refl, inl, inr, false, some, List, [], ◌∷◌, arith,
}
use stellar_soroban_contract.Host.{Address, Env, ok, Result-cases}
use stellar_soroban_contract.InsuranceTypes.{InsurancePolicy, ClaimStatus, settled, InsuranceClaim}
use stellar_soroban_contract.Interop.{Val, u64_val, i128_val, address, Contracts, World}
use stellar_soroban_contract.Claims.Locks.{IsIndexed, HasRoom, ⟶-open, ClaimsEffect-IsIndexed}
use stellar_soroban_contract.Claims.{State, Op, fetch_policy, pay_out, step, run}
use stellar_soroban_contract.Claims.Workflow.{
  is_open, is_settled, ◌⟶◌, start, approve, reject, settle, Outside, ClaimsEffect, nothing, set_up,
  submit, advance, step-ClaimsEffect,
}

abbrev pub settled_amount : ℕ → InsuranceClaim → ℤ
settled_amount _ c = if is_settled c.status then c.amount else pos 0

-- The sum of the amounts of all settled claims.
pub settled_total : State → ℤ
settled_total s = total settled_amount s.claims

-- What the claims contract relies on of the others: `paid` is the sum of all that the risk pool
-- has paid out; the three reading functions leave it alone, and a payout raises it by its amount.
pub record PaysOut {W : Type 0} (contracts : Contracts W) (paid : W → ℤ) : Type 0 where
  pub is_active_reads :
      (env : Env) (a : Address) (args : List Val) (w w' : W) (v : Val)
      → contracts.invoke env a "is_active" args w ≡ ok (v, w')
      → paid w' ≡ paid w
  pub get_pol_reads :
      (env : Env) (a : Address) (args : List Val) (w w' : W) (v : Val)
      → contracts.invoke env a "get_pol" args w ≡ ok (v, w')
      → paid w' ≡ paid w
  pub get_stats_reads :
      (env : Env) (a : Address) (args : List Val) (w w' : W) (v : Val)
      → contracts.invoke env a "get_stats" args w ≡ ok (v, w')
      → paid w' ≡ paid w
  pub payout_pays :
      (env : Env) (a : Address) (to : Address) (x : ℤ) (w w' : W) (v : Val)
      → contracts.invoke env a "payout" (address to ∷ i128_val x ∷ []) w ≡ ok (v, w')
      → paid w' ≡ paid w +ℤ x

⟶-settled : {a b : ClaimStatus} → a ⟶ b → is_settled a ≡ false
⟶-settled start = refl
⟶-settled approve = refl
⟶-settled reject = refl
⟶-settled settle = refl

module _ {W : Type 0} (contracts : Contracts W) where
  -- One transaction leaves a closed claim alone.
  ClaimsEffect-closed :
      {env : Env} {w : World State W} {t : State} {o : W}
      → IsIndexed w.own
      → HasRoom 1 w.own
      → ClaimsEffect contracts env w t o
      → (k : ℕ) (c : InsuranceClaim) → lookup k w.own.claims ≡ some c
      → is_open c.status ≡ false
      → lookup k t.claims ≡ some c
  ClaimsEffect-closed v room (nothing e f) k c here closed = rw e here
  ClaimsEffect-closed v room (set_up a p r _ same _ _ _ _ _ f) k c here closed = rw same here
  ClaimsEffect-closed {w = w} v room (submit d policy r _ _ _ _ _ id _ _ filed _ _ _ _ _) k c here
        closed =
      ground (arith, lookup-insert k d.claim_id d w.own.claims, (v.own_id k c here).1)
  ClaimsEffect-closed {w = w} v room (advance j a d next _ _ there edge filed _ _ _ _) k c here
        closed =
      ground (arith, lookup-insert k j (record d { status = next }) w.own.claims, ⟶-open edge)

module _ {W : Type 0} (contracts : Contracts W) {paid : W → ℤ} (laws : PaysOut contracts paid) where
  paid-fetch_policy :
      (env : Env) (p : ℕ) (w v : World State W) {policy : InsurancePolicy}
      → fetch_policy contracts env p w ≡ ok (policy, v)
      → paid v.others ≡ paid w.others
  unfolding fetch_policy
  paid-fetch_policy env p w v {policy} h = elim (Option-cases w.own.policy_contract) [
    | inl e ↦ absurd (ground arith)
    | inr (a, e) ↦
        elim (Result-cases (contracts.invoke env a "is_active" (u64_val p ∷ []) w.others)) [
          | inl (x, failed) ↦ absurd (ground arith)
          | inr ((x, w1), first) ↦
              elim (Result-cases (contracts.invoke env a "get_pol" (u64_val p ∷ []) w1)) [
                | inl (y, failed) ↦ absurd (ground arith)
                | inr ((y, w2), second) ↦ ground (
                  arith,
                  laws.is_active_reads env a (u64_val p ∷ []) w.others w1 x first,
                  laws.get_pol_reads env a (u64_val p ∷ []) w1 w2 y second,
                )
              ]
        ]
  ]

  paid-pay_out :
      (env : Env) (c : InsuranceClaim) (w v : World State W)
      → pay_out contracts env c w ≡ ok (tt, v)
      → paid v.others ≡ paid w.others +ℤ c.amount
  unfolding pay_out
  paid-pay_out env c w v h = elim (Option-cases w.own.risk_pool) [
    | inl e ↦ absurd (ground arith)
    | inr (a, e) ↦ elim (Result-cases (contracts.invoke env a "get_stats" [] w.others)) [
      | inl (x, failed) ↦ absurd (ground arith)
      | inr ((x, w1), first) ↦
          let args = address c.claimant ∷ i128_val c.amount ∷ [] in
          elim (Result-cases (contracts.invoke env a "payout" args w1)) [
            | inl (y, failed) ↦ absurd (ground arith)
            | inr ((y, w2), second) ↦ ground (
              arith,
              laws.get_stats_reads env a [] w.others w1 x first,
              laws.payout_pays env a c.claimant c.amount w1 w2 y second,
            )
          ]
    ]
  ]

  -- A move of one claim that was not settled.
  advance-conserves :
      (env : Env) (w : World State W) (t : State) (o : W) (k : ℕ) (c : InsuranceClaim)
      (next : ClaimStatus)
      → lookup k w.own.claims ≡ some c
      → is_settled c.status ≡ false
      → t.claims ≡ insert k (record c { status = next }) w.own.claims
      → Outside contracts env c next w o
      → paid o +ℤ settled_total w.own ≡ paid w.others +ℤ settled_total t
  unfolding settled_total
  advance-conserves env w t o k c settled here not_yet filed (r, paid_out, f) = grind (
    int_laws,
    paid-pay_out env c w r paid_out,
    total-insert settled_amount k (record c { status = settled }) w.own.claims,
  )
  advance-conserves env w t o k c next here not_yet filed f =
      grind (int_laws, total-insert settled_amount k (record c { status = next }) w.own.claims)

  -- One transaction raises the payouts and the settled amounts by the same sum.
  ClaimsEffect-conserves :
      {env : Env} {w : World State W} {t : State} {o : W}
      → HasRoom 1 w.own
      → IsIndexed w.own
      → ClaimsEffect contracts env w t o
      → paid o +ℤ settled_total w.own ≡ paid w.others +ℤ settled_total t
  unfolding settled_total
  ClaimsEffect-conserves room v (nothing e f) = rw (e, f) refl
  ClaimsEffect-conserves room v (set_up a p r _ same _ _ _ _ _ f) = rw (same, f) refl
  ClaimsEffect-conserves {env} {w} room v
        (submit c policy r fetched _ _ _ _ id st _ filed _ _ _ _ f) =
      grind (
        int_laws,
        paid-fetch_policy env c.policy_id w r fetched,
        total-insert settled_amount c.claim_id c w.own.claims,
        v.own_id c.claim_id,
      )
  ClaimsEffect-conserves {env} {w} {t} {o} room v
        (advance k a c next _ _ here edge filed _ _ _ outside) =
      advance-conserves env w t o k c next here (⟶-settled edge) filed outside

  -- From indexed claims, with a counter that has numbers left for all the transactions, and for
  -- other contracts that keep the laws of `PaysOut`: whatever transactions take place, the sum that
  -- the others have paid out grows by exactly the amounts of the claims that become settled. No
  -- settlement pays twice, none pays another amount, and no other transaction pays.
  pub run-conserves :
      (ops : List (Env × Op)) (w : World State W)
      → HasRoom (length ops) w.own
      → IsIndexed w.own
      → let v = run contracts ops w in
        paid v.others +ℤ settled_total w.own ≡ paid w.others +ℤ settled_total v.own
  unfolding run
  run-conserves [] w room v = refl
  run-conserves ((env, op) ∷ ops) w room v =
      let effect = step-ClaimsEffect contracts env op w in
      let (v', counted) = ClaimsEffect-IsIndexed contracts (omega arith) v effect in
      grind (
        int_laws,
        ClaimsEffect-conserves (omega arith) v effect,
        run-conserves ops (step contracts env op w) (omega arith) v',
      )

module _ {W : Type 0} (contracts : Contracts W) where
  -- From indexed claims, with a counter that has numbers left for all the transactions, a claim
  -- that was rejected or settled is the same claim after them.
  pub closed_for_good :
      (ops : List (Env × Op)) (w : World State W)
      → HasRoom (length ops) w.own
      → IsIndexed w.own
      → (k : ℕ) (c : InsuranceClaim) → lookup k w.own.claims ≡ some c
      → is_open c.status ≡ false
      → lookup k (run contracts ops w).own.claims ≡ some c
  unfolding run
  closed_for_good [] w room v k c here closed = here
  closed_for_good ((env, op) ∷ ops) w room v k c here closed =
      let effect = step-ClaimsEffect contracts env op w in
      let (v', counted) = ClaimsEffect-IsIndexed contracts (omega arith) v effect in
      closed_for_good ops (step contracts env op w) (omega arith) v' k c
        (ClaimsEffect-closed contracts v room' effect k c here closed) closed
    where
      room' : HasRoom 1 w.own
      room' = omega arith
