-- ===== src/Bridge/Signers.antt =====
-- contracts/bridge/src/lib.rs: whose signatures a request has.
use stellar_soroban_contract.Prelude.{
  Bool-cases, ◌==◌, nat_eq, beq→eq, contains, contains-push_back, lookup, insert, lookup-insert, ℕ,
  ◌≡◌, sym, subst, ◌⊎◌, inl, inr, Bool, true, false, ◌&&◌, ◌||◌, some, List, [], ◌∷◌, arith,
}
use stellar_soroban_contract.Host.{Address, Env}
use stellar_soroban_contract.Token.{Token}
use stellar_soroban_contract.Bridge.Types.{
  completed, MultisigBridgeRequest, RecoveryAction, unlock_token, refund_gas, retry_bridge,
  cancel_bridge, State,
}
use stellar_soroban_contract.Bridge.{Bridge, Op, step, run}
use stellar_soroban_contract.Bridge.Effects.{
  operators_of, signed, BridgeEffect, nothing, set_up, initiate, sign, execute, recover, manage,
}
use stellar_soroban_contract.Bridge.Steps.{step-BridgeEffect}
use stellar_soroban_contract.Bridge.Rules.{recovered}

-- Request `k` of a storage has the signature of `o`.
abbrev pub SignedBy : State → ℕ → Address → Type 0
SignedBy s k o =
    (r : MultisigBridgeRequest) × (lookup k s.request ≡ some r) × (contains r.signatures o ≡ true)

-- A rewritten request has the signatures of before, or one more by `o`.
replaced-SignedBy :
    (s t : State) (i k : ℕ) (o : Address) (a b r : MultisigBridgeRequest)
    → lookup i s.request ≡ some a
    → t.request ≡ insert i b s.request
    → (contains b.signatures o ≡ true → contains a.signatures o ≡ true)
    → lookup k t.request ≡ some r
    → contains r.signatures o ≡ true
    → SignedBy s k o
replaced-SignedBy s t i k o a b r here filed before found listed = elim (Bool-cases (k == i)) [
  | inl this ↦
      let key : k ≡ i = beq→eq k i this in
      let same : b ≡ r = ground (arith, filed, lookup-insert k i b s.request) in
      (
        a,
        rw key here,
        before (
            subst (λ (z : MultisigBridgeRequest). contains z.signatures o ≡ true) (sym same)
              listed),
      )
  | inr other ↦ (r, ground (arith, filed, lookup-insert k i b s.request), listed)
]

recovered-signatures :
    (y : RecoveryAction) (r : MultisigBridgeRequest) (o : Address)
    → contains (recovered y r).signatures o ≡ true
    → contains r.signatures o ≡ true
recovered-signatures retry_bridge r o h = absurd (cc)
recovered-signatures unlock_token r o h = h
recovered-signatures refund_gas r o h = h
recovered-signatures cancel_bridge r o h = h

-- A signature was there before the transaction, or is by an operator who authorised it.
BridgeEffect-SignedBy :
    {env : Env} (s t : State) (k : ℕ) (o : Address)
    → BridgeEffect env s t
    → SignedBy t k o
    → SignedBy s k o ⊎ ((env.authorised o && contains (operators_of s) o) ≡ true)
BridgeEffect-SignedBy s t k o (nothing e) (r, found, listed) = inl (r, rw (← e) found, listed)
BridgeEffect-SignedBy s t k o (set_up a _ _ _ _ same _) (r, found, listed) =
    inl (r, rw (← same) found, listed)
BridgeEffect-SignedBy s t k o (initiate c _ _ _ _ _ _ _ _ none_yet _ filed _ _ _)
      (r, found, listed) =
    elim (Bool-cases (k == c.request_id)) [
      | inl this ↦
          let same : c ≡ r = ground (arith, filed, lookup-insert k c.request_id c s.request) in
          let unsigned : r.signatures ≡ [] =
            subst (λ (z : MultisigBridgeRequest). z.signatures ≡ []) same none_yet in
          absurd (contains-nil r.signatures o unsigned listed)
      | inr other ↦ inl (r, ground (arith, filed, lookup-insert k c.request_id c s.request), listed)
    ]
  where
    contains-nil : (l : List Address) (a : Address) → l ≡ [] → contains l a ≡ true → ⊥
    contains-nil [] a e h = cc
    contains-nil (x ∷ l) a e h = cc
BridgeEffect-SignedBy s t k o (sign i c a b auth member here _ _ filed _ _ _) (r, found, listed) =
    elim (Bool-cases (a == o)) [
      | inl this ↦ inr (ground (arith, beq→eq a o this))
      | inr other ↦ inl (
          replaced-SignedBy s t i k o c (signed b a c) r here filed
            (λ h. ground (arith, contains-push_back c.signatures a o)) found listed)
    ]
BridgeEffect-SignedBy s t k o (execute i c a x _ _ here _ filed _ _ _) (r, found, listed) = inl (
    replaced-SignedBy s t i k o c (record c { status = completed }) r here filed (λ h. h) found
      listed)
BridgeEffect-SignedBy s t k o (recover i c a y _ _ here _ filed _ _ _) (r, found, listed) = inl (
    replaced-SignedBy s t i k o c (recovered y c) r here filed (recovered-signatures y c o) found
      listed)
BridgeEffect-SignedBy s t k o (manage a _ _ _ _ same _ _) (r, found, listed) =
    inl (r, rw (← same) found, listed)

module _ (tokens : Token) (sha256 : ℕ → ℕ) where
  -- An address was an operator at a transaction that it authorised.
  pub served : List (Env × Op) → Bridge tokens → Address → Bool
  served [] w o = false
  served ((env, op) ∷ ops) w o =
      let later = served ops (step tokens sha256 env op w) o in
      (env.authorised o && contains (operators_of w.own) o) || later

  pub run-SignedBy :
      (ops : List (Env × Op)) (w : Bridge tokens) (k : ℕ) (o : Address)
      → SignedBy (run tokens sha256 ops w).own k o
      → SignedBy w.own k o ⊎ (served ops w o ≡ true)
  unfolding run served
  run-SignedBy [] w k o by = inl by
  run-SignedBy ((env, op) ∷ ops) w k o by =
      let next = step tokens sha256 env op w in
      elim (run-SignedBy ops next k o by) [
        | inr later ↦ inr (ground arith)
        | inl before ↦
            elim (BridgeEffect-SignedBy w.own next.own k o
              (step-BridgeEffect tokens sha256 env op w) before) [
                | inl first ↦ inl first
                | inr now ↦ inr (ground arith)
              ]
      ]
