-- ===== src/Bridge/Requests.antt =====
-- contracts/bridge/src/lib.rs: the signatures of the requests, the operators and the histories.
use stellar_soroban_contract.Prelude.{
  Bool-cases, ◌==◌, nat_eq, beq_refl, beq→eq, length, push_back, length-push_back, contains,
  IsDistinct, contains-push_back, IsDistinct-push_back, lookup, insert, lookup-insert,
  lookup_or-insert, ℕ, ◌+◌, ◌≤◌, ◌<◌, ◌≡◌, refl, subst, ◌∙◌, inl, inr, Bool, true, false, some,
  List, [], ◌∷◌, arith,
}
use stellar_soroban_contract.Host.{Address, Env}
use stellar_soroban_contract.Token.{Token}
use stellar_soroban_contract.Bridge.Types.{
  BridgeOperationStatus, pending, locked, completed, failed, expired, in_transit,
  MultisigBridgeRequest, BridgeTransaction, RecoveryAction, unlock_token, refund_gas, retry_bridge,
  cancel_bridge, State, deployed, max_history_items, history_of,
}
use stellar_soroban_contract.Bridge.{Bridge, Op, step, run}
use stellar_soroban_contract.Bridge.Effects.{
  operators_of, signed, BridgeEffect, nothing, set_up, initiate, sign, execute, recover, manage,
}
use stellar_soroban_contract.Bridge.Steps.{step-BridgeEffect}
use stellar_soroban_contract.Bridge.Rules.{max_operators, is_locked, trim, recovered, keep_others}

abbrev pub is_passed : BridgeOperationStatus → Bool
is_passed locked = true
is_passed completed = true
is_passed _ = false

-- A request that can be executed or was has the signatures that it asks for, none twice.
abbrev pub IsCounted : MultisigBridgeRequest → Type 0
IsCounted r =
    (0 < r.required_signatures)
    × IsDistinct r.signatures
    × (is_passed r.status ≡ true → r.required_signatures ≤ length r.signatures)

-- What holds between two transactions.
pub record IsSound (s : State) : Type 0 where
  pub counted :
      (k : ℕ) (r : MultisigBridgeRequest)
      → lookup k s.request ≡ some r
      → (r.request_id ≡ k) × IsCounted r
  pub manned : IsDistinct (operators_of s) × (length (operators_of s) ≤ max_operators)
  pub bounded : (a : Address) → length (history_of a s) ≤ max_history_items

pub deployed-IsSound : IsSound deployed
unfolding lookup
deployed-IsSound = record {
  counted = λ k r h. absurd (cc);
  manned = (tt, omega arith);
  bounded = λ a. omega arith;
}

-- The loop of `remove_operator` keeps what it has found distinct and no longer than the list.
keep_others-IsDistinct :
    (o : Address) (l acc : List Address)
    → IsDistinct l
    → IsDistinct acc
    → ((x : Address) → contains l x ≡ true → contains acc x ≡ false)
    → IsDistinct (keep_others o l acc) × (length (keep_others o l acc) ≤ length l + length acc)
unfolding keep_others
keep_others-IsDistinct o [] acc d e f = (e, omega arith)
keep_others-IsDistinct o (x ∷ l) acc (new, d) e f = elim (Bool-cases (x == o)) [
  | inl same ↦
      let (a, b) = keep_others-IsDistinct o l acc d e (λ y h. f y (ground arith)) in
      rw same (a, omega (arith, b))
  | inr other ↦
      let fresh : contains acc x ≡ false = f x (ground (arith, beq_refl x)) in
      let (a, b) =
        keep_others-IsDistinct o l (push_back acc x) d (IsDistinct-push_back acc x fresh e)
          (λ y h. ground (arith, contains-push_back acc x y, f y, beq→eq x y)) in
      rw other (a, omega (arith, b, length-push_back acc x))
]

-- One request of a sound storage is replaced.
replace-IsSound :
    (s t : State) (k : ℕ) (r : MultisigBridgeRequest)
    → IsSound s
    → r.request_id ≡ k
    → IsCounted r
    → t.request ≡ insert k r s.request
    → t.operators ≡ s.operators
    → ((a : Address) → length (history_of a t) ≤ max_history_items)
    → IsSound t
replace-IsSound s t k r v id fine filed same short = record {
  counted = λ j q h. elim (Bool-cases (j == k)) [
    | inl this ↦
        let eq : r ≡ q = ground (arith, lookup-insert j k r s.request) in
        (ground arith, subst IsCounted eq fine)
    | inr other ↦ v.counted j q (ground (arith, lookup-insert j k r s.request))
  ];
  manned = rw same v.manned;
  bounded = short;
}

signed-IsCounted :
    (b : Bool) (o : Address) (r : MultisigBridgeRequest)
    → IsCounted r
    → contains r.signatures o ≡ false
    → IsCounted (signed b o r)
signed-IsCounted b o r (p, d, e) new = (p, IsDistinct-push_back r.signatures o new d, enough b)
  where
    enough :
        (b : Bool)
        → is_passed (signed b o r).status ≡ true
        → r.required_signatures ≤ length (push_back r.signatures o)
    enough false h = absurd (cc)
    enough true h = ground (arith, length-push_back r.signatures o)

recovered-IsCounted :
    (y : RecoveryAction) (r : MultisigBridgeRequest)
    → IsCounted r
    → IsCounted (recovered y r) × ((recovered y r).request_id ≡ r.request_id)
recovered-IsCounted retry_bridge r (p, d, e) = ((p, tt, λ h. absurd (cc)), refl)
recovered-IsCounted unlock_token r (p, d, e) = ((p, d, λ h. absurd (cc)), refl)
recovered-IsCounted refund_gas r (p, d, e) = ((p, d, λ h. absurd (cc)), refl)
recovered-IsCounted cancel_bridge r (p, d, e) = ((p, d, λ h. absurd (cc)), refl)

pub is_locked-is_passed : (y : BridgeOperationStatus) → is_locked y ≡ true → is_passed y ≡ true
is_locked-is_passed locked h = refl
is_locked-is_passed pending h = absurd (cc)
is_locked-is_passed completed h = absurd (cc)
is_locked-is_passed failed h = absurd (cc)
is_locked-is_passed expired h = absurd (cc)
is_locked-is_passed in_transit h = absurd (cc)

-- A filed transaction leaves every history within the limit.
filed_fits :
    (s t : State) (a : Address) (x : BridgeTransaction)
    → IsSound s
    → t.history ≡ insert a (push_back (trim (history_of a s)) x) s.history
    → (b : Address) → length (history_of b t) ≤ max_history_items
filed_fits s t a x v filed b = elim (Bool-cases (b == a)) [
  | inl same ↦
      rw (filed, lookup_or-insert [] b a (push_back (trim (history_of a s)) x) s.history, same)
        (omega (
          arith,
          length-push_back (trim (history_of a s)) x,
          trim_fits (history_of a s) (v.bounded a),
        ))
  | inr other ↦
      rw (filed, lookup_or-insert [] b a (push_back (trim (history_of a s)) x) s.history, other)
        (v.bounded b)
]
  where
    trim_fits :
        (l : List BridgeTransaction)
        → length l ≤ max_history_items
        → length (trim l) < max_history_items
    trim_fits [] h = ground arith
    trim_fits (y ∷ l) h = ground arith

same-IsSound :
    (s t : State)
    → IsSound s
    → t.request ≡ s.request
    → t.history ≡ s.history
    → IsDistinct (operators_of t) × (length (operators_of t) ≤ max_operators)
    → IsSound t
same-IsSound s t v same kept_history men = record {
  counted = λ k r h. v.counted k r (rw (← same) h);
  manned = men;
  bounded = λ a. rw kept_history (v.bounded a);
}

BridgeEffect-IsSound : {env : Env} (s t : State) → IsSound s → BridgeEffect env s t → IsSound t
BridgeEffect-IsSound s t v (nothing e) = rw e v
BridgeEffect-IsSound s t v (set_up a _ _ ops _ same hist) =
    same-IsSound s t v same hist (rw ops ((refl, tt), omega arith))
BridgeEffect-IsSound s t v (initiate r c _ _ _ _ _ positive id none_yet st filed _ hist (ops, _)) =
    replace-IsSound s t r.request_id r v refl (positive, rw none_yet tt, λ h. absurd (ground arith))
      filed ops (λ a. rw hist (v.bounded a))
BridgeEffect-IsSound s t v (sign k r o b _ _ here _ new filed _ hist (ops, _)) =
    replace-IsSound s t k (signed b o r) v (v.counted k r here).0
      (signed-IsCounted b o r (v.counted k r here).1 new) filed ops (λ a. rw hist (v.bounded a))
BridgeEffect-IsSound s t v (execute k r o x _ _ here ready filed _ hist (ops, _)) =
    let (id, (p, d, e)) = v.counted k r here in
    replace-IsSound s t k (record r { status = completed }) v id
      (p, d, λ h. e (is_locked-is_passed r.status ready)) filed ops
      (filed_fits s t r.sender x v hist)
BridgeEffect-IsSound s t v (recover k r a y _ _ here _ filed _ hist (ops, _)) =
    let (fine, id) = recovered-IsCounted y r (v.counted k r here).1 in
    replace-IsSound s t k (recovered y r) v (id ∙ (v.counted k r here).0) fine filed ops
      (λ b. rw hist (v.bounded b))
BridgeEffect-IsSound s t v (manage a _ _ _ (inl (inl ops)) same _ hist) =
    same-IsSound s t v same hist (rw ops v.manned)
BridgeEffect-IsSound s t v (manage a _ _ _ (inl (inr (o, new, room, ops))) same _ hist) =
    same-IsSound s t v same hist (
      rw ops (
        IsDistinct-push_back (operators_of s) o new v.manned.0,
        omega (arith, length-push_back (operators_of s) o),
      ))
BridgeEffect-IsSound s t v (manage a _ _ _ (inr (o, ops)) same _ hist) =
    let (d, short) = keep_others-IsDistinct o (operators_of s) [] v.manned.0 tt (λ x h. refl) in
    same-IsSound s t v same hist (rw ops (d, omega (arith, short, v.manned.1)))

module _ (tokens : Token) (sha256 : ℕ → ℕ) where
  -- From a sound storage, as at deployment, after any transactions and with any token, a request
  -- that is locked or completed has at least as many signatures as it requires, every request
  -- requires one at least and is signed twice by no operator; there are at most ten operators, none
  -- listed twice; and the history of a sender holds at most fifty transactions.
  pub run-IsSound :
      (ops : List (Env × Op)) (w : Bridge tokens)
      → IsSound w.own
      → IsSound (run tokens sha256 ops w).own
  unfolding run
  run-IsSound [] w v = v
  run-IsSound ((env, op) ∷ ops) w v =
      let next = step tokens sha256 env op w in
      run-IsSound ops next
        (BridgeEffect-IsSound w.own next.own v (step-BridgeEffect tokens sha256 env op w))
