-- ===== src/Bridge/Quorum.antt =====
-- contracts/bridge/src/lib.rs: what an execution needs and files, and when it can be repeated.
use stellar_soroban_contract.Prelude.{
  Option-cases, nat_eq, beq_refl, length, get_last?, push_back, length-push_back, contains,
  IsDistinct, u64, lookup, insert, lookup-insert, lookup_or-insert, ℕ, ◌+◌, ◌≤◌, ◌<◌, ◌≡◌, refl,
  ◌⊎◌, inl, inr, true, false, some, List, [], ◌∷◌, arith,
}
use stellar_soroban_contract.Host.{Address, Env, ok, kept, succeeds}
use stellar_soroban_contract.Interop.{World}
use stellar_soroban_contract.Bridge.Types.{
  completed, in_transit, BridgeConfig, MultisigBridgeRequest, BridgeTransaction, State, or_zero,
  history_of,
}
use stellar_soroban_contract.Bridge.{sign_bridge_request, execute_bridge, Bridge, Op, run}
use stellar_soroban_contract.Bridge.Effects.{operators_of, signed}
use stellar_soroban_contract.Token.{Token}
use stellar_soroban_contract.Bridge.Signers.{SignedBy, served, run-SignedBy}
use stellar_soroban_contract.Bridge.Requests.{IsSound, is_locked-is_passed, run-IsSound}
use stellar_soroban_contract.Bridge.Rules.{has_expired, is_locked, trim}

-- The transaction that an execution files.
abbrev pub transaction_of : (ℕ → ℕ) → Env → ℕ → MultisigBridgeRequest → State → BridgeTransaction
transaction_of sha256 env k r s = record {
  transaction_id = u64 (or_zero s.tx_counter + 1);
  token_id = r.token_id;
  source_chain = r.source_chain;
  destination_chain = r.destination_chain;
  sender = r.sender;
  recipient = r.recipient;
  transaction_hash = sha256 k;
  timestamp = env.timestamp;
  gas_used = 0;
  status = in_transit;
  metadata = r.metadata;
}

last-push_back :
    (l : List BridgeTransaction) (x : BridgeTransaction) → get_last? (push_back l x) ≡ some x
last-push_back [] x = refl
last-push_back (y ∷ []) x = refl
last-push_back (y ∷ z ∷ l) x = last-push_back (z ∷ l) x

module _ {L : Type 0} (sha256 : ℕ → ℕ) where
  execute_bridge_lem :
      (env : Env) (o : Address) (k : ℕ) (w v : World State L) {u : Unit {0}}
      → execute_bridge sha256 env o k w ≡ ok (u, v)
      → (r : MultisigBridgeRequest) × (lookup k w.own.request ≡ some r)
        × (is_locked r.status ≡ true)
        × (contains (operators_of w.own) o ≡ true)
        × (v.own.request ≡ insert k (record r { status = completed }) w.own.request)
        × (v.own.history
            ≡ insert r.sender
                (push_back (trim (history_of r.sender w.own)) (transaction_of sha256 env k r w.own))
                w.own.history)
        × (v.others ≡ w.others)
  unfolding execute_bridge
  execute_bridge_lem env o k w v h = elim (Option-cases w.own.operators) [
    | inl e ↦ absurd (ground arith)
    | inr (l, e) ↦ elim (Option-cases w.own.config) [
      | inl f ↦ absurd (ground arith)
      | inr (c, f) ↦ elim (Option-cases (lookup k w.own.request)) [
        | inl g ↦ absurd (ground arith)
        | inr (r, here) ↦
            (r, here, ground arith, ground arith, ground arith, ground arith, ground arith)
      ]
    ]
  ]

  -- On a sound storage, a completed request that has not expired is executed once more after one
  -- more approval, by an operator who had not signed it and while the bridge is not paused: the
  -- second execution succeeds and takes the next transaction number.
  pub executes_again :
      (env : Env) (o : Address) (k : ℕ) (w : World State L) (r : MultisigBridgeRequest)
      (c : BridgeConfig)
      → IsSound w.own
      → lookup k w.own.request ≡ some r
      → r.status ≡ completed
      → contains r.signatures o ≡ false
      → contains (operators_of w.own) o ≡ true
      → has_expired env.sequence r.expires_at ≡ false
      → w.own.config ≡ some c
      → c.emergency_pause ≡ false
      → env.authorised o ≡ true
      → 0 < o
      → 0 < k
      → let v = kept (sign_bridge_request env o k true) w in
        let u = kept (execute_bridge sha256 env o k) v in
        (succeeds (execute_bridge sha256 env o k v) ≡ true)
        × (u.own.tx_counter ≡ some (u64 (or_zero w.own.tx_counter + 1)))
  unfolding sign_bridge_request execute_bridge
  executes_again env o k w r c s here over new member time config running auth no_zero no_zero' =
      elim (Option-cases w.own.operators) [
        | inl e ↦ absurd (ground arith)
        | inr (l, e) ↦
            let (_, (_, _, enough)) = s.counted k r here in
            let quorum : r.required_signatures ≤ length r.signatures = enough (rw over refl) in
            let longer = length-push_back r.signatures o in
            let found = lookup-insert k k (signed true o r) w.own.request in
            (ground (arith, found, longer, beq_refl k), ground (arith, found, longer, beq_refl k))
      ]

module _ (tokens : Token) (sha256 : ℕ → ℕ) where
  -- After any transactions from a sound storage, an execution that succeeds is by an operator and
  -- of a request with as many signatures as it requires, by different addresses, each of which had
  -- signed the request in the beginning already or was an operator at a transaction that it
  -- authorised; the request is then completed, and the latest transaction in its sender's history
  -- moves its token to its recipient on its chain under the next number.
  pub execute_bridge_files :
      (ops : List (Env × Op)) (start : Bridge tokens) (env : Env) (o : Address) (k : ℕ)
      (v : Bridge tokens)
      → IsSound start.own
      → execute_bridge sha256 env o k (run tokens sha256 ops start) ≡ ok (tt, v)
      → let w = run tokens sha256 ops start in
        (r : MultisigBridgeRequest) × (lookup k w.own.request ≡ some r)
        × (contains (operators_of w.own) o ≡ true)
        × (r.required_signatures ≤ length r.signatures)
        × IsDistinct r.signatures
        × ((a : Address)
            → contains r.signatures a ≡ true
            → SignedBy start.own k a ⊎ (served tokens sha256 ops start a ≡ true))
        × (lookup k v.own.request ≡ some (record r { status = completed }))
        × (get_last? (history_of r.sender v.own) ≡ some (transaction_of sha256 env k r w.own))
  execute_bridge_files ops start env o k v s done =
      let w = run tokens sha256 ops start in
      let (r, here, ready, member, filed, logged, _) = execute_bridge_lem sha256 env o k w v done in
      let (_, (_, d, enough)) = (run-IsSound tokens sha256 ops start s).counted k r here in
      let x = transaction_of sha256 env k r w.own in
      let l = push_back (trim (history_of r.sender w.own)) x in
      (
        r,
        here,
        member,
        enough (is_locked-is_passed r.status ready),
        d,
        λ a listed. run-SignedBy tokens sha256 ops start k a (r, here, listed),
        rw (filed, lookup-insert k k (record r { status = completed }) w.own.request, beq_refl k)
            refl,
        rw (logged, lookup_or-insert [] r.sender r.sender l w.own.history, beq_refl r.sender)
            (last-push_back (trim (history_of r.sender w.own)) x),
      )
