-- ===== src/Bridge/Steps.antt =====
-- contracts/bridge/src/lib.rs: which effect a transaction has.
use stellar_soroban_contract.Prelude.{
  Bool-cases, Option-cases, ◌==◌, nat_eq, beq→eq, contains, ℤ, u64, lookup, insert, ℕ, ◌+◌, ◌≡◌,
  refl, inl, inr, Bool, Option, List, [], ◌∷◌, arith,
}
use stellar_soroban_contract.Host.{Address, Env, ok, Call, kept, kept_cases, Result-cases}
use stellar_soroban_contract.Interop.{World}
use stellar_soroban_contract.Bridge.Types.{
  pending, in_transit, PropertyMetadata, BridgeConfig, MultisigBridgeRequest, RecoveryAction, State,
  or_zero,
}
use stellar_soroban_contract.Bridge.{
  check_chains, init, sign_bridge_request, execute_bridge, recover_failed_bridge, set_pause,
  add_operator, remove_operator, Bridge, charge, check_timeout, initiate_bridge_multisig, Op, inits,
  initiates, signs, executes, recovers, sets_pause, adds_operator, removes_operator, step,
}
use stellar_soroban_contract.Token.{Token}
use stellar_soroban_contract.Bridge.Effects.{
  BridgeEffect, nothing, set_up, initiate, sign, execute, recover, manage,
}
use stellar_soroban_contract.Bridge.Rules.{expiry}

module _ {L : Type 0} where
  check_chains_lem :
      (l : List ℕ) (w v : World State L) {u : Unit {0}} → check_chains l w ≡ ok (u, v) → v ≡ w
  unfolding check_chains
  check_chains_lem [] w v h = ground arith
  check_chains_lem (c ∷ l) w v h = elim (Bool-cases (c == 0)) [
    | inl zero_chain ↦ absurd (ground arith)
    | inr other ↦ check_chains_lem l w v (ground arith)
  ]

  init-BridgeEffect :
      (env : Env) (a : Address) (l : List ℕ) (m n t g : ℕ) (f : ℤ) (k r : Address)
      (w v : World State L) {u : Unit {0}}
      → init a l m n t g f k r w ≡ ok (u, v)
      → BridgeEffect env w.own v.own
  unfolding init
  init-BridgeEffect env a l m n t g f k r w v h = elim (Result-cases (check_chains l w)) [
    | inl (e, refused) ↦ absurd (ground arith)
    | inr ((_, w1), passed) ↦
        let same = check_chains_lem l w w1 passed in
        set_up a (ground arith) (ground arith) (ground arith) (ground arith) (ground arith)
          (ground arith)
  ]

  sign-BridgeEffect :
      (env : Env) (o : Address) (k : ℕ) (b : Bool) (w v : World State L) {u : Unit {0}}
      → sign_bridge_request env o k b w ≡ ok (u, v)
      → BridgeEffect env w.own v.own
  unfolding sign_bridge_request
  sign-BridgeEffect env o k b w v h = elim (Option-cases w.own.operators) [
    | inl e ↦ absurd (ground arith)
    | inr (l, e) ↦ elim (Option-cases w.own.config) [
      | inl f ↦ absurd (ground arith)
      | inr (c, f) ↦ elim (Option-cases (lookup k w.own.request)) [
        | inl g ↦ absurd (ground arith)
        | inr (r, here) ↦
            sign k r o b (ground arith) (ground arith) here (ground arith) (ground arith)
              (ground arith) (ground arith) (ground arith) (ground arith, ground arith)
      ]
    ]
  ]

  execute-BridgeEffect :
      (sha256 : ℕ → ℕ) (env : Env) (o : Address) (k : ℕ) (w v : World State L) {u : Unit {0}}
      → execute_bridge sha256 env o k w ≡ ok (u, v)
      → BridgeEffect env w.own v.own
  unfolding execute_bridge
  execute-BridgeEffect sha256 env o k w v h = elim (Option-cases w.own.operators) [
    | inl e ↦ absurd (ground arith)
    | inr (l, e) ↦ elim (Option-cases w.own.config) [
      | inl f ↦ absurd (ground arith)
      | inr (c, f) ↦ elim (Option-cases (lookup k w.own.request)) [
        | inl g ↦ absurd (ground arith)
        | inr (r, here) ↦
            execute k r o
              (record {
                transaction_id = u64 (or_zero w.own.tx_counter + 1);
                token_id = r.token_id;
                source_chain = r.source_chain;
                destination_chain = r.destination_chain;
                sender = r.sender;
                recipient = r.recipient;
                transaction_hash = sha256 k;
                timestamp = env.timestamp;
                gas_used = 0;
                status = in_transit;
                metadata = r.metadata;
              })
              (ground arith) (ground arith) here (ground arith) (ground arith) (ground arith)
              (ground arith) (ground arith, ground arith)
      ]
    ]
  ]

  recover-BridgeEffect :
      (env : Env) (a : Address) (k : ℕ) (y : RecoveryAction) (w v : World State L) {u : Unit {0}}
      → recover_failed_bridge env a k y w ≡ ok (u, v)
      → BridgeEffect env w.own v.own
  unfolding recover_failed_bridge
  recover-BridgeEffect env a k y w v h = elim (Option-cases w.own.admin) [
    | inl e ↦ absurd (ground arith)
    | inr (b, e) ↦ elim (Option-cases w.own.config) [
      | inl f ↦ absurd (ground arith)
      | inr (c, f) ↦ elim (Option-cases (lookup k w.own.request)) [
        | inl g ↦ absurd (ground arith)
        | inr (r, here) ↦
            recover k r a y (ground (arith, beq→eq a b)) (ground arith) here (ground arith)
              (ground arith) (ground arith) (ground arith) (ground arith, ground arith)
      ]
    ]
  ]

  pause-BridgeEffect :
      (env : Env) (a : Address) (b : Bool) (w v : World State L) {u : Unit {0}}
      → set_pause env a b w ≡ ok (u, v)
      → BridgeEffect env w.own v.own
  unfolding set_pause
  pause-BridgeEffect env a b w v h = elim (Option-cases w.own.admin) [
    | inl e ↦ absurd (ground arith)
    | inr (d, e) ↦ elim (Option-cases w.own.config) [
      | inl f ↦ absurd (ground arith)
      | inr (c, f) ↦
          manage a (ground (arith, beq→eq a d)) (ground arith) (ground arith)
            (inl (inl (ground arith))) (ground arith) (ground arith) (ground arith)
    ]
  ]

  add-BridgeEffect :
      (env : Env) (a o : Address) (w v : World State L) {u : Unit {0}}
      → add_operator env a o w ≡ ok (u, v)
      → BridgeEffect env w.own v.own
  unfolding add_operator
  add-BridgeEffect env a o w v h = elim (Option-cases w.own.admin) [
    | inl e ↦ absurd (ground arith)
    | inr (d, e) ↦ elim (Option-cases w.own.operators) [
      | inl f ↦ absurd (ground arith)
      | inr (l, f) ↦ elim (Bool-cases (contains l o)) [
        | inl old ↦
            manage a (ground (arith, beq→eq a d)) (ground arith) (ground arith)
              (inl (inl (ground arith))) (ground arith) (ground arith) (ground arith)
        | inr new ↦
            manage a (ground (arith, beq→eq a d)) (ground arith) (ground arith)
              (inl (inr (o, ground arith, ground arith, ground arith))) (ground arith)
              (ground arith) (ground arith)
      ]
    ]
  ]

  remove-BridgeEffect :
      (env : Env) (a o : Address) (w v : World State L) {u : Unit {0}}
      → remove_operator env a o w ≡ ok (u, v)
      → BridgeEffect env w.own v.own
  unfolding remove_operator
  remove-BridgeEffect env a o w v h = elim (Option-cases w.own.admin) [
    | inl e ↦ absurd (ground arith)
    | inr (d, e) ↦ elim (Option-cases w.own.operators) [
      | inl f ↦ absurd (ground arith)
      | inr (l, f) ↦
          manage a (ground (arith, beq→eq a d)) (ground arith) (ground arith)
            (inr (o, ground arith)) (ground arith) (ground arith) (ground arith)
    ]
  ]

module _ (tokens : Token) where
  charge_lem :
      (env : Env) (a : Address) (c : BridgeConfig) (w v : Bridge tokens) {u : Unit {0}}
      → charge tokens env a c w ≡ ok (u, v)
      → v.own ≡ w.own
  unfolding charge
  charge_lem env a c w v h =
      elim (Option-cases (tokens.transfer env a c.fee_recipient c.service_fee w.others)) [
        | inl e ↦ ground arith
        | inr (l, e) ↦ ground arith
      ]

  initiate-BridgeEffect :
      (env : Env) (a : Address) (i d : ℕ) (p : Address) (q : ℕ) (y : Option ℕ)
      (m : PropertyMetadata) (n : ℕ) (w v : Bridge tokens) {k : ℕ}
      → initiate_bridge_multisig tokens env a i d p q y m n w ≡ ok (k, v)
      → BridgeEffect env w.own v.own
  unfolding initiate_bridge_multisig check_timeout
  initiate-BridgeEffect env a i d p q y m n w v h = elim (Option-cases w.own.config) [
    | inl e ↦ absurd (elim (Option-cases y) [ inl z ↦ ground arith | inr (b, z) ↦ ground arith ])
    | inr (c, e) ↦
        let w1 : Bridge tokens = record {
          own = record w.own { nonce = insert a n w.own.nonce };
          others = w.others;
        } in
        elim (Result-cases (charge tokens env a c w1)) [
          | inl (x, refused) ↦
              absurd (elim (Option-cases y) [ inl z ↦ ground arith | inr (b, z) ↦ ground arith ])
          | inr ((_, w2), charged) ↦
              let same = charge_lem env a c w1 w2 charged in
              let r : MultisigBridgeRequest = record {
                request_id = u64 (or_zero w.own.req_counter + 1);
                token_id = i;
                source_chain = 1;
                destination_chain = d;
                sender = a;
                recipient = p;
                required_signatures = q;
                signatures = [];
                created_at = env.sequence;
                expires_at = expiry env.sequence y;
                status = pending;
                metadata = m;
              } in
              elim (Option-cases y) [
                | inl z ↦
                    initiate r c (ground arith) e (ground arith) (ground arith) (ground arith)
                      (ground arith) refl refl refl (ground arith) (ground arith) (ground arith)
                      (ground arith, ground arith)
                | inr (b, z) ↦
                    initiate r c (ground arith) e (ground arith) (ground arith) (ground arith)
                      (ground arith) refl refl refl (ground arith) (ground arith) (ground arith)
                      (ground arith, ground arith)
              ]
        ]
  ]

  abbrev kept-BridgeEffect :
      {A : Type 0} (env : Env) (m : Call (Bridge tokens) A) (w : Bridge tokens)
      → ((a : A) (v : Bridge tokens) → m w ≡ ok (a, v) → BridgeEffect env w.own v.own)
      → BridgeEffect env w.own (kept m w).own
  kept-BridgeEffect env m w h = elim (kept_cases m w) [
    | inl same ↦ rw same (nothing refl)
    | inr (a, v, e, k) ↦ rw k (h a v e)
  ]

  -- Every transaction changes nothing, sets the bridge up once, opens one request with no
  -- signatures for a supported chain and an allowed number of them, adds the signature of an
  -- operator who had not signed it to a request that has not expired, completes one request that is
  -- locked and files its transaction, moves one failed request by the admin's authority, or is an
  -- administrative call by the admin that leaves the requests alone.
  pub step-BridgeEffect :
      (sha256 : ℕ → ℕ) (env : Env) (op : Op) (w : Bridge tokens)
      → BridgeEffect env w.own (step tokens sha256 env op w).own
  unfolding step
  step-BridgeEffect sha256 env (inits a l m n t g f k r) w =
      kept-BridgeEffect env (init a l m n t g f k r) w
        (λ u v. init-BridgeEffect env a l m n t g f k r w v)
  step-BridgeEffect sha256 env (initiates a i d p q y m n) w =
      kept-BridgeEffect env (initiate_bridge_multisig tokens env a i d p q y m n) w
        (λ u v. initiate-BridgeEffect env a i d p q y m n w v)
  step-BridgeEffect sha256 env (signs o k b) w =
      kept-BridgeEffect env (sign_bridge_request env o k b) w
        (λ u v. sign-BridgeEffect env o k b w v)
  step-BridgeEffect sha256 env (executes o k) w =
      kept-BridgeEffect env (execute_bridge sha256 env o k) w
        (λ u v. execute-BridgeEffect sha256 env o k w v)
  step-BridgeEffect sha256 env (recovers a k y) w =
      kept-BridgeEffect env (recover_failed_bridge env a k y) w
        (λ u v. recover-BridgeEffect env a k y w v)
  step-BridgeEffect sha256 env (sets_pause a b) w =
      kept-BridgeEffect env (set_pause env a b) w (λ u v. pause-BridgeEffect env a b w v)
  step-BridgeEffect sha256 env (adds_operator a o) w =
      kept-BridgeEffect env (add_operator env a o) w (λ u v. add-BridgeEffect env a o w v)
  step-BridgeEffect sha256 env (removes_operator a o) w =
      kept-BridgeEffect env (remove_operator env a o) w (λ u v. remove-BridgeEffect env a o w v)
