-- ===== src/Bridge.antt =====
-- contracts/bridge/src/lib.rs: requests to move a token to another chain, signed by operators.
pub mod Rules
pub mod Types
pub mod Effects
pub mod Steps
pub mod Requests
pub mod Signers
pub mod Quorum
mod Tests
use stellar_soroban_contract.Prelude.{
  ltb, leb, if◌then◌else◌, ◌==◌, nat_eq, length, push_back, contains, ℤ, pos, ltb_ℤ, u64, lookup,
  insert, ℕ, ◌+◌, Bool, true, false, not, Option, none, some, List, [], ◌∷◌,
}
use stellar_soroban_contract.Host.{
  Address, Env, host_error, ok, err, Call, ◌>>=◌, ◌>>◌, return, panic_if, expect, require_auth,
  kept, is_some,
}
use stellar_soroban_contract.Interop.{World, read, write}
use stellar_soroban_contract.Token.{Token}
use stellar_soroban_contract.Bridge.Types.{
  pending, completed, in_transit, PropertyMetadata, BridgeConfig, MultisigBridgeRequest,
  RecoveryAction, Event, init_event, created_event, signed_event, executed_event, recover_event,
  pause_event, opadd_event, oprm_event, State, or_zero, history_of, nonce_of, get_config,
  get_operators, require_not_paused, require_supported_chain, require_valid_signatures,
  require_operator, require_admin, require_non_zero_address, require_non_zero,
}
use stellar_soroban_contract.Bridge.Rules.{
  contract_version, max_supported_chains, max_operators, store_chains, is_empty, has_expired,
  status_after, is_locked, trim, is_recoverable, recovered, keep_others, expiry,
}

module _ {L : Type 0} where
  publish : Event → Call (World State L) (Unit {0})
  publish e = write (λ s. record s { events = e ∷ s.events })

  set_request : ℕ → MultisigBridgeRequest → Call (World State L) (Unit {0})
  set_request request_id request =
      write (λ s. record s { request = insert request_id request s.request })

  find_request : ℕ → Call (World State L) MultisigBridgeRequest
  find_request request_id = do
    found ← read (λ s. lookup request_id s.request)
    expect found "Request not found"

  -- `for chain_id in supported_chains.iter() { require_non_zero_u32(…) }`
  unfoldable pub check_chains : List ℕ → Call (World State L) (Unit {0})
  unfolding require_non_zero
  check_chains [] = return tt
  check_chains (chain_id ∷ chains) = do
    require_non_zero chain_id "supported_chain"
    check_chains chains

  unfoldable pub init :
      Address → List ℕ → ℕ → ℕ → ℕ → ℕ → ℤ → Address → Address → Call (World State L) (Unit {0})
  unfolding require_non_zero_address require_non_zero check_chains store_chains publish
  init admin chains min_sigs max_sigs timeout gas_limit service_fee fee_token fee_recipient = do
    old ← read (λ s. s.admin)
    panic_if (is_some old) "Already initialized"
    require_non_zero_address admin
    panic_if (is_empty chains) "At least one supported chain is required"
    require_non_zero min_sigs "min_signatures"
    require_non_zero max_sigs "max_signatures"
    require_non_zero timeout "default_timeout"
    require_non_zero gas_limit "gas_limit"
    panic_if (ltb max_supported_chains (length chains)) "Too many chains"
    check_chains chains
    panic_if (ltb max_sigs min_sigs) "min_signatures cannot exceed max_signatures"
    write (λ s. record s {
      config = some (record {
        supported_chains = chains;
        min_signatures_required = min_sigs;
        max_signatures_required = max_sigs;
        default_timeout_blocks = timeout;
        gas_limit_per_bridge = gas_limit;
        emergency_pause = false;
        metadata_preservation = true;
        service_fee = service_fee;
        fee_token = fee_token;
        fee_recipient = fee_recipient;
      });
      admin = some admin;
      version = some contract_version;
      req_counter = some 0;
      tx_counter = some 0;
      operators = some (admin ∷ []);
      chain_info = store_chains chains s.chain_info;
    })
    publish (init_event admin min_sigs max_sigs)

  unfoldable pub sign_bridge_request : Env → Address → ℕ → Bool → Call (World State L) (Unit {0})
  unfolding require_non_zero_address require_non_zero require_operator require_not_paused
      find_request set_request publish
  sign_bridge_request env operator request_id approve = do
    require_auth env operator
    require_non_zero_address operator
    require_non_zero request_id "request_id"
    require_operator operator
    require_not_paused
    request ← find_request request_id
    panic_if (has_expired env.sequence request.expires_at) "Request expired"
    panic_if (contains request.signatures operator) "Already signed"
    let signatures = push_back request.signatures operator
    set_request request_id (record request {
      signatures = signatures;
      status = status_after approve (length signatures) request;
    })
    publish (signed_event request_id operator approve)

  -- `sha256` of the number's bytes is a parameter.
  unfoldable pub execute_bridge : (ℕ → ℕ) → Env → Address → ℕ → Call (World State L) (Unit {0})
  unfolding require_non_zero_address require_non_zero require_operator require_not_paused
      find_request set_request publish
  execute_bridge sha256 env operator request_id = do
    require_auth env operator
    require_non_zero_address operator
    require_non_zero request_id "request_id"
    require_operator operator
    require_not_paused
    request ← find_request request_id
    panic_if (not (is_locked request.status)) "Request not ready"
    old ← read (λ s. or_zero s.tx_counter)
    let tx_counter = u64 (old + 1)
    write (λ s. record s { tx_counter = some tx_counter })
    set_request request_id (record request { status = completed })
    write (λ s. record s { verified_tx = insert (sha256 request_id) true s.verified_tx })
    history ← read (history_of request.sender)
    write (λ s. record s {
      history =
          insert request.sender
            (push_back (trim history) (record {
              transaction_id = tx_counter;
              token_id = request.token_id;
              source_chain = request.source_chain;
              destination_chain = request.destination_chain;
              sender = request.sender;
              recipient = request.recipient;
              transaction_hash = sha256 request_id;
              timestamp = env.timestamp;
              gas_used = 0;
              status = in_transit;
              metadata = request.metadata;
            }))
            s.history;
    })
    publish (executed_event request_id (sha256 request_id))

  unfoldable pub recover_failed_bridge :
      Env → Address → ℕ → RecoveryAction → Call (World State L) (Unit {0})
  unfolding require_non_zero_address require_non_zero require_admin require_not_paused find_request
      set_request publish
  recover_failed_bridge env admin request_id recovery_action = do
    require_auth env admin
    require_non_zero_address admin
    require_non_zero request_id "request_id"
    require_admin admin
    require_not_paused
    request ← find_request request_id
    panic_if (not (is_recoverable request.status)) "Request not in failed state"
    set_request request_id (recovered recovery_action request)
    publish (recover_event request_id)

  unfoldable pub set_pause : Env → Address → Bool → Call (World State L) (Unit {0})
  unfolding require_non_zero_address require_admin get_config publish
  set_pause env admin paused = do
    require_auth env admin
    require_non_zero_address admin
    require_admin admin
    config ← get_config
    write (λ s. record s { config = some (record config { emergency_pause = paused }) })
    publish (pause_event paused)

  unfoldable pub add_operator : Env → Address → Address → Call (World State L) (Unit {0})
  unfolding require_non_zero_address require_admin get_operators publish
  add_operator env admin operator = do
    require_auth env admin
    require_non_zero_address admin
    require_non_zero_address operator
    require_admin admin
    operators ← get_operators
    panic_if (leb max_operators (length operators)) "Too many operators"
    if contains operators operator then return tt else (do
      write (λ s. record s { operators = some (push_back operators operator) })
      publish (opadd_event operator))

  unfoldable pub remove_operator : Env → Address → Address → Call (World State L) (Unit {0})
  unfolding require_non_zero_address require_admin get_operators publish
  remove_operator env admin operator = do
    require_auth env admin
    require_non_zero_address admin
    require_non_zero_address operator
    require_admin admin
    operators ← get_operators
    write (λ s. record s { operators = some (keep_others operator operators []) })
    publish (oprm_event operator)

-- The handler that calls the token.
module _ (tokens : Token) where
  -- The bridge's storage beside the ledger of its fee token.
  abbrev pub Bridge : Type 0
  Bridge = World State tokens.Ledger

  -- `token::Client::transfer` of a positive fee.
  pub charge : Env → Address → BridgeConfig → Call Bridge (Unit {0})
  charge env caller config w =
      if ltb_ℤ (pos 0) config.service_fee
      then elim (tokens.transfer env caller config.fee_recipient config.service_fee w.others) [
        | none ↦ err host_error
        | some l ↦ ok (tt, record { own = w.own; others = l })
      ]
      else ok (tt, w)

  -- `if let Some(blocks) = timeout_blocks { require_non_zero_u64(blocks, …) }`
  pub check_timeout : Option ℕ → Call Bridge (Unit {0})
  unfolding require_non_zero
  check_timeout none = return tt
  check_timeout (some blocks) = require_non_zero blocks "timeout_blocks"

  unfoldable pub initiate_bridge_multisig :
      Env → Address → ℕ → ℕ → Address → ℕ → Option ℕ → PropertyMetadata → ℕ → Call Bridge ℕ
  unfolding require_non_zero_address require_non_zero check_timeout get_config charge
      require_not_paused require_supported_chain require_valid_signatures set_request publish
  initiate_bridge_multisig env caller token_id destination recipient required timeout metadata
        nonce =
      do
        require_auth env caller
        require_non_zero_address caller
        require_non_zero_address recipient
        require_non_zero token_id "token_id"
        require_non_zero required "required_signatures"
        require_non_zero metadata.size "metadata.size"
        require_non_zero metadata.valuation "metadata.valuation"
        check_timeout timeout
        current ← read (nonce_of caller)
        panic_if (not (nonce == u64 (current + 1))) "Invalid nonce"
        write (λ s. record s { nonce = insert caller nonce s.nonce })
        config ← get_config
        charge env caller config
        require_not_paused
        require_supported_chain config destination
        require_valid_signatures config required
        old ← read (λ s. or_zero s.req_counter)
        let counter = u64 (old + 1)
        write (λ s. record s { req_counter = some counter })
        set_request counter (record {
          request_id = counter;
          token_id = token_id;
          source_chain = 1;
          destination_chain = destination;
          sender = caller;
          recipient = recipient;
          required_signatures = required;
          signatures = [];
          created_at = env.sequence;
          expires_at = expiry env.sequence timeout;
          status = pending;
          metadata = metadata;
        })
        publish (created_event counter token_id caller)
        return counter

-- One transaction that calls a handler which writes.
pub data Op : Type 0 where
  inits : Address → List ℕ → ℕ → ℕ → ℕ → ℕ → ℤ → Address → Address → Op
  initiates : Address → ℕ → ℕ → Address → ℕ → Option ℕ → PropertyMetadata → ℕ → Op
  signs : Address → ℕ → Bool → Op
  executes : Address → ℕ → Op
  recovers : Address → ℕ → RecoveryAction → Op
  sets_pause : Address → Bool → Op
  adds_operator : Address → Address → Op
  removes_operator : Address → Address → Op

module _ (tokens : Token) (sha256 : ℕ → ℕ) where
  -- The storage and the token's ledger after one transaction: those of before if it fails.
  unfoldable pub step : Env → Op → Bridge tokens → Bridge tokens
  step env (inits a l m n t g f k r) w = kept (init a l m n t g f k r) w
  step env (initiates a i d r q t m n) w =
      kept (initiate_bridge_multisig tokens env a i d r q t m n) w
  step env (signs o k b) w = kept (sign_bridge_request env o k b) w
  step env (executes o k) w = kept (execute_bridge sha256 env o k) w
  step env (recovers a k x) w = kept (recover_failed_bridge env a k x) w
  step env (sets_pause a b) w = kept (set_pause env a b) w
  step env (adds_operator a o) w = kept (add_operator env a o) w
  step env (removes_operator a o) w = kept (remove_operator env a o) w

  -- The same after a list of transactions, each in an environment of its own.
  unfoldable pub run : List (Env × Op) → Bridge tokens → Bridge tokens
  run [] w = w
  run ((env, op) ∷ ops) w = run ops (step env op w)
