-- ===== src/Bridge/Tests.antt =====
-- A request of one sender that two operators sign and one executes, without a fee.
use stellar_soroban_contract.Prelude.{
  nat_eq, length, get_last?, contains, IsDistinct, pos, u64, lookup, insert, ℕ, ◌+◌, ◌≤◌, ◌≡◌, refl,
  subst, ◌⊎◌, true, false, none, some, List, [], ◌∷◌, arith,
}
use stellar_soroban_contract.Host.{Address, Env, ok, kept, succeeds}
use stellar_soroban_contract.Sample.{by}
use stellar_soroban_contract.Token.{Token}
use stellar_soroban_contract.Bridge.Types.{
  locked, completed, PropertyMetadata, BridgeConfig, MultisigBridgeRequest, init_event,
  created_event, signed_event, executed_event, opadd_event, deployed, history_of,
}
use stellar_soroban_contract.Bridge.{
  check_chains, init, sign_bridge_request, execute_bridge, add_operator, Bridge, charge,
  check_timeout, initiate_bridge_multisig, Op, inits, initiates, signs, executes, adds_operator,
  step, run,
}
use stellar_soroban_contract.Bridge.Effects.{operators_of}
use stellar_soroban_contract.Bridge.Requests.{IsSound, deployed-IsSound, run-IsSound}
use stellar_soroban_contract.Bridge.Signers.{SignedBy, served}
use stellar_soroban_contract.Bridge.Quorum.{transaction_of, executes_again, execute_bridge_files}
use stellar_soroban_contract.Bridge.Rules.{store_chains}

-- A token that nobody can move.
abbrev still_token : Token
still_token = record { Ledger = Unit {0}; balance = λ a l. pos 0; transfer = λ env a b x l. none }

abbrev hash : ℕ → ℕ
hash n = n + 1000

abbrev house : PropertyMetadata
house = record {
  location = "hill";
  size = 120;
  legal_description = "lot 7";
  valuation = 5000;
  documents_url = "ipfs";
}

abbrev start_world : Bridge still_token
start_world = record { own = deployed; others = tt }

abbrev history : List (Env × Op)
history =
    (by 1 0, inits 1 (2 ∷ []) 2 3 100 1000 (pos 0) 50 51)
    ∷ (by 1 1, adds_operator 1 4)
    ∷ (by 1 2, adds_operator 1 5)
    ∷ (by 9 10, initiates 9 77 2 8 2 none house 1)
    ∷ (by 1 11, signs 1 1 true)
    ∷ (by 1 12, executes 1 1)
    ∷ (by 4 13, signs 4 1 true)
    ∷ []

abbrev request_one : MultisigBridgeRequest
request_one = record {
  request_id = 1;
  token_id = 77;
  source_chain = 1;
  destination_chain = 2;
  sender = 9;
  recipient = 8;
  required_signatures = 2;
  signatures = 1 ∷ 4 ∷ [];
  created_at = 10;
  expires_at = none;
  status = locked;
  metadata = house;
}

abbrev plan : BridgeConfig
plan = record {
  supported_chains = 2 ∷ [];
  min_signatures_required = 2;
  max_signatures_required = 3;
  default_timeout_blocks = 100;
  gas_limit_per_bridge = 1000;
  emergency_pause = false;
  metadata_preservation = true;
  service_fee = pos 0;
  fee_token = 50;
  fee_recipient = 51;
}

abbrev locked_world : Bridge still_token
locked_world = record {
  own = record {
    config = some plan;
    admin = some 1;
    version = some 1;
    request = (1, request_one) ∷ [];
    history = [];
    chain_info = store_chains (2 ∷ []) [];
    verified_tx = [];
    operators = some (1 ∷ 4 ∷ 5 ∷ []);
    req_counter = some 1;
    tx_counter = some 0;
    nonce = (9, 1) ∷ [];
    events =
        signed_event 1 4 true
        ∷ signed_event 1 1 true
        ∷ created_event 1 77 9
        ∷ opadd_event 5
        ∷ opadd_event 4
        ∷ init_event 1 2 3
        ∷ [];
  };
  others = tt;
}

-- The execution after the first signature is refused.
history-locked : run still_token hash history start_world ≡ locked_world
unfolding run step init check_chains add_operator initiate_bridge_multisig check_timeout charge
    sign_bridge_request execute_bridge lookup insert
history-locked = refl

locked-IsSound : IsSound locked_world.own
locked-IsSound =
    subst (λ (w : Bridge still_token). IsSound w.own) history-locked
      (run-IsSound still_token hash history start_world deployed-IsSound)

abbrev executing : List (Env × Op)
executing = (by 1 20, executes 1 1) ∷ []

abbrev completed_world : Bridge still_token
completed_world = record {
  own = record locked_world.own {
    request = (1, record request_one { status = completed }) ∷ [];
    history = (9, transaction_of hash (by 1 20) 1 request_one locked_world.own ∷ []) ∷ [];
    verified_tx = (1001, true) ∷ [];
    tx_counter = some 1;
    events = executed_event 1 1001 ∷ locked_world.own.events;
  };
  others = tt;
}

locked-completed : execute_bridge hash (by 1 20) 1 1 locked_world ≡ ok (tt, completed_world)
unfolding execute_bridge lookup insert
locked-completed = refl

executing-completed : run still_token hash executing locked_world ≡ completed_world
unfolding run step execute_bridge lookup insert
executing-completed = refl

completed-IsSound : IsSound completed_world.own
completed-IsSound =
    subst (λ (w : Bridge still_token). IsSound w.own) executing-completed
      (run-IsSound still_token hash executing locked_world locked-IsSound)

run-IsSound_example : IsSound (run still_token hash history start_world).own
run-IsSound_example = run-IsSound still_token hash history start_world deployed-IsSound

execute_bridge_files_example :
    let w = run still_token hash history start_world in
    (r : MultisigBridgeRequest) × (lookup 1 w.own.request ≡ some r)
    × (contains (operators_of w.own) 1 ≡ true)
    × (r.required_signatures ≤ length r.signatures)
    × IsDistinct r.signatures
    × ((a : Address)
        → contains r.signatures a ≡ true
        → SignedBy start_world.own 1 a ⊎ (served still_token hash history start_world a ≡ true))
    × (lookup 1 completed_world.own.request ≡ some (record r { status = completed }))
    × (get_last? (history_of r.sender completed_world.own)
        ≡ some (transaction_of hash (by 1 20) 1 r w.own))
execute_bridge_files_example =
    execute_bridge_files still_token hash history start_world (by 1 20) 1 1 completed_world
      deployed-IsSound (rw history-locked locked-completed)

executes_again_example :
    let v = kept (sign_bridge_request (by 5 30) 5 1 true) completed_world in
    let u = kept (execute_bridge hash (by 5 30) 5 1) v in
    (succeeds (execute_bridge hash (by 5 30) 5 1 v) ≡ true)
    × (u.own.tx_counter ≡ some (u64 (1 + 1)))
unfolding lookup
executes_again_example =
    executes_again hash (by 5 30) 5 1 completed_world (record request_one { status = completed })
      plan completed-IsSound refl refl refl refl refl refl refl refl (omega arith) (omega arith)
