-- ===== src/Bridge/Rules.antt =====
-- contracts/bridge/src/lib.rs: the limits, the tests and the updates that the handlers apply.
use stellar_soroban_contract.Prelude.{
  ltb, leb, if◌then◌else◌, ◌==◌, nat_eq, length, drop, push_back, u64, Store, insert, ℕ, ◌+◌, Bool,
  true, false, Option, none, some, List, [], ◌∷◌,
}
use stellar_soroban_contract.Host.{Address}
use stellar_soroban_contract.Bridge.Types.{
  BridgeOperationStatus, pending, locked, failed, expired, MultisigBridgeRequest, BridgeTransaction,
  ChainBridgeInfo, RecoveryAction, retry_bridge, max_history_items,
}

abbrev pub contract_version : ℕ
contract_version = 1

abbrev pub max_supported_chains : ℕ
max_supported_chains = 20

abbrev pub max_operators : ℕ
max_operators = 10

-- `for chain_id in supported_chains.iter()`: an entry for every chain.
unfoldable pub store_chains : List ℕ → Store ℕ ChainBridgeInfo → Store ℕ ChainBridgeInfo
store_chains [] infos = infos
store_chains (chain_id ∷ chains) infos = store_chains chains (
    insert chain_id
      (record {
        chain_id = chain_id;
        chain_name = "Chain";
        bridge_contract_address = none;
        is_active = true;
        gas_multiplier = 100;
        confirmation_blocks = 6;
        supported_tokens = [];
      })
      infos)

abbrev pub is_empty : List ℕ → Bool
is_empty [] = true
is_empty (_ ∷ _) = false

-- The request has expired at a height of the ledger.
abbrev pub has_expired : ℕ → Option ℕ → Bool
has_expired height none = false
has_expired height (some expires_at) = ltb expires_at height

-- The status after one more signature, the `n`th.
abbrev pub status_after : Bool → ℕ → MultisigBridgeRequest → BridgeOperationStatus
status_after false n request = failed
status_after true n request = if leb request.required_signatures n then locked else request.status

abbrev pub is_locked : BridgeOperationStatus → Bool
is_locked locked = true
is_locked _ = false

-- The history with room for one more transaction.
abbrev pub trim : List BridgeTransaction → List BridgeTransaction
trim history = if leb max_history_items (length history) then drop 1 history else history

-- `matches!(request.status, Failed | Expired)`
abbrev pub is_recoverable : BridgeOperationStatus → Bool
is_recoverable failed = true
is_recoverable expired = true
is_recoverable _ = false

abbrev pub recovered : RecoveryAction → MultisigBridgeRequest → MultisigBridgeRequest
recovered retry_bridge request = record request { status = pending; signatures = [] }
recovered _ request = record request { status = failed }

-- `for op in operators.iter() { if op != operator { new_operators.push_back(op) } }`
unfoldable pub keep_others : Address → List Address → List Address → List Address
keep_others operator [] new_operators = new_operators
keep_others operator (op ∷ operators) new_operators =
    keep_others operator operators
      (if op == operator then new_operators else push_back new_operators op)

abbrev pub expiry : ℕ → Option ℕ → Option ℕ
expiry height none = none
expiry height (some blocks) = some (u64 (height + blocks))
