-- ===== src/Bridge/Types.antt =====
-- contracts/bridge/src/types.rs, storage.rs and validation.rs: the bridge's data and its checks.
use Prim.Native.String.{◌++◌ as str_append}
use stellar_soroban_contract.Prelude.{
  ltb, ◌==◌, nat_eq, contains, ℤ, Store, lookup_or, ℕ, String, Bool, not, ◌||◌, Option, none, some,
  List, [],
}
use stellar_soroban_contract.Host.{Address, Call, ◌>>=◌, panic_if, expect}
use stellar_soroban_contract.Interop.{World, read}

pub data BridgeOperationStatus : Type 0 where
  pending locked completed failed expired in_transit : BridgeOperationStatus

pub record PropertyMetadata : Type 0 where
  pub location : String
  pub size : ℕ  -- u64
  pub legal_description : String
  pub valuation : ℕ  -- u128
  pub documents_url : String

pub record BridgeConfig : Type 0 where
  pub supported_chains : List ℕ  -- u32
  pub min_signatures_required : ℕ  -- u32
  pub max_signatures_required : ℕ  -- u32
  pub default_timeout_blocks : ℕ  -- u64
  pub gas_limit_per_bridge : ℕ  -- u64
  pub emergency_pause : Bool
  pub metadata_preservation : Bool
  pub service_fee : ℤ  -- i128
  pub fee_token : Address
  pub fee_recipient : Address

pub record MultisigBridgeRequest : Type 0 where
  pub request_id : ℕ  -- u64
  pub token_id : ℕ  -- u64
  pub source_chain : ℕ  -- u32
  pub destination_chain : ℕ  -- u32
  pub sender : Address
  pub recipient : Address
  pub required_signatures : ℕ  -- u32
  pub signatures : List Address
  pub created_at : ℕ  -- u64
  pub expires_at : Option ℕ  -- u64
  pub status : BridgeOperationStatus
  pub metadata : PropertyMetadata

-- A hash of 32 bytes is a parameter of the model; here it is only stored and compared.
pub record BridgeTransaction : Type 0 where
  pub transaction_id : ℕ  -- u64
  pub token_id : ℕ  -- u64
  pub source_chain : ℕ  -- u32
  pub destination_chain : ℕ  -- u32
  pub sender : Address
  pub recipient : Address
  pub transaction_hash : ℕ
  pub timestamp : ℕ  -- u64
  pub gas_used : ℕ  -- u64
  pub status : BridgeOperationStatus
  pub metadata : PropertyMetadata

pub record ChainBridgeInfo : Type 0 where
  pub chain_id : ℕ  -- u32
  pub chain_name : String
  pub bridge_contract_address : Option String
  pub is_active : Bool
  pub gas_multiplier : ℕ  -- u32
  pub confirmation_blocks : ℕ  -- u32
  pub supported_tokens : List ℕ  -- u64

pub data RecoveryAction : Type 0 where
  unlock_token refund_gas retry_bridge cancel_bridge : RecoveryAction

-- What the handlers publish.
pub data Event : Type 0 where
  init_event : Address → ℕ → ℕ → Event
  created_event : ℕ → ℕ → Address → Event
  signed_event : ℕ → Address → Bool → Event
  executed_event : ℕ → ℕ → Event
  recover_event : ℕ → Event
  pause_event : Bool → Event
  opadd_event : Address → Event
  oprm_event : Address → Event

-- The storage, a field for each `DataKey`, and the events published so far, the latest first.
pub record State : Type 0 where
  pub config : Option BridgeConfig
  pub admin : Option Address
  pub version : Option ℕ
  pub request : Store ℕ MultisigBridgeRequest
  pub history : Store Address (List BridgeTransaction)
  pub chain_info : Store ℕ ChainBridgeInfo
  pub verified_tx : Store ℕ Bool
  pub operators : Option (List Address)
  pub req_counter : Option ℕ
  pub tx_counter : Option ℕ
  pub nonce : Store Address ℕ
  pub events : List Event

-- The storage of a contract that has just been deployed.
abbrev pub deployed : State
deployed = record {
  config = none;
  admin = none;
  version = none;
  request = [];
  history = [];
  chain_info = [];
  verified_tx = [];
  operators = none;
  req_counter = none;
  tx_counter = none;
  nonce = [];
  events = [];
}

abbrev pub max_history_items : ℕ
max_history_items = 50

abbrev pub or_zero : Option ℕ → ℕ
or_zero none = 0
or_zero (some n) = n

abbrev pub history_of : Address → State → List BridgeTransaction
history_of a s = lookup_or [] a s.history

abbrev pub nonce_of : Address → State → ℕ
nonce_of a s = lookup_or 0 a s.nonce

module _ {L : Type 0} where
  unfoldable pub get_config : Call (World State L) BridgeConfig
  get_config = do found ← read (λ s. s.config); expect found "Contract not initialized"

  unfoldable pub get_operators : Call (World State L) (List Address)
  get_operators = do found ← read (λ s. s.operators); expect found "Contract not initialized"

  unfoldable pub require_not_paused : Call (World State L) (Unit {0})
  unfolding get_config
  require_not_paused = do config ← get_config; panic_if config.emergency_pause "Bridge paused"

  unfoldable pub require_supported_chain : BridgeConfig → ℕ → Call (World State L) (Unit {0})
  require_supported_chain config destination_chain =
      panic_if (not (contains config.supported_chains destination_chain)) "Unsupported chain"

  unfoldable pub require_valid_signatures : BridgeConfig → ℕ → Call (World State L) (Unit {0})
  require_valid_signatures config required_signatures =
      panic_if
        (ltb required_signatures config.min_signatures_required
          || ltb config.max_signatures_required required_signatures)
        "Invalid signature requirement"

  unfoldable pub require_operator : Address → Call (World State L) (Unit {0})
  unfolding get_operators
  require_operator caller = do
    operators ← get_operators
    panic_if (not (contains operators caller)) "Not an operator"

  unfoldable pub require_admin : Address → Call (World State L) (Unit {0})
  require_admin caller = do
    found ← read (λ s. s.admin)
    admin ← expect found "Contract not initialized"
    panic_if (not (caller == admin)) "Unauthorized"

  unfoldable pub require_non_zero_address : Address → Call (World State L) (Unit {0})
  require_non_zero_address who = panic_if (who == 0) "Zero address not allowed"

  -- `require_non_zero_u32`, `require_non_zero_u64` and `require_non_zero_u128`.
  unfoldable pub require_non_zero : ℕ → String → Call (World State L) (Unit {0})
  require_non_zero value field =
      panic_if (value == 0) (str_append field " must be greater than zero")
