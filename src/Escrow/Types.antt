-- ===== src/Escrow/Types.antt =====
-- contracts/escrow/src/types.rs, storage.rs and validation.rs: the escrow's data and its checks.
use Prim.Native.String.{◌++◌ as str_append}
use stellar_soroban_contract.Prelude.{
  ltb, leb, Comparable, ◌==◌, nat_eq, pair_eq, ℤ, pos, leb_ℤ, Store, lookup_or, ℕ, String, ◌≡◌,
  refl, Bool, true, false, ◌||◌, Option, none, some, List, [],
}
use stellar_soroban_contract.Host.{Address, Call, ◌>>=◌, gets, panic_if, expect}

pub data EscrowStatus : Type 0 where
  created funded active released refunded disputed cancelled : EscrowStatus

pub data ApprovalType : Type 0 where
  release refund emergency_override : ApprovalType

-- The derived `PartialEq`.
abbrev pub approval_beq : ApprovalType → ApprovalType → Bool
approval_beq release release = true
approval_beq refund refund = true
approval_beq emergency_override emergency_override = true
approval_beq _ _ = false

pub approval_beq_sound : (a b : ApprovalType) → approval_beq a b ≡ true → a ≡ b
approval_beq_sound release release h = refl
approval_beq_sound refund refund h = refl
approval_beq_sound emergency_override emergency_override h = refl
approval_beq_sound release refund h = absurd (cc)
approval_beq_sound release emergency_override h = absurd (cc)
approval_beq_sound refund release h = absurd (cc)
approval_beq_sound refund emergency_override h = absurd (cc)
approval_beq_sound emergency_override release h = absurd (cc)
approval_beq_sound emergency_override refund h = absurd (cc)

pub approval_beq_self : (a : ApprovalType) → approval_beq a a ≡ true
approval_beq_self release = refl
approval_beq_self refund = refl
approval_beq_self emergency_override = refl

instance abbrev pub approval_eq : Comparable ApprovalType
approval_eq = record {
  same = approval_beq;
  same_sound = approval_beq_sound;
  same_self = approval_beq_self;
}

pub record EscrowData : Type 0 where
  pub id : ℕ  -- u64
  pub property_id : ℕ  -- u64
  pub buyer : Address
  pub seller : Address
  pub amount : ℤ  -- i128
  pub deposited_amount : ℤ  -- i128
  pub status : EscrowStatus
  pub created_at : ℕ  -- u64
  pub release_time_lock : Option ℕ  -- u64
  pub participants : List Address

pub record MultiSigConfig : Type 0 where
  pub required_signatures : ℕ  -- u32
  pub signers : List Address

-- What the handlers publish.
pub data Event : Type 0 where
  init_event : Address → Event
  pause_event : Bool → Event
  created_event : ℕ → ℕ → ℤ → Event
  funded_event : ℕ → ℤ → Event
  released_event : ℕ → ℤ → Event
  signed_event : ℕ → Address → ℕ → Event

-- A number of an escrow and a kind of approval.
abbrev pub Approval : Type 0
Approval = ℕ × ApprovalType

-- The storage, a field for each `DataKey`, and the events published so far, the latest first.
pub record State : Type 0 where
  pub escrows : Store ℕ EscrowData
  pub escrow_count : Option ℕ
  pub admin : Option Address
  pub version : Option ℕ
  pub paused : Option Bool
  pub multi_sig : Store ℕ MultiSigConfig
  pub signature : Store (Approval × Address) Bool
  pub sig_count : Store Approval ℕ
  pub nonce : Store Address ℕ
  pub events : List Event

-- The storage of a contract that has just been deployed.
abbrev pub deployed : State
deployed = record {
  escrows = [];
  escrow_count = none;
  admin = none;
  version = none;
  paused = none;
  multi_sig = [];
  signature = [];
  sig_count = [];
  nonce = [];
  events = [];
}

abbrev pub is_paused : State → Bool
is_paused s = elim s.paused [ none ↦ false | some b ↦ b ]

abbrev pub count_of : State → ℕ
count_of s = elim s.escrow_count [ none ↦ 0 | some n ↦ n ]

abbrev pub sig_count_of : Approval → State → ℕ
sig_count_of k s = lookup_or 0 k s.sig_count

abbrev pub nonce_of : Address → State → ℕ
nonce_of a s = lookup_or 0 a s.nonce

unfoldable pub require_not_paused : Call State (Unit {0})
require_not_paused = do paused ← gets is_paused; panic_if paused "Contract is paused"

unfoldable pub require_non_zero_address : Address → Call State (Unit {0})
require_non_zero_address address = panic_if (address == 0) "Zero address not allowed"

unfoldable pub require_non_zero_u64 : ℕ → String → Call State (Unit {0})
require_non_zero_u64 value field =
    panic_if (value == 0) (str_append field " must be greater than zero")

unfoldable pub require_positive_amount : ℤ → String → Call State (Unit {0})
require_positive_amount amount field =
    panic_if (leb_ℤ amount (pos 0)) (str_append field " must be greater than zero")

unfoldable pub require_future_timestamp : ℕ → ℕ → String → Call State (Unit {0})
require_future_timestamp timestamp now field =
    panic_if (leb timestamp now) (str_append field " must be in the future")

unfoldable pub require_valid_multisig : ℕ → ℕ → Call State (Unit {0})
require_valid_multisig required_signatures participant_count =
    panic_if
      ((required_signatures == 0)
        || ((participant_count == 0) || ltb participant_count required_signatures))
      "Invalid configuration"

unfoldable pub get_admin : Call State Address
get_admin = do found ← gets (λ s. s.admin); expect found "Not initialized"
