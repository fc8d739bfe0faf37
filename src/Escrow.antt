-- ===== src/Escrow.antt =====
-- contracts/escrow/src/lib.rs: escrows with deposits, approvals by several signers and a release.
pub mod Types
pub mod Effects
pub mod Steps
pub mod Books
pub mod Approvals
pub mod Release
mod Tests
use stellar_soroban_contract.Prelude.{
  ltb, if◌then◌else◌, ◌==◌, nat_eq, pair_eq, length, contains, ℤ, pos, ◌+ℤ◌, ltb_ℤ, leb_ℤ, u32, u64,
  fits_i128, lookup, insert, has, ℕ, ◌+◌, Bool, true, false, not, Option, none, some, List, [], ◌∷◌,
}
use stellar_soroban_contract.Host.{
  Address, Env, Call, ◌>>=◌, ◌>>◌, return, gets, modify, panic_if, expect, unwrap, require_auth,
  kept, is_some,
}
use stellar_soroban_contract.Escrow.Types.{
  EscrowStatus, created, funded, active, released, ApprovalType, release, approval_eq, EscrowData,
  MultiSigConfig, Event, init_event, pause_event, created_event, funded_event, released_event,
  signed_event, State, count_of, sig_count_of, nonce_of, require_not_paused,
  require_non_zero_address, require_non_zero_u64, require_positive_amount, require_future_timestamp,
  require_valid_multisig, get_admin,
}

abbrev pub contract_version : ℕ
contract_version = 1

abbrev pub max_participants : ℕ
max_participants = 10

publish : Event → Call State (Unit {0})
publish e = modify (λ s. record s { events = e ∷ s.events })

set_escrow : ℕ → EscrowData → Call State (Unit {0})
set_escrow escrow_id escrow = modify (λ s. record s { escrows = insert escrow_id escrow s.escrows })

find_escrow : ℕ → Call State EscrowData
find_escrow escrow_id = do
  found ← gets (λ s. lookup escrow_id s.escrows)
  expect found "Escrow not found"

unfoldable pub init : Address → Call State (Unit {0})
unfolding require_non_zero_address publish
init admin = do
  require_non_zero_address admin
  old ← gets (λ s. s.admin)
  panic_if (is_some old) "Already initialized"
  modify (λ s. record s {
    admin = some admin;
    version = some contract_version;
    escrow_count = some 0;
    paused = some false;
  })
  publish (init_event admin)

unfoldable pub set_pause : Env → Address → Bool → Call State (Unit {0})
unfolding require_non_zero_address get_admin publish
set_pause env admin paused = do
  require_auth env admin
  require_non_zero_address admin
  stored ← get_admin
  panic_if (not (admin == stored)) "Unauthorized"
  modify (λ s. record s { paused = some paused })
  publish (pause_event paused)

-- `for participant in participants.iter() { require_non_zero_address(participant) }`
unfoldable pub require_all_non_zero : List Address → Call State (Unit {0})
unfolding require_non_zero_address
require_all_non_zero [] = return tt
require_all_non_zero (participant ∷ participants) = do
  require_non_zero_address participant
  require_all_non_zero participants

-- The check of the time lock, where there is one.
pub require_lock : ℕ → Option ℕ → Call State (Unit {0})
unfolding require_future_timestamp
require_lock now none = return tt
require_lock now (some time_lock) = require_future_timestamp time_lock now "release_time_lock"

-- `create_escrow_advanced` up to the counter: the checks, and the nonce.
unfoldable pub check_creation :
    Env → ℕ → ℤ → Address → Address → List Address → ℕ → Option ℕ → ℕ → Call State (Unit {0})
unfolding require_not_paused require_non_zero_address require_non_zero_u64 require_positive_amount
    require_valid_multisig require_lock
check_creation env property_id amount buyer seller participants required time_lock nonce = do
  require_not_paused
  require_non_zero_u64 property_id "property_id"
  require_positive_amount amount "amount"
  current ← gets (nonce_of buyer)
  panic_if (not (nonce == u64 (current + 1))) "Invalid nonce"
  modify (λ s. record s { nonce = insert buyer nonce s.nonce })
  panic_if (ltb max_participants (length participants)) "Too many participants"
  require_valid_multisig required (length participants)
  require_non_zero_address buyer
  require_non_zero_address seller
  require_all_non_zero participants
  require_lock env.timestamp time_lock

-- The rest of `create_escrow_advanced`.
unfoldable pub file_escrow :
    Env → ℕ → ℤ → Address → Address → List Address → ℕ → Option ℕ → Call State ℕ
unfolding set_escrow publish
file_escrow env property_id amount buyer seller participants required time_lock = do
  old ← gets count_of
  let count = u64 (old + 1)
  modify (λ s. record s { escrow_count = some count })
  set_escrow count (record {
    id = count;
    property_id = property_id;
    buyer = buyer;
    seller = seller;
    amount = amount;
    deposited_amount = pos 0;
    status = created;
    created_at = env.timestamp;
    release_time_lock = time_lock;
    participants = participants;
  })
  modify (λ s. record s {
    multi_sig =
        insert count (record { required_signatures = required; signers = participants })
          s.multi_sig;
  })
  publish (created_event count property_id amount)
  return count

unfoldable pub create_escrow_advanced :
    Env → ℕ → ℤ → Address → Address → List Address → ℕ → Option ℕ → ℕ → Call State ℕ
unfolding check_creation file_escrow
create_escrow_advanced env property_id amount buyer seller participants required time_lock nonce =
    do
      check_creation env property_id amount buyer seller participants required time_lock nonce
      file_escrow env property_id amount buyer seller participants required time_lock

-- `escrow.status != Created && escrow.status != Funded`, denied.
abbrev pub takes_deposits : EscrowStatus → Bool
takes_deposits created = true
takes_deposits funded = true
takes_deposits _ = false

abbrev pub is_active : EscrowStatus → Bool
is_active active = true
is_active _ = false

unfoldable pub deposit_funds : ℕ → ℤ → Call State (Unit {0})
unfolding require_not_paused require_non_zero_u64 require_positive_amount find_escrow set_escrow
    publish
deposit_funds escrow_id amount = do
  require_not_paused
  require_non_zero_u64 escrow_id "escrow_id"
  require_positive_amount amount "amount"
  escrow ← find_escrow escrow_id
  panic_if (not (takes_deposits escrow.status)) "Invalid status"
  let new_deposit_total = escrow.deposited_amount +ℤ amount
  panic_if (not (fits_i128 new_deposit_total)) "Deposit exceeds escrow amount"
  panic_if (ltb_ℤ escrow.amount new_deposit_total) "Deposit exceeds escrow amount"
  set_escrow escrow_id (record escrow {
    deposited_amount = new_deposit_total;
    status = if leb_ℤ escrow.amount new_deposit_total then active else funded;
  })
  publish (funded_event escrow_id amount)

-- The time lock of an escrow, where there is one, has not passed.
abbrev pub still_locked : ℕ → Option ℕ → Bool
still_locked now none = false
still_locked now (some time_lock) = ltb now time_lock

unfoldable pub release_funds : Env → ℕ → Call State (Unit {0})
unfolding require_not_paused require_non_zero_u64 find_escrow set_escrow publish
release_funds env escrow_id = do
  require_not_paused
  require_non_zero_u64 escrow_id "escrow_id"
  escrow ← find_escrow escrow_id
  panic_if (not (is_active escrow.status)) "Invalid status"
  panic_if (still_locked env.timestamp escrow.release_time_lock) "Time lock active"
  sig_count ← gets (sig_count_of (escrow_id, release))
  stored ← gets (λ s. lookup escrow_id s.multi_sig)
  config ← unwrap stored
  panic_if (ltb sig_count config.required_signatures) "Signature threshold not met"
  set_escrow escrow_id (record escrow { status = released; deposited_amount = pos 0 })
  publish (released_event escrow_id escrow.deposited_amount)

unfoldable pub sign_approval : Env → ℕ → ApprovalType → Address → Call State (Unit {0})
unfolding require_not_paused require_non_zero_u64 require_non_zero_address publish
sign_approval env escrow_id approval_type signer = do
  require_not_paused
  require_non_zero_u64 escrow_id "escrow_id"
  require_auth env signer
  require_non_zero_address signer
  stored ← gets (λ s. lookup escrow_id s.multi_sig)
  config ← expect stored "Escrow not found"
  panic_if (not (contains config.signers signer)) "Unauthorized"
  signed ← gets (λ s. has ((escrow_id, approval_type), signer) s.signature)
  panic_if signed "Already signed"
  modify
      (λ s. record s { signature = insert ((escrow_id, approval_type), signer) true s.signature })
  old ← gets (sig_count_of (escrow_id, approval_type))
  let count = u32 (old + 1)
  modify (λ s. record s { sig_count = insert (escrow_id, approval_type) count s.sig_count })
  publish (signed_event escrow_id signer count)

unfoldable pub get_escrow : ℕ → State → Option EscrowData
get_escrow escrow_id s = lookup escrow_id s.escrows

unfoldable pub get_multisig_config : ℕ → State → Option MultiSigConfig
get_multisig_config escrow_id s = lookup escrow_id s.multi_sig

unfoldable pub get_sig_count : ℕ → ApprovalType → State → ℕ
get_sig_count escrow_id approval_type s = sig_count_of (escrow_id, approval_type) s

-- One transaction that calls a handler which writes.
pub data Op : Type 0 where
  inits : Address → Op
  sets_pause : Address → Bool → Op
  creates : ℕ → ℤ → Address → Address → List Address → ℕ → Option ℕ → ℕ → Op
  deposits : ℕ → ℤ → Op
  releases : ℕ → Op
  signs : ℕ → ApprovalType → Address → Op

-- The storage after one transaction: that of before if it fails.
unfoldable pub step : Env → Op → State → State
step env (inits a) s = kept (init a) s
step env (sets_pause a b) s = kept (set_pause env a b) s
step env (creates i x b c l r t n) s = kept (create_escrow_advanced env i x b c l r t n) s
step env (deposits i x) s = kept (deposit_funds i x) s
step env (releases i) s = kept (release_funds env i) s
step env (signs i y a) s = kept (sign_approval env i y a) s

-- The storage after a list of transactions, each in an environment of its own.
unfoldable pub run : List (Env × Op) → State → State
run [] s = s
run ((env, op) ∷ ops) s = run ops (step env op s)
