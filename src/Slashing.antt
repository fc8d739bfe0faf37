-- ===== src/Slashing.antt =====
-- contracts/slashing/src/lib.rs: slashing records, their cooldown and their bounded history.
pub mod History
pub mod Log
pub mod Roles
mod Tests
use stellar_soroban_contract.Prelude.{
  ltb, leb, if◌then◌else◌, ◌==◌, nat_eq, string_eq, pair_eq, length, get_elem?, get_last?,
  push_back, contains, ℤ, u32, u64, Store, lookup, insert, lookup_or, ℕ, zero, suc, ◌+◌, ◌-◌,
  String, Bool, true, false, not, Option, none, some, List, [], ◌∷◌,
}
use stellar_soroban_contract.Host.{
  Address, Symbol, Env, Call, ◌>>=◌, ◌>>◌, return, gets, modify, panic_if, unwrap, require_auth,
  kept, is_some,
}

abbrev pub max_history : ℕ
max_history = 50

pub record PenaltyParams : Type 0 where
  pub percentage : ℕ  -- u32
  pub multiplier : ℕ  -- u32
  pub cooldown_seconds : ℕ  -- u64

pub record SlashingRecord : Type 0 where
  pub target : Address
  pub role : Symbol
  pub reason : String
  pub amount : ℤ  -- i128
  pub timestamp : ℕ  -- u64

-- What the handlers publish; those of `admin_…` are the second event of an administrative call.
pub data Event : Type 0 where
  init : Address → Address → Address → Event
  config : Symbol → ℕ → ℕ → Event
  slash : Symbol → ℤ → Event
  role_added : Symbol → Event
  role_removed : Symbol → Event
  pause_set : Bool → Event
  admin_cfg_pen : Symbol → Event
  admin_role_add : Symbol → Event
  admin_role_rm : Symbol → Event
  admin_paused : Bool → Event

-- The storage, a field for each `DataKey`, and the events published so far, the latest first.
pub record State : Type 0 where
  pub admin : Option Address
  pub governance : Option Address
  pub risk_pool : Option Address
  pub penalty_params : Store Symbol PenaltyParams
  pub violation_count : Store (Address × Symbol) ℕ
  pub history : Store (Address × Symbol) (List SlashingRecord)
  pub slashable_roles : Option (List Symbol)
  pub paused : Option Bool
  pub events : List Event

-- The storage of a contract that has just been deployed.
abbrev pub deployed : State
deployed = record {
  admin = none;
  governance = none;
  risk_pool = none;
  penalty_params = [];
  violation_count = [];
  history = [];
  slashable_roles = none;
  paused = none;
  events = [];
}

get_admin : Call State Address
get_admin = do unwrap (← gets (λ s. s.admin))

get_governance : Call State Address
get_governance = do unwrap (← gets (λ s. s.governance))

abbrev pub is_paused : State → Bool
is_paused s = elim s.paused [ none ↦ false | some b ↦ b ]

abbrev pub slashable_roles_of : State → List Symbol
slashable_roles_of s = elim s.slashable_roles [ none ↦ [] | some l ↦ l ]

abbrev pub violation_count_of : Address × Symbol → State → ℕ
violation_count_of k s = lookup_or 0 k s.violation_count

abbrev pub history_of : Address × Symbol → State → List SlashingRecord
history_of k s = lookup_or [] k s.history

set_history : Address × Symbol → List SlashingRecord → Call State (Unit {0})
set_history k l = modify (λ s. record s { history = insert k l s.history })

publish : Event → Call State (Unit {0})
publish e = modify (λ s. record s { events = e ∷ s.events })

unfoldable pub initialize : Address → Address → Address → Call State (Unit {0})
unfolding publish
initialize admin governance risk_pool = do
  old ← gets (λ s. s.admin)
  panic_if (is_some old) "Already initialized"
  modify (λ s. record s {
    admin = some admin;
    governance = some governance;
    risk_pool = some risk_pool;
    paused = some false;
    slashable_roles = some [];
  })
  publish (init admin governance risk_pool)

unfoldable pub configure_penalty_parameters : Env → Symbol → PenaltyParams → Call State (Unit {0})
unfolding get_admin publish
configure_penalty_parameters env role params = do
  admin ← get_admin
  require_auth env admin
  modify (λ s. record s { penalty_params = insert role params s.penalty_params })
  publish (config role params.percentage params.multiplier)
  publish (admin_cfg_pen role)

-- The last record is at least `cooldown_seconds` old, or there is none.
abbrev pub cooled_down : ℕ → PenaltyParams → Option SlashingRecord → Bool
cooled_down now params none = true
cooled_down now params (some last) = not (ltb now (u64 (last.timestamp + params.cooldown_seconds)))

abbrev pub cooldown_test : ℕ → Option PenaltyParams → List SlashingRecord → Bool
cooldown_test now none history = true
cooldown_test now (some params) history = cooled_down now params (get_last? history)

unfoldable pub can_be_slashed : Env → Address → Symbol → State → Bool
can_be_slashed env target role s =
    if contains (slashable_roles_of s) role
    then cooldown_test env.timestamp (lookup role s.penalty_params) (history_of (target, role) s)
    else false

-- `for i in 1..history.len() { trimmed.push_back(history.get(i).unwrap()) }`, from index `i` on
-- with `n` rounds left.
unfoldable pub copy_from :
    List SlashingRecord → ℕ → ℕ → List SlashingRecord → Option (List SlashingRecord)
copy_from history i zero trimmed = some trimmed
copy_from history i (suc n) trimmed = elim (get_elem? history i) [
  | none ↦ none
  | some r ↦ copy_from history (suc i) n (push_back trimmed r)
]

-- The history with room for one more record.
unfoldable pub trim : List SlashingRecord → Option (List SlashingRecord)
unfolding copy_from
trim history =
    if leb max_history (length history)
    then copy_from history 1 (length history - 1) []
    else some history

unfoldable pub slash_funds : Env → Address → Symbol → String → ℤ → Call State (Unit {0})
unfolding get_governance set_history publish
slash_funds env target role reason amount = do
  governance ← get_governance
  require_auth env governance
  paused ← gets is_paused
  panic_if paused "Contract paused"
  eligible ← gets (can_be_slashed env target role)
  panic_if (not eligible) "Target not eligible for slashing"
  old ← gets (violation_count_of (target, role))
  let count = u32 (old + 1)
  modify (λ s. record s { violation_count = insert (target, role) count s.violation_count })
  history ← gets (history_of (target, role))
  trimmed ← unwrap (trim history)
  set_history (target, role)
      (push_back trimmed (record {
        target = target;
        role = role;
        reason = reason;
        amount = amount;
        timestamp = env.timestamp;
      }))
  publish (slash role amount)

unfoldable pub add_slashable_role : Env → Symbol → Call State (Unit {0})
unfolding get_admin publish
add_slashable_role env role = do
  admin ← get_admin
  require_auth env admin
  roles ← gets slashable_roles_of
  if contains roles role then return tt else (do
    modify (λ s. record s { slashable_roles = some (push_back roles role) })
    publish (role_added role))
  publish (admin_role_add role)

-- `for r in roles.iter() { if r != role { new_roles.push_back(r) } }`
unfoldable pub keep_others : Symbol → List Symbol → List Symbol → List Symbol
keep_others role [] new_roles = new_roles
keep_others role (r ∷ roles) new_roles =
    keep_others role roles (if r == role then new_roles else push_back new_roles r)

unfoldable pub remove_slashable_role : Env → Symbol → Call State (Unit {0})
unfolding get_admin publish
remove_slashable_role env role = do
  admin ← get_admin
  require_auth env admin
  roles ← gets slashable_roles_of
  modify (λ s. record s { slashable_roles = some (keep_others role roles []) })
  publish (role_removed role)
  publish (admin_role_rm role)

unfoldable pub pause : Env → Call State (Unit {0})
unfolding get_admin publish
pause env = do
  admin ← get_admin
  require_auth env admin
  modify (λ s. record s { paused = some true })
  publish (pause_set true)
  publish (admin_paused true)

unfoldable pub unpause : Env → Call State (Unit {0})
unfolding get_admin publish
unpause env = do
  admin ← get_admin
  require_auth env admin
  modify (λ s. record s { paused = some false })
  publish (pause_set false)
  publish (admin_paused false)

unfoldable pub get_slashing_history : Address → Symbol → Call State (List SlashingRecord)
get_slashing_history target role = gets (history_of (target, role))

unfoldable pub get_violation_count : Address → Symbol → Call State ℕ
get_violation_count target role = gets (violation_count_of (target, role))

-- One transaction that calls a handler which writes.
pub data Op : Type 0 where
  initializes : Address → Address → Address → Op
  configures : Symbol → PenaltyParams → Op
  slashes : Address → Symbol → String → ℤ → Op
  adds_role : Symbol → Op
  removes_role : Symbol → Op
  pauses : Op
  unpauses : Op

-- The storage after one transaction: that of before if it fails.
unfoldable pub step : Env → Op → State → State
step env (initializes a g r) s = kept (initialize a g r) s
step env (configures r p) s = kept (configure_penalty_parameters env r p) s
step env (slashes t r why x) s = kept (slash_funds env t r why x) s
step env (adds_role r) s = kept (add_slashable_role env r) s
step env (removes_role r) s = kept (remove_slashable_role env r) s
step env pauses s = kept (pause env) s
step env unpauses s = kept (unpause env) s

-- The storage after a list of transactions, each in an environment of its own.
unfoldable pub run : List (Env × Op) → State → State
run [] s = s
run ((env, op) ∷ ops) s = run ops (step env op s)
