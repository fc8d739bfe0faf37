-- ===== src/Proxy.antt =====
-- contracts/proxy/src/lib.rs: a proxy whose admin replaces the code behind it. It is written for
-- another host than the contracts above: the caller is known, and a message returns its error.
pub mod Authority
mod Tests
use stellar_soroban_contract.Prelude.{if◌then◌else◌, ◌==◌, nat_eq, ℕ, Bool, not, List, [], ◌∷◌}
use stellar_soroban_contract.Host.{Address}

-- A code hash is only stored.
abbrev pub Hash : Type 0
Hash = ℕ

-- `Error`, and the trait's `UpgradeError`, which has the same two values.
pub data Error : Type 0 where
  unauthorized upgrade_failed : Error

-- `Result<(), E>`
pub data Outcome (E : Type 0) : Type 0 where
  done : Outcome E
  refused : E → Outcome E

pub data Event : Type 0 where
  upgraded : Hash → Event
  admin_changed : Address → Event

pub record TransparentProxy : Type 0 where
  pub code_hash : Hash
  pub admin : Address
  pub events : List Event

-- A message: its answer and the storage after it.
abbrev pub Message : Type 0
Message = TransparentProxy → Outcome Error × TransparentProxy

-- `self.ensure_admin()?` before the rest of a message.
abbrev pub ensure_admin : Address → Message → Message
ensure_admin caller rest s = if not (caller == s.admin) then (refused unauthorized, s) else rest s

unfoldable pub new : Address → Hash → TransparentProxy
new caller code_hash = record { code_hash = code_hash; admin = caller; events = [] }

unfoldable pub change_admin : Address → Address → Message
change_admin caller new_admin =
    ensure_admin caller
      (λ s. (done, record s { admin = new_admin; events = admin_changed new_admin ∷ s.events }))

-- `ink::env::set_code_hash` is a parameter: whether the host takes a hash.
unfoldable pub upgrade_code_hash : (Hash → Bool) → Address → Hash → Message
upgrade_code_hash set_code_hash caller new_code_hash = ensure_admin caller (λ s.
    if not (set_code_hash new_code_hash)
    then (refused upgrade_failed, s)
    else (done, record s { code_hash = new_code_hash; events = upgraded new_code_hash ∷ s.events }))

-- `.map_err(|_| UpgradeError::UpgradeFailed)`
abbrev pub as_failed : Outcome Error → Outcome Error
as_failed done = done
as_failed (refused _) = refused upgrade_failed

unfoldable pub upgrade_to : (Hash → Bool) → Address → Hash → Message
unfolding upgrade_code_hash
upgrade_to set_code_hash caller new_code_hash s =
    let r = upgrade_code_hash set_code_hash caller new_code_hash s in (as_failed r.0, r.1)

-- A message that writes, of the trait.
pub data Op : Type 0 where
  upgrades : Hash → Op
  changes_admin : Address → Op

unfoldable pub step : (Hash → Bool) → Address → Op → TransparentProxy → TransparentProxy
step set_code_hash caller (upgrades h) s = (upgrade_to set_code_hash caller h s).1
step set_code_hash caller (changes_admin a) s = (change_admin caller a s).1

unfoldable pub run : (Hash → Bool) → List (Address × Op) → TransparentProxy → TransparentProxy
run set_code_hash [] s = s
run set_code_hash ((caller, op) ∷ ops) s = run set_code_hash ops (step set_code_hash caller op s)
