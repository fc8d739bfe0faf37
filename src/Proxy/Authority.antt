-- ===== src/Proxy/Authority.antt =====
-- contracts/proxy/src/lib.rs: who replaces the code or the admin.
use stellar_soroban_contract.Prelude.{
  if◌then◌else◌, ◌==◌, nat_eq, ◌≡◌, refl, Bool, false, ◌&&◌, List, [], ◌∷◌, arith,
}
use stellar_soroban_contract.Host.{Address}
use stellar_soroban_contract.Proxy.{
  Hash, unauthorized, upgrade_failed, done, refused, TransparentProxy, change_admin, upgrade_to, Op,
  upgrades, changes_admin, step, run,
}

-- None of the messages is by an address.
abbrev pub NoneBy : Address → List (Address × Op) → Type 0
NoneBy a [] = Unit {0}
NoneBy a ((caller, op) ∷ ops) = ((caller == a) ≡ false) × NoneBy a ops

step-others :
    (h : Hash → Bool) (caller : Address) (op : Op) (s : TransparentProxy)
    → (caller == s.admin) ≡ false
    → step h caller op s ≡ s
unfolding step upgrade_to change_admin
step-others h caller (upgrades x) s other = ground arith
step-others h caller (changes_admin x) s other = ground arith

-- Whatever messages others than the admin send, the proxy keeps its code, its admin and its events.
pub run-NoneBy :
    (h : Hash → Bool) (ops : List (Address × Op)) (s : TransparentProxy)
    → NoneBy s.admin ops
    → run h ops s ≡ s
unfolding run
run-NoneBy h [] s none_by = refl
run-NoneBy h ((caller, op) ∷ ops) s (other, none_by) =
    rw (step-others h caller op s other) (run-NoneBy h ops s none_by)

-- The admin's `upgrade_to` stores a hash that the host takes and answers Ok; with any other caller
-- or hash it changes nothing and answers UpgradeFailed, never Unauthorized, while `change_admin`
-- answers Unauthorized to any caller but the admin, and hands the proxy over for the admin.
pub upgrade_to_decides :
    (h : Hash → Bool) (caller a : Address) (x : Hash) (s : TransparentProxy)
    → let taken = (caller == s.admin) && h x in
      ((upgrade_to h caller x s).0 ≡ (if taken then done else refused upgrade_failed))
      × ((upgrade_to h caller x s).1.code_hash ≡ (if taken then x else s.code_hash))
      × ((upgrade_to h caller x s).1.admin ≡ s.admin)
      × ((change_admin caller a s).0 ≡ (if caller == s.admin then done else refused unauthorized))
      × ((change_admin caller a s).1.admin ≡ (if caller == s.admin then a else s.admin))
      × ((change_admin caller a s).1.code_hash ≡ s.code_hash)
unfolding upgrade_to change_admin
upgrade_to_decides h caller a x s =
    (ground arith, ground arith, ground arith, ground arith, ground arith, ground arith)
