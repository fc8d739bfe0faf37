-- ===== src/Insurance/Rbac.antt =====
-- contracts/insurance/src/rbac.rs: roles of accounts.
use stellar_soroban_contract.Prelude.{
  if◌then◌else◌, ◌==◌, nat_eq, pair_eq, Store, lookup, insert, remove, ℕ, Bool, true, false, not,
  ◌&&◌, List, [], ◌∷◌,
}
use stellar_soroban_contract.Ink.{AccountId, unwrap_or}

pub data Role : Type 0 where
  admin_role assessor_role oracle_role underwriter_role policyholder_role : Role

-- `role as u8`
abbrev pub role_index : Role → ℕ
role_index admin_role = 0
role_index assessor_role = 1
role_index oracle_role = 2
role_index underwriter_role = 3
role_index policyholder_role = 4

-- The mapping that `RoleManager` wraps.
abbrev pub RoleManager : Type 0
RoleManager = Store (AccountId × ℕ) Bool

unfoldable pub grant : AccountId → Role → RoleManager → RoleManager
grant account role m = insert (account, role_index role) true m

unfoldable pub revoke : AccountId → Role → RoleManager → RoleManager
revoke account role m = remove (account, role_index role) m

abbrev pub holds : AccountId → Role → RoleManager → Bool
holds account role m = unwrap_or false (lookup (account, role_index role) m)

-- The admin role stands for every other one.
unfoldable pub has_role : AccountId → Role → RoleManager → Bool
has_role account role m =
    if not (role_index role == 0) && holds account admin_role m then true else holds account role m

-- `all.iter().filter(..)`
abbrev pub keep_held : AccountId → RoleManager → List Role → List Role
keep_held account m [] = []
keep_held account m (r ∷ rs) =
    let rest = keep_held account m rs in if holds account r m then r ∷ rest else rest

unfoldable pub roles_of : AccountId → RoleManager → List Role
roles_of account m =
    keep_held account m
      (admin_role ∷ assessor_role ∷ oracle_role ∷ underwriter_role ∷ policyholder_role ∷ [])
