-- ===== src/Proxy/Tests.antt =====
-- A proxy of address 1 behind which address 2 tries to put other code.
use stellar_soroban_contract.Prelude.{◌==◌, nat_eq, ◌≡◌, refl, Bool, not, List, [], ◌∷◌}
use stellar_soroban_contract.Host.{Address}
use stellar_soroban_contract.Proxy.{Hash, TransparentProxy, new, Op, upgrades, changes_admin}

abbrev accepts : Hash → Bool
accepts h = not (h == 0)

abbrev proxy : TransparentProxy
proxy = record { code_hash = 500; admin = 1; events = [] }

new-proxy : new 1 500 ≡ proxy
unfolding new
new-proxy = refl

abbrev attempts : List (Address × Op)
attempts = (2, upgrades 666) ∷ (2, changes_admin 2) ∷ (3, upgrades 666) ∷ []
