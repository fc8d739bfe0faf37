-- ===== src/Sample.antt =====
-- Environments for the tests of the contracts.
use stellar_soroban_contract.Prelude.{◌==◌, nat_eq, ℕ}
use stellar_soroban_contract.Host.{Address, Env}

-- One address authorises a call at a time, of the contract at address 100.
abbrev pub by : Address → ℕ → Env
by a t = record { authorised = λ x. x == a; timestamp = t; sequence = t; current_contract = 100 }
