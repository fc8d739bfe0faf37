-- ===== src/Slashing/Tests.antt =====
-- A role that is made slashable and slashed.
use stellar_soroban_contract.Prelude.{
  leb, nat_eq, string_eq, pair_eq, get_last?, contains, pos, u64, lookup, insert, ◌+◌, ◌≡◌, refl,
  true, false, not, ◌&&◌, none, some, List, [], ◌∷◌, ◌++◌, arith,
}
use stellar_soroban_contract.Host.{Env, ok, succeeds}
use stellar_soroban_contract.Sample.{by}
use stellar_soroban_contract.Slashing.{
  PenaltyParams, SlashingRecord, slash, State, deployed, is_paused, slashable_roles_of, history_of,
  can_be_slashed, trim, slash_funds, Op, slashes, run,
}
use stellar_soroban_contract.Slashing.History.{latest}
use stellar_soroban_contract.Slashing.Log.{log_of, IsBounded, run-latest}
use stellar_soroban_contract.Slashing.Roles.{slash_funds_decides}

abbrev penalty : PenaltyParams
penalty = record { percentage = 10; multiplier = 1; cooldown_seconds = 100 }

abbrev set_up : State
set_up = record deployed {
  admin = some 1;
  governance = some 2;
  risk_pool = some 3;
  penalty_params = ("oracle", penalty) ∷ [];
  slashable_roles = some ("oracle" ∷ []);
  paused = some false;
}

abbrev slash_one : SlashingRecord
slash_one = record {
  target = 7;
  role = "oracle";
  reason = "late";
  amount = pos 5;
  timestamp = 1000;
}

abbrev slashed : State
slashed = record set_up {
  violation_count = ((7, "oracle"), 1) ∷ [];
  history = ((7, "oracle"), slash_one ∷ []) ∷ [];
  events = slash "oracle" (pos 5) ∷ [];
}

set_up-slashed : slash_funds (by 2 1000) 7 "oracle" "late" (pos 5) set_up ≡ ok (tt, slashed)
unfolding slash_funds can_be_slashed trim lookup insert
set_up-slashed = refl

abbrev attempts : List (Env × Op)
attempts =
    (by 2 1000, slashes 7 "oracle" "late" (pos 5))
    ∷ (by 2 1050, slashes 7 "oracle" "again" (pos 5))
    ∷ (by 2 1200, slashes 7 "oracle" "again" (pos 6))
    ∷ []

set_up-IsBounded : IsBounded set_up
unfolding lookup
set_up-IsBounded k = omega arith

run-latest_example :
    history_of (7, "oracle") (run attempts set_up)
    ≡ latest (history_of (7, "oracle") set_up ++ log_of (7, "oracle") attempts set_up)
run-latest_example = run-latest (7, "oracle") attempts set_up set_up-IsBounded

slash_funds_decides_example :
    succeeds (slash_funds (by 2 1050) 7 "oracle" "again" (pos 5) slashed) ≡ (
      (by 2 1050).authorised 2
      && (not (is_paused slashed)
          && (contains (slashable_roles_of slashed) "oracle"
              && elim (lookup "oracle" slashed.penalty_params) [
                | none ↦ true
                | some p ↦ elim (get_last? (history_of (7, "oracle") slashed)) [
                  | none ↦ true
                  | some last ↦ leb (u64 (last.timestamp + p.cooldown_seconds)) 1050
                ]
              ])))
slash_funds_decides_example = slash_funds_decides (by 2 1050) 7 "oracle" "again" (pos 5) slashed
