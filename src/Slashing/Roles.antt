-- ===== src/Slashing/Roles.antt =====
-- contracts/slashing/src/lib.rs: who can be slashed, and when.
use stellar_soroban_contract.Prelude.{
  leb, if◌then◌else◌, Bool-cases, Option-cases, ◌==◌, nat_eq, string_eq, pair_eq, beq_refl, beq→eq,
  length, drop, get_last?, push_back, contains, contains-push_back, ℤ, u64, lookup,
  lookup_or-insert, ◌+◌, ◌<◌, String, ◌≡◌, refl, inl, inr, true, false, not, ◌&&◌, ◌||◌, none, some,
  List, [], ◌∷◌, arith,
}
use stellar_soroban_contract.Host.{Address, Symbol, Env, not_authorised, ok, err, kept, succeeds}
use stellar_soroban_contract.Slashing.History.{trim_lem}
use stellar_soroban_contract.Slashing.{
  max_history, PenaltyParams, SlashingRecord, State, is_paused, slashable_roles_of, history_of,
  can_be_slashed, slash_funds, add_slashable_role, keep_others, remove_slashable_role,
}
use stellar_soroban_contract.Slashing.Log.{record_of, pushed, slash-Slashed}

contains-keep_others :
    (role x : Symbol) (l acc : List Symbol)
    → contains (keep_others role l acc) x ≡ (contains acc x || (not (role == x) && contains l x))
unfolding keep_others
contains-keep_others role x [] acc = ground arith
contains-keep_others role x (r ∷ l) acc = elim (Bool-cases (r == role)) [
  | inl same ↦
      let e : r ≡ role = beq→eq r role same in
      rw (same, contains-keep_others role x l acc) (rw e (ground arith))
  | inr other ↦
      rw (other, contains-keep_others role x l (push_back acc r), contains-push_back acc r x)
        (ground (arith, beq→eq role x, beq→eq r x, beq→eq r role, beq_refl role))
]

-- On a contract with an admin: with the admin's authority `add_slashable_role` makes exactly the
-- given role slashable besides those that were, and `remove_slashable_role` makes exactly it
-- unslashable; without it both fail.
pub roles_change :
    (env : Env) (role : Symbol) (s : State) (a : Address)
    → s.admin ≡ some a
    → (env.authorised a ≡ true
        → ((x : Symbol)
            → contains (slashable_roles_of (kept (add_slashable_role env role) s)) x
              ≡ (contains (slashable_roles_of s) x || (role == x)))
          × ((x : Symbol)
              → contains (slashable_roles_of (kept (remove_slashable_role env role) s)) x
                ≡ (not (role == x) && contains (slashable_roles_of s) x)))
      × (env.authorised a ≡ false
          → (add_slashable_role env role s ≡ err not_authorised)
            × (remove_slashable_role env role s ≡ err not_authorised))
unfolding add_slashable_role remove_slashable_role
roles_change env role s a admin = (
  λ auth. (
    λ x. ground (arith, contains-push_back (slashable_roles_of s) role x, beq→eq role x),
    λ x. ground (arith, contains-keep_others role x (slashable_roles_of s) []),
  ),
  λ auth. (ground arith, ground arith),
)

last-push_back : (l : List SlashingRecord) (r : SlashingRecord) → get_last? (push_back l r) ≡ some r
last-push_back [] r = refl
last-push_back (x ∷ []) r = refl
last-push_back (x ∷ y ∷ l) r = last-push_back (y ∷ l) r

-- `slash_funds` succeeds exactly when the governance contract authorises it, the contract is not
-- paused, the role is slashable, and either no penalty is configured for it, the target has no
-- record in it, or the time of the latest record plus the cooldown, as a u64, is not later than now.
pub slash_funds_decides :
    (env : Env) (t : Address) (r : Symbol) (why : String) (x : ℤ) (s : State)
    → succeeds (slash_funds env t r why x s) ≡ (
        elim s.governance [ none ↦ false | some g ↦ env.authorised g ]
        && (not (is_paused s)
            && (contains (slashable_roles_of s) r && elim (lookup r s.penalty_params) [
              | none ↦ true
              | some p ↦ elim (get_last? (history_of (t, r) s)) [
                | none ↦ true
                | some last ↦ leb (u64 (last.timestamp + p.cooldown_seconds)) env.timestamp
              ]
            ])))
unfolding slash_funds can_be_slashed
slash_funds_decides env t r why x s = elim (Option-cases s.governance) [
  | inl e ↦ ground arith
  | inr (g, e) ↦ ground (arith, trim_lem (history_of (t, r) s))
]

last-slash :
    (env : Env) (t : Address) (r : Symbol) (why : String) (x : ℤ) (s u : State) {n : Unit {0}}
    → slash_funds env t r why x s ≡ ok (n, u)
    → get_last? (history_of (t, r) u) ≡ some (record_of env t r why x)
last-slash env t r why x s u done =
    let w = slash-Slashed env t r why x s u done in
    let k : Address × Symbol = (t, r) in
    let found = lookup_or-insert [] k k (pushed env t r why x s) s.history in
    rw (w.written, found, beq_refl k)
      (last-push_back
        (if leb max_history (length (history_of k s))
          then drop 1 (history_of k s)
          else history_of k s)
        (record_of env t r why x))

-- After a `slash_funds` at time `t0` that succeeded, a second one on the same target in the same
-- role and on the storage that the first has left fails at any time before `t0` and the cooldown
-- configured for the role, where their sum fits a `u64`.
pub slash_funds_cooldown :
    (env later : Env) (t : Address) (r : Symbol) (why why' : String) (x x' : ℤ) (s u : State)
    (p : PenaltyParams)
    → slash_funds env t r why x s ≡ ok (tt, u)
    → lookup r u.penalty_params ≡ some p
    → env.timestamp + p.cooldown_seconds < 0x1_0000_0000_0000_0000
    → later.timestamp < env.timestamp + p.cooldown_seconds
    → succeeds (slash_funds later t r why' x' u) ≡ false
slash_funds_cooldown env later t r why why' x x' s u p done params fits early =
    rw (slash_funds_decides later t r why' x' u, params, last-slash env t r why x s u done)
      (ground arith)
