-- ===== src/Escrow/Steps.antt =====
-- contracts/escrow/src/lib.rs: which effect a transaction has.
use stellar_soroban_contract.Prelude.{
  Bool-cases, Option-cases, ◌==◌, nat_eq, pair_eq, beq→eq, length, ℤ, pos, ◌<ℤ◌, u64, lookup,
  insert, ℕ, ◌+◌, ◌≤◌, ◌<◌, ◌≡◌, refl, inl, inr, Bool, true, Option, List, [], ◌∷◌, arith,
}
use stellar_soroban_contract.Host.{Address, Env, ok, Call, kept, kept_cases, Result-cases}
use stellar_soroban_contract.Escrow.Types.{
  EscrowStatus, created, funded, active, released, refunded, disputed, cancelled, ApprovalType,
  approval_eq, State, count_of, nonce_of,
}
use stellar_soroban_contract.Escrow.{
  max_participants, init, set_pause, require_all_non_zero, require_lock, check_creation,
  file_escrow, create_escrow_advanced, is_active, deposit_funds, release_funds, sign_approval, Op,
  inits, sets_pause, creates, deposits, releases, signs, step,
}
use stellar_soroban_contract.Escrow.Effects.{
  EscrowEffect, nothing, set_up, pause, create, deposit, pay, sign,
}

init-EscrowEffect :
    (env : Env) (a : Address) (s t : State) {u : Unit {0}}
    → init a s ≡ ok (u, t)
    → EscrowEffect env s t
unfolding init
init-EscrowEffect env a s t h = set_up (ground arith)

pause-EscrowEffect :
    (env : Env) (a : Address) (b : Bool) (s t : State) {u : Unit {0}}
    → set_pause env a b s ≡ ok (u, t)
    → EscrowEffect env s t
unfolding set_pause
pause-EscrowEffect env a b s t h = elim (Option-cases s.admin) [
  | inl e ↦ absurd (ground arith)
  | inr (c, e) ↦
      pause a (ground (arith, beq→eq a c)) (ground arith) (ground arith) (ground arith)
        (ground arith, ground arith, ground arith) (ground arith, ground arith)
]

require_all_non_zero_lem :
    (l : List Address) (s t : State) {u : Unit {0}} → require_all_non_zero l s ≡ ok (u, t) → t ≡ s
unfolding require_all_non_zero
require_all_non_zero_lem [] s t h = ground arith
require_all_non_zero_lem (a ∷ l) s t h = elim (Bool-cases (a == 0)) [
  | inl zero_address ↦ absurd (ground arith)
  | inr other ↦ require_all_non_zero_lem l s t (ground arith)
]

-- What the checks of a creation have established, and the nonce that they have stored.
pub check_creation_lem :
    (env : Env) (i : ℕ) (x : ℤ) (b c : Address) (l : List Address) (r : ℕ) (lock : Option ℕ) (n : ℕ)
    (s t : State) {u : Unit {0}}
    → check_creation env i x b c l r lock n s ≡ ok (u, t)
    → (t ≡ record s { nonce = insert b n s.nonce })
      × (pos 0 <ℤ x)
      × (0 < r)
      × (r ≤ length l)
      × (length l ≤ max_participants)
      × (n ≡ u64 (nonce_of b s + 1))
unfolding check_creation require_lock
check_creation_lem env i x b c l r lock n s t h =
    let s1 = record s { nonce = insert b n s.nonce } in
    elim (Result-cases (require_all_non_zero l s1)) [
      | inl (e, failed) ↦ absurd (ground arith)
      | inr ((_, s2), passed) ↦
          let same = require_all_non_zero_lem l s1 s2 passed in
          elim (Option-cases lock) [
            | inl e ↦ (
              ground arith,
              ground arith,
              ground arith,
              ground arith,
              ground arith,
              ground (arith, beq→eq n (u64 (nonce_of b s + 1))),
            )
            | inr (y, e) ↦ (
              ground arith,
              ground arith,
              ground arith,
              ground arith,
              ground arith,
              ground (arith, beq→eq n (u64 (nonce_of b s + 1))),
            )
          ]
    ]

create-EscrowEffect :
    (env : Env) (i : ℕ) (x : ℤ) (b c : Address) (l : List Address) (r : ℕ) (lock : Option ℕ) (n : ℕ)
    (s t : State) {k : ℕ}
    → create_escrow_advanced env i x b c l r lock n s ≡ ok (k, t)
    → EscrowEffect env s t
unfolding create_escrow_advanced file_escrow
create-EscrowEffect env i x b c l r lock n s t h =
    elim (Result-cases (check_creation env i x b c l r lock n s)) [
      | inl (e, failed) ↦ absurd (ground arith)
      | inr ((_, s1), passed) ↦
          let (stored, positive, some_signature, enough, few, counted) =
            check_creation_lem env i x b c l r lock n s s1 passed in
          let count = u64 (count_of s + 1) in
          create
            (record {
              id = count;
              property_id = i;
              buyer = b;
              seller = c;
              amount = x;
              deposited_amount = pos 0;
              status = created;
              created_at = env.timestamp;
              release_time_lock = lock;
              participants = l;
            })
            (record { required_signatures = r; signers = l }) n (ground arith) positive refl refl
            refl some_signature enough few counted (ground arith) (ground arith) (ground arith)
            (ground arith) (ground arith) (ground arith, ground arith)
    ]

deposit-EscrowEffect :
    (env : Env) (k : ℕ) (x : ℤ) (s t : State) {u : Unit {0}}
    → deposit_funds k x s ≡ ok (u, t)
    → EscrowEffect env s t
unfolding deposit_funds
deposit-EscrowEffect env k x s t h = elim (Option-cases (lookup k s.escrows)) [
  | inl e ↦ absurd (ground arith)
  | inr (e, here) ↦
      deposit k x e here (ground arith) (ground arith) (ground arith) (ground arith) (ground arith)
        (ground arith) (ground arith) (ground arith) (ground arith, ground arith)
]

pub is_active_eq : (y : EscrowStatus) → is_active y ≡ true → y ≡ active
is_active_eq created h = absurd (cc)
is_active_eq funded h = absurd (cc)
is_active_eq active h = refl
is_active_eq released h = absurd (cc)
is_active_eq refunded h = absurd (cc)
is_active_eq disputed h = absurd (cc)
is_active_eq cancelled h = absurd (cc)

release-EscrowEffect :
    (env : Env) (k : ℕ) (s t : State) {u : Unit {0}}
    → release_funds env k s ≡ ok (u, t)
    → EscrowEffect env s t
unfolding release_funds
release-EscrowEffect env k s t h = elim (Option-cases (lookup k s.escrows)) [
  | inl e ↦ absurd (ground arith)
  | inr (e, here) ↦ elim (Option-cases (lookup k s.multi_sig)) [
    | inl n ↦ absurd (ground arith)
    | inr (c, configured) ↦
        pay k e c here (is_active_eq e.status (ground arith)) (ground arith) configured
          (ground arith) (ground arith) (ground arith) (ground arith) (ground arith) (ground arith)
          (ground arith, ground arith)
  ]
]

sign-EscrowEffect :
    (env : Env) (k : ℕ) (y : ApprovalType) (a : Address) (s t : State) {u : Unit {0}}
    → sign_approval env k y a s ≡ ok (u, t)
    → EscrowEffect env s t
unfolding sign_approval
sign-EscrowEffect env k y a s t h = elim (Option-cases (lookup k s.multi_sig)) [
  | inl n ↦ absurd (ground arith)
  | inr (c, configured) ↦
      sign (k, y) a c (ground arith) configured (ground arith) (ground arith) (ground arith)
        (ground arith) (ground arith) (ground arith) (ground arith, ground arith, ground arith)
]

abbrev kept-EscrowEffect :
    {A : Type 0} (env : Env) (m : Call State A) (s : State)
    → ((a : A) (t : State) → m s ≡ ok (a, t) → EscrowEffect env s t)
    → EscrowEffect env s (kept m s)
kept-EscrowEffect env m s h = elim (kept_cases m s) [
  | inl same ↦ nothing same
  | inr (a, t, e, k) ↦ rw k (h a t e)
]

-- Every transaction changes nothing, sets up a contract that has no admin, is a pause by the admin,
-- opens one escrow under the next number with the next nonce of its buyer, adds a deposit that
-- keeps to the agreed amount, releases an escrow that is active, past its time lock and has the
-- signatures counted that it requires, or records one new signature of one of the signers.
pub step-EscrowEffect : (env : Env) (op : Op) (s : State) → EscrowEffect env s (step env op s)
unfolding step
step-EscrowEffect env (inits a) s =
    kept-EscrowEffect env (init a) s (λ u t. init-EscrowEffect env a s t)
step-EscrowEffect env (sets_pause a b) s =
    kept-EscrowEffect env (set_pause env a b) s (λ u t. pause-EscrowEffect env a b s t)
step-EscrowEffect env (creates i x b c l r y n) s =
    kept-EscrowEffect env (create_escrow_advanced env i x b c l r y n) s
      (λ u t. create-EscrowEffect env i x b c l r y n s t)
step-EscrowEffect env (deposits k x) s =
    kept-EscrowEffect env (deposit_funds k x) s (λ u t. deposit-EscrowEffect env k x s t)
step-EscrowEffect env (releases k) s =
    kept-EscrowEffect env (release_funds env k) s (λ u t. release-EscrowEffect env k s t)
step-EscrowEffect env (signs k y a) s =
    kept-EscrowEffect env (sign_approval env k y a) s (λ u t. sign-EscrowEffect env k y a s t)
