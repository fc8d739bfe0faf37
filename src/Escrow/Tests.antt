-- ===== src/Escrow/Tests.antt =====
-- An escrow of two participants that is paid in two deposits, signed twice and released.
use stellar_soroban_contract.Prelude.{
  nat_eq, pair_eq, length, contains, IsDistinct, ℤ, pos, ◌+ℤ◌, lookup, insert, ◌≤◌, ◌<◌, ◌≡◌, refl,
  subst, true, false, none, some, List, [], ◌∷◌, arith,
}
use stellar_soroban_contract.Host.{Address, Env, ok, kept, succeeds}
use stellar_soroban_contract.Sample.{by}
use stellar_soroban_contract.Escrow.Types.{
  active, released, release, approval_eq, EscrowData, MultiSigConfig, init_event, created_event,
  funded_event, released_event, signed_event, State, deployed,
}
use stellar_soroban_contract.Escrow.{
  init, require_all_non_zero, require_lock, check_creation, file_escrow, create_escrow_advanced,
  deposit_funds, still_locked, release_funds, sign_approval, get_escrow, get_multisig_config, Op,
  creates, deposits, releases, signs, step, run,
}
use stellar_soroban_contract.Escrow.Books.{IsBooked, run-IsBooked}
use stellar_soroban_contract.Escrow.Approvals.{signed_by, IsSigned, run-IsSigned}
use stellar_soroban_contract.Escrow.Release.{release_needs_signers, released_once, no_replay}

abbrev ready_state : State
ready_state = record deployed {
  admin = some 1;
  version = some 1;
  escrow_count = some 0;
  paused = some false;
  events = init_event 1 ∷ [];
}

deployed-ready_state : kept (init 1) deployed ≡ ready_state
unfolding init
deployed-ready_state = refl

ready-IsBooked : IsBooked ready_state
unfolding lookup
ready-IsBooked = record {
  ready = refl;
  listed = λ k e h. absurd (cc);
  booked = λ k e h. absurd (cc);
  configured = λ k e h. absurd (cc);
  known = λ k c h. absurd (cc);
}

ready-IsSigned : IsSigned ready_state
unfolding lookup signed_by
ready-IsSigned = record {
  counted = λ k. refl;
  distinct = λ k. tt;
  by_signers = λ k a h. absurd (cc);
}

abbrev history : List (Env × Op)
history =
    (by 2 10, creates 77 (pos 500) 2 3 (2 ∷ 3 ∷ []) 2 (some 100) 1)
    ∷ (by 2 20, deposits 1 (pos 200))
    ∷ (by 2 30, deposits 1 (pos 400))
    ∷ (by 2 40, deposits 1 (pos 300))
    ∷ (by 2 50, signs 1 release 2)
    ∷ (by 2 60, signs 1 release 2)
    ∷ (by 3 70, signs 1 release 3)
    ∷ []

abbrev sale : EscrowData
sale = record {
  id = 1;
  property_id = 77;
  buyer = 2;
  seller = 3;
  amount = pos 500;
  deposited_amount = pos 500;
  status = active;
  created_at = 10;
  release_time_lock = some 100;
  participants = 2 ∷ 3 ∷ [];
}

abbrev signed_state : State
signed_state = record {
  escrows = (1, sale) ∷ [];
  escrow_count = some 1;
  admin = some 1;
  version = some 1;
  paused = some false;
  multi_sig = (1, record { required_signatures = 2; signers = 2 ∷ 3 ∷ [] }) ∷ [];
  signature = (((1, release), 2), true) ∷ (((1, release), 3), true) ∷ [];
  sig_count = ((1, release), 2) ∷ [];
  nonce = (2, 1) ∷ [];
  events =
      signed_event 1 3 2
      ∷ signed_event 1 2 1
      ∷ funded_event 1 (pos 300)
      ∷ funded_event 1 (pos 200)
      ∷ created_event 1 77 (pos 500)
      ∷ init_event 1
      ∷ [];
}

-- The deposit that exceeds the amount and the second signature of one address are refused.
history-signed : run history ready_state ≡ signed_state
unfolding run step create_escrow_advanced check_creation file_escrow require_all_non_zero
    deposit_funds sign_approval require_lock lookup insert ◌+ℤ◌
history-signed = refl

abbrev released_state : State
released_state = record signed_state {
  escrows = (1, record sale { status = released; deposited_amount = pos 0 }) ∷ [];
  events = released_event 1 (pos 500) ∷ signed_state.events;
}

signed-released : release_funds (by 9 100) 1 (run history ready_state) ≡ ok (tt, released_state)
unfolding run step create_escrow_advanced check_creation file_escrow require_all_non_zero
    deposit_funds sign_approval release_funds require_lock lookup insert ◌+ℤ◌
signed-released = refl

signed-IsBooked : IsBooked signed_state
signed-IsBooked =
    subst IsBooked history-signed (run-IsBooked history ready_state (omega arith) ready-IsBooked)

abbrev finishing : List (Env × Op)
finishing = (by 9 100, releases 1) ∷ []

finishing-released : run finishing signed_state ≡ released_state
unfolding run step release_funds lookup insert
finishing-released = refl

released-IsBooked : IsBooked released_state
released-IsBooked =
    subst IsBooked finishing-released
      (run-IsBooked finishing signed_state (omega arith) signed-IsBooked)

run-IsBooked_example : IsBooked (run history ready_state)
run-IsBooked_example = run-IsBooked history ready_state (omega arith) ready-IsBooked

run-IsSigned_example : IsSigned (run history ready_state)
run-IsSigned_example = run-IsSigned history ready_state (omega arith) ready-IsBooked ready-IsSigned

release_needs_signers_example :
    let v = run history ready_state in
    let l = signed_by (1, release) v.signature in
    (e : EscrowData) × (c : MultiSigConfig) × (get_escrow 1 v ≡ some e)
    × (get_multisig_config 1 v ≡ some c)
    × (e.deposited_amount ≡ e.amount)
    × (still_locked 100 e.release_time_lock ≡ false)
    × (0 < c.required_signatures)
    × (c.required_signatures ≤ length l)
    × IsDistinct l
    × ((a : Address) → contains l a ≡ true → contains e.participants a ≡ true)
release_needs_signers_example =
    release_needs_signers history ready_state (omega arith) ready-IsBooked ready-IsSigned (by 9 100)
      1 released_state signed-released

released_once_example :
    let v = run history released_state in
    (get_escrow 1 v ≡ some (record sale { status = released; deposited_amount = pos 0 }))
    × ((x : ℤ) → succeeds (deposit_funds 1 x v) ≡ false)
    × ((env : Env) → succeeds (release_funds env 1 v) ≡ false)
unfolding lookup
released_once_example =
    released_once history released_state 1
      (record sale { status = released; deposited_amount = pos 0 }) (omega arith) released-IsBooked
      refl refl

no_replay_example :
    succeeds (
      create_escrow_advanced (by 2 200) 78 (pos 5) 2 3 (3 ∷ []) 1 none 1 (run history signed_state))
    ≡ false
unfolding lookup
no_replay_example =
    no_replay history signed_state 2 1 (omega arith) refl (omega arith) (by 2 200) 78 (pos 5) 3
      (3 ∷ []) 1 none
