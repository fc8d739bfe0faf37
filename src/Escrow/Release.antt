-- ===== src/Escrow/Release.antt =====
-- contracts/escrow/src/lib.rs: releases, and the nonces of the buyers.
use stellar_soroban_contract.Prelude.{
  Option-cases, nat_eq, pair_eq, beq→eq, length, contains, IsDistinct, ℤ, pos, eq_of_parts, lookup,
  lookup-insert, lookup_or-insert, ℕ, ◌+◌, ◌≤◌, ◌<◌, ◌≡◌, refl, subst, inl, inr, true, false,
  Option, some, List, [], ◌∷◌, arith,
}
use stellar_soroban_contract.Host.{Address, Env, ok, succeeds, is_some, Result-cases}
use stellar_soroban_contract.Escrow.Types.{
  active, released, release, approval_eq, EscrowData, MultiSigConfig, State, sig_count_of, nonce_of,
}
use stellar_soroban_contract.Escrow.{
  check_creation, create_escrow_advanced, is_active, deposit_funds, still_locked, release_funds,
  get_escrow, get_multisig_config, Op, step, run,
}
use stellar_soroban_contract.Escrow.Books.{
  is_booked, IsBooked, HasRoom, EscrowEffect-IsBooked, run-IsBooked,
}
use stellar_soroban_contract.Escrow.Approvals.{signed_by, IsSigned, run-IsSigned}
use stellar_soroban_contract.Escrow.Effects.{
  deposited, EscrowEffect, nothing, set_up, pause, create, deposit, pay, sign,
}
use stellar_soroban_contract.Escrow.Steps.{check_creation_lem, is_active_eq, step-EscrowEffect}

-- A release that succeeds has paid an active escrow, past its lock, with the signatures counted.
release_funds_lem :
    (env : Env) (k : ℕ) (s t : State) {u : Unit {0}}
    → release_funds env k s ≡ ok (u, t)
    → (e : EscrowData) × (c : MultiSigConfig) × (lookup k s.escrows ≡ some e)
      × (lookup k s.multi_sig ≡ some c)
      × (is_active e.status ≡ true)
      × (still_locked env.timestamp e.release_time_lock ≡ false)
      × (c.required_signatures ≤ sig_count_of (k, release) s)
unfolding release_funds
release_funds_lem env k s t h = elim (Option-cases (lookup k s.escrows)) [
  | inl e ↦ absurd (ground arith)
  | inr (e, here) ↦ elim (Option-cases (lookup k s.multi_sig)) [
    | inl n ↦ absurd (ground arith)
    | inr (c, config) ↦ (e, c, here, config, ground arith, ground arith, ground arith)
  ]
]

full :
    (e : EscrowData)
    → is_booked e ≡ true
    → is_active e.status ≡ true
    → e.deposited_amount ≡ e.amount
full e h a =
    let st : e.status ≡ active = is_active_eq e.status a in
    eq_of_parts e.deposited_amount e.amount (ground arith)

-- From the booked and signed escrows of an initialized contract, after any transactions, fewer than
-- the numbers that the counter has left: a release that succeeds is of an escrow that holds exactly
-- the agreed amount and whose time lock has passed, and it needs one signature at least and as many
-- as the escrow requires, by different addresses, all of them participants of that escrow.
pub release_needs_signers :
    (ops : List (Env × Op)) (s : State)
    → HasRoom (length ops) s
    → IsBooked s
    → IsSigned s
    → (env : Env) (k : ℕ) (t : State) → release_funds env k (run ops s) ≡ ok (tt, t)
    → let v = run ops s in
      let l = signed_by (k, release) v.signature in
      (e : EscrowData) × (c : MultiSigConfig) × (get_escrow k v ≡ some e)
      × (get_multisig_config k v ≡ some c)
      × (e.deposited_amount ≡ e.amount)
      × (still_locked env.timestamp e.release_time_lock ≡ false)
      × (0 < c.required_signatures)
      × (c.required_signatures ≤ length l)
      × IsDistinct l
      × ((a : Address) → contains l a ≡ true → contains e.participants a ≡ true)
unfolding get_escrow get_multisig_config
release_needs_signers ops s room b g env k t done =
    let v = run ops s in
    let b' = run-IsBooked ops s room b in
    let g' = run-IsSigned ops s room b g in
    let (e, c, here, config, live, passed, reached) = release_funds_lem env k v t done in
    let (d, config', fits) = b'.configured k e here in
    let one : d ≡ c = ground arith in
    (
      e,
      c,
      here,
      config,
      full e (b'.booked k e here) live,
      passed,
      subst (λ (z : MultiSigConfig). 0 < z.required_signatures) one fits.some_signature,
      omega (arith, reached, g'.counted (k, release)),
      g'.distinct (k, release),
      λ a h.
          let (f, config'', member) = g'.by_signers (k, release) a h in
          let other : d ≡ f = ground arith in
          subst (λ (l : List Address). contains l a ≡ true) fits.signers_of (rw other member),
    )

EscrowEffect-released :
    {env : Env} (s t : State) (k : ℕ) (e : EscrowData)
    → HasRoom 1 s
    → IsBooked s
    → EscrowEffect env s t
    → lookup k s.escrows ≡ some e
    → e.status ≡ released
    → lookup k t.escrows ≡ some e
EscrowEffect-released s t k e room b (nothing h) here over = rw h here
EscrowEffect-released s t k e room b (set_up fresh) here over = absurd (ground (arith, b.ready))
EscrowEffect-released s t k e room b (pause a _ _ _ _ (same, _, _) _) here over = rw same here
EscrowEffect-released s t k e room b (create d c n id _ _ _ _ _ _ _ _ _ filed _ _ _ _) here over =
    ground (arith, lookup-insert k d.id d s.escrows, b.listed k e here)
EscrowEffect-released s t k e room b (deposit j x d there takes _ _ filed _ _ _ _ _) here over =
    ground (arith, lookup-insert k j (deposited x d) s.escrows)
EscrowEffect-released s t k e room b (pay j d c there live _ _ _ filed _ _ _ _ _) here over =
    ground (
      arith,
      lookup-insert k j (record d { status = released; deposited_amount = pos 0 }) s.escrows,
    )
EscrowEffect-released s t k e room b (sign j a c _ _ _ _ _ _ _ _ (same, _, _)) here over =
    rw same here

run-released :
    (ops : List (Env × Op)) (s : State) (k : ℕ) (e : EscrowData)
    → HasRoom (length ops) s
    → IsBooked s
    → lookup k s.escrows ≡ some e
    → e.status ≡ released
    → lookup k (run ops s).escrows ≡ some e
unfolding run
run-released [] s k e room b here over = here
run-released ((env, op) ∷ ops) s k e room b here over =
    let next = step env op s in
    let effect = step-EscrowEffect env op s in
    let (b', counted) = EscrowEffect-IsBooked s next (omega arith) b effect in
    run-released ops next k e (omega arith) b'
      (EscrowEffect-released s next k e (omega arith) b effect here over) over

-- From the booked escrows of an initialized contract, after any transactions, fewer than the
-- numbers that the counter has left, an escrow that was released is the same, and neither a deposit
-- nor a second release of it succeeds.
pub released_once :
    (ops : List (Env × Op)) (s : State) (k : ℕ) (e : EscrowData)
    → HasRoom (length ops) s
    → IsBooked s
    → lookup k s.escrows ≡ some e
    → e.status ≡ released
    → let v = run ops s in
      (get_escrow k v ≡ some e)
      × ((x : ℤ) → succeeds (deposit_funds k x v) ≡ false)
      × ((env : Env) → succeeds (release_funds env k v) ≡ false)
unfolding get_escrow deposit_funds release_funds
released_once ops s k e room b here over =
    let still = run-released ops s k e room b here over in
    (still, λ x. ground arith, λ env. ground arith)

EscrowEffect-nonce :
    {env : Env} (s t : State) (b : Address)
    → nonce_of b s + 1 < 0x1_0000_0000_0000_0000
    → is_some s.admin ≡ true
    → EscrowEffect env s t
    → (nonce_of b s ≤ nonce_of b t) × (nonce_of b t ≤ nonce_of b s + 1) × (is_some t.admin ≡ true)
EscrowEffect-nonce s t b room set (nothing h) = rw h (omega arith, omega arith, set)
EscrowEffect-nonce s t b room set (set_up fresh) = absurd (ground arith)
EscrowEffect-nonce s t b room set (pause a _ _ admin same _ _) =
    rw (same, admin) (omega arith, omega arith, set)
EscrowEffect-nonce s t b room set (create e c n _ _ _ _ _ _ _ _ counted stored _ _ _ admin _) =
    let found = lookup_or-insert 0 b e.buyer n s.nonce in
    rw (stored, admin, found)
      (ground (arith, beq→eq b e.buyer), ground (arith, beq→eq b e.buyer), set)
EscrowEffect-nonce s t b room set (deposit k x e _ _ _ _ _ _ _ admin same _) =
    rw (same, admin) (omega arith, omega arith, set)
EscrowEffect-nonce s t b room set (pay k e c _ _ _ _ _ _ _ _ admin same _) =
    rw (same, admin) (omega arith, omega arith, set)
EscrowEffect-nonce s t b room set (sign k a c _ _ _ _ _ _ admin same _) =
    rw (same, admin) (omega arith, omega arith, set)

run-nonce :
    (ops : List (Env × Op)) (s : State) (b : Address)
    → nonce_of b s + length ops < 0x1_0000_0000_0000_0000
    → is_some s.admin ≡ true
    → (nonce_of b s ≤ nonce_of b (run ops s)) × (nonce_of b (run ops s) ≤ nonce_of b s + length ops)
unfolding run
run-nonce [] s b room set = (omega arith, omega arith)
run-nonce ((env, op) ∷ ops) s b room set =
    let next = step env op s in
    let (up, least, set') =
      EscrowEffect-nonce s next b (omega arith) set (step-EscrowEffect env op s) in
    let (up', least') = run-nonce ops next b (omega arith) set' in (omega arith, omega arith)

-- A nonce that a buyer has used, or one below it, opens no escrow for that buyer again, after any
-- transactions of an initialized contract, fewer than the nonces that the buyer has left.
pub no_replay :
    (ops : List (Env × Op)) (s : State) (b : Address) (n : ℕ)
    → nonce_of b s + length ops + 1 < 0x1_0000_0000_0000_0000
    → is_some s.admin ≡ true
    → n ≤ nonce_of b s
    → (env : Env) (i : ℕ) (x : ℤ) (c : Address) (l : List Address) (r : ℕ) (lock : Option ℕ)
    → succeeds (create_escrow_advanced env i x b c l r lock n (run ops s)) ≡ false
unfolding create_escrow_advanced
no_replay ops s b n room set used env i x c l r lock =
    let v = run ops s in
    let (up, least) = run-nonce ops s b (omega arith) set in
    elim (Result-cases (check_creation env i x b c l r lock n v)) [
      | inl (e, failed) ↦ rw (failed, succeeds) refl
      | inr ((_, u), passed) ↦
          let (_, _, _, _, _, counted) = check_creation_lem env i x b c l r lock n v u passed in
          absurd (omega (arith, counted, up, least))
    ]
