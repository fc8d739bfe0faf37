-- ===== src/Escrow/Books.antt =====
-- contracts/escrow/src/lib.rs: the money and the configuration of every escrow.
use stellar_soroban_contract.Prelude.{
  Bool-cases, ◌==◌, nat_eq, pair_eq, beq→eq, length, ℤ, pos, ◌+ℤ◌, ◌≤ℤ◌, ◌<ℤ◌, ltb_ℤ, leb_ℤ,
  is_zero_ℤ, lookup, insert, lookup-insert, ℕ, ◌+◌, ◌≤◌, ◌<◌, ◌≡◌, refl, sym, ap, subst, ◌∙◌, ◌⊎◌,
  inl, inr, Bool, true, false, ◌&&◌, some, List, [], ◌∷◌, arith,
}
use stellar_soroban_contract.Host.{Env, is_some}
use stellar_soroban_contract.Escrow.Types.{
  EscrowStatus, created, funded, active, released, refunded, disputed, cancelled, approval_eq,
  EscrowData, MultiSigConfig, State, count_of,
}
use stellar_soroban_contract.Escrow.{max_participants, takes_deposits, Op, step, run}
use stellar_soroban_contract.Escrow.Effects.{
  SameEscrows, deposited, EscrowEffect, nothing, set_up, pause, create, deposit, pay, sign,
}
use stellar_soroban_contract.Escrow.Steps.{step-EscrowEffect}

-- What an escrow holds at each of its stages; three stages are never reached.
abbrev pub holds : EscrowStatus → ℤ → ℤ → Bool
holds created paid agreed = is_zero_ℤ paid
holds funded paid agreed = ltb_ℤ (pos 0) paid && ltb_ℤ paid agreed
holds active paid agreed = leb_ℤ paid agreed && leb_ℤ agreed paid
holds released paid agreed = is_zero_ℤ paid
holds _ paid agreed = false

abbrev pub is_booked : EscrowData → Bool
is_booked e = ltb_ℤ (pos 0) e.amount && holds e.status e.deposited_amount e.amount

-- The configuration of an escrow can be met: its signers are the participants, at most ten, and
-- it asks for at least one of them and for no more than there are.
pub record Configures (e : EscrowData) (c : MultiSigConfig) : Type 0 where
  pub signers_of : c.signers ≡ e.participants
  pub some_signature : 0 < c.required_signatures
  pub enough : c.required_signatures ≤ length c.signers
  pub few : length c.signers ≤ max_participants

-- What holds of an initialized contract between two transactions.
pub record IsBooked (s : State) : Type 0 where
  pub ready : is_some s.admin ≡ true
  pub listed :
      (k : ℕ) (e : EscrowData) → lookup k s.escrows ≡ some e → (e.id ≡ k) × (k ≤ count_of s)
  pub booked : (k : ℕ) (e : EscrowData) → lookup k s.escrows ≡ some e → is_booked e ≡ true
  pub configured :
      (k : ℕ) (e : EscrowData)
      → lookup k s.escrows ≡ some e
      → (c : MultiSigConfig) × (lookup k s.multi_sig ≡ some c) × Configures e c
  pub known : (k : ℕ) (c : MultiSigConfig) → lookup k s.multi_sig ≡ some c → k ≤ count_of s

-- The counter has numbers left for `n` more escrows.
abbrev pub HasRoom : ℕ → State → Type 0
HasRoom n s = count_of s + n < 0x1_0000_0000_0000_0000

is_booked-deposited :
    (e : EscrowData) (x : ℤ)
    → is_booked e ≡ true
    → takes_deposits e.status ≡ true
    → pos 0 <ℤ x
    → (e.deposited_amount +ℤ x) ≤ℤ e.amount
    → is_booked (deposited x e) ≡ true
is_booked-deposited e x h d p l = elim (takes_cases e.status d) [
  | inl c ↦ unfold ◌+ℤ◌ in ground arith
  | inr c ↦ unfold ◌+ℤ◌ in ground arith
]
  where
    takes_cases : (y : EscrowStatus) → takes_deposits y ≡ true → (y ≡ created) ⊎ (y ≡ funded)
    takes_cases created h = inl refl
    takes_cases funded h = inr refl
    takes_cases active h = absurd (cc)
    takes_cases released h = absurd (cc)
    takes_cases refunded h = absurd (cc)
    takes_cases disputed h = absurd (cc)
    takes_cases cancelled h = absurd (cc)

-- One stored escrow is replaced by one with the same participants.
replace-IsBooked :
    (s t : State) (k : ℕ) (e d : EscrowData)
    → IsBooked s
    → lookup k s.escrows ≡ some e
    → d.id ≡ e.id
    → d.participants ≡ e.participants
    → is_booked d ≡ true
    → t.escrows ≡ insert k d s.escrows
    → t.multi_sig ≡ s.multi_sig
    → t.escrow_count ≡ s.escrow_count
    → t.admin ≡ s.admin
    → IsBooked t
replace-IsBooked s t k e d v here id people fine filed same counted admin =
    let found = λ (j : ℕ). lookup-insert j k d s.escrows in
    record {
      ready = ground (arith, v.ready);
      listed = λ j b h. elim (Bool-cases (j == k)) [
        | inl this ↦ (ground (arith, found j, v.listed k e here), ground (arith, v.listed k e here))
        | inr other ↦ (ground (arith, found j, v.listed j b), ground (arith, found j, v.listed j b))
      ];
      booked = λ j b h. elim (Bool-cases (j == k)) [
        | inl this ↦
            let eq : d ≡ b = ground (arith, found j) in
            subst (λ (z : EscrowData). is_booked z ≡ true) eq fine
        | inr other ↦ v.booked j b (ground (arith, found j))
      ];
      configured = λ j b h. elim (Bool-cases (j == k)) [
        | inl this ↦
            let eq : d ≡ b = ground (arith, found j) in
            let (c, there, g) = v.configured k e here in
            (
              c,
              ground (arith, beq→eq j k this),
              record {
                signers_of = g.signers_of ∙ sym people ∙ ap (λ (z : EscrowData). z.participants) eq;
                some_signature = g.some_signature;
                enough = g.enough;
                few = g.few;
              },
            )
        | inr other ↦
            let (c, there, g) = v.configured j b (ground (arith, found j)) in (c, rw same there, g)
      ];
      known = λ j c h. ground (arith, v.known j c);
    }

create-IsBooked :
    (s t : State) (e : EscrowData) (c : MultiSigConfig)
    → IsBooked s
    → e.id ≡ count_of s + 1
    → is_booked e ≡ true
    → Configures e c
    → t.escrows ≡ insert e.id e s.escrows
    → t.multi_sig ≡ insert e.id c s.multi_sig
    → t.escrow_count ≡ some e.id
    → t.admin ≡ s.admin
    → IsBooked t
create-IsBooked s t e c v id fine good filed config counted admin =
    let found = λ (j : ℕ). lookup-insert j e.id e s.escrows in
    let meant = λ (j : ℕ). lookup-insert j e.id c s.multi_sig in
    record {
      ready = ground (arith, v.ready);
      listed = λ j b h. elim (Bool-cases (j == e.id)) [
        | inl this ↦ (ground (arith, found j), ground (arith, found j))
        | inr other ↦ (ground (arith, found j, v.listed j b), ground (arith, found j, v.listed j b))
      ];
      booked = λ j b h. elim (Bool-cases (j == e.id)) [
        | inl this ↦
            let eq : e ≡ b = ground (arith, found j) in
            subst (λ (z : EscrowData). is_booked z ≡ true) eq fine
        | inr other ↦ v.booked j b (ground (arith, found j))
      ];
      configured = λ j b h. elim (Bool-cases (j == e.id)) [
        | inl this ↦
            let eq : e ≡ b = ground (arith, found j) in
            (c, ground (arith, meant j), subst (λ (z : EscrowData). Configures z c) eq good)
        | inr other ↦
            let (d, there, g) = v.configured j b (ground (arith, found j)) in
            (d, ground (arith, meant j), g)
      ];
      known = λ j d h. ground (arith, meant j, v.known j d);
    }

unchanged-IsBooked :
    (s t : State)
    → IsBooked s
    → t.admin ≡ s.admin
    → SameEscrows s t
    → IsBooked t × (count_of t ≤ count_of s + 1)
unchanged-IsBooked s t v admin (same, config, counted) = (
  record {
    ready = ground (arith, v.ready);
    listed = λ k e h. (ground (arith, v.listed k e), ground (arith, v.listed k e));
    booked = λ k e h. v.booked k e (rw (← same) h);
    configured =
        λ k e h. let (c, there, g) = v.configured k e (rw (← same) h) in (c, rw config there, g);
    known = λ k c h. ground (arith, v.known k c);
  },
  ground arith,
)

pub EscrowEffect-IsBooked :
    {env : Env} (s t : State)
    → HasRoom 1 s
    → IsBooked s
    → EscrowEffect env s t
    → IsBooked t × (count_of t ≤ count_of s + 1)
EscrowEffect-IsBooked s t room v (nothing e) = rw e (v, omega arith)
EscrowEffect-IsBooked s t room v (set_up fresh) = absurd (ground (arith, v.ready))
EscrowEffect-IsBooked s t room v (pause a _ _ admin _ same _) = unchanged-IsBooked s t v admin same
EscrowEffect-IsBooked s t room v
      (create e c n id positive zeroed st people least enough few _ _ filed config counted admin
        _) =
    (
      create-IsBooked s t e c v (omega arith) (rw (zeroed, st) (ground arith))
          (record { signers_of = people; some_signature = least; enough = enough; few = few }) filed
          config counted admin,
      ground arith,
    )
EscrowEffect-IsBooked s t room v
      (deposit k x e here takes positive fits filed same counted admin _ _) =
    (
      replace-IsBooked s t k e (deposited x e) v here refl refl
          (is_booked-deposited e x (v.booked k e here) takes positive fits) filed same counted
          admin,
      ground arith,
    )
EscrowEffect-IsBooked s t room v (pay k e c here full _ _ _ filed same counted admin _ _) = (
  replace-IsBooked s t k e (record e { status = released; deposited_amount = pos 0 }) v here refl
      refl (ground (arith, v.booked k e here)) filed same counted admin,
  ground arith,
)
EscrowEffect-IsBooked s t room v (sign k a c _ _ _ _ _ _ admin _ same) =
    unchanged-IsBooked s t v admin same

-- From the booked escrows of an initialized contract, after any transactions, fewer than the
-- numbers that the counter has left, every escrow has its own number and a configuration that can
-- be met, and its status agrees with its deposits: none while it is created, part of the agreed
-- amount while it is funded, exactly that amount while it is active, and none once it is released.
pub run-IsBooked :
    (ops : List (Env × Op)) (s : State) → HasRoom (length ops) s → IsBooked s → IsBooked (run ops s)
unfolding run
run-IsBooked [] s room v = v
run-IsBooked ((env, op) ∷ ops) s room v =
    let (v', counted) =
      EscrowEffect-IsBooked s (step env op s) (omega arith) v (step-EscrowEffect env op s) in
    run-IsBooked ops (step env op s) (omega arith) v'
