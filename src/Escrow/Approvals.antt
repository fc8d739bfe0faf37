-- ===== src/Escrow/Approvals.antt =====
-- contracts/escrow/src/lib.rs: the count of signatures against the signatures themselves.
use stellar_soroban_contract.Prelude.{
  if◌then◌else◌, Bool-cases, ◌==◌, nat_eq, pair_eq, beq_refl, beq→eq, length, push_back,
  length-push_back, contains, IsDistinct, contains-push_back, IsDistinct-push_back, u32, Store,
  lookup, insert, has, lookup-insert, lookup_or-insert, ℕ, ◌+◌, ◌≡◌, refl, ◌∙◌, inl, inr, Bool,
  true, none, some, List, [], ◌∷◌, arith,
}
use stellar_soroban_contract.Host.{Address, Env}
use stellar_soroban_contract.Escrow.Types.{
  approval_eq, MultiSigConfig, Approval, State, sig_count_of,
}
use stellar_soroban_contract.Escrow.{Op, step, run}
use stellar_soroban_contract.Escrow.Effects.{
  SameSignatures, EscrowEffect, nothing, set_up, pause, create, deposit, pay, sign,
}
use stellar_soroban_contract.Escrow.Books.{IsBooked, HasRoom, EscrowEffect-IsBooked}
use stellar_soroban_contract.Escrow.Steps.{step-EscrowEffect}

-- The addresses whose signature of an approval is stored.
unfoldable pub signed_by : Approval → Store (Approval × Address) Bool → List Address
signed_by k [] = []
signed_by k ((key, _) ∷ m) = let rest = signed_by k m in if k == key.0 then key.1 ∷ rest else rest

-- Recording a signature that is not there adds the signer to that approval alone.
signed_by-insert :
    (j k : Approval) (a : Address) (m : Store (Approval × Address) Bool)
    → lookup (k, a) m ≡ none
    → signed_by j (insert (k, a) true m)
      ≡ (if j == k then push_back (signed_by j m) a else signed_by j m)
unfolding signed_by lookup insert
signed_by-insert j k a [] h = ground arith
signed_by-insert j k a ((key, v) ∷ m) h = elim (Bool-cases ((k, a) == key)) [
  | inl same ↦ absurd (ground arith)
  | inr other ↦
      let rest = signed_by-insert j k a m (ground arith) in rw (other, rest) (ground arith)
]

-- A signer of the list has a signature stored.
contains-signed_by :
    (k : Approval) (a : Address) (m : Store (Approval × Address) Bool)
    → contains (signed_by k m) a ≡ has (k, a) m
unfolding signed_by lookup
contains-signed_by k a [] = refl
contains-signed_by k a ((key, v) ∷ m) =
    ground (arith, contains-signed_by k a m, beq→eq key.1 a, beq→eq a key.1, beq_refl a)

-- What holds of the signatures between two transactions.
pub record IsSigned (s : State) : Type 0 where
  pub counted : (k : Approval) → sig_count_of k s ≡ u32 (length (signed_by k s.signature))
  pub distinct : (k : Approval) → IsDistinct (signed_by k s.signature)
  pub by_signers :
      (k : Approval) (a : Address)
      → contains (signed_by k s.signature) a ≡ true
      → (c : MultiSigConfig) × (lookup k.0 s.multi_sig ≡ some c) × (contains c.signers a ≡ true)

same-IsSigned :
    (s t : State)
    → IsSigned s
    → SameSignatures s t
    → ((k : ℕ) (c : MultiSigConfig) → lookup k s.multi_sig ≡ some c → lookup k t.multi_sig ≡ some c)
    → IsSigned t
same-IsSigned s t v (sigs, counts) grows = record {
  counted = λ k. rw (sigs, counts) (v.counted k);
  distinct = λ k. rw sigs (v.distinct k);
  by_signers = λ k a h.
      let (c, there, member) = v.by_signers k a (rw (← sigs) h) in (c, grows k.0 c there, member);
}

sign-IsSigned :
    (s t : State) (k : Approval) (a : Address) (c : MultiSigConfig)
    → IsSigned s
    → lookup k.0 s.multi_sig ≡ some c
    → contains c.signers a ≡ true
    → lookup (k, a) s.signature ≡ none
    → t.signature ≡ insert (k, a) true s.signature
    → t.sig_count ≡ insert k (u32 (sig_count_of k s + 1)) s.sig_count
    → t.multi_sig ≡ s.multi_sig
    → IsSigned t
sign-IsSigned s t k a c v config member new sigs counts same =
    let added = λ (j : Approval). signed_by-insert j k a s.signature new in
    record {
      counted = λ j. elim (Bool-cases (j == k)) [
        | inl this ↦
            let key : j ≡ k = beq→eq j k this in
            rw
              (
                sigs,
                counts,
                lookup_or-insert 0 j k (u32 (sig_count_of k s + 1)) s.sig_count,
                added j,
                this,
                length-push_back (signed_by j s.signature) a,
                key,
                v.counted k,
              )
              (omega arith)
        | inr other ↦
            rw
              (
                sigs,
                counts,
                lookup_or-insert 0 j k (u32 (sig_count_of k s + 1)) s.sig_count,
                added j,
                other,
              )
              (v.counted j)
      ];
      distinct = λ j. elim (Bool-cases (j == k)) [
        | inl this ↦
            let key : j ≡ k = beq→eq j k this in
            rw (sigs, added j, this, key)
              (IsDistinct-push_back (signed_by k s.signature) a
                (contains-signed_by k a s.signature ∙ rw (has, new) refl) (v.distinct k))
        | inr other ↦ rw (sigs, added j, other) (v.distinct j)
      ];
      by_signers = λ j b h. elim (Bool-cases (j == k)) [
        | inl this ↦
            let key : j ≡ k = beq→eq j k this in
            elim (Bool-cases (a == b)) [
              | inl me ↦ (c, rw (key, same) config, rw (← beq→eq a b me) member)
              | inr someone ↦
                  let old : contains (signed_by k s.signature) b ≡ true =
                    ground (arith, added j, contains-push_back (signed_by j s.signature) a b) in
                  let (d, there, m) = v.by_signers k b old in (d, rw (key, same) there, m)
            ]
        | inr other ↦
            let old : contains (signed_by j s.signature) b ≡ true = ground (arith, added j) in
            let (d, there, m) = v.by_signers j b old in (d, rw same there, m)
      ];
    }

EscrowEffect-IsSigned :
    {env : Env} (s t : State)
    → HasRoom 1 s
    → IsBooked s
    → EscrowEffect env s t
    → IsSigned s
    → IsSigned t
EscrowEffect-IsSigned s t room b (nothing e) v = rw e v
EscrowEffect-IsSigned s t room b (set_up fresh) v = absurd (ground (arith, b.ready))
EscrowEffect-IsSigned s t room b (pause a _ _ _ _ (_, config, _) sigs) v =
    same-IsSigned s t v sigs (λ k c h. rw config h)
EscrowEffect-IsSigned s t room b (create e c n id _ _ _ _ _ _ _ _ _ _ config _ _ sigs) v =
    same-IsSigned s t v sigs
      (λ k d h. ground (arith, lookup-insert k e.id c s.multi_sig, b.known k d h))
EscrowEffect-IsSigned s t room b (deposit k x e _ _ _ _ _ config _ _ _ sigs) v =
    same-IsSigned s t v sigs (λ k c h. rw config h)
EscrowEffect-IsSigned s t room b (pay k e c _ _ _ _ _ _ config _ _ _ sigs) v =
    same-IsSigned s t v sigs (λ k c h. rw config h)
EscrowEffect-IsSigned s t room b (sign k a c _ config member new sigs counts _ _ (_, same, _)) v =
    sign-IsSigned s t k a c v config member new sigs counts same

-- From the booked and signed escrows of an initialized contract, after any transactions, fewer than
-- the numbers that the counter has left, the count of every approval is the number of the
-- signatures stored for it in `u32` arithmetic, no two of them by one address, and each by an
-- address that its escrow's configuration names.
pub run-IsSigned :
    (ops : List (Env × Op)) (s : State)
    → HasRoom (length ops) s
    → IsBooked s
    → IsSigned s
    → IsSigned (run ops s)
unfolding run
run-IsSigned [] s room b v = v
run-IsSigned ((env, op) ∷ ops) s room b v =
    let next = step env op s in
    let effect = step-EscrowEffect env op s in
    let (b', counted) = EscrowEffect-IsBooked s next (omega arith) b effect in
    run-IsSigned ops next (omega arith) b' (EscrowEffect-IsSigned s next (omega arith) b effect v)
