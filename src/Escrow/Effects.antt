-- ===== src/Escrow/Effects.antt =====
-- contracts/escrow/src/lib.rs: what one transaction may do to the escrows.
use stellar_soroban_contract.Prelude.{
  if◌then◌else◌, nat_eq, pair_eq, length, contains, ℤ, pos, ◌+ℤ◌, ◌≤ℤ◌, ◌<ℤ◌, leb_ℤ, u32, u64,
  lookup, insert, ℕ, ◌+◌, ◌≤◌, ◌<◌, ◌≡◌, true, false, none, some,
}
use stellar_soroban_contract.Host.{Address, Env}
use stellar_soroban_contract.Escrow.Types.{
  created, funded, active, released, release, approval_eq, EscrowData, MultiSigConfig, Approval,
  State, count_of, sig_count_of, nonce_of,
}
use stellar_soroban_contract.Escrow.{max_participants, takes_deposits, still_locked}

-- The parts of the storage that a transaction leaves alone.
abbrev pub SameEscrows : State → State → Type 0
SameEscrows s t =
    (t.escrows ≡ s.escrows) × (t.multi_sig ≡ s.multi_sig) × (t.escrow_count ≡ s.escrow_count)

abbrev pub SameSignatures : State → State → Type 0
SameSignatures s t = (t.signature ≡ s.signature) × (t.sig_count ≡ s.sig_count)

-- An escrow with a deposit more.
abbrev pub deposited : ℤ → EscrowData → EscrowData
deposited x e =
    let paid = e.deposited_amount +ℤ x in
    record e { deposited_amount = paid; status = if leb_ℤ e.amount paid then active else funded }

-- What one transaction may do to the storage.
pub data EscrowEffect (env : Env) (s t : State) : Type 0 where
  nothing : t ≡ s → EscrowEffect env s t
  set_up : s.admin ≡ none → EscrowEffect env s t
  pause :
      (a : Address)
      → s.admin ≡ some a
      → env.authorised a ≡ true
      → t.admin ≡ s.admin
      → t.nonce ≡ s.nonce
      → SameEscrows s t
      → SameSignatures s t
      → EscrowEffect env s t
  create :
      (e : EscrowData) (c : MultiSigConfig) (n : ℕ)
      → e.id ≡ u64 (count_of s + 1)
      → pos 0 <ℤ e.amount
      → e.deposited_amount ≡ pos 0
      → e.status ≡ created
      → c.signers ≡ e.participants
      → 0 < c.required_signatures
      → c.required_signatures ≤ length c.signers
      → length c.signers ≤ max_participants
      → n ≡ u64 (nonce_of e.buyer s + 1)
      → t.nonce ≡ insert e.buyer n s.nonce
      → t.escrows ≡ insert e.id e s.escrows
      → t.multi_sig ≡ insert e.id c s.multi_sig
      → t.escrow_count ≡ some e.id
      → t.admin ≡ s.admin
      → SameSignatures s t
      → EscrowEffect env s t
  deposit :
      (k : ℕ) (x : ℤ) (e : EscrowData)
      → lookup k s.escrows ≡ some e
      → takes_deposits e.status ≡ true
      → pos 0 <ℤ x
      → (e.deposited_amount +ℤ x) ≤ℤ e.amount
      → t.escrows ≡ insert k (deposited x e) s.escrows
      → t.multi_sig ≡ s.multi_sig
      → t.escrow_count ≡ s.escrow_count
      → t.admin ≡ s.admin
      → t.nonce ≡ s.nonce
      → SameSignatures s t
      → EscrowEffect env s t
  pay :
      (k : ℕ) (e : EscrowData) (c : MultiSigConfig)
      → lookup k s.escrows ≡ some e
      → e.status ≡ active
      → still_locked env.timestamp e.release_time_lock ≡ false
      → lookup k s.multi_sig ≡ some c
      → c.required_signatures ≤ sig_count_of (k, release) s
      → t.escrows ≡ insert k (record e { status = released; deposited_amount = pos 0 }) s.escrows
      → t.multi_sig ≡ s.multi_sig
      → t.escrow_count ≡ s.escrow_count
      → t.admin ≡ s.admin
      → t.nonce ≡ s.nonce
      → SameSignatures s t
      → EscrowEffect env s t
  sign :
      (k : Approval) (a : Address) (c : MultiSigConfig)
      → env.authorised a ≡ true
      → lookup k.0 s.multi_sig ≡ some c
      → contains c.signers a ≡ true
      → lookup (k, a) s.signature ≡ none
      → t.signature ≡ insert (k, a) true s.signature
      → t.sig_count ≡ insert k (u32 (sig_count_of k s + 1)) s.sig_count
      → t.admin ≡ s.admin
      → t.nonce ≡ s.nonce
      → SameEscrows s t
      → EscrowEffect env s t
