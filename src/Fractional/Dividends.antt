-- ===== src/Fractional/Dividends.antt =====
-- contracts/fractional/src/lib.rs: who can move shares, and what a dividend pays.
use stellar_soroban_contract.Prelude.{
  ltb, leb, if◌then◌else◌, Option-cases, nat_beq_sound, nat_beq_self, ◌==◌, nat_eq, pair_eq,
  max_u128, lookup, insert, lookup-insert, ℕ, ◌+◌, ◌-◌, ◌≡◌, inl, inr, Bool, true, false, ◌&&◌,
  some, arith,
}
use stellar_soroban_contract.Ink.{AccountId, Env, ok, err, unwrap_or, kept, is_ok}
use stellar_soroban_contract.Fractional.{
  balance_of, require_minter, mint, transfer, per_share_of, distribute_dividends, claimable,
  claim_dividends, set_kyc, set_authorized_minter,
}
use stellar_soroban_contract.Fractional.Types.{unauthorized, Fractional}

-- What a transfer within the rules needs.
abbrev pub may_move : Env → ℕ → AccountId → ℕ → Fractional → Bool
may_move env t to x s =
    unwrap_or false (lookup env.caller s.kyc_passed)
    && unwrap_or false (lookup to s.kyc_passed)
    && ltb 0 x
    && leb x (balance_of t env.caller s)
    && leb (balance_of t to s + x) max_u128

-- For any message, a transfer succeeds exactly when both accounts have passed KYC, the amount is
-- positive and covered by the caller's balance, and the recipient's balance stays a u128. It then
-- takes the amount from the caller and gives it to the recipient, and touches no other balance and
-- no supply; but when the recipient is the caller, only the gift is kept, and the caller's shares
-- grow by the amount.
pub transfer_decides :
    (env : Env) (t : ℕ) (to : AccountId) (x : ℕ) (s : Fractional)
    → (is_ok (transfer env t to x s) ≡ may_move env t to x s)
      × ((u : ℕ) (a : AccountId)
          → balance_of u a (kept (transfer env t to x) s) ≡ (
              if may_move env t to x s && (u == t)
              then (if a == to
                  then balance_of t to s + x
                  else (if a == env.caller
                      then balance_of t env.caller s - x
                      else balance_of u a s))
              else balance_of u a s))
      × ((kept (transfer env t to x) s).total_supply ≡ s.total_supply)
unfolding transfer balance_of
transfer_decides env t to x s = (
  ground arith,
  λ u a.
      let paid = insert (t, env.caller) (balance_of t env.caller s - x) s.balances in
      ground (
        arith,
        lookup-insert (u, a) (t, env.caller) (balance_of t env.caller s - x) s.balances,
        lookup-insert (u, a) (t, to) (balance_of t to s + x) paid,
        nat_beq_sound u t,
        nat_beq_sound a env.caller,
        nat_beq_sound a to,
      ),
  ground arith,
)

-- A claim pays the balance times what a share has earned since the account's last claim, cut off at
-- the largest u128; after it the same account can claim nothing, every other account can claim what
-- it could before, and nobody's balance has changed.
pub claim_dividends_settles :
    (env : Env) (t : ℕ) (s : Fractional)
    → let after = kept (claim_dividends env t) s in
      (claim_dividends env t s ≡ ok (claimable t env.caller s, after))
      × (claimable t env.caller after ≡ 0)
      × ((u : ℕ) (a : AccountId)
          → ((u == t) && (a == env.caller)) ≡ false
          → claimable u a after ≡ claimable u a s)
      × (after.balances ≡ s.balances)
unfolding claim_dividends claimable balance_of
claim_dividends_settles env t s =
    let marked = λ (k : ℕ × AccountId).
      lookup-insert k (t, env.caller) (per_share_of t s) s.last_claimed_dividend_per_share in
    (
      ground arith,
      ground (arith, marked (t, env.caller), nat_beq_self t, nat_beq_self env.caller),
      λ u a other. ground (arith, marked (u, a)),
      ground arith,
    )

-- Only the minter of a token can have shares of it minted or dividends distributed, and only the
-- admin appoints minters: a mint, a distribution or an appointment by any other caller is refused
-- as unauthorized.
pub others_refused :
    (env : Env) (t : ℕ) (a : AccountId) (x : ℕ) (s : Fractional)
    → ((m : AccountId) → lookup t s.authorized_minters ≡ some m → (env.caller == m) ≡ false)
    → (env.caller == s.admin) ≡ false
    → (mint env t a x s ≡ err unauthorized)
      × (distribute_dividends env t x s ≡ err unauthorized)
      × (set_authorized_minter env t a s ≡ err unauthorized)
      × (set_kyc env a true s ≡ err unauthorized)
unfolding mint distribute_dividends set_authorized_minter set_kyc require_minter
others_refused env t a x s minters admin = elim (Option-cases (lookup t s.authorized_minters)) [
  | inl none_set ↦ (ground arith, ground arith, ground arith, ground arith)
  | inr (m, set) ↦
      let other = minters m set in (ground arith, ground arith, ground arith, ground arith)
]
