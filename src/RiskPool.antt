-- ===== src/RiskPool.antt =====
-- contracts/risk_pool/src/lib.rs: liquidity deposits, withdrawals and payouts of the pool.
pub mod Effects
pub mod Accounting
pub mod Solvency
mod Tests
use stellar_soroban_contract.Prelude.{
  nat_eq, ℤ, pos, ◌+ℤ◌, ◌-ℤ◌, ltb_ℤ, i128, Store, total, insert, lookup_or, Option, none, some,
  List, [], ◌∷◌,
}
use stellar_soroban_contract.Host.{
  Address, Env, host_error, ok, err, Call, ◌>>=◌, ◌>>◌, return, panic_if, expect, unwrap,
  require_auth, kept, is_some,
}
use stellar_soroban_contract.Interop.{World, read, write}
use stellar_soroban_contract.Token.{Token}

-- What the handlers publish.
pub data Event : Type 0 where
  deposit_made : Address → ℤ → ℤ → Event
  withdrawal_made : Address → ℤ → ℤ → Event
  payout_made : Address → ℤ → ℤ → Event

-- The storage, a field for each `DataKey`, and the events published so far, the latest first.
pub record State : Type 0 where
  pub admin : Option Address
  pub token : Option Address
  pub min_stake : Option ℤ
  pub total_capital : Option ℤ
  pub available_capital : Option ℤ
  pub claims_paid : Option ℤ
  pub provider_stake : Store Address ℤ
  pub events : List Event

-- The storage of a contract that has just been deployed.
abbrev pub deployed : State
deployed = record {
  admin = none;
  token = none;
  min_stake = none;
  total_capital = none;
  available_capital = none;
  claims_paid = none;
  provider_stake = [];
  events = [];
}

-- The pool's own `PoolStats`.
pub record PoolStats : Type 0 where
  pub total_capital : ℤ
  pub available_capital : ℤ
  pub total_claims_paid : ℤ

-- `unwrap_or(0)`
abbrev pub or_zero : Option ℤ → ℤ
or_zero none = pos 0
or_zero (some z) = z

-- One transaction that calls a handler which writes.
pub data Op : Type 0 where
  initializes : Address → Address → ℤ → Op
  deposits : Address → ℤ → Op
  withdraws : Address → ℤ → Op
  pays : Address → ℤ → Op

module _ (tokens : Token) where
  -- The pool's storage beside the ledger of the token at `DataKey::Token`.
  abbrev pub Pool : Type 0
  Pool = World State tokens.Ledger

  get_admin : Call Pool Address
  get_admin = do unwrap (← read (λ s. s.admin))

  get_total_capital : Call Pool ℤ
  get_total_capital = read (λ s. or_zero s.total_capital)

  get_available_capital : Call Pool ℤ
  get_available_capital = read (λ s. or_zero s.available_capital)

  get_provider_stake : Address → Call Pool ℤ
  get_provider_stake provider = read (λ s. lookup_or (pos 0) provider s.provider_stake)

  set_provider_stake : Address → ℤ → Call Pool (Unit {0})
  set_provider_stake provider stake =
      write (λ s. record s { provider_stake = insert provider stake s.provider_stake })

  set_total_capital : ℤ → Call Pool (Unit {0})
  set_total_capital x = write (λ s. record s { total_capital = some x })

  set_available_capital : ℤ → Call Pool (Unit {0})
  set_available_capital x = write (λ s. record s { available_capital = some x })

  publish : Event → Call Pool (Unit {0})
  publish e = write (λ s. record s { events = e ∷ s.events })

  -- `token::Client::transfer`, which panics where the token does.
  pub transfer : Env → Address → Address → ℤ → Call Pool (Unit {0})
  transfer env from to amount w = elim (tokens.transfer env from to amount w.others) [
    | none ↦ err host_error
    | some l ↦ ok (tt, record { own = w.own; others = l })
  ]

  unfoldable pub initialize : Address → Address → ℤ → Call Pool (Unit {0})
  initialize admin token min_stake = do
    old ← read (λ s. s.admin)
    panic_if (is_some old) "Already initialized"
    write (λ s. record s {
      admin = some admin;
      token = some token;
      min_stake = some min_stake;
      total_capital = some (pos 0);
      available_capital = some (pos 0);
      claims_paid = some (pos 0);
    })

  unfoldable pub deposit_liquidity : Env → Address → ℤ → Call Pool (Unit {0})
  unfolding get_total_capital get_available_capital get_provider_stake set_provider_stake
      set_total_capital set_available_capital publish transfer
  deposit_liquidity env provider amount = do
    require_auth env provider
    stored ← read (λ s. s.min_stake)
    min_stake ← expect stored "Contract not initialized"
    panic_if (ltb_ℤ amount min_stake) "Amount below minimum stake"
    token ← read (λ s. s.token)
    expect token "Contract not initialized"
    transfer env provider env.current_contract amount
    current_stake ← get_provider_stake provider
    let new_stake = i128 (current_stake +ℤ amount)
    set_provider_stake provider new_stake
    total ← get_total_capital
    avail ← get_available_capital
    set_total_capital (i128 (total +ℤ amount))
    set_available_capital (i128 (avail +ℤ amount))
    publish (deposit_made provider amount new_stake)

  unfoldable pub withdraw_liquidity : Env → Address → ℤ → Call Pool (Unit {0})
  unfolding get_total_capital get_available_capital get_provider_stake set_provider_stake
      set_total_capital set_available_capital publish transfer
  withdraw_liquidity env provider amount = do
    require_auth env provider
    stake ← get_provider_stake provider
    panic_if (ltb_ℤ stake amount) "Insufficient stake"
    avail ← get_available_capital
    panic_if (ltb_ℤ avail amount) "Insufficient available capital in pool"
    token ← read (λ s. s.token)
    expect token "Contract not initialized"
    transfer env env.current_contract provider amount
    let new_stake = i128 (stake -ℤ amount)
    set_provider_stake provider new_stake
    total ← get_total_capital
    set_total_capital (i128 (total -ℤ amount))
    set_available_capital (i128 (avail -ℤ amount))
    publish (withdrawal_made provider amount new_stake)

  unfoldable pub payout_claim : Env → Address → ℤ → Call Pool (Unit {0})
  unfolding get_admin get_available_capital set_available_capital publish transfer
  payout_claim env recipient amount = do
    admin ← get_admin
    require_auth env admin
    avail ← get_available_capital
    panic_if (ltb_ℤ avail amount) "Insufficient pool funds for payout"
    token ← read (λ s. s.token)
    expect token "Contract not initialized"
    transfer env env.current_contract recipient amount
    let new_available = i128 (avail -ℤ amount)
    set_available_capital new_available
    paid ← read (λ s. or_zero s.claims_paid)
    write (λ s. record s { claims_paid = some (i128 (paid +ℤ amount)) })
    publish (payout_made recipient amount new_available)

  unfoldable pub get_pool_stats : Call Pool PoolStats
  unfolding get_total_capital get_available_capital
  get_pool_stats = do
    total ← get_total_capital
    available ← get_available_capital
    paid ← read (λ s. or_zero s.claims_paid)
    return
        (record { total_capital = total; available_capital = available; total_claims_paid = paid })

  unfoldable pub get_provider_info : Address → Call Pool ℤ
  unfolding get_provider_stake
  get_provider_info provider = get_provider_stake provider

  -- The storage and the token's ledger after one transaction: those of before if it fails.
  unfoldable pub step : Env → Op → Pool → Pool
  step env (initializes a t m) w = kept (initialize a t m) w
  step env (deposits p x) w = kept (deposit_liquidity env p x) w
  step env (withdraws p x) w = kept (withdraw_liquidity env p x) w
  step env (pays r x) w = kept (payout_claim env r x) w

  -- The same after a list of transactions, each in an environment of its own.
  unfoldable pub run : List (Env × Op) → Pool → Pool
  run [] w = w
  run ((env, op) ∷ ops) w = run ops (step env op w)
