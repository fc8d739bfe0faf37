-- ===== src/Bridge/Effects.antt =====
-- contracts/bridge/src/lib.rs: what one transaction may do to the requests and the operators.
use stellar_soroban_contract.Prelude.{
  nat_eq, length, push_back, contains, u64, lookup, insert, ℕ, ◌+◌, ◌≤◌, ◌<◌, ◌≡◌, ◌⊎◌, Bool, true,
  false, none, some, List, [], ◌∷◌,
}
use stellar_soroban_contract.Host.{Address, Env}
use stellar_soroban_contract.Bridge.Types.{
  pending, completed, BridgeConfig, MultisigBridgeRequest, BridgeTransaction, RecoveryAction, State,
  or_zero, history_of,
}
use stellar_soroban_contract.Bridge.Rules.{
  max_operators, has_expired, status_after, is_locked, trim, is_recoverable, recovered, keep_others,
}

abbrev pub operators_of : State → List Address
operators_of s = elim s.operators [ none ↦ [] | some l ↦ l ]

-- A request with one more signature.
abbrev pub signed : Bool → Address → MultisigBridgeRequest → MultisigBridgeRequest
signed approve operator r =
    let l = push_back r.signatures operator in
    record r { signatures = l; status = status_after approve (length l) r }

abbrev pub SameOperators : State → State → Type 0
SameOperators s t = (t.operators ≡ s.operators) × (t.admin ≡ s.admin)

-- What one transaction may do to the contract's own storage.
pub data BridgeEffect (env : Env) (s t : State) : Type 0 where
  nothing : t ≡ s → BridgeEffect env s t
  set_up :
      (a : Address)
      → s.admin ≡ none
      → t.admin ≡ some a
      → t.operators ≡ some (a ∷ [])
      → t.req_counter ≡ some 0
      → t.request ≡ s.request
      → t.history ≡ s.history
      → BridgeEffect env s t
  initiate :
      (r : MultisigBridgeRequest) (c : BridgeConfig)
      → env.authorised r.sender ≡ true
      → s.config ≡ some c
      → contains c.supported_chains r.destination_chain ≡ true
      → c.min_signatures_required ≤ r.required_signatures
      → r.required_signatures ≤ c.max_signatures_required
      → 0 < r.required_signatures
      → r.request_id ≡ u64 (or_zero s.req_counter + 1)
      → r.signatures ≡ []
      → r.status ≡ pending
      → t.request ≡ insert r.request_id r s.request
      → t.req_counter ≡ some r.request_id
      → t.history ≡ s.history
      → SameOperators s t
      → BridgeEffect env s t
  sign :
      (k : ℕ) (r : MultisigBridgeRequest) (o : Address) (approve : Bool)
      → env.authorised o ≡ true
      → contains (operators_of s) o ≡ true
      → lookup k s.request ≡ some r
      → has_expired env.sequence r.expires_at ≡ false
      → contains r.signatures o ≡ false
      → t.request ≡ insert k (signed approve o r) s.request
      → t.req_counter ≡ s.req_counter
      → t.history ≡ s.history
      → SameOperators s t
      → BridgeEffect env s t
  execute :
      (k : ℕ) (r : MultisigBridgeRequest) (o : Address) (x : BridgeTransaction)
      → env.authorised o ≡ true
      → contains (operators_of s) o ≡ true
      → lookup k s.request ≡ some r
      → is_locked r.status ≡ true
      → t.request ≡ insert k (record r { status = completed }) s.request
      → t.req_counter ≡ s.req_counter
      → t.history ≡ insert r.sender (push_back (trim (history_of r.sender s)) x) s.history
      → SameOperators s t
      → BridgeEffect env s t
  recover :
      (k : ℕ) (r : MultisigBridgeRequest) (a : Address) (y : RecoveryAction)
      → s.admin ≡ some a
      → env.authorised a ≡ true
      → lookup k s.request ≡ some r
      → is_recoverable r.status ≡ true
      → t.request ≡ insert k (recovered y r) s.request
      → t.req_counter ≡ s.req_counter
      → t.history ≡ s.history
      → SameOperators s t
      → BridgeEffect env s t
  manage :
      (a : Address)
      → s.admin ≡ some a
      → env.authorised a ≡ true
      → t.admin ≡ s.admin
      → ((t.operators ≡ s.operators)
          ⊎ ((o : Address) × (contains (operators_of s) o ≡ false)
              × (length (operators_of s) < max_operators)
              × (t.operators ≡ some (push_back (operators_of s) o))))
        ⊎ ((o : Address) × (t.operators ≡ some (keep_others o (operators_of s) [])))
      → t.request ≡ s.request
      → t.req_counter ≡ s.req_counter
      → t.history ≡ s.history
      → BridgeEffect env s t
