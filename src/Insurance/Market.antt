-- ===== src/Insurance/Market.antt =====
-- contracts/insurance/src/insurance_impl.rs: the sale of the tokens that stand for policies.
use stellar_soroban_contract.Prelude.{
  ltb, if◌then◌else◌, ◌==◌, nat_eq, pair_eq, push_back, contains, Store, lookup, insert, ℕ, not,
  ◌||◌, none, some, List, [], ◌∷◌,
}
use stellar_soroban_contract.Ink.{
  AccountId, Env, ◌>>=◌, ◌>>◌, gets, modify, fail_if, ok_or, unwrap_or,
}
use stellar_soroban_contract.Insurance.Types.{
  unauthorized, policy_inactive, insufficient_premium, invalid_parameters, token_not_found,
}
use stellar_soroban_contract.Insurance.Storage.{
  insurance_token_transferred, Msg, emit_event, set_policy, find_policy, is_in_force,
}

-- `retain(|&p| p != id)`
unfoldable pub without : ℕ → List ℕ → List ℕ
without id [] = []
without id (a ∷ l) = let rest = without id l in if a == id then rest else a ∷ rest

unfoldable pub list_token_for_sale : Env → ℕ → ℕ → Msg (Unit {0})
list_token_for_sale env token_id price = do
  fail_if (token_id == 0 || price == 0) invalid_parameters
  stored ← gets (λ s. lookup token_id s.insurance_tokens)
  token ← ok_or stored token_not_found
  fail_if (not (token.owner == env.caller)) unauthorized
  fail_if (not token.is_tradeable) invalid_parameters
  modify (λ s. record s {
    insurance_tokens =
        insert token_id (record token { listed_price = some price }) s.insurance_tokens;
    token_listings =
        if contains s.token_listings token_id
        then s.token_listings
        else push_back s.token_listings token_id;
  })

-- The lists of the policies of the seller and, after that, of the buyer.
abbrev pub hand_over :
    AccountId → AccountId → ℕ → Store AccountId (List ℕ) → Store AccountId (List ℕ)
hand_over seller buyer policy_id m =
    let sold = insert seller (without policy_id (unwrap_or [] (lookup seller m))) m in
    insert buyer (push_back (unwrap_or [] (lookup buyer sold)) policy_id) sold

unfoldable pub purchase_token : Env → ℕ → Msg (Unit {0})
unfolding without
purchase_token env token_id = do
  stored ← gets (λ s. lookup token_id s.insurance_tokens)
  token ← ok_or stored token_not_found
  price ← ok_or token.listed_price invalid_parameters
  fail_if (ltb env.transferred_value price) insufficient_premium
  policy ← find_policy token.policy_id
  fail_if (not (is_in_force policy.status)) policy_inactive
  set_policy token.policy_id (record policy { policyholder = env.caller })
  modify (λ s. record s {
    policyholder_policies =
        hand_over token.owner env.caller token.policy_id s.policyholder_policies;
    insurance_tokens =
        insert token_id (record token { owner = env.caller; listed_price = none })
          s.insurance_tokens;
    token_listings = without token_id s.token_listings;
  })
  emit_event (insurance_token_transferred token_id token.owner env.caller env.transferred_value)
