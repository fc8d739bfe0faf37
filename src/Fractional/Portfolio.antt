-- ===== src/Fractional/Portfolio.antt =====
-- contracts/fractional/src/lib.rs: the sums of a portfolio and of a tax report.
use stellar_soroban_contract.Prelude.{
  nat_eq, push_back, sat_u128, lookup, ℕ, zero, suc, ◌+◌, ◌*◌, ◌≡◌, sym, ap, ◌∙◌, none, some, List,
  [], ◌∷◌, ◌++◌, append_assoc, append-nil, arith,
}
use stellar_soroban_contract.Fractional.{
  price_of, aggregate_loop, aggregate_portfolio, add_up, summarize_tax,
}
use stellar_soroban_contract.Fractional.Types.{PortfolioItem, Fractional}

zero-add : (n : ℕ) → 0 + n ≡ n
zero-add n = omega arith

-- The price that applies to an item: its own, or the last one stored when it gives none.
abbrev pub applied_price : Fractional → PortfolioItem → ℕ
applied_price s item = elim item.price_per_share [
  | zero ↦ elim (lookup item.token_id s.last_prices) [ none ↦ 0 | some price ↦ price ]
  | suc n ↦ suc n
]

price_of_lem : (s : Fractional) (item : PortfolioItem) → price_of s item ≡ applied_price s item
price_of_lem s item = ground arith

-- The exact value of a portfolio at the prices that apply, with no bound.
abbrev pub exact_value : Fractional → List PortfolioItem → ℕ
exact_value s [] = 0
exact_value s (item ∷ items) = applied_price s item * item.shares + exact_value s items

abbrev pub exact_sum : List (ℕ × ℕ) → ℕ
exact_sum [] = 0
exact_sum ((_, amount) ∷ rest) = amount + exact_sum rest

-- The entry that an item adds to the positions.
abbrev pub positions_of : Fractional → List PortfolioItem → List (ℕ × ℕ × ℕ)
positions_of s [] = []
positions_of s (item ∷ items) =
    (item.token_id, item.shares, applied_price s item) ∷ positions_of s items

aggregate_loop_value :
    (s : Fractional) (items : List PortfolioItem) (acc sum : ℕ) (l : List (ℕ × ℕ × ℕ))
    → acc ≡ sat_u128 sum
    → (aggregate_loop s items acc l).total_value ≡ sat_u128 (sum + exact_value s items)
unfolding aggregate_loop
aggregate_loop_value s [] acc sum l h = ground arith
aggregate_loop_value s (item ∷ items) acc sum l h =
    let price = price_of s item in
    let value = price * item.shares in
    let bound : sum + value + exact_value s items ≡ sum + exact_value s (item ∷ items) =
      rw (price_of_lem s item) (omega arith) in
    aggregate_loop_value s items (sat_u128 (acc + sat_u128 value)) (sum + value)
      (push_back l (item.token_id, item.shares, price)) (sat_sum acc sum value h)
    ∙ ap sat_u128 bound
  where
    sat_sum : (a b v : ℕ) → a ≡ sat_u128 b → sat_u128 (a + sat_u128 v) ≡ sat_u128 (b + v)
    sat_sum a b v h = ground arith

aggregate_loop_positions :
    (s : Fractional) (items : List PortfolioItem) (sum : ℕ) (l : List (ℕ × ℕ × ℕ))
    → (aggregate_loop s items sum l).positions ≡ l ++ positions_of s items
unfolding aggregate_loop
aggregate_loop_positions s [] sum l = sym (append-nil l)
aggregate_loop_positions s (item ∷ items) sum l =
    let entry : ℕ × ℕ × ℕ = (item.token_id, item.shares, price_of s item) in
    aggregate_loop_positions s items (sat_u128 (sum + sat_u128 (price_of s item * item.shares)))
      (push_back l entry)
    ∙ append_assoc l (entry ∷ []) (positions_of s items)
    ∙ ap (λ (price : ℕ). l ++ ((item.token_id, item.shares, price) ∷ positions_of s items))
        (price_of_lem s item)

-- For any items, the value of a portfolio is the sum of shares times price, exact while it is a
-- u128 and the largest u128 otherwise; a position is listed for each item, in order, at the price
-- that the item gives or, when it gives none, at the last price stored.
pub aggregate_portfolio-exact :
    (items : List PortfolioItem) (s : Fractional)
    → ((aggregate_portfolio items s).total_value ≡ sat_u128 (exact_value s items))
      × ((aggregate_portfolio items s).positions ≡ positions_of s items)
unfolding aggregate_portfolio
aggregate_portfolio-exact items s = (
  aggregate_loop_value s items 0 0 [] (omega arith) ∙ ap sat_u128 (zero-add (exact_value s items)),
  aggregate_loop_positions s items 0 [],
)

add_up-exact :
    (l : List (ℕ × ℕ)) (acc sum : ℕ)
    → acc ≡ sat_u128 sum
    → add_up l acc ≡ sat_u128 (sum + exact_sum l)
unfolding add_up
add_up-exact [] acc sum h = ground arith
add_up-exact ((i, amount) ∷ l) acc sum h =
    let bound : sum + amount + exact_sum l ≡ sum + exact_sum ((i, amount) ∷ l) = omega arith in
    add_up-exact l (sat_u128 (acc + amount)) (sum + amount) (ground arith) ∙ ap sat_u128 bound

-- The totals of a tax report are the sums of the amounts, exact while they are u128s.
pub summarize_tax-exact :
    (dividends proceeds : List (ℕ × ℕ))
    → ((summarize_tax dividends proceeds).total_dividends ≡ sat_u128 (exact_sum dividends))
      × ((summarize_tax dividends proceeds).total_proceeds ≡ sat_u128 (exact_sum proceeds))
unfolding summarize_tax
summarize_tax-exact dividends proceeds = (
  add_up-exact dividends 0 0 (omega arith) ∙ ap sat_u128 (zero-add (exact_sum dividends)),
  add_up-exact proceeds 0 0 (omega arith) ∙ ap sat_u128 (zero-add (exact_sum proceeds)),
)
