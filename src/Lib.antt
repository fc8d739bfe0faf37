-- ===== src/Lib.antt =====
-- Verification of the Soroban insurance contracts.
--
-- The program is a family of smart contracts under stellar-insured-contracts/contracts: the policy
-- contract issues policies, the claims contract takes claims on them and has the risk pool pay the
-- approved ones, the slashing contract records penalties, and the governance contract votes on
-- proposals whose actions call the other three. Two contracts stand alone: the escrow contract
-- books the price of a property until enough participants have signed, and the bridge moves a token
-- to another chain once enough operators have. Each contract keeps its own storage and calls
-- another one by address and function name. Four more contracts are written for ink!: the insurance
-- core contract has pools, policies, claims and roles in one storage, the fee contract prices
-- operations and shares the fees among validators, the contract of fractional ownership keeps the
-- shares of a property and their dividends, and the proxy holds the code of another contract.
--
-- How the files correspond to the code:
--   Host              what `soroban_sdk::Env` gives a call: authorisation, time, height, address;
--                     a call is a function from a storage to a result, a panic is an error value,
--                     and a call that fails leaves the storage of before.
--   Interop           `env.invoke_contract`: the other contracts are a parameter, a function from
--                     the name and the arguments of a call and their storage to a result.
--   Token             the token of `token::Client`, a parameter with the laws of SEP-41.
--   InsuranceTypes    contracts/lib/src/insurance_types.rs
--   Policy            contracts/policy/src/lib.rs
--   Claims            contracts/claims/src/lib.rs
--   RiskPool          contracts/risk_pool/src/lib.rs
--   Slashing          contracts/slashing/src/lib.rs
--   Governance        contracts/governance/src/lib.rs (the data in Governance.Types, the queries that
--                     go through all proposals in Governance.Views)
--   Escrow            contracts/escrow/src (types.rs, validation.rs and storage.rs in Escrow.Types,
--                     lib.rs in Escrow)
--   Bridge            contracts/bridge/src (types.rs, validation.rs and storage.rs in Bridge.Types,
--                     lib.rs in Bridge, its limits, tests and updates in Bridge.Rules); the hash
--                     is a parameter
--   Proxy             contracts/proxy/src/lib.rs; the host's answer to a code hash is a parameter
--   Ink               what an ink! contract is given: the caller, the time and the value sent; a
--                     message returns a value, an error or a trap, and only a value keeps its writes
--   Fractional        contracts/fractional/src/lib.rs (the data in Fractional.Types)
--   Fees              contracts/fees/src/lib.rs (the data in Fees.Types, the price of an operation
--                     and the reports in Fees.Pricing, the auctions in Fees.Market, the shares of
--                     the validators in Fees.Distribution)
--   Insurance         contracts/insurance/src: types.rs in Insurance.Types, rbac.rs in
--                     Insurance.Rbac, lib.rs and events.rs in Insurance.Storage, and of
--                     insurance_impl.rs the pools and their providers in Insurance.Pools, rewards
--                     in Insurance.Rewards, risk and premiums in Insurance.Underwriting, policies in
--                     Insurance.Policies, the sale of their tokens in Insurance.Market, claims in
--                     Insurance.Claims and Insurance.Payouts, their evidence in Insurance.Evidence,
--                     roles and settings in Insurance.Admin, queries in Insurance.Views; whether the
--                     chain accepts a transfer of native tokens is a parameter
--   System            the names that policy, claims and risk pool export, and the calls of others
-- In the file of a contract the record `State` has a field for each `DataKey` (an `Option` for a
-- single key, an association list for a family of keys; in an ink! contract the record has the name
-- of the storage struct, and a Mapping is an association list), each handler is a definition of its own
-- name, `Op` names the handlers that write, `step` is one transaction and `run` a list of them.
-- The files in the folder of the same name hold the proofs: what one transaction may do, as a
-- relation, and what follows for any list of transactions.
--
-- Numbers: u32 and u64 are natural numbers and i128 an integer, with the wrap-around written out,
-- since the release profile of Cargo.toml switches the overflow checks off. Theorems about a
-- counter assume that it has numbers left for the transactions considered. The u128 of the ink!
-- contracts is a natural number, and saturating and checked operations are cut off at its largest.
-- A loop over a vector is a recursion on the number of rounds left, so every handler returns without
-- any fuel.
--
-- Not modelled: the cost of a call and the time to live of storage entries; the encoding of values;
-- re-entry, which the host refuses. Events are a list in the storage of their contract.
-- Of the insurance core contract the two batches of decisions over claims are left out, whose loops
-- name a variable that is not declared; of move_to_dispute the two ends that the repository has are
-- modelled. Of the other contracts of the repository (analytics, oracle, property token, compliance,
-- metadata, valuation) nothing is modelled.
mod Sample
pub mod Prelude
pub mod Host
pub mod InsuranceTypes
pub mod Policy
pub mod Interop
pub mod Claims
pub mod Token
pub mod RiskPool
pub mod Slashing
pub mod Governance
pub mod Escrow
pub mod Bridge
pub mod System
pub mod Proxy
pub mod Ink
pub mod Fractional
pub mod Fees
pub mod Insurance
