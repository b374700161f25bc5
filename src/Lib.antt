-- ===== src/Lib.antt =====
-- Verification of the TypeScript core of the protocol's client library.
--
-- The library packages/lib-base describes the state that a client sees: fixed-point numbers
-- (Decimal), Troves and the changes between them, stability deposits and LQTY stakes, the fees, and
-- the store that keeps all of it up to date and notifies its listeners. The front end validates
-- changes with `whatChanged` and `apply`, on values of the store; BlockPolledStore feeds the store
-- with what it fetches at every new block; the subgraph indexes the events of the contracts: Troves,
-- deposits, stakes and tokens, and the history of the system's totals.
--
-- Files and the code they model, in packages/lib-base/src:
--   Constants          constants.ts
--   Decimal            Decimal.ts: the arithmetic of `Decimal`; Decimal/Difference: `Difference`;
--                      Decimal/Text: `_fromString`, `toString`
--   Readers            ReadableLiquity.ts; Readers/Cached: _CachedReadableLiquity.ts
--   Fees               Fees.ts: `baseRate`, `borrowingRate`, `redemptionRate`
--   Trove              Trove.ts: `class Trove`
--   Trove/Change       Trove.ts: `TroveChange`, `whatChanged`; Trove/Change/Apply: `apply`
--   Trove/Params       Trove.ts: the parameters of transactions, `create`, `recreate`, `adjust`,
--                      `adjustTo`
--   Trove/User         Trove.ts: `UserTrove`, `TroveWithPendingRedistribution`
--   StabilityDeposit   StabilityDeposit.ts
--   LqtyStake          LQTYStake.ts
--   LiquityStore       LiquityStore.ts: State (the variables), Reduce (`_reduce`, `difference`),
--                      Derive (`_derive`, `_reduceDerived`), Store (`_load`, `_update`, the timer),
--                      Listeners (`subscribe`, `_notify`)
-- and in other packages:
--   Validation         dev-frontend/src/components/Trove/validation/validateTroveChange.tsx: the
--                      changes of a Trove that a user may make
--   Validation/Stability  dev-frontend/src/components/Stability/validation/
--                      validateStabilityDepositChange.tsx
--   Subgraph           subgraph/src: counters and statuses of Troves, of entities/Global.ts and Trove.ts;
--                      Subgraph/Entities: the schema; Subgraph/History and SystemState: SystemState.ts,
--                      Change.ts, Transaction.ts; Subgraph/Closings: User.ts, Liquidation.ts and
--                      Redemption.ts; Subgraph/Troves and Accrual: Trove.ts; Subgraph/Deposits:
--                      StabilityDeposit.ts, Frontend.ts, mappings/StabilityPool.ts; Subgraph/Stakes:
--                      LqtyStake.ts; Subgraph/Tokens: Token.ts, TokenBalance.ts, TokenAllowance.ts;
--                      Subgraph/Handlers: the other mappings
--   BlockPolledStore   lib-ethers/src/BlockPolledLiquityStore.ts: `_doStart`, `_reduceExtra`,
--                      with the store's own timer (BlockPolledStore/Stopped: after a stop);
--                      Readers/Fetch: `_get`
--   Readers/Ethers, Readers/Polled  lib-ethers/src/ReadableEthersLiquity.ts: the reads from the
--                      contracts, and those from the store
--   Batching           providers/src/BatchedProvider.ts: calls that go out together
--   Transactions       lib-ethers/src/PopulatableEthersLiquity.ts: trials, hints, optional parameters;
--                      Transactions/Receipts: `SentEthersLiquityTransaction`
--   Views              dev-frontend/src/components: Trove/context/TroveViewProvider.tsx and
--                      Stability/context/StabilityViewProvider.tsx
-- The other children of these modules hold proofs, and Examples runs and instances. Common passes
-- on the libraries' names and holds the type of results and the helpers on numbers.
--
-- A `Decimal` is the natural number that its constructor keeps: the value times 10 ^ 18. It is not
-- bounded, as `BigNumber` is not. A function that throws returns a `Result`; an argument with a
-- default is an `Option`, or is passed. An object that the store compares by identity is a `Ref`,
-- an identity with a value. The loop of `pow` is recursion on the accessibility of `<`, so no fuel
-- bounds it. The loop of `generateTrials` has as much fuel as it has trials to make, one at least
-- in each round, and the search for the number of trials as much as the square that it must reach.
-- A timer is the store's identifier of it with the timeouts of the environment, and what happens to
-- it is a step relation; so is what happens to the poller, to the batching provider and to the
-- subgraph's counters. The subgraph's store is a table for each type of entity, and a handler that
-- fails on a null value is an error; its decimals, of the package graph-ts, are a record of
-- operations, with laws of their comparison and, where a theorem needs them, of exact sums. The
-- contracts are a record of the functions that are called, and so are the conversions of big numbers
-- to and from text. A promise that is rejected is an error.
--
-- Not modelled: listeners that throw, the layout of numbers for display, logging, the population and the gas of
-- transactions, the calls of servers, the React components, and the Solidity contracts.
pub mod Common
pub mod Constants
pub mod Decimal
pub mod Fees
pub mod Trove
pub mod LqtyStake
pub mod StabilityDeposit
pub mod LiquityStore
pub mod Validation
pub mod Subgraph
pub mod BlockPolledStore
pub mod Readers
pub mod Batching
pub mod Transactions
pub mod Views
pub mod Examples
