-- ===== src/Lib.antt =====
-- A prediction market for the weather of one place, on a zero-knowledge chain: two contracts, the
-- server of their operator, and the file in which it keeps their maps.
--
-- The parts, and how they fit. A market is a leaf of a Merkle map, whose root is on the chain. The
-- fast contract (src/fast-contract.ts) creates a market, takes bets that are receipts of a hidden
-- stake, resolves the market by an oracle's statement, and pays the holders of winning receipts. The
-- platform contract (src/contract.ts) has, besides, open positions that carry their stake. The chain
-- keeps roots alone, so the operator's server keeps the leaves (src/state-store.ts), rebuilds them
-- from events, builds the arguments of the calls, and shows what a stake would be paid
-- (src/marketplace-server.ts).
--
--   Prelude       tests, options, lists, dictionaries, integers
--   O1js          what is used of the o1js package, as parameters (Interface, Text) with the laws
--                 that its documentation promises; Concrete and Unary meet them and run the tests
--   MarketTypes   src/market-types.ts, and the assertions that the two contracts share
--   Transaction   the events that the two contracts share, and the outcome of a call
--   Payout        the payout formula of the contracts, and that of the server
--   FastContract  src/fast-contract.ts: `create_market` is `createMarket`, and so on; Ledger is
--                 the abstract specification, Calls the sequences of calls, and Simulation relates
--                 the two
--   Contract      src/contract.ts, in the same way, with Book for its positions
--   StateStore    src/state-store.ts: `serialize_market_leaf` is `serializeMarketLeaf`, and so on
--   Replay        src/recover-state-from-events.ts, which src/sync-state-zeko.ts and the server copy:
--                 `apply_event` is `applyEvent`, and so on; Mirror compares the operator's
--                 state with the leaves behind the contract's roots, Recovery replays whole runs,
--                 and Sync is the decision of src/sync-state-zeko.ts to overwrite the state
--   Server        src/marketplace-server.ts: BetContext and ClaimContext build the calls of the
--                 contract; Finalize records what a wallet has sent, Receipts keeps the status of
--                 receipts, Reconcile follows the claims that are on their way, and Positions lists
--                 them; Authoritative rebuilds the state; Orders keeps agents and orders; Lease,
--                 Sessions and Bans guard the requests
--   TxRetry       src/tx-retry.ts
--   SequencerFee  src/sequencer-fee.ts
--   OracleWorker  src/oracle-worker.ts: the wait for the server, the dates that are due (Title), the
--                 chain actions of a cycle (Cycle) and what the worker sends back (Changes)
--   Samples       the data that the tests of both contracts share
--
-- The state of a contract is a record of its `@state` fields. A method is a function of its
-- arguments and that state into the new state, the events and the payments; a failed assertion is
-- `none`, and nothing happens. The assertions are in the order of the source, save that those which
-- several methods have word for word are gathered under one name.
--
-- Numbers. A `Field` is a natural number, without the modulus of the field: no field is added or
-- multiplied here. A `UInt64` is a natural number, and each operation on it has the range check that
-- o1js makes (`checked`, `sub_lem`, `div_lem`): a result out of range is a failed assertion. Both
-- branches of `Provable.if` are computed, with their checks.
--
-- Hashes. Poseidon is a parameter without collisions on inputs of one length, and no input has the
-- digest 0, which marks an absent leaf. Merkle maps are a parameter too: a witness that opens a
-- root tells the leaf, and gives the root after a write. This is the ideal of a hash that is hard
-- to break; the concrete instance shows that the laws can hold together.
--
-- Time and interleaving. A reading of the clock is an argument. Where a task sleeps and others run
-- between, what it finds when it wakes is an argument too, and statements are about any sequence of
-- the operations.
--
-- No fuel is used: every definition is by structural recursion. The loops of the server that wait are
-- over the list of their visits, those of the worker and of the retries on the attempts that are left.
--
-- Other packages. PublicKey.fromBase58, the hash of a salt, random draws, what fetchEvents and
-- fetchTransactionStatus answer, digests and base64, the commands that the worker runs, and the
-- conversions of JavaScript (Number.parseInt, rounding, JSON.stringify) are parameters. fetchEvents has
-- the law `IsFetch`: an event comes with the name under which it was emitted, and its values print as
-- `toString` does.
--
-- Not modelled: proving itself and the account's balance and permissions (a signature is an
-- argument), and so an update of the state by the contract's key alone; files, HTTP and HTML;
-- the attestation of the weather and the external verifier (external/zk-verify-poc); the contest in
-- src/weather-contest.ts, which computes in floating point; the scripts of the operator.
pub mod Prelude
pub mod O1js
pub mod MarketTypes
pub mod Transaction
pub mod Payout
pub mod Samples
pub mod FastContract
pub mod Contract
pub mod StateStore
pub mod TxRetry
pub mod SequencerFee
pub mod Server
pub mod Replay
pub mod OracleWorker
