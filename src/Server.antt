-- ===== src/Server.antt =====
-- src/marketplace-server.ts: the parts of the operator's server that keep a state of their own. A
-- reading of the clock is an argument, and so is what a request brings.
pub mod Lease
pub mod Sessions
pub mod Bans
pub mod Receipts
pub mod Reconcile
pub mod Authoritative
pub mod BetContext
pub mod ClaimContext
pub mod Finalize
pub mod Orders
pub mod Positions
