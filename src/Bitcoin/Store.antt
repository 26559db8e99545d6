-- ===== src/Bitcoin/Store.antt =====
-- bitcoin_core_backend/src/infra/store.py.
pub mod Rows
pub mod Claim
pub mod Prepared
pub mod Settle
pub mod Transactions
pub mod Calls
pub mod Owner
pub mod Claiming
pub mod Saving
pub mod Keys
pub mod Machine
pub mod History
pub mod Replay
pub mod Fencing
pub mod Forward
pub mod Lease
pub mod Ledger
pub mod Immutable
pub mod Durable
pub mod Invariant
pub mod Expired
pub mod Recent
mod Tests
