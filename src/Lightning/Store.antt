-- ===== src/Lightning/Store.antt =====
-- lightning_flask/src/infra/cohesion.py.
pub mod Rows
pub mod Claim
pub mod Settle
pub mod Events
pub mod Calls
pub mod Owner
pub mod Machine
pub mod Keys
pub mod Once
pub mod Settled
pub mod Fencing
pub mod Lease
mod Tests
