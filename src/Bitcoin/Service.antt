-- ===== src/Bitcoin/Service.antt =====
-- bitcoin_core_backend/src/services/bitcoin_service.py: BitcoinBackendService.
pub mod World
pub mod Funding
pub mod Wallets
pub mod Status
pub mod Unlock
pub mod Submit
pub mod Broadcast
pub mod Sent
pub mod Saving
pub mod Preparing
pub mod Submitting
pub mod Persisted
pub mod Only
pub mod Opening
pub mod Resending
mod Tests
