-- ===== src/Bitcoin.antt =====
-- The Bitcoin Core backend, bitcoin_core_backend/.
pub mod Errors
pub mod Rpc
pub mod RateLimit
pub mod Validation
pub mod Store
pub mod Post
pub mod Config
pub mod Service
