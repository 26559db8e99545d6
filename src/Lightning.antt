-- ===== src/Lightning.antt =====
-- lightning_flask: the Lightning backend.
pub mod Errors
pub mod Security
pub mod RateLimit
pub mod Strip
pub mod Store
pub mod Config
pub mod Host
pub mod Api
pub mod Lnd
pub mod Payments
pub mod Invoices
