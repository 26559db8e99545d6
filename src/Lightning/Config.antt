-- ===== src/Lightning/Config.antt =====
-- Settings of lightning_flask/src/core/config.py: the fields that the handlers read.
use rails.Prelude.{ℕ, String}

-- The limits are positive, and natural numbers at that: `validate` refuses others.
pub record Settings : Type 0 where
  pub network : String
  pub max_invoice_sats : ℕ
  pub max_payment_sats : ℕ
  pub max_fee_sats : ℕ
  pub max_fee_ppm : ℕ
  pub default_invoice_expiry_seconds : ℕ
