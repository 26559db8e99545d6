-- ===== src/Bitcoin/Config.antt =====
-- bitcoin_core_backend/src/core/config.py: the settings.
use rails.Prelude.{ℕ, String, Bool, List}

-- AppConfig, less what only goes to `requests` and to Flask: the timeouts, the pool and the body's size.
pub record AppConfig : Type 0 where
  pub rpc_url : String
  pub rpc_user : String
  pub rpc_password : String
  pub default_wallet : String
  pub chain : String
  pub api_keys : List String
  pub read_api_keys : List String
  pub write_api_keys : List String
  pub admin_token : String
  pub auth_disabled : Bool
  pub allow_wallet_create : Bool
  pub allow_broadcast : Bool
  pub max_outputs_per_tx : ℕ
  pub max_send_sats : ℕ
  pub default_min_confirmations : ℕ
  pub idempotency_ttl_seconds : ℕ
  pub state_db_path : String
  pub rate_limit_per_minute : ℕ
  pub rate_limit_backend : String
  pub redis_url : String
  pub production : Bool
  pub tls_enabled : Bool
  pub allow_insecure_rpc : Bool
  pub instance_count : ℕ
