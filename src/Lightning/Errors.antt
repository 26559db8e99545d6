-- ===== src/Lightning/Errors.antt =====
-- ApiError of lightning_flask/src/core/security.py, and what else a handler can raise.
use rails.Prelude.{ℕ, String}
use rails.Prelude.Int.{ℤ}
use rails.Json.{Json}

pub record ApiError : Type 0 where
  pub message : String
  pub status_code : ℕ
  pub code : String

-- `replayed` is IdempotentReplay of lightning_flask/src/api/app.py, `crash` any exception that is not one of
-- the program's own.
pub data Failure : Type 0 where
  api : ApiError → Failure
  replayed : (payload : Json) (status_code : ℤ) → Failure
  crash : String → Failure

-- `ApiError(message, status_code, code)`
abbrev pub api_error : String → ℕ → String → Failure
api_error message status code =
    api (record { message = message; status_code = status; code = code })
