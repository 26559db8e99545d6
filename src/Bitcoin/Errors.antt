-- ===== src/Bitcoin/Errors.antt =====
-- bitcoin_core_backend/src/core/errors.py: the two exceptions and the translation between them.
use Prim.Native.String.{◌++◌ as text_append}
use rails.Prelude.{ℕ, ◌+◌, String, Bool, false, ◌||◌, Option, none, some, if◌then◌else◌, nat_beq}
use rails.Prelude.Int.{ℤ, pos, negsuc}
use rails.Json.{Json, Fields, null, int, str, end, field}

pub record ApiError : Type 0 where
  pub status_code : ℕ
  pub code : String
  pub message : String
  pub details : Fields

pub record RpcError : Type 0 where
  pub method : String
  pub rpc_code : Option ℤ
  pub message : String
  pub status_code : ℕ

-- What a call can raise; `crash` is any exception that is not one of the program's own.
pub data Error : Type 0 where
  api : ApiError → Error
  rpc : RpcError → Error
  crash : String → Error

-- `ApiError(status_code, code, message)`
abbrev pub api_error : ℕ → String → String → Error
api_error status code message =
    api (record { status_code = status; code = code; message = message; details = end })

-- `rpc_code in {-n, …}`: the code -(n + 1) is `negsuc n`.
abbrev pub is_code : ℕ → Option ℤ → Bool
is_code n none = false
is_code n (some (pos m)) = false
is_code n (some (negsuc m)) = nat_beq (m + 1) n

-- `RpcError.__str__`
unfoldable pub rpc_text : RpcError → String
rpc_text e =
    text_append "Bitcoin Core RPC " (text_append e.method (text_append " failed: " e.message))

abbrev code_json : Option ℤ → Json
code_json none = null
code_json (some z) = int z

abbrev classify : RpcError → ℕ × String
classify e =
    if is_code 18 e.rpc_code || is_code 19 e.rpc_code
    then (404, "BITCOIN_WALLET_NOT_FOUND")
    else if is_code 4 e.rpc_code || is_code 6 e.rpc_code
    then (409, "BITCOIN_WALLET_INSUFFICIENT_FUNDS")
    else if is_code 5 e.rpc_code || (is_code 8 e.rpc_code || is_code 22 e.rpc_code)
    then (400, "BITCOIN_RPC_REJECTED_REQUEST")
    else if is_code 28 e.rpc_code || is_code 9 e.rpc_code
    then (503, "BITCOIN_CORE_NOT_READY")
    else (e.status_code, "BITCOIN_RPC_ERROR")

unfoldable pub rpc_error_to_api_error : RpcError → ApiError
unfolding rpc_text
rpc_error_to_api_error e = record {
  status_code = (classify e).0;
  code = (classify e).1;
  message = rpc_text e;
  details = field "rpcCode" (code_json e.rpc_code) (field "method" (str e.method) end);
}
