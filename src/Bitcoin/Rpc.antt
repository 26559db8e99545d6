-- ===== src/Bitcoin/Rpc.antt =====
-- bitcoin_core_backend/src/infra/rpc.py: the JSON-RPC client. What `requests` brings back of a POST is an
-- argument of the translation; the call itself is made by the service's host.
use Prim.Native.String.{◌++◌ as text_append}
use rails.Prelude.{ℕ, String, Option, none, some, ltb, leb, if◌then◌else◌}
use rails.Prelude.Int.{ℤ, pos}
use rails.Json.{Json, Items, null, int, str, arr, obj, end, field, get_or_null, is_truthy}
use rails.Text.{take, truthy}
use rails.Text.Digits.{nat_text}
use rails.Effect.{Result, ok, err}
use rails.Bitcoin.Errors.{Error, rpc, crash}

-- `requests.Timeout`, another `requests.RequestException`, or a response: its status and its body, which
-- is missing where `response.json()` raises.
pub data Response : Type 0 where
  timed_out unreachable : Response
  answered : (status : ℕ) (body : Option Json) → Response

-- The payload of a call.
abbrev pub payload : ℕ → String → Items → Json
payload id method params = obj (
    field "jsonrpc" (str "2.0")
      (field "id" (int (pos id)) (field "method" (str method) (field "params" (arr params) end))))

-- `_url`: the wallet that the URL names, which is the path behind the configured URL.
abbrev pub url_wallet : Option String → Option String
url_wallet none = none
url_wallet (some w) = if truthy w then some w else none

-- `error.get("code") if isinstance(error, dict) else None`. JSON-RPC's codes are whole numbers. A
-- code of another kind is kept as none; of these a float such as -18.0 is equal to -18 in Python, which this
-- leaves out, and the rest equal none of the codes that the program compares with.
abbrev pub code_of : Json → Option ℤ
code_of (obj e) = elim (get_or_null "code" e) [ int n ↦ some n | _ ↦ none ]
code_of _ = none

module _ (show : Json → String) where
  -- `str(value)`, where `show` is that of a document which is no text.
  abbrev pub text_of : Json → String
  text_of (str s) = s
  text_of j = show j

  -- `_safe_rpc_message`
  unfoldable pub safe_rpc_message : Json → ℕ → String
  safe_rpc_message (obj e) status =
      let message = get_or_null "message" e in
      take 500 (if is_truthy message then text_of message else "unknown error")
  safe_rpc_message _ status = text_append "HTTP " (nat_text status)

  abbrev pub refused : String → Json → ℕ → ℕ → Error
  refused method e status as_status = rpc (record {
    method = method;
    rpc_code = code_of e;
    message = safe_rpc_message e status;
    status_code = as_status;
  })

  -- `body.get("error") if isinstance(body, dict) else None`
  abbrev error_of : Json → Json
  error_of (obj body) = get_or_null "error" body
  error_of _ = null

  abbrev read_success : String → ℕ → Json → Result Error Json
  read_success method status (obj body) =
      if is_truthy (get_or_null "error" body)
      then err (refused method (get_or_null "error" body) status 502)
      else ok (get_or_null "result" body)
  read_success method status _ = err (crash "AttributeError: a response without `get`")

  abbrev rpc_failure : String → String → ℕ → Error
  rpc_failure method message status =
      rpc (record { method = method; rpc_code = none; message = message; status_code = status })

  -- What `call` returns or raises behind the POST.
  unfoldable pub read_response : String → Response → Result Error Json
  unfolding safe_rpc_message
  read_response method timed_out = err (rpc_failure method "request timed out" 504)
  read_response method unreachable = err (rpc_failure method "endpoint unreachable" 503)
  read_response method (answered status none) =
      err (rpc_failure method (text_append "non-JSON response with HTTP " (nat_text status)) 502)
  read_response method (answered status (some body)) =
      if leb 400 status
      then err (refused method (error_of body) status (if ltb status 500 then 502 else 503))
      else read_success method status body
