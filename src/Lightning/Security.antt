-- ===== src/Lightning/Security.antt =====
-- lightning_flask/src/core/security.py: the validators of a request's fields.
pub mod Bolt11
pub mod Invoice
pub mod Auth
mod Tests
use Prim.Native.Char.{Char, code}
use Prim.Native.String.{[] as empty, ◌∷◌ as text_cons, ◌++◌ as text_append}
use rails.Prelude.{
  ℕ, String, nat_eq, Bool, true, false, not, ◌&&◌, ◌||◌, ◌==◌, Option, none, some, ltb, leb,
  if◌then◌else◌,
}
use rails.Prelude.Int.{ℤ, pos, negsuc, ltb_ℤ}
use rails.Json.{Json, Fields, null, bool, int, float, str, arr, obj, is_truthy}
use rails.Text.{length, every, strip, truthy, is_between, is_alphanumeric}
use rails.Text.Integer.{parse_int}
use rails.Effect.{Result, ok, err, and_then}
use rails.Lightning.Errors.{Failure, api_error}
use rails.Bitcoin.Validation.Text.{is_hex, lower_hex}
use rails.Lightning.Security.Invoice.{is_invoice}

unfoldable pub require_json_object : Json → Result Failure Fields
require_json_object (obj fields) = ok fields
require_json_object _ = err (api_error "JSON body must be an object" 400 "invalid_json")

-- `int(str(value))`; `str` of a document that is neither a number nor a text is no integer.
abbrev pub int_of_str : Json → Option ℤ
int_of_str (int n) = some n
int_of_str (float t) = parse_int t
int_of_str (str s) = parse_int s
int_of_str _ = none

abbrev not_sats : String → Failure
not_sats name =
    api_error (text_append name " must be an integer number of sats") 400 "invalid_amount"

-- The result is a natural number, since what is not positive is refused.
abbrev sats_within : String → ℕ → Option ℤ → Result Failure ℕ
sats_within name maximum none = err (not_sats name)
sats_within name maximum (some (negsuc n)) =
    err (api_error (text_append name " must be positive") 400 "invalid_amount")
sats_within name maximum (some (pos n)) =
    if leb n 0
    then err (api_error (text_append name " must be positive") 400 "invalid_amount")
    else if ltb maximum n
    then err (api_error (text_append name " exceeds configured limit") 400 "amount_too_large")
    else ok n

unfoldable pub parse_sats : Json → String → ℕ → Result Failure ℕ
unfolding parse_int
parse_sats (bool b) name maximum = err (not_sats name)
parse_sats value name maximum = sats_within name maximum (int_of_str value)

abbrev integer_within : String → ℕ → ℕ → Option ℤ → Result Failure ℕ
integer_within name minimum maximum none =
    err (api_error (text_append name " must be an integer") 400 "invalid_integer")
integer_within name minimum maximum (some (negsuc n)) =
    err (api_error (text_append name " is outside allowed range") 400 "invalid_integer")
integer_within name minimum maximum (some (pos n)) =
    if ltb n minimum || ltb maximum n
    then err (api_error (text_append name " is outside allowed range") 400 "invalid_integer")
    else ok n

-- The default is not looked at. The program's bounds are natural numbers.
unfoldable pub parse_optional_int : Json → String → ℕ → ℕ → ℕ → Result Failure ℕ
unfolding parse_int
parse_optional_int null name default minimum maximum = ok default
parse_optional_int (bool b) name default minimum maximum =
    err (api_error (text_append name " must be an integer") 400 "invalid_integer")
parse_optional_int value name default minimum maximum =
    integer_within name minimum maximum (int_of_str value)

-- `[A-Za-z0-9_.:/@+-]`
abbrev is_key_char : Char → Bool
is_key_char c =
    is_alphanumeric c
    || (code c == 95
        || (code c == 46
            || (code c == 58
                || (code c == 47 || (code c == 64 || (code c == 43 || code c == 45))))))

abbrev key_matches : ℕ → String → Bool
key_matches least empty = false
key_matches least (text_cons c s) =
    is_alphanumeric c && (every is_key_char s && (leb least (length s) && leb (length s) 127))

-- The value of a header; `value in {None, ""}` is the missing one.
unfoldable pub validate_idempotency_key : String → Result Failure (Option String)
unfolding strip
validate_idempotency_key value =
    if not (truthy value)
    then ok none
    else if key_matches 7 (strip value)
    then ok (some (strip value))
    else err (
        api_error "Idempotency-Key must be at least 8 safe printable characters" 400
          "invalid_idempotency_key")

unfoldable pub validate_idempotency_key_payment : String → Result Failure (Option String)
unfolding strip
validate_idempotency_key_payment value =
    if not (truthy value)
    then ok none
    else if key_matches 15 (strip value)
    then ok (some (strip value))
    else err (
        api_error "Idempotency-Key must be 16-128 safe printable characters for payment operations"
          400 "invalid_idempotency_key")

module _ (show : Json → String) where
  -- `str(value or "")`, where `show` is `str` of a document that is no text.
  abbrev pub text_or_empty : Json → String
  text_or_empty (str s) = s
  text_or_empty j = if is_truthy j then show j else ""

  unfoldable pub validate_memo : Json → Result Failure String
  validate_memo value =
      let memo = text_or_empty value in
      if ltb 256 (length memo)
      then err (api_error "memo is too long" 400 "invalid_memo")
      else ok memo

  unfoldable pub validate_payment_hash : Json → Result Failure String
  unfolding strip
  validate_payment_hash value =
      let payment_hash = strip (text_or_empty value) in
      if every is_hex payment_hash && length payment_hash == 64
      then ok (lower_hex payment_hash)
      else err (api_error "payment_hash must be 32 bytes encoded as hex" 400 "invalid_payment_hash")

  unfoldable pub validate_bolt11 : Json → Result Failure String
  unfolding strip is_invoice
  validate_bolt11 value =
      let invoice = strip (text_or_empty value) in
      if is_invoice invoice
      then ok invoice
      else err
          (api_error "payment_request must be a BOLT11 Lightning invoice" 400 "invalid_invoice")
