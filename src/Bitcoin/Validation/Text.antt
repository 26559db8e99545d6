-- ===== src/Bitcoin/Validation/Text.antt =====
-- bitcoin_core_backend/src/core/validation.py: the validators of texts. A pattern is a test of the first
-- character, one of the others and bounds on the length. `.lower()` is called on texts of hex
-- digits only, and modelled on those.
use Prim.Native.Char.{Char, char, code}
use Prim.Native.String.{[] as empty, ◌∷◌ as text_cons}
use rails.Prelude.{
  ℕ, ◌/◌, ◌%◌, String, string_eq, nat_eq, Bool, true, false, not, ◌&&◌, ◌||◌, ◌==◌, Option, none,
  some, ltb, leb, if◌then◌else◌,
}
use rails.Json.{Json, null, str}
use rails.Text.{length, every, is_between, is_alphanumeric, truthy}
use rails.Effect.{Result, ok, err}
use rails.Bitcoin.Errors.{Error, api_error}

abbrev pub is_code : ℕ → Char → Bool
is_code n c = code c == n

-- `^[A-Za-z0-9]` and then between `low` and `high` characters of a class.
abbrev pub matches : (Char → Bool) → ℕ → ℕ → String → Bool
matches p low high empty = false
matches p low high (text_cons c s) =
    is_alphanumeric c && (every p s && (leb low (length s) && leb (length s) high))

-- `[A-Za-z0-9_.-]`
abbrev pub is_wallet_char : Char → Bool
is_wallet_char c = is_alphanumeric c || (is_code 95 c || (is_code 46 c || is_code 45 c))

-- `".." in value`
unfoldable pub has_double_dot : String → Bool
has_double_dot empty = false
has_double_dot (text_cons c empty) = false
has_double_dot (text_cons c (text_cons d s)) =
    let later = has_double_dot (text_cons d s) in
    if is_code 46 c && is_code 46 d then true else later

-- `c in value`, for the character of a number.
abbrev pub has_code : ℕ → String → Bool
has_code n s = not (every (λ c. not (is_code n c)) s)

abbrev invalid_wallet : String → Error
invalid_wallet message = api_error 400 "INVALID_WALLET_NAME" message

unfoldable pub validate_wallet_name : Json → Result Error String
validate_wallet_name (str s) =
    if not (matches is_wallet_char 0 63 s)
    then err (invalid_wallet "Wallet name must be 1-64 URL-safe characters.")
    else if has_double_dot s || (has_code 47 s || has_code 92 s)
    then err (invalid_wallet "Wallet name must not contain path traversal.")
    else ok s
validate_wallet_name _ = err (invalid_wallet "Wallet name must be 1-64 URL-safe characters.")

abbrev invalid_label : Error
invalid_label =
    api_error 400 "INVALID_LABEL" "Label must be a printable string up to 128 characters."

unfoldable pub validate_label : Json → String → Result Error String
validate_label null default = ok default
validate_label (str s) default =
    if ltb 128 (length s) || not (every (λ c. leb 32 (code c)) s) then err invalid_label else ok s
validate_label _ default = err invalid_label

abbrev invalid_address_type : Error
invalid_address_type = api_error 400 "INVALID_ADDRESS_TYPE" "Unsupported Bitcoin address type."

-- `str` of a document that is no text is none of the four.
unfoldable pub validate_address_type : Json → Result Error String
validate_address_type null = ok "bech32"
validate_address_type (str s) =
    if s == "legacy" || (s == "p2sh-segwit" || (s == "bech32" || s == "bech32m"))
    then ok s
    else err invalid_address_type
validate_address_type _ = err invalid_address_type

-- `[0-9a-fA-F]`
abbrev pub is_hex : Char → Bool
is_hex c = is_between 48 57 c || (is_between 97 102 c || is_between 65 70 c)

-- `.lower()` on a hex digit, and on a text of them.
abbrev pub lower_digit : Char → Char
lower_digit c =
    if is_code 65 c
    then char 97 tt
    else if is_code 66 c
    then char 98 tt
    else if is_code 67 c
    then char 99 tt
    else if is_code 68 c
    then char 100 tt
    else if is_code 69 c
    then char 101 tt
    else if is_code 70 c
    then char 102 tt
    else c

unfoldable pub lower_hex : String → String
lower_hex empty = empty
lower_hex (text_cons c s) = text_cons (lower_digit c) (lower_hex s)

abbrev invalid_txid : Error
invalid_txid = api_error 400 "INVALID_TXID" "Transaction id must be a 64-character hex string."

unfoldable pub validate_txid : Json → Result Error String
validate_txid (str s) =
    if every is_hex s && length s == 64 then ok (lower_hex s) else err invalid_txid
validate_txid _ = err invalid_txid

abbrev invalid_hex : Error
invalid_hex = api_error 400 "INVALID_HEX" "Value must be even-length hex."

unfoldable pub validate_hex : Json → ℕ → Result Error String
validate_hex (str s) max_bytes =
    if not (length s % 2 == 0) || not (truthy s && every is_hex s)
    then err invalid_hex
    else if ltb max_bytes (length s / 2)
    then err (api_error 413 "HEX_TOO_LARGE" "Raw transaction exceeds the configured size limit.")
    else ok (lower_hex s)
validate_hex _ max_bytes = err invalid_hex

-- `[A-Za-z0-9_.:/@+-]`
abbrev pub is_key_char : Char → Bool
is_key_char c =
    is_wallet_char c || (is_code 47 c || (is_code 58 c || (is_code 64 c || is_code 43 c)))

-- The value of a header, which is a text or missing.
unfoldable pub validate_idempotency_key : Option String → Result Error (Option String)
validate_idempotency_key none = ok none
validate_idempotency_key (some s) =
    if not (truthy s)
    then ok none
    else if matches is_key_char 11 127 s
    then ok (some s)
    else err (
        api_error 400 "INVALID_IDEMPOTENCY_KEY"
          "Idempotency-Key must be 12-128 safe printable characters.")
