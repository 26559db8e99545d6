-- ===== src/Bitcoin/Validation.antt =====
-- bitcoin_core_backend/src/core/validation.py: the amounts and the outputs of a request.
pub mod Outputs
pub mod Sats
pub mod Text
pub mod Hex
mod Tests
use Prim.Native.String.{compare, ◌++◌ as text_append}
use Prim.Native.Nat.{Ordering}
use rails.Prelude.{
  ℕ, suc, ◌+◌, String, string_eq, Bool, true, false, not, ◌&&◌, ◌||◌, ◌==◌, Option, none, some,
  List, [], ◌∷◌, ltb, leb, if◌then◌else◌,
}
use rails.Prelude.Int.{ℤ, pos, negsuc}
use rails.Json.{
  Json, Items, Fields, null, bool, int, float, str, arr, obj, nil, cons, end, field, get_field,
  get_or_null, item_count,
}
use rails.Text.{length, every, is_digit, is_alphanumeric, digits_value, truthy}
use rails.Effect.{Result, ok, err, and_then}
use rails.Bitcoin.Errors.{Error, api_error, crash}
use rails.Bitcoin.Store.Rows.{Output}

-- `_ADDRESS_RE`
abbrev pub is_address : String → Bool
is_address s = every is_alphanumeric s && (leb 14 (length s) && leb (length s) 120)

abbrev invalid_address : Error
invalid_address = api_error 400 "INVALID_BITCOIN_ADDRESS" "Bitcoin address format is invalid."

unfoldable pub validate_address_literal : Json → Result Error String
validate_address_literal (str s) = if is_address s then ok s else err invalid_address
validate_address_literal _ = err invalid_address

-- `_UNSIGNED_INTEGER_RE`
abbrev pub is_unsigned : String → Bool
is_unsigned s = truthy s && every is_digit s

abbrev not_integer : String → String → Error
not_integer name description =
    api_error 400 "INVALID_INTEGER"
      (text_append name (text_append " must be a " (text_append description " integer.")))

-- `int(s)` refuses a text of more than 4300 digits with a ValueError, the language's default limit.
abbrev pub int_of_digits : String → Result Error ℤ
int_of_digits s =
    if ltb 4300 (length s)
    then err (crash "ValueError: Exceeds the limit (4300 digits) for integer string conversion")
    else ok (pos (digits_value 0 s))

unfoldable pub parse_unsigned_int : Json → String → String → Result Error ℤ
parse_unsigned_int (int n) name description = ok n
parse_unsigned_int (str s) name description =
    if is_unsigned s then int_of_digits s else err (not_integer name description)
parse_unsigned_int _ name description = err (not_integer name description)

abbrev above : ℕ → Option ℕ → Bool
above n none = false
above n (some maximum) = ltb maximum n

-- The result is a natural number, since what is not positive is refused.
abbrev pub positive : String → Option ℕ → ℤ → Result Error ℕ
positive name maximum (negsuc n) =
    err (api_error 400 "INVALID_INTEGER" (text_append name " must be positive."))
positive name maximum (pos n) =
    if leb n 0
    then err (api_error 400 "INVALID_INTEGER" (text_append name " must be positive."))
    else if above n maximum
    then err
        (api_error 400 "AMOUNT_EXCEEDS_LIMIT" (text_append name " exceeds the configured limit."))
    else ok n

unfoldable pub parse_positive_int : Json → String → Option ℕ → Result Error ℕ
parse_positive_int value name maximum =
    and_then (parse_unsigned_int value name "positive") (positive name maximum)

abbrev pub non_negative : String → Option ℕ → ℤ → Result Error ℕ
non_negative name maximum (negsuc n) =
    err (api_error 400 "INVALID_INTEGER" (text_append name " must be non-negative."))
non_negative name maximum (pos n) =
    if above n maximum
    then err (api_error 400 "INVALID_INTEGER" (text_append name " exceeds the configured limit."))
    else ok n

unfoldable pub parse_non_negative_int : Json → String → ℤ → Option ℕ → Result Error ℕ
parse_non_negative_int null name default maximum = non_negative name maximum default
parse_non_negative_int value name default maximum =
    and_then (parse_unsigned_int value name "non-negative") (non_negative name maximum)

-- `merged[address] = merged.get(address, 0) + sats`, on a dict in the order of insertion.
unfoldable pub merge : String → ℕ → List Output → List Output
merge address sats [] = record { address = address; amount_sats = sats } ∷ []
merge address sats (o ∷ merged) =
    let rest = merge address sats merged in
    if o.address == address
    then record { address = o.address; amount_sats = o.amount_sats + sats } ∷ merged
    else o ∷ rest

-- `merged[address]`, which is there.
unfoldable pub amount_at : String → List Output → ℕ
amount_at address [] = 0
amount_at address (o ∷ merged) =
    let rest = amount_at address merged in if o.address == address then o.amount_sats else rest

abbrev over_limit : Error
over_limit = api_error 400 "AMOUNT_EXCEEDS_LIMIT" "Output amount exceeds the configured limit."

abbrev pub within_limit : ℕ → String → List Output → Result Error (List Output)
within_limit max_send_sats address merged =
    if ltb max_send_sats (amount_at address merged) then err over_limit else ok merged

-- One round of the loop.
abbrev pub add_output : ℕ → List Output → Json → Result Error (List Output)
add_output max_send_sats merged (obj item) =
    and_then (validate_address_literal (get_or_null "address" item)) (λ address.
      and_then
        (parse_positive_int (get_or_null "amountSats" item) "amountSats" (some max_send_sats))
        (λ sats. within_limit max_send_sats address (merge address sats merged)))
add_output max_send_sats merged _ =
    err (api_error 400 "INVALID_OUTPUT" "Each output must be an object.")

unfoldable pub merge_outputs : ℕ → List Output → Items → Result Error (List Output)
merge_outputs max_send_sats merged nil = ok merged
merge_outputs max_send_sats merged (cons item rest) =
    and_then (add_output max_send_sats merged item)
      (λ merged'. merge_outputs max_send_sats merged' rest)

-- `sum(merged.values())`
unfoldable pub total : List Output → ℕ
total [] = 0
total (o ∷ outputs) = o.amount_sats + total outputs

-- `sorted(merged.items())`, whose keys are distinct.
unfoldable pub place : Output → List Output → List Output
place o [] = o ∷ []
place o (p ∷ sorted) =
    let later = place o sorted in
    elim (compare o.address p.address) [ Ordering.gt ↦ p ∷ later | _ ↦ o ∷ p ∷ sorted ]

unfoldable pub sort : List Output → List Output
sort [] = []
sort (o ∷ merged) = place o (sort merged)

abbrev pub sorted_within : ℕ → List Output → Result Error (List Output)
sorted_within max_send_sats merged =
    if ltb max_send_sats (total merged)
    then err
        (api_error 400 "AMOUNT_EXCEEDS_LIMIT" "Transaction total exceeds the configured limit.")
    else ok (sort merged)

abbrev invalid_outputs : Error
invalid_outputs = api_error 400 "INVALID_OUTPUTS" "outputs must be a non-empty list."

abbrev pub normalize_list : ℕ → ℕ → Json → Result Error (List Output)
normalize_list max_outputs max_send_sats (arr nil) = err invalid_outputs
normalize_list max_outputs max_send_sats (arr (cons item rest)) =
    if ltb max_outputs (item_count (cons item rest))
    then err (api_error 400 "TOO_MANY_OUTPUTS" "Transaction has too many outputs.")
    else and_then (merge_outputs max_send_sats [] (cons item rest)) (sorted_within max_send_sats)
normalize_list max_outputs max_send_sats _ = err invalid_outputs

unfoldable pub normalize_outputs : Fields → ℕ → ℕ → Result Error (List Output)
normalize_outputs body max_outputs max_send_sats =
    normalize_list max_outputs max_send_sats (get_or_null "outputs" body)
