-- ===== src/Bitcoin/Validation/Tests.antt =====
-- Runs of bitcoin_core_backend/src/core/validation.py, and its theorems at them.
use rails.Prelude.{◌≤◌, arith, String, string_eq, ◌≡◌, refl, List, [], ◌∷◌}
use rails.Prelude.Int.{pos, negsuc}
use rails.Json.{
  Json, Items, Fields, null, int, float, str, arr, obj, nil, cons, end, field, item_count,
}
use rails.Text.{length, every, digits_value, strip, strip_start, strip_end}
use rails.Text.Digits.{put_digits, scan}
use rails.Bitcoin.Validation.Sats.{fraction, sats_to_btc_string, btc_to_sats}
use rails.Bitcoin.Validation.Sats.Exact.{btc_to_sats-sats_to_btc_string}
use rails.Effect.{ok}
use rails.Bitcoin.Store.Rows.{Output}
use rails.Bitcoin.Validation.{
  validate_address_literal, parse_unsigned_int, parse_positive_int, merge, amount_at, merge_outputs,
  total, place, sort, normalize_outputs,
}
use rails.Bitcoin.Validation.Outputs.{asked, asked_total, paid, size}
use rails.Bitcoin.Validation.Outputs.Normalize.{normalize_outputs_lem}
use rails.Prelude.{nat_eq, some, ◌/◌, ◌%◌, true}
use rails.Bitcoin.Validation.Text.{
  lower_hex, has_double_dot, validate_wallet_name, validate_txid, validate_hex,
  validate_idempotency_key,
}
use rails.Bitcoin.Validation.Hex.{is_lower_hex, Lowers, validate_txid_lem, validate_hex_lem}

abbrev output_item : String → Json → Json
output_item address amount = obj (field "address" (str address) (field "amountSats" amount end))

-- One address twice, and another.
abbrev items : Items
items = cons (output_item "bc1qtwotwotwotwo" (int (pos 500))) (
    cons (output_item "bc1qoneoneoneone" (str "0250"))
      (cons (output_item "bc1qtwotwotwotwo" (int (pos 25))) nil))

abbrev body : Fields
body = field "outputs" (arr items) end

abbrev outputs : List Output
outputs =
    record { address = "bc1qoneoneoneone"; amount_sats = 250 }
    ∷ record { address = "bc1qtwotwotwotwo"; amount_sats = 525 }
    ∷ []

normalizes : normalize_outputs body 5 1000 ≡ ok outputs
unfolding normalize_outputs merge_outputs validate_address_literal parse_positive_int
    parse_unsigned_int merge amount_at total place sort length every digits_value item_count
normalizes = refl

normalize_outputs_lem_example :
    (paid "bc1qtwotwotwotwo" outputs ≡ asked "bc1qtwotwotwotwo" items)
    × (total outputs ≡ asked_total items)
    × (total outputs ≤ 1000)
    × (size outputs ≤ item_count items)
    × (item_count items ≤ 5)
normalize_outputs_lem_example =
    normalize_outputs_lem body items 5 1000 outputs "bc1qtwotwotwotwo" refl normalizes

abbrev mixed_txid : String
mixed_txid = "ABcd0123456789efABcd0123456789efABcd0123456789efABcd0123456789ef"

abbrev lower_txid : String
lower_txid = "abcd0123456789efabcd0123456789efabcd0123456789efabcd0123456789ef"

lowers : validate_txid (str mixed_txid) ≡ ok lower_txid
unfolding validate_txid length every lower_hex
lowers = refl

validate_txid_lem_example :
    (length lower_txid ≡ 64)
    × (every is_lower_hex lower_txid ≡ true)
    × ((s : String) × (◌≡◌ {A = Json} (str mixed_txid) (str s)) × Lowers s lower_txid)
    × (validate_txid (str lower_txid) ≡ ok lower_txid)
validate_txid_lem_example = validate_txid_lem (str mixed_txid) lower_txid lowers

lowers_raw : validate_hex (str "0200FFaa") 4 ≡ ok "0200ffaa"
unfolding validate_hex length every lower_hex
lowers_raw = refl

validate_hex_lem_example :
    (length "0200ffaa" % 2 ≡ 0)
    × (length "0200ffaa" / 2 ≤ 4)
    × (every is_lower_hex "0200ffaa" ≡ true)
    × ((s : String) × (◌≡◌ {A = Json} (str "0200FFaa") (str s)) × Lowers s "0200ffaa")
    × (validate_hex (str "0200ffaa") 4 ≡ ok "0200ffaa")
validate_hex_lem_example = validate_hex_lem (str "0200FFaa") 4 "0200ffaa" lowers_raw

wallet_is_kept : validate_wallet_name (str "hot-1.main") ≡ ok "hot-1.main"
unfolding validate_wallet_name length every has_double_dot
wallet_is_kept = refl

key_is_kept : validate_idempotency_key (some "payout:2024/07") ≡ ok (some "payout:2024/07")
unfolding validate_idempotency_key length every
key_is_kept = refl

-- 25,000 satoshis are "0.00025000" BTC.
btc_to_sats-sats_to_btc_string_example :
    (text : String) × (sats_to_btc_string 25000 ≡ ok text)
    × (btc_to_sats (str text) ≡ ok (pos 25000))
btc_to_sats-sats_to_btc_string_example = btc_to_sats-sats_to_btc_string 25000 (omega arith)

sats_text : sats_to_btc_string 2100000000025000 ≡ ok "21000000.00025000"
unfolding sats_to_btc_string put_digits fraction
sats_text = refl

float_amount : btc_to_sats (float "1.41e-06") ≡ ok (pos 141)
unfolding btc_to_sats strip strip_start strip_end scan
float_amount = refl

-- A fraction of a satoshi is cut off, also below zero.
negative_amount : btc_to_sats (float "-0.000000019") ≡ ok (negsuc 0)
unfolding btc_to_sats strip strip_start strip_end scan
negative_amount = refl

no_amount : btc_to_sats (str "1,5") ≡ btc_to_sats null
unfolding btc_to_sats strip strip_start strip_end scan
no_amount = refl
