-- ===== src/Bitcoin/Validation/Sats.antt =====
-- bitcoin_core_backend/src/core/validation.py: `sats_to_btc_string` and `btc_to_sats`, with what they use
-- of Python's decimal: its 28 digits, its numeric strings in ASCII digits, and truncation. Exponents
-- beyond a million, at which decimal overflows, are kept as they are.
pub mod Exact
use Prim.Native.Char.{Char, code, char}
use Prim.Native.String.{[] as empty, ◌∷◌ as text_cons}
use rails.Prelude.{
  ℕ, zero, suc, ◌+◌, ◌-◌, ◌*◌, ◌/◌, ◌%◌, ◌^◌, String, nat_eq, Bool, true, false, not, ◌&&◌, ◌||◌,
  ◌==◌, Option, none, some, ltb, if◌then◌else◌,
}
use rails.Prelude.Int.{ℤ, pos, negsuc}
use rails.Json.{Json, int, float, str}
use rails.Text.{every, is_digit, length, strip}
use rails.Text.Digits.{digit_char, put_digits, nat_text, scan}
use rails.Effect.{Result, ok, err}
use rails.Bitcoin.Errors.{Error, api_error, crash}

-- A finite decimal is (-1) ^ negative * coefficient * 10 ^ (up - down); infinities and NaNs are `special`.
pub data Decimal : Type 0 where
  finite : (negative : Bool) (coefficient up down : ℕ) → Decimal
  special : Decimal

-- Eight digits, from the first down.
unfoldable pub fraction : ℕ → String
unfolding digit_char
fraction n = text_cons (digit_char (n / 10000000 % 10)) (
    text_cons (digit_char (n / 1000000 % 10)) (
      text_cons (digit_char (n / 100000 % 10)) (
        text_cons (digit_char (n / 10000 % 10)) (
          text_cons (digit_char (n / 1000 % 10)) (
            text_cons (digit_char (n / 100 % 10))
              (text_cons (digit_char (n / 10 % 10)) (text_cons (digit_char (n % 10)) empty)))))))

-- `format((Decimal(sats) / SATOSHIS_PER_BTC).quantize(…), "f")`: with 28 digits the quotient is exact; an
-- amount of more digits is refused by `quantize`.
unfoldable pub sats_to_btc_string : ℕ → Result Error String
sats_to_btc_string sats =
    if ltb sats 10000000000000000000000000000
    then ok (
        put_digits (suc (sats / 100000000)) (sats / 100000000)
          (text_cons (char 46 tt) (fraction (sats % 100000000))))
    else err (crash "decimal.InvalidOperation: quantize")

-- The text behind a word of small letters, in either case.
abbrev pub after_word : String → String → Option String
after_word empty s = some s
after_word (text_cons w ws) empty = none
after_word (text_cons w ws) (text_cons c s) =
    if code c == code w || code c + 32 == code w then after_word ws s else none

abbrev pub is_word : String → String → Bool
is_word word s = elim (after_word word s) [ some empty ↦ true | _ ↦ false ]

abbrev pub is_nan : String → String → Bool
is_nan word s = elim (after_word word s) [ some rest ↦ every is_digit rest | none ↦ false ]

abbrev pub is_special : String → Bool
is_special s = is_word "inf" s || (is_word "infinity" s || (is_nan "nan" s || is_nan "snan" s))

-- `[e|E [sign] digits]`, up to the end, as the powers of ten up and down.
exponent_digits : Bool → ℕ × ℕ × String → Option (ℕ × ℕ)
exponent_digits negative (value, zero, rest) = none
exponent_digits negative (value, suc count, empty) =
    some (if negative then (0, value) else (value, 0))
exponent_digits negative (value, suc count, text_cons c rest) = none

exponent_sign : String → Option (ℕ × ℕ)
unfolding exponent_digits
exponent_sign empty = none
exponent_sign (text_cons c s) =
    if code c == 45
    then exponent_digits true (scan 0 0 s)
    else if code c == 43
    then exponent_digits false (scan 0 0 s)
    else exponent_digits false (scan 0 0 (text_cons c s))

exponent : String → Option (ℕ × ℕ)
unfolding exponent_sign
exponent empty = some (0, 0)
exponent (text_cons c s) = if code c == 101 || code c == 69 then exponent_sign s else none

-- The number whose digits are read: `places` of them stand behind the point.
with_exponent : Bool → ℕ → ℕ → ℕ → Option (ℕ × ℕ) → Option Decimal
with_exponent negative value zero places e = none
with_exponent negative value (suc count) places none = none
with_exponent negative value (suc count) places (some (up, down)) =
    some (finite negative value up (down + places))

behind_point : Bool → ℕ → ℕ × ℕ × String → Option Decimal
unfolding exponent with_exponent
behind_point negative before (value, count, rest) =
    with_exponent negative value count (count - before) (exponent rest)

behind_digits : Bool → ℕ × ℕ × String → Option Decimal
unfolding behind_point exponent with_exponent
behind_digits negative (value, count, empty) = with_exponent negative value count 0 (some (0, 0))
behind_digits negative (value, count, text_cons c rest) =
    if code c == 46
    then behind_point negative count (scan value count rest)
    else with_exponent negative value count 0 (exponent (text_cons c rest))

unsigned : Bool → String → Option Decimal
unfolding behind_digits
unsigned negative s = if is_special s then some special else behind_digits negative (scan 0 0 s)

signed : String → Option Decimal
unfolding unsigned
signed empty = none
signed (text_cons c s) =
    if code c == 45
    then unsigned true s
    else if code c == 43
    then unsigned false s
    else unsigned false (text_cons c s)

unfoldable pub drop_underscores : String → String
drop_underscores empty = empty
drop_underscores (text_cons c s) =
    let rest = drop_underscores s in if code c == 95 then rest else text_cons c rest

-- `Decimal(text)`; `none` is InvalidOperation.
unfoldable pub parse_decimal : String → Option Decimal
unfolding signed drop_underscores
parse_decimal text = signed (drop_underscores (strip text))

-- `Decimal(str(value))`; `str` of what is neither a number nor a text is no numeric string.
abbrev pub decimal_of : Json → Option Decimal
decimal_of (int (pos n)) = some (finite false n 0 0)
decimal_of (int (negsuc n)) = some (finite true (suc n) 0 0)
decimal_of (float t) = parse_decimal t
decimal_of (str s) = parse_decimal s
decimal_of _ = none

-- The rounding of a coefficient to 28 digits, half to even: what is kept and how many digits are gone.
unfoldable pub round_28 : ℕ → ℕ × ℕ
round_28 c =
    if ltb c 10000000000000000000000000000
    then (c, 0)
    else let k = length (nat_text c) - 28 in
      let kept = c / 10 ^ k in
      let rest = 2 * (c % 10 ^ k) in
      (if ltb (10 ^ k) rest || (rest == 10 ^ k && kept % 2 == 1) then kept + 1 else kept, k)

abbrev with_sign : Bool → ℕ → ℤ
with_sign true (suc n) = negsuc n
with_sign true zero = pos 0
with_sign false n = pos n

-- `int((amount * SATOSHIS_PER_BTC).to_integral_value(rounding=ROUND_DOWN))`
unfoldable pub truncated : Option Decimal → Result Error ℤ
unfolding round_28
truncated none =
    err (api_error 502 "INVALID_CORE_AMOUNT" "Bitcoin Core returned an invalid amount.")
truncated (some special) = err (crash "int() of an infinity or a NaN")
truncated (some (finite negative c up down)) =
    let rounded = round_28 (c * 100000000) in
    ok (with_sign negative (rounded.0 * 10 ^ (up + rounded.1) / 10 ^ down))

unfoldable pub btc_to_sats : Json → Result Error ℤ
unfolding truncated parse_decimal
btc_to_sats value = truncated (decimal_of value)
