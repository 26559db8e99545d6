-- ===== src/Lightning/Security/Bolt11.antt =====
-- lightning_flask/src/core/security.py: the amount and the network that the prefix of an invoice names, for
-- texts whose digits are ASCII.
use Prim.Native.Char.{code}
use Prim.Native.String.{[] as empty, ◌∷◌ as text_cons}
use rails.Prelude.{ℕ, zero, suc, ◌*◌, String, nat_eq, ◌==◌, Option, none, some, ltb, if◌then◌else◌}
use rails.Text.Digits.{scan}
use rails.Effect.{Result, ok, err}
use rails.Lightning.Errors.{Failure, api_error, crash}
use rails.Lightning.Security.Invoice.{same_letter, after_word}

-- `group(3).lower()`
pub data Multiplier : Type 0 where
  milli micro nano pico absent : Multiplier

-- `([munp]?)` at the head of what follows the digits.
abbrev multiplier_of : String → Multiplier
multiplier_of empty = Multiplier.absent
multiplier_of (text_cons c s) =
    if same_letter "m" c
    then Multiplier.milli
    else if same_letter "u" c
    then Multiplier.micro
    else if same_letter "n" c
    then Multiplier.nano
    else if same_letter "p" c
    then Multiplier.pico
    else Multiplier.absent

-- The groups of a match of `_BOLT11_AMOUNT_RE`: the network of the prefix, the number that the digits make,
-- how many they are, and the multiplier.
pub record Match : Type 0 where
  pub network : String
  pub amount : ℕ
  pub digits : ℕ
  pub multiplier : Multiplier

-- `(\d+)([munp]?)` behind a prefix.
abbrev with_digits : String → ℕ × ℕ × String → Option Match
with_digits network (amount, zero, rest) = none
with_digits network (amount, suc n, rest) =
    some (record {
      network = network;
      amount = amount;
      digits = suc n;
      multiplier = multiplier_of rest;
    })

abbrev behind : String → Option String → Option Match
behind network none = none
behind network (some s) = with_digits network (scan 0 0 s)

-- `_BOLT11_NETWORK_MAP.get("bs".lower(), "unknown")`, where the s may be a U+017F.
abbrev signet_of : String → String
signet_of (text_cons l (text_cons n (text_cons b (text_cons c s)))) =
    if code c == 383 then "unknown" else "signet"
signet_of _ = "unknown"

abbrev or_else : Option Match → Option Match → Option Match
or_else (some m) other = some m
or_else none other = other

-- `_BOLT11_AMOUNT_RE.match(invoice)`: the first prefix behind which a digit stands.
unfoldable pub match_invoice : String → Option Match
match_invoice invoice = or_else (behind "mainnet" (after_word "lnbc" invoice)) (
    or_else (behind "testnet" (after_word "lntb" invoice)) (
      or_else (behind "regtest" (after_word "lnbcrt" invoice))
        (behind (signet_of invoice) (after_word "lnbs" invoice))))

-- `_BOLT11_MULTIPLIER_MSAT`
abbrev pub msat_per_unit : Multiplier → ℕ
msat_per_unit Multiplier.milli = 100000000
msat_per_unit Multiplier.micro = 100000
msat_per_unit Multiplier.nano = 100
msat_per_unit _ = 0

abbrev no_unit : Failure
no_unit =
    api_error "Invoice amount in pico-bitcoin cannot be represented as integer millisatoshis" 400
      "invalid_invoice_amount_unit"

-- `int(amount_digits) * msat_per_unit`; `int` refuses a text of more than 4300 digits.
abbrev in_msat : Match → Result Failure (Option ℕ)
in_msat m =
    if ltb 4300 m.digits
    then err (crash "ValueError: Exceeds the limit (4300 digits) for integer string conversion")
    else ok (some (m.amount * msat_per_unit m.multiplier))

abbrev amount_of : Match → Multiplier → Result Failure (Option ℕ)
amount_of m Multiplier.pico = err no_unit
amount_of m Multiplier.absent = err no_unit
amount_of m Multiplier.milli = in_msat m
amount_of m Multiplier.micro = in_msat m
amount_of m Multiplier.nano = in_msat m

abbrev matched_amount : Option Match → Result Failure (Option ℕ)
matched_amount none = err (api_error "Cannot parse BOLT11 invoice HRP" 400 "invalid_invoice")
matched_amount (some m) = if m.digits == 0 then ok none else amount_of m m.multiplier

unfoldable pub decode_bolt11_amount_msat : String → Result Failure (Option ℕ)
unfolding match_invoice
decode_bolt11_amount_msat invoice = matched_amount (match_invoice invoice)

abbrev matched_network : Option Match → Result Failure String
matched_network none = err (api_error "Cannot parse BOLT11 invoice network" 400 "invalid_invoice")
matched_network (some m) = ok m.network

unfoldable pub decode_bolt11_network : String → Result Failure String
unfolding match_invoice
decode_bolt11_network invoice = matched_network (match_invoice invoice)
