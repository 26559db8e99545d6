-- ===== src/Bitcoin/Validation/Outputs.antt =====
-- What the outputs of a transaction are, of those that a request asks for: the vocabulary.
pub mod Merge
pub mod Normalize
use Prim.Native.String.{compare}
use Prim.Native.Nat.{Ordering}
use rails.Prelude.{
  ℕ, zero, suc, ◌+◌, ◌≤◌, ◌<◌, String, string_eq, eq_iff, ◌≡◌, refl, sym, ◌∙◌, Bool, true, false,
  not, ◌&&◌, ◌||◌, ◌==◌, ◌⊎◌, Option, none, some, List, [], ◌∷◌, arith, ltb, leb, inl, inr,
  Bool-cases, if◌then◌else◌,
}
use rails.Prelude.Int.{ℤ, pos, negsuc}
use rails.Json.{
  Json, Items, Fields, null, bool, int, float, str, arr, obj, nil, cons, end, field, get_or_null,
  item_count,
}
use rails.Text.{digits_value, length}
use rails.Effect.{Result, ok, err, and_then, Result-cases}
use rails.Bitcoin.Errors.{Error}
use rails.Bitcoin.Store.Rows.{Output}
use rails.Bitcoin.Validation.{
  validate_address_literal, parse_unsigned_int, parse_positive_int, positive, merge, amount_at,
  within_limit, add_output, merge_outputs, total, place, sort, sorted_within, normalize_list,
  normalize_outputs, is_address, is_unsigned, above,
}

-- What a document says as an address and as an amount, apart from whether it is accepted.
abbrev pub text_value : Json → String
text_value (str s) = s
text_value _ = ""

abbrev pub amount_value : Json → ℕ
amount_value (int (pos n)) = n
amount_value (str s) = digits_value 0 s
amount_value _ = 0

abbrev pub address_of : Json → String
address_of (obj item) = text_value (get_or_null "address" item)
address_of _ = ""

abbrev pub amount_of : Json → ℕ
amount_of (obj item) = amount_value (get_or_null "amountSats" item)
amount_of _ = 0

-- What a request asks to be paid to an address, and in all.
unfoldable pub asked : String → Items → ℕ
asked address nil = 0
asked address (cons item rest) =
    (if address_of item == address then amount_of item else 0) + asked address rest

unfoldable pub asked_total : Items → ℕ
asked_total nil = 0
asked_total (cons item rest) = amount_of item + asked_total rest

-- What outputs pay to an address, and how many they are.
unfoldable pub paid : String → List Output → ℕ
paid address [] = 0
paid address (o ∷ outputs) =
    (if o.address == address then o.amount_sats else 0) + paid address outputs

unfoldable pub size : List Output → ℕ
size [] = 0
size (o ∷ outputs) = suc (size outputs)
