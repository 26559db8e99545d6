-- ===== src/Bitcoin/Validation/Outputs/Normalize.antt =====
-- `normalize_outputs` of bitcoin_core_backend/src/core/validation.py against what the request asks for.
use rails.Prelude.{
  ℕ, ◌+◌, ◌≤◌, String, string_eq, ◌≡◌, refl, sym, Option, some, List, [], arith, ltb, inl, inr,
  Bool-cases,
}
use rails.Prelude.Int.{ℤ, pos, negsuc}
use rails.Json.{
  Json, Items, Fields, null, bool, int, float, str, arr, obj, nil, cons, get_or_null, item_count,
}
use rails.Text.{digits_value}
use rails.Effect.{Result, ok, err, Result-cases}
use rails.Bitcoin.Errors.{Error}
use rails.Bitcoin.Store.Rows.{Output}
use rails.Bitcoin.Validation.{
  validate_address_literal, parse_unsigned_int, parse_positive_int, positive, merge, add_output,
  merge_outputs, total, sort, normalize_list, normalize_outputs, is_address, is_unsigned,
}
use rails.Bitcoin.Validation.Outputs.{
  text_value, amount_value, address_of, amount_of, asked, asked_total, paid, size,
}
use rails.Bitcoin.Validation.Outputs.Merge.{
  paid-merge, total-merge, size-merge, paid-sort, total-sort, size-sort,
}

positive-ok :
    (name : String) (maximum : Option ℕ) (z : ℤ) (n : ℕ)
    → positive name maximum z ≡ ok n
    → z ≡ pos n
positive-ok name maximum (pos k) n done = ground arith
positive-ok name maximum (negsuc k) n done = absurd (cc)

parse_positive_int-ok :
    (j : Json) (name : String) (maximum : Option ℕ) (n : ℕ)
    → parse_positive_int j name maximum ≡ ok n
    → n ≡ amount_value j
unfolding parse_positive_int parse_unsigned_int
parse_positive_int-ok (int z) name maximum n done = rw (positive-ok name maximum z n done)
parse_positive_int-ok (str s) name maximum n done = elim (Bool-cases (is_unsigned s)) [
  | inr other ↦ absurd (ground arith)
  | inl digits ↦ ground (arith, positive-ok name maximum (pos (digits_value 0 s)) n)
]
parse_positive_int-ok null name maximum n done = absurd (cc)
parse_positive_int-ok (bool b) name maximum n done = absurd (cc)
parse_positive_int-ok (float x) name maximum n done = absurd (cc)
parse_positive_int-ok (arr i) name maximum n done = absurd (cc)
parse_positive_int-ok (obj f) name maximum n done = absurd (cc)

validate_address_literal-ok :
    (j : Json) (a : String) → validate_address_literal j ≡ ok a → a ≡ text_value j
unfolding validate_address_literal
validate_address_literal-ok (str s) a done = elim (Bool-cases (is_address s)) [
  | inl e ↦ ground arith
  | inr e ↦ absurd (ground arith)
]
validate_address_literal-ok (int z) a done = absurd (cc)
validate_address_literal-ok null a done = absurd (cc)
validate_address_literal-ok (bool b) a done = absurd (cc)
validate_address_literal-ok (float x) a done = absurd (cc)
validate_address_literal-ok (arr i) a done = absurd (cc)
validate_address_literal-ok (obj f) a done = absurd (cc)

-- A round of the loop that does not raise has merged what the item says.
add_output-ok :
    (limit : ℕ) (m m' : List Output) (item : Json)
    → add_output limit m item ≡ ok m'
    → m' ≡ merge (address_of item) (amount_of item) m
add_output-ok limit m m' (obj f) done =
    go (validate_address_literal (get_or_null "address" f)) refl
      (parse_positive_int (get_or_null "amountSats" f) "amountSats" (some limit)) refl
  where
    go :
        (a : Result Error String)
        → validate_address_literal (get_or_null "address" f) ≡ a
        → (n : Result Error ℕ)
        → parse_positive_int (get_or_null "amountSats" f) "amountSats" (some limit) ≡ n
        → m'
          ≡ merge
              (text_value (get_or_null "address" f))
              (amount_value (get_or_null "amountSats" f))
              m
    go (err e) ea n en = absurd (ground arith)
    go (ok a) ea (err e) en = absurd (ground arith)
    go (ok a) ea (ok n) en =
        let same_a = validate_address_literal-ok (get_or_null "address" f) a ea in
        let same_n =
          parse_positive_int-ok (get_or_null "amountSats" f) "amountSats" (some limit) n en in
        rw (sym same_a, sym same_n) (ground arith)
add_output-ok limit m m' null done = absurd (cc)
add_output-ok limit m m' (bool b) done = absurd (cc)
add_output-ok limit m m' (int z) done = absurd (cc)
add_output-ok limit m m' (float x) done = absurd (cc)
add_output-ok limit m m' (str s) done = absurd (cc)
add_output-ok limit m m' (arr i) done = absurd (cc)

-- The loop merges all that the items ask for.
record IsMerged (address : String) (items : Items) (m m' : List Output) : Type 0 where
  paid : paid address m' ≡ paid address m + asked address items
  total : total m' ≡ total m + asked_total items
  size : size m' ≤ size m + item_count items

merge_outputs-IsMerged :
    (limit : ℕ) (address : String) (items : Items) (m m' : List Output)
    → merge_outputs limit m items ≡ ok m'
    → IsMerged address items m m'
unfolding merge_outputs asked asked_total item_count
merge_outputs-IsMerged limit address nil m m' done =
    let same : m ≡ m' = ground arith in
    rw (sym same) (record { paid = omega arith; total = omega arith; size = omega arith })
merge_outputs-IsMerged limit address (cons item rest) m m' done =
    elim (Result-cases (add_output limit m item)) [
      | inr (e, ea) ↦ absurd (cc (rw ea at done))
      | inl (m₁, ea) ↦
          let one : m₁ ≡ merge (address_of item) (amount_of item) m =
            add_output-ok limit m m₁ item ea in
          let b : IsMerged address rest m₁ m' =
            merge_outputs-IsMerged limit address rest m₁ m' (rw ea at done) in
          let p = paid-merge address (address_of item) (amount_of item) m in
          let t = total-merge (address_of item) (amount_of item) m in
          let s = size-merge (address_of item) (amount_of item) m in
          let bs : size m' ≤ size (merge (address_of item) (amount_of item) m) + item_count rest =
            rw one at b.size in
          record {
            paid = rw (b.paid, one, p) (omega arith);
            total = rw (b.total, one, t) (omega arith);
            size = omega arith;
          }
    ]

-- The outputs of a transaction that `normalize_outputs` accepts pay every address exactly what the items
-- of the request ask for it, an address that is named several times the sum; they pay in all what the
-- items ask in all, which is within the limit; and they are no more than the items, which are within the
-- limit on outputs.
pub normalize_outputs_lem :
    (body : Fields) (items : Items) (max_outputs max_send_sats : ℕ) (outputs : List Output)
    (address : String)
    → get_or_null "outputs" body ≡ arr items
    → normalize_outputs body max_outputs max_send_sats ≡ ok outputs
    → (paid address outputs ≡ asked address items)
      × (total outputs ≡ asked_total items)
      × (total outputs ≤ max_send_sats)
      × (size outputs ≤ item_count items)
      × (item_count items ≤ max_outputs)
unfolding normalize_outputs paid total size
normalize_outputs_lem body nil max_outputs max_send_sats outputs address found done =
    absurd (cc (rw found at done))
normalize_outputs_lem body (cons item rest) max_outputs max_send_sats outputs address found done =
    let all : Items = cons item rest in
    let run : normalize_list max_outputs max_send_sats (arr all) ≡ ok outputs = rw found at done in
    elim (Result-cases (merge_outputs max_send_sats [] all)) [
      | inr (e, em) ↦ absurd (ground (arith, em))
      | inl (m, em) ↦
          let b = merge_outputs-IsMerged max_send_sats address all [] m em in
          elim (Bool-cases (ltb max_outputs (item_count all))) [
            | inl many ↦ absurd (ground arith)
            | inr few ↦ elim (Bool-cases (ltb max_send_sats (total m))) [
              | inl over ↦ absurd (ground (arith, em))
              | inr under ↦
                  let same : sort m ≡ outputs = ground (arith, em) in
                  rw (sym same) (
                    rw (paid-sort address m, b.paid) (omega arith),
                    rw (total-sort m, b.total) (omega arith),
                    rw (total-sort m) (ground arith),
                    rw (size-sort m) (let k = b.size in omega arith),
                    ground arith,
                  )
            ]
          ]
    ]
