-- ===== src/Lightning/Lnd.antt =====
-- lightning_flask/src/infra/lnd.py: LndClient, over the HTTP of the host.
pub mod Invoices
pub mod Rounds
use Prim.Native.String.{◌++◌ as text_append}
use rails.Prelude.{
  ℕ, zero, suc, String, string_eq, nat_eq, Bool, true, false, not, ◌||◌, ◌==◌, Option, none, some,
  List, [], ◌∷◌, if◌then◌else◌,
}
use rails.Prelude.Int.{ℤ, pos, negsuc}
use rails.Json.{
  Json, Items, Fields, null, bool, int, float, str, arr, obj, nil, cons, end, field, get_field,
  get_or_null, is_truthy,
}
use rails.Text.{length}
use rails.Text.Digits.{nat_text}
use rails.Text.Integer.{parse_int}
use rails.Effect.{Result, ok, err, and_then, pure, raise, lift, ◌>>=◌, ◌>>◌}
use rails.Lightning.Errors.{Failure, crash}
use rails.Lightning.Security.{validate_payment_hash}
use rails.Lightning.Host.{Host, World, Handler, LndCall, get, get_default, text_of, request}

-- What `decode_invoice` returns.
pub record Decoded : Type 0 where
  pub payment_hash : Json
  pub num_satoshis : ℤ
  pub timestamp : ℤ
  pub expiry : ℤ
  pub destination : Json
  pub cltv_expiry : ℤ
  pub description : Json
  pub network : String

-- `str(n)` of an integer.
abbrev pub int_text : ℤ → String
int_text (pos n) = nat_text n
int_text (negsuc n) = text_append "-" (nat_text (suc n))

-- `a or b`
abbrev pub or_else : Json → Json → Json
or_else a b = if is_truthy a then a else b

-- The body of a payment.
abbrev pub pay_body : String → ℕ → ℕ → Option ℕ → Json
pay_body payment_request fee_limit_sats timeout_seconds amount_sats = obj (
    field "payment_request" (str payment_request) (
      field "fee_limit" (obj (field "fixed" (str (nat_text fee_limit_sats)) end)) (
        field "timeout_seconds" (int (pos timeout_seconds))
          (elim amount_sats [ none ↦ end | some n ↦ field "amt" (str (nat_text n)) end ]))))

abbrev pub payments_path : String
payments_path = "/v1/channels/transactions"

module _ {Node : Type 0} (h : Host Node) where
  -- `get` and `post`
  abbrev pub get_lnd : String → Json → Handler Node Json
  get_lnd path query =
      request h (record { method = "GET"; path = path; query = query; body = null })

  abbrev pub post_lnd : String → Json → Handler Node Json
  post_lnd path body =
      request h (record { method = "POST"; path = path; query = null; body = body })

  abbrev or_zero : Option ℤ → ℤ
  or_zero none = pos 0
  or_zero (some n) = n

  -- `_as_int`; what is empty is 0, and so is what `int` refuses by TypeError or ValueError.
  unfoldable pub as_int : Json → Result Failure ℤ
  unfolding parse_int
  as_int null = ok (pos 0)
  as_int (bool b) = ok (if b then pos 1 else pos 0)
  as_int (int n) = ok n
  as_int (float t) = h.whole t
  as_int (str s) = ok (or_zero (parse_int s))
  as_int _ = ok (pos 0)

  abbrev pub int_at : String → Json → Result Failure ℤ
  int_at key j = and_then (get key j) as_int

  abbrev hex_or_none : String → Option String → Json
  hex_or_none text (some hex) = str hex
  hex_or_none text none = if length text == 64 then str (h.lower text) else null

  -- `_hash_to_hex`
  unfoldable pub hash_to_hex : Json → Json
  hash_to_hex value =
      if not (is_truthy value)
      then null
      else hex_or_none (text_of h value) (h.unbase64 (text_of h value))

  -- `result.get("payment_hash") or _hash_to_hex(result.get("payment_hash_bytes"))`
  abbrev pub hash_of : Json → Result Failure Json
  hash_of result = and_then (get "payment_hash" result) (λ hash.
      if is_truthy hash
      then ok hash
      else and_then (get "payment_hash_bytes" result) (λ bytes. ok (hash_to_hex bytes)))

  -- `value.lower()`
  abbrev lower_of : Json → Result Failure String
  lower_of (str s) = ok (h.lower s)
  lower_of j = err (crash "AttributeError: `lower` of a document that is no text")

  unfoldable pub decode_invoice : String → Handler Node Decoded
  unfolding as_int hash_to_hex
  decode_invoice payment_request = do
    result ← get_lnd (text_append "/v1/payreq/" (h.quote payment_request)) null
    payment_hash ← lift (hash_of result)
    num_satoshis ← lift (int_at "num_satoshis" result)
    timestamp ← lift (int_at "timestamp" result)
    expiry ← lift (int_at "expiry" result)
    destination ← lift (get "destination" result)
    cltv_expiry ← lift (int_at "cltv_expiry" result)
    description ← lift (get "description" result)
    named ← lift (get_default "network" (str "") result)
    network ← lift (lower_of named)
    pure (record {
      payment_hash = payment_hash;
      num_satoshis = num_satoshis;
      timestamp = timestamp;
      expiry = expiry;
      destination = destination;
      cltv_expiry = cltv_expiry;
      description = description;
      network = network;
    })

  -- `pay_invoice`; the log of the preimage at DEBUG level is left out, its `get` is not.
  unfoldable pub pay_invoice : String → ℕ → ℕ → Option ℕ → Handler Node Fields
  unfolding hash_to_hex
  pay_invoice payment_request fee_limit_sats timeout_seconds amount_sats = do
    result ←
        post_lnd payments_path (pay_body payment_request fee_limit_sats timeout_seconds amount_sats)
    payment_hash ← lift (hash_of result)
    payment_error ← lift (get "payment_error" result)
    pure (
        field "payment_hash" payment_hash (
          field "payment_error" payment_error (
            field "status" (str (if is_truthy payment_error then "failed" else "submitted"))
              (field "fee_limit_sats" (int (pos fee_limit_sats)) end))))

  abbrev pub payments_query : ℤ → Json
  payments_query index_offset = obj (
      field "include_incomplete" (str "true") (
        field "reversed" (str "true") (
          field "max_payments" (str "100")
            (field "index_offset" (str (int_text index_offset)) end))))

  abbrev payment_view : String → Json → Result Failure Fields
  payment_view payment_hash payment = and_then (get "status" payment) (λ status.
      and_then (int_at "value_sat" payment) (λ value. and_then (int_at "fee_sat" payment) (λ fee.
        and_then (get "creation_time_ns" payment) (λ created. ok (
          field "payment_hash" (str payment_hash) (
            field "status" status (
              field "value_sats" (int value)
                (field "fee_sats" (int fee) (field "creation_time_ns" created end)))))))))

  -- `str(payment.get("payment_hash") or "").lower()`
  abbrev candidate_of : Json → Result Failure String
  candidate_of payment =
      and_then (get "payment_hash" payment)
        (λ hash. ok (h.lower (text_of h (or_else hash (str "")))))

  -- The loop over one page: the view of the first payment with the hash.
  unfoldable pub find_payment : String → Items → Result Failure (Option Fields)
  find_payment payment_hash nil = ok none
  find_payment payment_hash (cons payment rest) = and_then (candidate_of payment) (λ candidate.
      let later = find_payment payment_hash rest in
      if not (candidate == payment_hash)
      then later
      else and_then (payment_view payment_hash payment) (λ view. ok (some view)))

  abbrev unknown_payment : String → Fields
  unknown_payment payment_hash =
      field "payment_hash" (str payment_hash) (field "status" (str "unknown") end)

  -- `result.get("payments") if isinstance(result, dict) else None`, where it is a list.
  abbrev pub page_of : Json → Items
  page_of (obj result) = elim (get_or_null "payments" result) [ arr items ↦ items | _ ↦ nil ]
  page_of _ = nil

  -- `next_offset <= 0 or next_offset == index_offset`
  abbrev pub is_last : ℤ → ℤ → Bool
  is_last index_offset (negsuc n) = true
  is_last index_offset (pos n) = n == 0 || elim index_offset [ pos m ↦ n == m | negsuc m ↦ false ]

  -- What follows a page: `deeper` is the rest of the loop.
  abbrev pub after_page :
      String → ℤ → Json → (ℤ → Handler Node Fields) → Option Fields → Handler Node Fields
  after_page payment_hash index_offset result deeper (some view) = pure view
  after_page payment_hash index_offset result deeper none = do
    next_offset ← lift (int_at "last_index_offset" result)
    if is_last index_offset next_offset
        then pure (unknown_payment payment_hash)
        else deeper next_offset

  abbrev pub in_page : String → ℤ → Json → (ℤ → Handler Node Fields) → Items → Handler Node Fields
  in_page payment_hash index_offset result deeper nil = pure (unknown_payment payment_hash)
  in_page payment_hash index_offset result deeper items = do
    found ← lift (find_payment payment_hash items)
    after_page payment_hash index_offset result deeper found

  -- `for _ in range(20)`, with the rounds that are left.
  unfoldable pub search_pages : ℕ → String → ℤ → Handler Node Fields
  unfolding find_payment as_int
  search_pages zero payment_hash index_offset = pure (unknown_payment payment_hash)
  search_pages (suc rounds) payment_hash index_offset = do
    result ← get_lnd "/v1/payments" (payments_query index_offset)
    in_page payment_hash index_offset result (search_pages rounds payment_hash) (page_of result)

  unfoldable pub lookup_payment : Json → Handler Node Fields
  lookup_payment value = do
    payment_hash ← lift (validate_payment_hash h.show value)
    search_pages 20 payment_hash (pos 0)
