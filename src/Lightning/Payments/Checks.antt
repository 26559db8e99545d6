-- ===== src/Lightning/Payments/Checks.antt =====
-- lightning_flask/src/api/app.py: what `pay_invoice` checks before it claims the key, and the amount, the
-- fee limit and the timeout that it settles on.
use Prim.Native.String.{◌++◌ as text_append}
use rails.Prelude.{
  ℕ, zero, suc, ◌+◌, ◌*◌, ◌/◌, ◌≤◌, min, max, String, string_eq, nat_eq, ◌≡◌, refl, sym, Bool, not,
  ◌&&◌, ◌==◌, inl, inr, Option, none, some, leb, ltb, arith, Bool-cases, if◌then◌else◌,
}
use mathlib.Core.Path.{subst}
use rails.Prelude.Int.{ℤ, pos, negsuc}
use rails.Json.{Json, Fields, null, bool, int, float, str, arr, obj, get_or_null}
use rails.Text.{truthy, strip}
use rails.Text.Digits.{nat_text}
use rails.Effect.{Result, ok, err, and_then, and_then-ok, ok-inj}
use rails.Lightning.Errors.{Failure, api_error}
use rails.Lightning.Config.{Settings}
use rails.Lightning.Security.{parse_sats, parse_optional_int, validate_idempotency_key_payment}
use rails.Lightning.Api.{Request, checked_key, namespaced}

-- `sent_amount` is what the client tells LND, for an invoice without an amount.
pub record Plan : Type 0 where
  pub amount_sats : ℕ
  pub fee_limit_sats : ℕ
  pub timeout_seconds : ℕ
  pub sent_amount : Option ℕ

abbrev concat : String → String → String
concat = text_append

module _ (s : Settings) where
  abbrev pub check_network : String → Result Failure Unit
  check_network network =
      if truthy network && not (network == s.network)
      then err (
          api_error
            (concat "Invoice network (" (
              concat network
                (concat ") does not match configured network (" (concat s.network ")"))))
            400 "network_mismatch")
      else ok tt

  -- The amount that the request names, for an invoice without one.
  abbrev named_amount : Json → Result Failure ℕ
  named_amount null = err (
      api_error "Zero-amount invoice requires amount_sats in request body" 400
        "invoice_amount_required")
  named_amount amount = parse_sats amount "amount_sats" s.max_payment_sats

  abbrev pub amount_of : ℤ → Json → Result Failure ℕ
  amount_of (pos (suc n)) amount = ok (suc n)
  amount_of _ amount = named_amount amount

  abbrev check_amount : ℕ → Result Failure Unit
  check_amount amount_sats =
      if leb amount_sats 0
      then err (api_error "Payment amount must be positive" 400 "payment_amount_required")
      else if ltb s.max_payment_sats amount_sats
      then err (
          api_error
            (concat "Payment amount (" (
              concat (nat_text amount_sats) (
                concat " sats) exceeds maximum (" (concat (nat_text s.max_payment_sats) " sats)"))))
            400 "payment_amount_exceeds_limit")
      else ok tt

  -- `effective_fee_limit`
  abbrev pub fee_limit : ℕ → ℕ
  fee_limit amount_sats = min s.max_fee_sats (max 1 (amount_sats * s.max_fee_ppm / 1000000))

  abbrev check_fee : ℕ → ℕ → Result Failure Unit
  check_fee limit requested =
      if ltb limit requested
      then err (
          api_error
            (concat "Fee limit (" (
              concat (nat_text requested)
                (concat " sats) exceeds maximum (" (concat (nat_text limit) " sats)"))))
            400 "fee_limit_exceeds_maximum")
      else ok tt

  -- `amount_sats if invoice_amount_sats == 0 else None`
  abbrev sent_of : ℤ → ℕ → Option ℕ
  sent_of (pos zero) amount_sats = some amount_sats
  sent_of _ amount_sats = none

  abbrev pub with_timeout : ℤ → ℕ → ℕ → ℕ → Plan
  with_timeout invoice_amount_sats amount_sats requested_fee timeout_seconds = record {
    amount_sats = amount_sats;
    fee_limit_sats = requested_fee;
    timeout_seconds = timeout_seconds;
    sent_amount = sent_of invoice_amount_sats amount_sats;
  }

  abbrev pub with_fee : Fields → ℤ → ℕ → ℕ → Result Failure Plan
  with_fee body invoice_amount_sats amount_sats requested_fee =
      and_then (check_fee (fee_limit amount_sats) requested_fee) (λ _.
        and_then
          (parse_optional_int (get_or_null "timeout_seconds" body) "timeout_seconds" 60 1 600)
          (λ timeout_seconds.
            ok (with_timeout invoice_amount_sats amount_sats requested_fee timeout_seconds)))

  abbrev pub with_amount : Fields → ℤ → ℕ → Result Failure Plan
  with_amount body invoice_amount_sats amount_sats = and_then (check_amount amount_sats) (λ _.
      and_then
        (parse_optional_int (get_or_null "fee_limit_sats" body) "fee_limit_sats"
          (fee_limit amount_sats) 1 1000000)
        (with_fee body invoice_amount_sats amount_sats))

  unfoldable pub plan_of : Fields → ℤ → Result Failure Plan
  unfolding parse_sats parse_optional_int
  plan_of body invoice_amount_sats =
      and_then (amount_of invoice_amount_sats (get_or_null "amount_sats" body))
        (with_amount body invoice_amount_sats)

abbrev at_least_one : ℤ → ℕ
at_least_one (pos n) = max n 1
at_least_one (negsuc n) = 1

-- `int(time.time()) > invoice_ts + max(invoice_expiry, 1)`
abbrev pub is_expired : ℕ → ℕ → ℤ → Bool
is_expired now timestamp expiry = ltb (timestamp + at_least_one expiry) now

abbrev pub expired : Failure
expired = api_error "Invoice has expired" 400 "invoice_expired"

abbrev pub unsafe_key : Failure
unsafe_key =
    api_error "Idempotency-Key must be 16-128 safe printable characters" 400
      "invalid_idempotency_key"

-- `namespaced_key`
unfoldable pub payment_key : Request → Result Failure String
unfolding strip validate_idempotency_key_payment
payment_key r =
    and_then (checked_key validate_idempotency_key_payment unsafe_key r)
      (λ key. ok (namespaced r.principal_id key))

module _ (s : Settings) where
  -- The amount that is paid for an invoice of `z` sats, and what LND is told: the invoice's own amount, of which
  -- LND is told nothing, or the amount that the body of the request names, which LND is told where the invoice
  -- has none.
  abbrev pub IsAmount : Fields → ℤ → Plan → Type 0
  IsAmount body (pos (suc n)) p = (p.amount_sats ≡ suc n) × (p.sent_amount ≡ none)
  IsAmount body (pos zero) p =
      (parse_sats (get_or_null "amount_sats" body) "amount_sats" s.max_payment_sats
        ≡ ok p.amount_sats)
      × (p.sent_amount ≡ some p.amount_sats)
  IsAmount body (negsuc n) p =
      (parse_sats (get_or_null "amount_sats" body) "amount_sats" s.max_payment_sats
        ≡ ok p.amount_sats)
      × (p.sent_amount ≡ none)

  -- A plan that keeps to the limits of the settings, for an invoice of `z` sats and the body of a request.
  pub record IsWithin (body : Fields) (z : ℤ) (p : Plan) : Type 0 where
    pub positive : 1 ≤ p.amount_sats
    pub amount : p.amount_sats ≤ s.max_payment_sats
    pub fee : p.fee_limit_sats ≤ s.max_fee_sats
    pub rate : p.fee_limit_sats ≤ max 1 (p.amount_sats * s.max_fee_ppm / 1000000)
    pub asked : IsAmount body z p

  named_amount-ok :
      (amount : Json) (n : ℕ)
      → named_amount s amount ≡ ok n
      → parse_sats amount "amount_sats" s.max_payment_sats ≡ ok n
  named_amount-ok null n done = absurd (cc)
  named_amount-ok (bool b) n done = done
  named_amount-ok (int z) n done = done
  named_amount-ok (float x) n done = done
  named_amount-ok (str t) n done = done
  named_amount-ok (arr i) n done = done
  named_amount-ok (obj f) n done = done

  with_timeout-IsAmount :
      (body : Fields) (z : ℤ) (amount fee timeout : ℕ)
      → amount_of s z (get_or_null "amount_sats" body) ≡ ok amount
      → IsAmount body z (with_timeout s z amount fee timeout)
  with_timeout-IsAmount body (pos (suc n)) amount fee timeout done = (sym (ok-inj refl done), refl)
  with_timeout-IsAmount body (pos zero) amount fee timeout done =
      (named_amount-ok (get_or_null "amount_sats" body) amount done, refl)
  with_timeout-IsAmount body (negsuc n) amount fee timeout done =
      (named_amount-ok (get_or_null "amount_sats" body) amount done, refl)

  check_amount-ok : (n : ℕ) → check_amount s n ≡ ok tt → (1 ≤ n) × (n ≤ s.max_payment_sats)
  check_amount-ok n done = elim (Bool-cases (leb n 0)) [
    | inl e ↦ absurd (cc (rw e at done))
    | inr some_sats ↦ elim (Bool-cases (ltb s.max_payment_sats n)) [
      | inl e ↦ absurd (cc (rw (some_sats, e) at done))
      | inr within ↦ (ground arith, ground arith)
    ]
  ]

  check_fee-ok : (limit n : ℕ) → check_fee s limit n ≡ ok tt → n ≤ limit
  check_fee-ok limit n done = elim (Bool-cases (ltb limit n)) [
    | inl e ↦ absurd (cc (rw e at done))
    | inr within ↦ ground arith
  ]

  module _ (body : Fields) (z : ℤ) (p : Plan) where
    with_fee-IsWithin :
        (amount fee : ℕ)
        → (1 ≤ amount) × (amount ≤ s.max_payment_sats)
        → amount_of s z (get_or_null "amount_sats" body) ≡ ok amount
        → with_fee s body z amount fee ≡ ok p
        → IsWithin body z p
    with_fee-IsWithin amount fee (low, high) named done =
        let (u, limited, e) = and_then-ok (check_fee s (fee_limit s amount) fee) _ done in
        let (timeout, bounded, planned) =
          and_then-ok
            (parse_optional_int (get_or_null "timeout_seconds" body) "timeout_seconds" 60 1 600) _
            e in
        let least : fee ≤ fee_limit s amount = check_fee-ok (fee_limit s amount) fee limited in
        let within : IsWithin body z (with_timeout s z amount fee timeout) = record {
          positive = low;
          amount = high;
          fee = omega arith;
          rate = omega arith;
          asked = with_timeout-IsAmount body z amount fee timeout named;
        } in
        subst (IsWithin body z) (ok-inj refl planned) within

    with_amount-IsWithin :
        (amount : ℕ)
        → amount_of s z (get_or_null "amount_sats" body) ≡ ok amount
        → with_amount s body z amount ≡ ok p
        → IsWithin body z p
    with_amount-IsWithin amount named done =
        let (u, checked, e) = and_then-ok (check_amount s amount) _ done in
        let (fee, parsed, e') =
          and_then-ok
            (parse_optional_int (get_or_null "fee_limit_sats" body) "fee_limit_sats"
              (fee_limit s amount) 1 1000000)
            (with_fee s body z amount) e in
        with_fee-IsWithin amount fee (check_amount-ok amount checked) named e'

    -- The request is held to the limits on every path to a plan.
    pub plan_of-IsWithin : plan_of s body z ≡ ok p → IsWithin body z p
    unfolding plan_of
    plan_of-IsWithin done =
        let (amount, named, e) =
          and_then-ok (amount_of s z (get_or_null "amount_sats" body)) (with_amount s body z)
            done in
        with_amount-IsWithin amount named e
