-- ===== src/Lightning/Payments.antt =====
-- lightning_flask/src/api/app.py: `pay_invoice`, the handler of POST /v1/payments. Its checks are in Checks.
pub mod Checks
pub mod Bounded
pub mod Asking
pub mod Quoting
pub mod Steps
pub mod Requests
pub mod Once
pub mod Limits
pub mod Accepting
pub mod Settling
pub mod Claiming
pub mod Accepted
mod Tests
use rails.Prelude.{
  ℕ, zero, suc, String, List, [], ◌∷◌, string_eq, Bool, true, false, not, ◌&&◌, ◌||◌, ◌==◌, Option,
  none, some, if◌then◌else◌,
}
use rails.Prelude.Int.{ℤ, pos, negsuc}
use rails.Json.{Json, Fields, bool, int, str, obj, end, field, get_or_null, is_truthy}
use rails.Text.{truthy}
use rails.Effect.{Result, ok, err, pure, raise, lift, attempt, ◌>>=◌, ◌>>◌}
use rails.Lightning.Errors.{Failure, api, replayed, crash, api_error}
use rails.Lightning.Security.{require_json_object, validate_bolt11, validate_payment_hash}
use rails.Lightning.Config.{Settings}
use rails.Lightning.Store.Rows.{
  State, is_in_doubt, Idempotency, IdempotencyClaim, ClaimOutcome, claim, replay, Store,
}
use rails.Lightning.Store.Claim.{claim_idempotent}
use rails.Lightning.Store.Settle.{mark_submitted, mark_failed, mark_unknown}
use rails.Lightning.Store.Events.{query_payment_by_hash, append_event, event_row}
use rails.Lightning.Host.{Host, World, Handler, text_of, stored, time_now, set_key, set_claim_token}
use rails.Lightning.Lnd.{Decoded, or_else, decode_invoice, lookup_payment, pay_invoice}
use rails.Lightning.Api.{Request, Response, PaymentState, payment_state, idempotent, respond}
use rails.Lightning.Payments.Checks.{Plan, check_network, is_expired, expired, plan_of, payment_key}

-- What the steps behind the claim work with.
pub record Payment : Type 0 where
  pub payment_request : String
  pub payment_hash : String
  pub plan : Plan
  pub key : String
  pub token : String

abbrev pub result_unknown : Failure
result_unknown =
    api_error "Payment result is unknown. Reconcile before retrying." 504 "payment_timeout_unknown"

-- `str(exc)`
abbrev error_text : Failure → String
error_text (api e) = e.message
error_text (replayed payload status) = ""
error_text (crash text) = text

-- A column of a text; `pay_invoice` and `lookup_payment` return no other status that is kept.
abbrev column_of : Json → Option String
column_of (str s) = some s
column_of j = none

abbrev is_final_failure : State → Bool
is_final_failure State.failed_final = true
is_final_failure _ = false

-- The payment of another key that has not failed for good.
abbrev pub is_duplicate : String → Option Idempotency → Bool
is_duplicate key none = false
is_duplicate key (some r) = not (r.key == key) && not (is_final_failure r.state)

abbrev pub duplicate : Failure
duplicate =
    api_error "Invoice has already been paid (duplicate payment_hash)" 409
      "payment_hash_already_settled"

module _ {Node : Type 0} (s : Settings) (h : Host Node) where
  -- The network errors of the decoding other than ApiError are one answer.
  abbrev pub decoded_or_raise : Result Failure Decoded → Result Failure Decoded
  decoded_or_raise (err (crash text)) =
      err (api_error "Failed to decode invoice from LND" 502 "lnd_decode_error")
  decoded_or_raise r = r

  abbrev pub refuse_if : Bool → Failure → Handler Node Unit
  refuse_if refused e = if refused then raise e else pure tt

  abbrev pub expiry_at : Decoded → ℤ → Handler Node Unit
  expiry_at decoded (pos (suc t)) =
      time_now h >>= λ now. refuse_if (is_expired now (suc t) decoded.expiry) expired
  expiry_at decoded _ = pure tt

  unfoldable pub check_expiry : Decoded → Handler Node Unit
  unfolding time_now
  check_expiry decoded = expiry_at decoded decoded.timestamp

  module _ (r : Request) (p : Payment) where
    abbrev pub mark_unknown_with : String → Handler Node Unit
    mark_unknown_with error =
        stored h
          (λ now uuid. mark_unknown h.lease now p.key r.fingerprint p.token p.payment_hash error)

    abbrev pub mark_failed_with : String → String → Handler Node Unit
    mark_failed_with code message =
        stored h (λ now uuid. mark_failed now p.key r.fingerprint p.token code message (pos 409))

    abbrev pub log_event : String → Option String → Fields → Handler Node Unit
    log_event event_type status metadata = stored h (λ now uuid. append_event (
        event_row h.lower now event_type (some p.payment_hash) (some p.plan.amount_sats) status
          metadata p.key))

    abbrev paid : Fields → Fields
    paid result = field "success" (bool true) (field "payment" (obj result) end)

    abbrev pub reconciled_as : Fields → PaymentState → Handler Node Response
    reconciled_as reconciled PaymentState.succeeded = do
      log_event "payment_reconciled" (some "succeeded")
          (field "source" (str "idempotency_retry") end)
      idempotent h r (paid reconciled) 202
    reconciled_as reconciled PaymentState.failed = do
      mark_failed_with "payment_failed" "LND reports that the previous payment failed"
      raise (api_error "Lightning payment failed" 409 "payment_failed")
    reconciled_as reconciled _ = do
      mark_unknown_with "LND payment is still in flight or unknown"
      raise (
          api_error
            "Previous payment is still in flight or unknown; no second payment was submitted" 409
            "payment_reconciliation_pending")

    -- What LND says of the payment that was submitted before.
    unfoldable pub reconcile : Result Failure Fields → Handler Node Response
    unfolding idempotent append_event payment_state
    reconcile (err e) = do
      mark_unknown_with (error_text e)
      raise (
          api_error "Unable to reconcile the previous Lightning payment attempt" 503
            "payment_reconciliation_unavailable")
    reconcile (ok reconciled) = reconciled_as reconciled (payment_state h reconciled)

    -- `returned_hash and returned_hash != payment_hash.lower()`
    abbrev pub is_other_hash : Fields → Bool
    is_other_hash result =
        let returned = h.lower (text_of h (or_else (get_or_null "payment_hash" result) (str ""))) in
        truthy returned && not (returned == h.lower p.payment_hash)

    abbrev pub is_rejected : Fields → PaymentState → Bool
    is_rejected result PaymentState.failed = true
    is_rejected result _ = is_truthy (get_or_null "payment_error" result)

    abbrev pub is_unknown : PaymentState → Bool
    is_unknown PaymentState.unknown = true
    is_unknown _ = false

    abbrev pub accept : Fields → Handler Node Response
    accept result = do
      log_event "payment_submitted" (column_of (get_or_null "status" result)) (
          field "fee_limit_sats" (int (pos p.plan.fee_limit_sats))
            (field "timeout_seconds" (int (pos p.plan.timeout_seconds)) end))
      idempotent h r (paid result) 202

    -- What `pay_invoice` of LND has come to.
    unfoldable pub conclude : Result Failure Fields → Handler Node Response
    unfolding idempotent append_event payment_state
    conclude (err e) = do mark_unknown_with (error_text e); raise result_unknown
    conclude (ok result) =
        if is_other_hash result
        then mark_unknown_with "LND returned a different payment hash"
          >> raise (
              api_error "LND returned a payment hash different from the decoded invoice" 502
                "payment_hash_mismatch")
        else if is_rejected result (payment_state h result)
        then mark_failed_with "payment_rejected" "LND rejected the payment"
          >> raise (api_error "LND rejected the payment" 409 "payment_rejected")
        else if is_unknown (payment_state h result)
        then mark_unknown_with "LND returned an unknown payment state" >> raise result_unknown
        else accept result

    -- The payment itself.
    unfoldable pub submit : Handler Node Response
    unfolding conclude pay_invoice
    submit = do
      stored h (λ now uuid. mark_submitted h.lease now p.key r.fingerprint p.token p.payment_hash)
      result ← attempt (
          pay_invoice h p.payment_request p.plan.fee_limit_sats p.plan.timeout_seconds
            p.plan.sent_amount)
      conclude result

    -- A claim of a payment that was submitted before is reconciled, never paid.
    unfoldable pub pay_or_reconcile : State → Handler Node Response
    unfolding reconcile submit lookup_payment
    pay_or_reconcile state =
        if is_in_doubt state
        then attempt (lookup_payment h (str p.payment_hash)) >>= reconcile
        else submit

  unfoldable pub on_claim :
      Request → String → String → Plan → String → ClaimOutcome → Handler Node Response
  unfolding pay_or_reconcile
  on_claim r payment_request payment_hash plan key (replay old) =
      raise (replayed old.payload old.status_code)
  on_claim r payment_request payment_hash plan key (claim c) = do
    set_claim_token c.token
    pay_or_reconcile r
        (record {
          payment_request = payment_request;
          payment_hash = payment_hash;
          plan = plan;
          key = key;
          token = c.token;
        })
        c.state

  -- The store's part.
  unfoldable pub claim_and_pay : Request → String → String → Plan → String → Handler Node Response
  unfolding on_claim
  claim_and_pay r payment_request payment_hash plan key = do
    set_key key
    existing ← stored h (λ now uuid. query_payment_by_hash payment_hash)
    refuse_if (is_duplicate key existing) duplicate
    outcome ← stored h (λ now uuid.
        claim_idempotent h.lease now uuid key r.fingerprint (some payment_hash) s.network)
    on_claim r payment_request payment_hash plan key outcome

  unfoldable pub pay_invoice_handler : Request → Handler Node Response
  unfolding check_expiry claim_and_pay decode_invoice plan_of payment_key validate_bolt11
      validate_payment_hash require_json_object
  pay_invoice_handler r = do
    body ← lift (require_json_object r.body)
    payment_request ← lift (validate_bolt11 h.show (get_or_null "payment_request" body))
    attempted ← attempt (decode_invoice h payment_request)
    decoded ← lift (decoded_or_raise attempted)
    payment_hash ← lift (validate_payment_hash h.show decoded.payment_hash)
    lift (check_network s decoded.network)
    check_expiry decoded
    plan ← lift (plan_of s body decoded.num_satoshis)
    key ← lift (payment_key r)
    claim_and_pay r payment_request payment_hash plan key

  -- One worker's payment requests, one after the other, each to its response.
  unfoldable pub serve : List Request → World Node → World Node
  unfolding respond pay_invoice_handler
  serve [] w = w
  serve (r ∷ requests) w = serve requests (respond h (pay_invoice_handler r) r w).1
