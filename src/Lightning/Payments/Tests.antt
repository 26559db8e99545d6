-- ===== src/Lightning/Payments/Tests.antt =====
-- POST /v1/payments of lightning_flask/src/api/app.py against a scripted LND.
use rails.Prelude.{
  ◌+◌, ◌*◌, ◌≤◌, String, string_eq, ◌≡◌, refl, true, none, List, [], ◌∷◌, ◌==◌, if◌then◌else◌,
}
use rails.Prelude.Int.{pos}
use rails.Json.{Json, null, bool, int, str, arr, obj, nil, cons, end, field}
use rails.Text.{length, every, strip, strip_start, strip_end, take}
use rails.Text.Digits.{put_digits, digit_char, nat_text}
use rails.Text.Integer.{parse_int, int_digits}
use rails.Table.{select, update, count, insert}
use rails.Bitcoin.Validation.Text.{lower_hex}
use rails.Lightning.Security.{
  require_json_object, parse_sats, parse_optional_int, validate_idempotency_key_payment,
  validate_payment_hash, validate_bolt11,
}
use rails.Lightning.Security.Invoice.{is_invoice, after_word}
use rails.Lightning.Store.Claim.{claim_idempotent}
use rails.Lightning.Store.Settle.{
  save_idempotent, mark_submitted, mark_failed, mark_unknown, update_owned,
}
use rails.Lightning.Store.Events.{append_event, query_payment_by_hash, latest, state}
use rails.Effect.{Result, ok, ok-inj}
use rails.Lightning.Errors.{Failure}
use rails.Lightning.Config.{Settings}
use rails.Lightning.Store.Rows.{find_key}
use rails.Lightning.Store.Calls.{Call, step, run}
use rails.Lightning.Store.Once.{may_still_submit}
use rails.Lightning.Host.{
  Host, World, LndCall, Answer, document, unavailable, time_now, request, read_answer, stored,
}
use rails.Lightning.Lnd.{
  payments_path, decode_invoice, pay_invoice, lookup_payment, search_pages, find_payment, as_int,
  hash_to_hex,
}
use rails.Lightning.Lnd.Rounds.{asked, lookup_ends}
use rails.Lightning.Api.{Request, Response, respond, idempotent, api_error_handler, payment_state}
use rails.Lightning.Payments.{
  pay_invoice_handler, serve, check_expiry, claim_and_pay, on_claim, pay_or_reconcile, reconcile,
  submit, conclude,
}
use rails.Lightning.Payments.Checks.{payment_key, plan_of}
use rails.Lightning.Payments.Bounded.{AllPaid, payments}
use rails.Lightning.Payments.Accepted.{Settled, returned_is_stored}
use rails.Lightning.Strip.{strip_keys}
use rails.Lightning.Payments.Once.{AllFor, paid_at_most_once}
use rails.Lightning.Payments.Limits.{IsDue, payments_are_within_limits}

abbrev settings : Settings
settings = record {
  network = "mainnet";
  max_invoice_sats = 50000000;
  max_payment_sats = 50000000;
  max_fee_sats = 5000;
  max_fee_ppm = 500;
  default_invoice_expiry_seconds = 3600;
}

abbrev payment_hash : String
payment_hash = "00112233445566778899aabbccddeeff00112233445566778899aabbccddeeff"

abbrev decoded : Json
decoded = obj (
    field "payment_hash" (str payment_hash) (
      field "num_satoshis" (str "2500")
        (field "timestamp" (str "1700000000") (field "expiry" (str "3600") end))))

-- LND takes the first payment and does not answer, and knows it as in flight from then on.
abbrev answer : LndCall → Answer
answer x =
    if x.path == payments_path
    then unavailable
    else if x.path == "/v1/payments"
    then document (
        obj (
          field "payments"
            (arr (
              cons
                (obj
                  (field "payment_hash" (str payment_hash) (field "status" (str "IN_FLIGHT") end)))
                nil))
            end))
    else document decoded

-- Between any two calls of the requests another worker claims a key of its own.
abbrev host : Host Unit
host = record {
  send = λ x node. (answer x, node);
  show = λ j. "";
  lower = λ s. s;
  upper = λ s. s;
  unbase64 = λ s. none;
  whole = λ t. ok (pos 0);
  quote = λ s. s;
  lease = 60;
  clock = λ n. 1700000010 + 100 * n;
  uuid = λ n. "worker-1";
  others =
      λ n. (1700000000, Call.claims "worker-2" "12345678:other-payment-0001" "hash" none "") ∷ [];
}

abbrev r : Request
r = record {
  principal_id = "12345678";
  fingerprint = "fingerprint";
  idempotency_key = " payout-2024-07-001 ";
  body = obj (field "payment_request" (str "lnbc25u1p3xnhl2pp5jptserfk3") end);
}

abbrev key : String
key = "12345678:payout-2024-07-001"

abbrev start : World Unit
start = record {
  node = tt;
  calls = [];
  db = record { idempotency = []; lightning_events = [] };
  tick = 0;
  key = "";
  claim_token = "";
}

r_key : payment_key r ≡ ok key
unfolding payment_key length every strip strip_start strip_end
r_key = refl

abbrev requests : List Request
requests = r ∷ r ∷ r ∷ []

requests-AllFor : AllFor key requests
requests-AllFor = (same, (same, (same, tt)))
  where
    same : (k : String) → payment_key r ≡ ok k → k ≡ key
    same k named = ok-inj named r_key

-- The first request pays, and the others find the payment in flight.
paid_once : payments (serve settings host requests start).calls ≡ 1
unfolding serve respond pay_invoice_handler check_expiry claim_and_pay on_claim pay_or_reconcile
    reconcile submit conclude idempotent api_error_handler payment_state plan_of payment_key
    time_now decode_invoice pay_invoice lookup_payment search_pages find_payment as_int hash_to_hex
    request read_answer stored run step claim_idempotent save_idempotent mark_submitted mark_failed
    mark_unknown update_owned append_event query_payment_by_hash latest state select update count
    insert require_json_object parse_sats parse_optional_int validate_idempotency_key_payment
    validate_payment_hash validate_bolt11 is_invoice after_word lower_hex parse_int int_digits
    length every strip strip_start strip_end take nat_text put_digits digit_char payments
paid_once = refl

paid_at_most_once_example :
    payments (serve settings host requests start).calls
    ≤ payments start.calls + (if may_still_submit (find_key key start.db) then 1 else 0)
paid_at_most_once_example = paid_at_most_once settings host key requests start requests-AllFor tt

payments_are_within_limits_example :
    AllPaid
      (IsDue settings host tt r)
      (respond host (pay_invoice_handler settings host r) r start).1.calls
payments_are_within_limits_example = payments_are_within_limits settings host r start tt refl

lookup_ends_example :
    asked (lookup_payment host (str payment_hash) start).1.calls ≤ 20 + asked start.calls
lookup_ends_example = lookup_ends host (str payment_hash) start

-- LND takes the payment and answers.
abbrev paying : Host Unit
paying = record host {
  send = λ x node. (
    if x.path == payments_path
        then document (obj (field "payment_hash" (str payment_hash) end))
        else answer x,
    node,
  );
  upper = λ s. if s == "submitted" then "SUBMITTED" else s;
}

abbrev out : Result Failure Response × World Unit
out = pay_invoice_handler settings paying r start

abbrev receipt : Response
receipt = record {
  payload = obj (
      field "success" (bool true) (
        field "payment"
          (obj (
            field "payment_hash" (str payment_hash) (
              field "payment_error" null
                (field "status" (str "submitted") (field "fee_limit_sats" (int (pos 1)) end)))))
          end));
  status_code = pos 202;
}

accepted : out.0 ≡ ok receipt
unfolding pay_invoice_handler check_expiry claim_and_pay on_claim pay_or_reconcile reconcile submit
    conclude idempotent api_error_handler payment_state plan_of payment_key time_now decode_invoice
    pay_invoice lookup_payment search_pages find_payment as_int hash_to_hex request read_answer
    stored run step claim_idempotent save_idempotent mark_submitted mark_failed mark_unknown
    update_owned append_event query_payment_by_hash latest state select update count insert
    require_json_object parse_sats parse_optional_int validate_idempotency_key_payment
    validate_payment_hash validate_bolt11 is_invoice after_word lower_hex parse_int int_digits
    length every strip strip_start strip_end take nat_text put_digits digit_char payments strip_keys
accepted = refl

returned_is_stored_example : Settled settings paying r (λ n. refl) receipt out.1
returned_is_stored_example =
    returned_is_stored settings paying r (λ n. refl) start receipt tt accepted
