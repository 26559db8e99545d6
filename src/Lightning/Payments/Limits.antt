-- ===== src/Lightning/Payments/Limits.antt =====
-- What a request of POST /v1/payments in lightning_flask/src/api/app.py pays: the invoice of its body, within the
-- limits, for the amount that LND reads from the invoice.
use rails.Prelude.{ℕ, ◌+◌, String, string_eq, ◌≡◌, refl, ap, [], arith}
use rails.Prelude.Int.{ℤ}
use rails.Json.{Json, Fields, null, bool, int, float, str, arr, obj, get_or_null}
use rails.Effect.{Result, ok, err, ok-inj}
use rails.Lightning.Config.{Settings}
use rails.Lightning.Security.{require_json_object, validate_bolt11}
use rails.Lightning.Store.Rows.{HasKeys}
use rails.Lightning.Host.{Host, World, LndCall}
use rails.Lightning.Lnd.{pay_body}
use rails.Lightning.Api.{Request, respond}
use rails.Lightning.Payments.{pay_invoice_handler}
use rails.Lightning.Payments.Checks.{Plan, IsWithin, plan_of-IsWithin, payment_key}
use rails.Lightning.Payments.Quoting.{Quoted}
use rails.Lightning.Payments.Bounded.{AllPaid, payments, left}
use rails.Lightning.Payments.Requests.{Payable, respond-Keeps}

-- A call that pays the invoice of the request's body, by a plan within the limits for the amount that the node
-- answers of this invoice and what the body asks for.
pub record IsDue {Node : Type 0} (s : Settings) (h : Host Node) (node : Node) (r : Request)
    (x : LndCall) : Type 0 where
  pub body : Fields
  pub payment_request : String
  pub invoice_sats : ℤ
  pub plan : Plan
  pub asked : r.body ≡ obj body
  pub invoice : validate_bolt11 h.show (get_or_null "payment_request" body) ≡ ok payment_request
  pub quoted : Quoted h node payment_request invoice_sats
  pub within : IsWithin s body invoice_sats plan
  pub paid :
      x.body ≡ pay_body payment_request plan.fee_limit_sats plan.timeout_seconds plan.sent_amount

require_json_object-ok : (j : Json) (body : Fields) → require_json_object j ≡ ok body → j ≡ obj body
unfolding require_json_object
require_json_object-ok (obj f) body done = ap obj (ok-inj refl done)
require_json_object-ok null body done = absurd (cc)
require_json_object-ok (bool b) body done = absurd (cc)
require_json_object-ok (int z) body done = absurd (cc)
require_json_object-ok (float x) body done = absurd (cc)
require_json_object-ok (str t) body done = absurd (cc)
require_json_object-ok (arr i) body done = absurd (cc)

module _ {Node : Type 0} (s : Settings) (h : Host Node) (r : Request) (w : World Node) where
  abbrev W : LndCall → Type 0
  W = IsDue s h w.node r

  due-Payable : (key : String) (n : ℕ) → Payable s W h key n r w.node
  due-Payable key n body payment_request z plan asked checked quoted planned = record {
    body = body;
    payment_request = payment_request;
    invoice_sats = z;
    plan = plan;
    asked = require_json_object-ok r.body body asked;
    invoice = checked;
    quoted = quoted;
    within = plan_of-IsWithin s body z plan planned;
    paid = refl;
  }

  -- Whatever LND answers, a request asks LND to pay no other invoice than the valid one of its body, and for
  -- this only within the limits of the settings. The amount is the one that LND answered when it was asked for
  -- this invoice, or, where this is not positive, the `amount_sats` of the body; it is positive and at most
  -- `max_payment_sats`. The fee limit is at most `max_fee_sats` and at most the larger of 1 and the amount's
  -- share of `max_fee_ppm` millionths. LND is told an amount only for an invoice of 0 sats, and then this one.
  -- The keys of the database are distinct, and the request starts with no calls made.
  pub payments_are_within_limits :
      HasKeys w.db → w.calls ≡ [] → AllPaid W (respond h (pay_invoice_handler s h r) r w).1.calls
  payments_are_within_limits u fresh = go (payment_key r) refl
    where
      for_key :
          (key : String)
          → ((k : String) → payment_key r ≡ ok k → k ≡ key)
          → AllPaid W (respond h (pay_invoice_handler s h r) r w).1.calls
      for_key key mine =
          let n = payments w.calls + left key w.db in
          (respond-Keeps s W h key n r w (due-Payable key n) mine
            (record { keys = u; bound = omega arith; paid = rw fresh tt })).paid

      go :
          (o : Result _ String)
          → payment_key r ≡ o
          → AllPaid W (respond h (pay_invoice_handler s h r) r w).1.calls
      go (ok key) named = for_key key (λ k other. ok-inj other named)
      go (err e) refused = for_key "" (λ k other. absurd (cc))
