-- ===== src/Lightning/Payments/Accepted.antt =====
-- A payment that is accepted is settled: requests of POST /v1/payments in lightning_flask/src/api/app.py.
use rails.Prelude.{ℕ, zero, suc, String, ◌≡◌, refl, true}
use rails.Prelude.Int.{ℤ, pos, negsuc}
use rails.Json.{get_or_null}
use rails.Text.{truthy}
use rails.Effect.{Result, ok, err, ok-inj, lift}
use rails.Effect.Triple.{
  Outcome, Triple, bind_rule, attempt_rule, pure_rule, raise_rule, lift_rule_in, lift_rule_with,
  given_rule, if_rule, strengthen_rule,
}
use rails.Lightning.Errors.{Failure}
use rails.Lightning.Config.{Settings}
use rails.Lightning.Security.{require_json_object, validate_bolt11, validate_payment_hash}
use rails.Lightning.Store.Rows.{HasKeys}
use rails.Lightning.Host.{Host, World, time_now}
use rails.Lightning.Lnd.{Decoded}
use rails.Lightning.Api.{Request, Response}
use rails.Lightning.Payments.{decoded_or_raise, check_expiry, expiry_at, pay_invoice_handler}
use rails.Lightning.Payments.Checks.{check_network, plan_of, payment_key, is_expired, expired}
use rails.Lightning.Payments.Asking.{decode_invoice-Keeps}
use rails.Lightning.Payments.Accepting.{IsAccepted, Any, Keyed, request-Keyed}
use rails.Lightning.Payments.Claiming.{claim_and_pay-IsAccepted, payment_key-truthy}

module _ {Node : Type 0} (s : Settings) (h : Host Node) (r : Request)
    (tokens : (n : ℕ) → truthy (h.uuid n) ≡ true) where
  abbrev F : World Node → Type 0
  F = Any

  abbrev P : World Node → Type 0
  P = Keyed

  lift-Keyed : {A : Type 0} (x : Result Failure A) → Triple F P (lift x) (λ _. P)
  lift-Keyed x = lift_rule_in x (λ w k. record {})

  time_now-Keyed : Triple F P (time_now h) (λ _. P)
  unfolding time_now
  time_now-Keyed = record { at = λ w k. record { keys = k.keys } }

  expiry_at-Keyed : (decoded : Decoded) (z : ℤ) → Triple F P (expiry_at s h decoded z) (λ _. P)
  expiry_at-Keyed decoded (pos (suc t)) = bind_rule time_now-Keyed (λ now.
      if_rule (is_expired now (suc t) decoded.expiry) _ _
        (λ _. raise_rule (λ _. P) expired (λ w k. record {}))
        (λ _. pure_rule (λ _. P) tt (λ w k. k)))
  expiry_at-Keyed decoded (pos zero) = pure_rule (λ _. P) tt (λ w k. k)
  expiry_at-Keyed decoded (negsuc t) = pure_rule (λ _. P) tt (λ w k. k)

  check_expiry-Keyed : (decoded : Decoded) → Triple F P (check_expiry s h decoded) (λ _. P)
  unfolding check_expiry
  check_expiry-Keyed decoded = expiry_at-Keyed decoded decoded.timestamp

  -- The request has a key, and its row is settled with the response.
  abbrev pub Settled : Response → World Node → Type 0
  Settled response w = (key : String) × (payment_key r ≡ ok key) × IsAccepted h key response w

  handler-Settled : Triple F P (pay_invoice_handler s h r) Settled
  unfolding pay_invoice_handler
  handler-Settled = bind_rule (lift-Keyed (require_json_object r.body)) (λ body.
      bind_rule (lift-Keyed (validate_bolt11 h.show (get_or_null "payment_request" body))) (λ pr.
        bind_rule (attempt_rule (decode_invoice-Keeps h P (λ x unpaid. request-Keyed h x) pr))
          (λ attempted. bind_rule (lift-Keyed (decoded_or_raise s h attempted)) (λ decoded.
            bind_rule (lift-Keyed (validate_payment_hash h.show decoded.payment_hash)) (λ hash.
              bind_rule (lift-Keyed (check_network s decoded.network)) (λ u.
                bind_rule (check_expiry-Keyed decoded) (λ v.
                  bind_rule (lift-Keyed (plan_of s body decoded.num_satoshis)) (λ plan.
                    bind_rule (lift_rule_with (payment_key r) (λ w k. record {})) (λ key.
                      given_rule (λ named.
                        strengthen_rule
                          (claim_and_pay-IsAccepted s h r tokens key
                            (payment_key-truthy r key named) pr hash plan)
                          (λ a w k. (key, named, k))))))))))))

  returned :
      (o : Result Failure Response × World Node) (response : Response)
      → Outcome F Settled o
      → o.0 ≡ ok response
      → Settled response o.1
  returned (ok a, w) response q done = rw⁻¹ (ok-inj refl done) q
  returned (err e, w) response q done = absurd (cc)

  -- If a payment request returns a response, it has a valid key, whose row is then SUCCEEDED with the
  -- response's status and with its document stripped of what is not to be stored, whatever LND answers and
  -- whatever the other workers call in between.
  -- The keys of the database are distinct, and a uuid4 is no empty text.
  pub returned_is_stored :
      (w : World Node) (response : Response)
      → HasKeys w.db
      → (pay_invoice_handler s h r w).0 ≡ ok response
      → Settled response (pay_invoice_handler s h r w).1
  returned_is_stored w response u done =
      returned (pay_invoice_handler s h r w) response (handler-Settled.at w (record { keys = u }))
        done
