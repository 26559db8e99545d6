-- ===== src/Lightning/Payments/Requests.antt =====
-- A request of POST /v1/payments in lightning_flask/src/api/app.py, up to its response, keeps the invariant of
-- Bounded.
use rails.Prelude.{ℕ, String, ◌≡◌, refl, ◌&&◌, Option, some, leb, ltb}
use rails.Prelude.Int.{ℤ, pos}
use rails.Json.{Fields, get_or_null}
use rails.Text.{truthy}
use rails.Effect.{Result, ok, err}
use rails.Effect.Triple.{
  Outcome, Triple, bind_rule, pure_rule, raise_rule, lift_rule, lift_rule_with, given_rule, if_rule,
}
use rails.Lightning.Errors.{ApiError, Failure, api, replayed, crash}
use rails.Lightning.Config.{Settings}
use rails.Lightning.Security.{require_json_object, validate_bolt11, validate_payment_hash}
use rails.Lightning.Store.Rows.{Idempotency, ClaimOutcome, claim, replay}
use rails.Lightning.Store.Claim.{claim_idempotent}
use rails.Lightning.Store.Settle.{mark_failed}
use rails.Lightning.Store.Events.{query_payment_by_hash, state}
use rails.Lightning.Store.Calls.{Call, step}
use rails.Lightning.Host.{Host, World, LndCall}
use rails.Lightning.Lnd.{Decoded}
use rails.Lightning.Api.{
  Request, Response, is_own_claim, give_up, release, api_error_handler, or_unhandled, handled,
  respond,
}
use rails.Lightning.Payments.{
  is_duplicate, duplicate, on_claim, claim_and_pay, check_expiry, pay_invoice_handler,
}
use rails.Lightning.Payments.Checks.{Plan, check_network, plan_of, payment_key}
use rails.Lightning.Payments.Bounded.{Keeps}
use rails.Lightning.Payments.Asking.{payment_call}
use rails.Lightning.Payments.Quoting.{Quoted, Unasked, invoice_rule}
use rails.Lightning.Payments.Steps.{
  one_call, no_call, get_world-Keeps, set_key-Keeps, set_claim_token-Keeps, refuse_if-Keeps,
  expiry_at-Keeps, pay_or_reconcile-Keeps,
}

module _ {Node : Type 0} (s : Settings) (W : LndCall → Type 0) (h : Host Node) (key : String)
    (n : ℕ) where
  abbrev K : World Node → Type 0
  K = Keeps W key n

  check_expiry-Keeps : (decoded : Decoded) → Triple K K (check_expiry s h decoded) (λ _. K)
  unfolding check_expiry
  check_expiry-Keeps decoded = expiry_at-Keeps s W h key n decoded decoded.timestamp

  module _ (r : Request) where
    on_claim-Keeps :
        (payment_request payment_hash : String) (plan : Plan) (k : String)
        → k ≡ key
        → W (payment_call payment_request plan)
        → (o : ClaimOutcome)
        → Triple K K (on_claim s h r payment_request payment_hash plan k o) (λ _. K)
    unfolding on_claim
    on_claim-Keeps payment_request payment_hash plan k mine fits (replay old) =
        raise_rule _ _ (λ w kept. kept)
    on_claim-Keeps payment_request payment_hash plan k mine fits (claim c) =
        bind_rule (set_claim_token-Keeps s W h key n c.token) (λ u.
          pay_or_reconcile-Keeps s W h key n r
            (record {
              payment_request = payment_request;
              payment_hash = payment_hash;
              plan = plan;
              key = k;
              token = c.token;
            })
            mine fits c.state)

    claim_and_pay-Keeps :
        (payment_request payment_hash : String) (plan : Plan) (k : String)
        → k ≡ key
        → W (payment_call payment_request plan)
        → Triple K K (claim_and_pay s h r payment_request payment_hash plan k) (λ _. K)
    unfolding claim_and_pay query_payment_by_hash step
    claim_and_pay-Keeps payment_request payment_hash plan k mine fits =
        bind_rule (set_key-Keeps s W h key n k) (λ u.
          bind_rule
            (no_call s W h key n (λ now uuid. query_payment_by_hash payment_hash)
              (λ now uuid db. refl))
            (λ existing.
              bind_rule (refuse_if-Keeps s W h key n (is_duplicate k existing) duplicate) (λ v.
                bind_rule
                  (one_call s W h key n
                    (λ now uuid.
                      claim_idempotent h.lease now uuid k r.fingerprint (some payment_hash)
                        s.network)
                    (λ now uuid. Call.claims uuid k r.fingerprint (some payment_hash) s.network)
                    (λ now uuid db. refl))
                  (on_claim-Keeps payment_request payment_hash plan k mine fits))))

    -- What the request may pay, where LND has the node's state `node`: an invoice of its body by a plan for the
    -- amount that LND answers.
    abbrev pub Payable : Node → Type 0
    Payable node =
        (body : Fields) (payment_request : String) (z : ℤ) (plan : Plan)
        → require_json_object r.body ≡ ok body
        → validate_bolt11 h.show (get_or_null "payment_request" body) ≡ ok payment_request
        → Quoted h node payment_request z
        → plan_of s body z ≡ ok plan
        → W (payment_call payment_request plan)

    module _ (node : Node) (payable : Payable node)
        (mine : (k : String) → payment_key r ≡ ok k → k ≡ key) where
      handler-Keeps : Triple K (Unasked s W h key n node) (pay_invoice_handler s h r) (λ _. K)
      unfolding pay_invoice_handler
      handler-Keeps = bind_rule (lift_rule_with (require_json_object r.body) (λ w k. k.0)) (λ body.
          given_rule (λ asked.
            bind_rule
              (lift_rule_with (validate_bolt11 h.show (get_or_null "payment_request" body))
                (λ w k. k.0))
              (λ payment_request. given_rule (λ checked.
                invoice_rule s W h key n node payment_request _ (λ decoded quoted.
                  bind_rule (lift_rule (validate_payment_hash h.show decoded.payment_hash))
                    (λ payment_hash. bind_rule (lift_rule (check_network s decoded.network)) (λ u.
                      bind_rule (check_expiry-Keeps decoded) (λ v.
                        bind_rule (lift_rule_with (plan_of s body decoded.num_satoshis) (λ w k. k))
                          (λ plan. given_rule (λ planned.
                            bind_rule (lift_rule_with (payment_key r) (λ w k. k)) (λ k.
                              given_rule (λ named.
                                claim_and_pay-Keeps payment_request payment_hash plan k
                                  (mine k named)
                                  (payable body payment_request decoded.num_satoshis plan asked
                                    checked quoted planned)))))))))))))

    give_up-Keeps :
        (e : ApiError) (w : World Node) (row : Option Idempotency)
        → Triple K K (give_up h r e w row) (λ _. K)
    unfolding step
    give_up-Keeps e w row =
        if_rule (is_own_claim h w.claim_token row) _ _
          (λ _.
            one_call s W h key n
              (λ now uuid.
                mark_failed now w.key r.fingerprint w.claim_token e.code e.message
                  (pos e.status_code))
              (λ now uuid.
                Call.fails w.key r.fingerprint w.claim_token e.code e.message (pos e.status_code))
              (λ now uuid db. refl))
          (λ _. pure_rule _ tt (λ w k. k))

    release-Keeps : (e : ApiError) (w : World Node) → Triple K K (release h r e w) (λ _. K)
    unfolding state
    release-Keeps e w =
        if_rule
          (truthy w.key
            && (truthy w.claim_token && (leb 400 e.status_code && ltb e.status_code 500)))
          _ _
          (λ _.
            bind_rule (no_call s W h key n (λ now uuid. state w.key) (λ now uuid db. refl))
              (give_up-Keeps e w))
          (λ _. pure_rule _ tt (λ w k. k))

    api_error-Keeps : (e : ApiError) → Triple K K (api_error_handler h r e) (λ _. K)
    unfolding api_error_handler
    api_error-Keeps e =
        bind_rule (get_world-Keeps s W h key n)
          (λ w. bind_rule (release-Keeps e w) (λ u. pure_rule _ _ (λ w k. k)))

    or_unhandled-Keeps :
        (o : Result Failure Response × World Node) → Outcome K (λ _. K) o → K (or_unhandled h o).1
    or_unhandled-Keeps (ok response, w) k = k
    or_unhandled-Keeps (err e, w) k = k

    handled-Keeps :
        (o : Result Failure Response × World Node) → Outcome K (λ _. K) o → K (handled h r o).1
    handled-Keeps (ok response, w) k = k
    handled-Keeps (err (api e), w) k = or_unhandled-Keeps _ ((api_error-Keeps e).at w k)
    handled-Keeps (err (replayed payload status), w) k = k
    handled-Keeps (err (crash text), w) k = k

    pub respond-Keeps :
        (w : World Node)
        → Payable w.node
        → ((k : String) → payment_key r ≡ ok k → k ≡ key)
        → K w
        → K (respond h (pay_invoice_handler s h r) r w).1
    unfolding respond
    respond-Keeps w payable mine k = handled-Keeps _ (
        (handler-Keeps w.node payable mine).at (record w { key = ""; claim_token = "" })
          (record { keys = k.keys; bound = k.bound; paid = k.paid }, refl))
