-- ===== src/Lightning/Payments/Settling.antt =====
-- The handler of POST /v1/payments in lightning_flask/src/api/app.py, from the claim to the response that it
-- returns: what it returns it has settled.
use rails.Prelude.{ℕ, String, ◌≡◌, refl, true, [], ◌∷◌, Option, some}
use rails.Prelude.Int.{pos}
use rails.Json.{Fields, str}
use rails.Text.{truthy}
use rails.Effect.{Result, ok, err, raise, ◌>>◌}
use rails.Effect.Triple.{Triple, bind_rule, attempt_rule, raise_rule, if_rule, relax_rule}
use rails.Lightning.Errors.{Failure}
use rails.Lightning.Config.{Settings}
use rails.Lightning.Store.Rows.{State, is_in_doubt, Db, Store}
use rails.Lightning.Store.Settle.{mark_submitted, mark_failed, mark_unknown}
use rails.Lightning.Store.Events.{append_event, event_row}
use rails.Lightning.Store.Calls.{Call, step, run}
use rails.Lightning.Host.{Host, World, Handler}
use rails.Lightning.Api.{Request, Response, PaymentState, payment_state, idempotent}
use rails.Lightning.Payments.{
  Payment, mark_unknown_with, mark_failed_with, log_event, reconciled_as, reconcile, is_other_hash,
  is_rejected, is_unknown, conclude, submit, pay_or_reconcile,
}
use rails.Lightning.Payments.Bounded.{IsHistory}
use rails.Lightning.Payments.Asking.{lookup_payment-Keeps, pay_invoice-Keeps}
use rails.Lightning.Payments.Accepting.{
  IsAccepted, Any, Claimed, stored-Claimed, request-Claimed, idempotent-IsAccepted,
}

module _ {Node : Type 0} (s : Settings) (h : Host Node) (key : String) (named : truthy key ≡ true)
    (r : Request) where
  abbrev C : World Node → Type 0
  C = Claimed key

  abbrev Accepts : Handler Node Response → Type 0
  Accepts m = Triple Any C m (λ a w. IsAccepted h key a w)

  pub one_call :
      {A : Type 0} (m : ℕ → String → Store A) (call : ℕ → String → Call)
      → ((now : ℕ) (uuid : String) (db : Db)
          → (m now uuid db).1 ≡ step h.lower h.lease now (call now uuid) db)
      → IsHistory h.lower h.lease m
  unfolding run
  one_call m call same = record { calls = λ now uuid db. (now, call now uuid) ∷ []; runs = same }

  -- Code that does not return is left alone.
  failing :
      {A : Type 0} {P : World Node → Type 0} {m : Handler Node A} (e : Failure)
      → Triple P P m (λ _. P)
      → Triple Any P (m >> raise {A = Response} e) (λ a w. IsAccepted h key a w)
  failing e t = bind_rule (relax_rule t (λ w k. record {})) (λ u. raise_rule _ e (λ w k. record {}))

  module _ (p : Payment) where
    mark_unknown-Claimed : (error : String) → Triple C C (mark_unknown_with s h r p error) (λ _. C)
    unfolding step
    mark_unknown-Claimed error = stored-Claimed h key _ (
        one_call
          (λ now uuid. mark_unknown h.lease now p.key r.fingerprint p.token p.payment_hash error)
          (λ now uuid. Call.doubts p.key r.fingerprint p.token p.payment_hash error)
          (λ now uuid db. refl))

    mark_failed-Claimed :
        (code message : String) → Triple C C (mark_failed_with s h r p code message) (λ _. C)
    unfolding step
    mark_failed-Claimed code message = stored-Claimed h key _ (
        one_call (λ now uuid. mark_failed now p.key r.fingerprint p.token code message (pos 409))
          (λ now uuid. Call.fails p.key r.fingerprint p.token code message (pos 409))
          (λ now uuid db. refl))

    -- An event and the response.
    logged-IsAccepted :
        (event_type : String) (status : Option String) (metadata payload : Fields)
        → Accepts (log_event s h r p event_type status metadata >> idempotent h r payload 202)
    unfolding step
    logged-IsAccepted event_type status metadata payload =
        bind_rule
          (relax_rule
            (stored-Claimed h key _ (
              one_call
                (λ now uuid. append_event (
                  event_row h.lower now event_type (some p.payment_hash) (some p.plan.amount_sats)
                    status metadata p.key))
                (λ now uuid. Call.appends (
                  event_row h.lower now event_type (some p.payment_hash) (some p.plan.amount_sats)
                    status metadata p.key))
                (λ now uuid db. refl)))
            (λ w k. record {}))
          (λ u. idempotent-IsAccepted h key r payload 202 named)

    reconciled_as-IsAccepted :
        (reconciled : Fields) (state : PaymentState)
        → Accepts (reconciled_as s h r p reconciled state)
    reconciled_as-IsAccepted reconciled PaymentState.succeeded = logged-IsAccepted _ _ _ _
    reconciled_as-IsAccepted reconciled PaymentState.failed = failing _ (mark_failed-Claimed _ _)
    reconciled_as-IsAccepted reconciled PaymentState.in_flight = failing _ (mark_unknown-Claimed _)
    reconciled_as-IsAccepted reconciled PaymentState.unknown = failing _ (mark_unknown-Claimed _)

    reconcile-IsAccepted : (o : Result Failure Fields) → Accepts (reconcile s h r p o)
    unfolding reconcile
    reconcile-IsAccepted (err e) = failing _ (mark_unknown-Claimed _)
    reconcile-IsAccepted (ok reconciled) = reconciled_as-IsAccepted reconciled _

    conclude-IsAccepted : (o : Result Failure Fields) → Accepts (conclude s h r p o)
    unfolding conclude
    conclude-IsAccepted (err e) = failing _ (mark_unknown-Claimed _)
    conclude-IsAccepted (ok result) =
        if_rule (is_other_hash s h r p result) _ _ (λ _. failing _ (mark_unknown-Claimed _))
          (λ _.
            if_rule (is_rejected s h r p result (payment_state h result)) _ _
              (λ _. failing _ (mark_failed-Claimed _ _))
              (λ _.
                if_rule (is_unknown s h r p (payment_state h result)) _ _
                  (λ _. failing _ (mark_unknown-Claimed _)) (λ _. logged-IsAccepted _ _ _ _)))

    submit-IsAccepted : Accepts (submit s h r p)
    unfolding submit step
    submit-IsAccepted =
        bind_rule
          (relax_rule
            (stored-Claimed h key _ (
              one_call
                (λ now uuid. mark_submitted h.lease now p.key r.fingerprint p.token p.payment_hash)
                (λ now uuid. Call.submits p.key r.fingerprint p.token p.payment_hash)
                (λ now uuid db. refl)))
            (λ w k. record {}))
          (λ u.
            bind_rule
              (attempt_rule (
                pay_invoice-Keeps h C C p.payment_request p.plan.fee_limit_sats
                  p.plan.timeout_seconds p.plan.sent_amount (request-Claimed h key _)))
              conclude-IsAccepted)

    pub pay_or_reconcile-IsAccepted : (state : State) → Accepts (pay_or_reconcile s h r p state)
    unfolding pay_or_reconcile
    pay_or_reconcile-IsAccepted state =
        if_rule (is_in_doubt state) _ _
          (λ _.
            bind_rule
              (attempt_rule (
                lookup_payment-Keeps h C (λ x unpaid. request-Claimed h key x)
                  (str p.payment_hash)))
              reconcile-IsAccepted)
          (λ _. submit-IsAccepted)
