-- ===== src/Lightning/Payments/Steps.antt =====
-- The handler of POST /v1/payments in lightning_flask/src/api/app.py step by step: each keeps the invariant of
-- Bounded.
use rails.Prelude.{ℕ, zero, suc, String, string_eq, ◌≡◌, refl, Bool, ◌&&◌, [], ◌∷◌, Option, some}
use rails.Prelude.Int.{ℤ, pos, negsuc}
use rails.Json.{Fields, obj}
use rails.Text.{truthy}
use rails.Effect.{Result, ok, err, raise, ◌>>◌}
use rails.Effect.Triple.{Triple, bind_rule, attempt_rule, pure_rule, raise_rule, if_rule}
use rails.Lightning.Errors.{Failure}
use rails.Lightning.Config.{Settings}
use rails.Lightning.Store.Rows.{State, is_in_doubt, Db, Store}
use rails.Lightning.Store.Settle.{save_idempotent, mark_failed, mark_unknown}
use rails.Lightning.Store.Events.{append_event, event_row, state}
use rails.Lightning.Store.Calls.{Call, step, run}
use rails.Lightning.Host.{
  Host, World, LndCall, Handler, stored, time_now, set_key, set_claim_token, get_world,
}
use rails.Lightning.Lnd.{Decoded}
use rails.Lightning.Api.{Request, PaymentState, payment_state, save, idempotent}
use rails.Lightning.Payments.{
  Payment, mark_unknown_with, mark_failed_with, log_event, reconcile, accept, reconciled_as,
  expiry_at, refuse_if, is_other_hash, is_rejected, is_unknown, conclude, submit, pay_or_reconcile,
}
use rails.Lightning.Payments.Bounded.{Keeps, stored_rule, request_rule, submit_rule}
use rails.Lightning.Payments.Asking.{payment_call, lookup_payment-Keeps, pay_invoice-Spends}

module _ {Node : Type 0} (s : Settings) (W : LndCall → Type 0) (h : Host Node) (key : String)
    (n : ℕ) where
  abbrev K : World Node → Type 0
  K = Keeps W key n

  abbrev pub Keeping : {A : Type 0} → Handler Node A → Type 0
  Keeping m = Triple K K m (λ _. K)

  -- The store's methods, each as the call that it is.
  pub one_call :
      {A : Type 0} (m : ℕ → String → Store A) (call : ℕ → String → Call)
      → ((now : ℕ) (uuid : String) (db : Db)
          → (m now uuid db).1 ≡ step h.lower h.lease now (call now uuid) db)
      → Keeping (stored h m)
  unfolding run
  one_call m call same =
      stored_rule W h key n m
        (record { calls = λ now uuid db. (now, call now uuid) ∷ []; runs = same })

  pub no_call :
      {A : Type 0} (m : ℕ → String → Store A)
      → ((now : ℕ) (uuid : String) (db : Db) → (m now uuid db).1 ≡ db)
      → Keeping (stored h m)
  unfolding run
  no_call m same = stored_rule W h key n m (record { calls = λ now uuid db. []; runs = same })

  pub get_world-Keeps : Keeping (get_world {Node = Node})
  get_world-Keeps = record { at = λ w k. k }

  -- What concerns `g` and the clock alone.
  pub set_key-Keeps : (k : String) → Keeping (set_key k)
  set_key-Keeps k = record {
    at = λ w kept. record { keys = kept.keys; bound = kept.bound; paid = kept.paid };
  }

  pub set_claim_token-Keeps : (token : String) → Keeping (set_claim_token token)
  set_claim_token-Keeps token = record {
    at = λ w kept. record { keys = kept.keys; bound = kept.bound; paid = kept.paid };
  }

  time_now-Keeps : Keeping (time_now h)
  unfolding time_now
  time_now-Keeps = record {
    at = λ w kept. record { keys = kept.keys; bound = kept.bound; paid = kept.paid };
  }

  pub refuse_if-Keeps : (refused : Bool) (e : Failure) → Keeping (refuse_if s h refused e)
  refuse_if-Keeps refused e =
      if_rule refused _ _ (λ _. raise_rule _ e (λ w k. k)) (λ _. pure_rule _ tt (λ w k. k))

  pub expiry_at-Keeps : (decoded : Decoded) (z : ℤ) → Keeping (expiry_at s h decoded z)
  expiry_at-Keeps decoded (pos (suc t)) = bind_rule time_now-Keeps (λ now. refuse_if-Keeps _ _)
  expiry_at-Keeps decoded (pos zero) = pure_rule _ tt (λ w k. k)
  expiry_at-Keeps decoded (negsuc t) = pure_rule _ tt (λ w k. k)

  module _ (r : Request) where
    save-Keeps :
        (payload : Fields) (status : ℕ) (w : World Node) → Keeping (save h r payload status w)
    unfolding step
    save-Keeps payload status w =
        if_rule (truthy w.key && truthy w.claim_token) _ _
          (λ _.
            one_call
              (λ now uuid.
                save_idempotent h.lower now w.key r.fingerprint w.claim_token (obj payload)
                  (pos status))
              (λ now uuid. Call.saves w.key r.fingerprint w.claim_token (obj payload) (pos status))
              (λ now uuid db. refl))
          (λ _. pure_rule _ tt (λ w k. k))

    idempotent-Keeps : (payload : Fields) (status : ℕ) → Keeping (idempotent h r payload status)
    unfolding idempotent
    idempotent-Keeps payload status =
        bind_rule get_world-Keeps
          (λ w. bind_rule (save-Keeps payload status w) (λ u. pure_rule _ _ (λ w k. k)))

    module _ (p : Payment) where
      mark_unknown-Keeps : (error : String) → Keeping (mark_unknown_with s h r p error)
      unfolding step
      mark_unknown-Keeps error =
          one_call
            (λ now uuid. mark_unknown h.lease now p.key r.fingerprint p.token p.payment_hash error)
            (λ now uuid. Call.doubts p.key r.fingerprint p.token p.payment_hash error)
            (λ now uuid db. refl)

      mark_failed-Keeps : (code message : String) → Keeping (mark_failed_with s h r p code message)
      unfolding step
      mark_failed-Keeps code message =
          one_call (λ now uuid. mark_failed now p.key r.fingerprint p.token code message (pos 409))
            (λ now uuid. Call.fails p.key r.fingerprint p.token code message (pos 409))
            (λ now uuid db. refl)

      log_event-Keeps :
          (event_type : String) (status : Option String) (metadata : Fields)
          → Keeping (log_event s h r p event_type status metadata)
      unfolding step
      log_event-Keeps event_type status metadata =
          one_call
            (λ now uuid. append_event (
              event_row h.lower now event_type (some p.payment_hash) (some p.plan.amount_sats)
                status metadata p.key))
            (λ now uuid. Call.appends (
              event_row h.lower now event_type (some p.payment_hash) (some p.plan.amount_sats)
                status metadata p.key))
            (λ now uuid db. refl)

      -- A step, and then an exception.
      failing :
          {A B : Type 0} {m : Handler Node A} (e : Failure)
          → Keeping m
          → Triple K K (m >> raise {A = B} e) (λ _. K)
      failing e t = bind_rule t (λ u. raise_rule _ e (λ w k. k))

      reconciled_as-Keeps :
          (reconciled : Fields) (state : PaymentState)
          → Keeping (reconciled_as s h r p reconciled state)
      reconciled_as-Keeps reconciled PaymentState.succeeded =
          bind_rule (log_event-Keeps _ _ _) (λ u. idempotent-Keeps _ 202)
      reconciled_as-Keeps reconciled PaymentState.failed = failing _ (mark_failed-Keeps _ _)
      reconciled_as-Keeps reconciled PaymentState.in_flight = failing _ (mark_unknown-Keeps _)
      reconciled_as-Keeps reconciled PaymentState.unknown = failing _ (mark_unknown-Keeps _)

      reconcile-Keeps : (o : Result Failure Fields) → Keeping (reconcile s h r p o)
      unfolding reconcile
      reconcile-Keeps (err e) = failing _ (mark_unknown-Keeps _)
      reconcile-Keeps (ok reconciled) = reconciled_as-Keeps reconciled _

      accept-Keeps : (result : Fields) → Keeping (accept s h r p result)
      accept-Keeps result = bind_rule (log_event-Keeps _ _ _) (λ u. idempotent-Keeps _ 202)

      conclude-Keeps : (o : Result Failure Fields) → Keeping (conclude s h r p o)
      unfolding conclude
      conclude-Keeps (err e) = failing _ (mark_unknown-Keeps _)
      conclude-Keeps (ok result) =
          if_rule (is_other_hash s h r p result) _ _ (λ _. failing _ (mark_unknown-Keeps _))
            (λ _.
              if_rule (is_rejected s h r p result (payment_state h result)) _ _
                (λ _. failing _ (mark_failed-Keeps _ _))
                (λ _.
                  if_rule (is_unknown s h r p (payment_state h result)) _ _
                    (λ _. failing _ (mark_unknown-Keeps _)) (λ _. accept-Keeps result)))

      module _ (mine : p.key ≡ key) (fits : W (payment_call p.payment_request p.plan)) where
        submit-Keeps : Keeping (submit s h r p)
        unfolding submit
        submit-Keeps =
            bind_rule (rw mine (submit_rule W h key n r.fingerprint p.token p.payment_hash)) (λ u.
              bind_rule (attempt_rule (pay_invoice-Spends W h key n p.payment_request p.plan fits))
                conclude-Keeps)

        pub pay_or_reconcile-Keeps : (state : State) → Keeping (pay_or_reconcile s h r p state)
        unfolding pay_or_reconcile
        pay_or_reconcile-Keeps state =
            if_rule (is_in_doubt state) _ _
              (λ _.
                bind_rule (attempt_rule (lookup_payment-Keeps h K (request_rule W h key n) _))
                  reconcile-Keeps)
              (λ _. submit-Keeps)
