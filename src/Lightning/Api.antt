-- ===== src/Lightning/Api.antt =====
-- lightning_flask/src/api/app.py: what its handlers share, and the error handlers. Of a response the document
-- and the status are kept.
use Prim.Native.String.{◌++◌ as text_append}
use rails.Prelude.{
  ℕ, String, string_eq, Bool, false, not, ◌&&◌, ◌||◌, ◌==◌, Option, none, some, ltb, leb,
  if◌then◌else◌,
}
use rails.Prelude.Int.{ℤ, pos}
use rails.Json.{Json, Fields, str, obj, get_or_null}
use rails.Text.{strip, truthy}
use rails.Table.{holds}
use rails.Effect.{Result, ok, err, and_then, pure, raise, lift, ◌>>=◌, ◌>>◌}
use rails.Lightning.Errors.{ApiError, Failure, api, replayed, crash, api_error}
use rails.Lightning.Security.{validate_idempotency_key}
use rails.Lightning.Store.Rows.{Idempotency, ClaimOutcome, claim, replay, is_claimed}
use rails.Lightning.Store.Claim.{claim_idempotent}
use rails.Lightning.Store.Settle.{save_idempotent, mark_failed, failure_payload}
use rails.Lightning.Store.Events.{state}
use rails.Lightning.Lnd.{or_else}
use rails.Lightning.Host.{
  Host, World, Handler, text_of, stored, set_key, set_claim_token, get_world,
}

-- What a handler reads of the request and of `g`; `body` is `request.get_json(silent=True)`, and
-- `idempotency_key` the header, empty where it is missing.
pub record Request : Type 0 where
  pub principal_id : String
  pub fingerprint : String
  pub idempotency_key : String
  pub body : Json

pub record Response : Type 0 where
  pub payload : Json
  pub status_code : ℤ

-- `_json`
abbrev pub json : Fields → ℕ → Response
json payload status = record { payload = obj payload; status_code = pos status }

abbrev pub key_required : Failure
key_required =
    api_error "Idempotency-Key header is required for payment operations" 400
      "idempotency_key_required"

abbrev short_key : Failure
short_key =
    api_error "Idempotency-Key must be at least 8 safe printable characters" 400
      "invalid_idempotency_key"

-- `f"{principal_id}:{key}"`
abbrev pub namespaced : String → String → String
namespaced principal_id key = text_append principal_id (text_append ":" key)

-- `if not validated: raise`
abbrev pub required : Failure → Option String → Result Failure String
required e none = err e
required e (some key) = if not (truthy key) then err e else ok key

-- `_payment_state`
pub data PaymentState : Type 0 where
  succeeded failed in_flight unknown : PaymentState

abbrev state_of : String → PaymentState
state_of status =
    if status == "SUCCEEDED"
      || (status == "SETTLED" || (status == "COMPLETED" || status == "COMPLETE"))
    then PaymentState.succeeded
    else if status == "FAILED"
        || (status == "FAILURE" || (status == "CANCELED" || status == "CANCELLED"))
    then PaymentState.failed
    else if status == "IN_FLIGHT"
        || (status == "INITIATED" || (status == "PENDING" || status == "SUBMITTED"))
    then PaymentState.in_flight
    else PaymentState.unknown

-- The key that the header holds: `raw_key`, and what follows it.
abbrev pub checked_key :
    (String → Result Failure (Option String)) → Failure → Request → Result Failure String
checked_key validate invalid r =
    if not (truthy (strip r.idempotency_key))
    then err key_required
    else and_then (validate (strip r.idempotency_key)) (required invalid)

module _ {Node : Type 0} (h : Host Node) where
  unfoldable pub payment_state : Fields → PaymentState
  unfolding strip
  payment_state payment =
      state_of (h.upper (strip (text_of h (or_else (get_or_null "status" payment) (str "")))))

  abbrev keep_token : ClaimOutcome → Handler Node Unit
  keep_token (claim c) = set_claim_token c.token
  keep_token (replay r) = raise (replayed r.payload r.status_code)

  -- `_require_idempotency`
  unfoldable pub require_idempotency : Request → Handler Node Unit
  unfolding strip validate_idempotency_key
  require_idempotency r = do
    validated ← lift (checked_key validate_idempotency_key short_key r)
    set_key (namespaced r.principal_id validated)
    outcome ← stored h (λ now uuid.
        claim_idempotent h.lease now uuid (namespaced r.principal_id validated) r.fingerprint none
          "")
    keep_token outcome

  -- The claim that `g` names is settled with the response.
  abbrev pub save : Request → Fields → ℕ → World Node → Handler Node Unit
  save r payload status w =
      if truthy w.key && truthy w.claim_token
      then stored h (λ now uuid.
        save_idempotent h.lower now w.key r.fingerprint w.claim_token (obj payload) (pos status))
      else pure tt

  -- `_idempotent`
  unfoldable pub idempotent : Request → Fields → ℕ → Handler Node Response
  idempotent r payload status = do
    w ← get_world
    save r payload status w
    pure (json payload status)

  -- `state and state.get("state") == "CLAIMED" and state.get("claim_token") == claim_token`
  abbrev pub is_own_claim : String → Option Idempotency → Bool
  is_own_claim claim_token none = false
  is_own_claim claim_token (some row) = is_claimed row.state && holds row.claim_token claim_token

  abbrev pub give_up : Request → ApiError → World Node → Option Idempotency → Handler Node Unit
  give_up r e w row =
      if is_own_claim w.claim_token row
      then stored h (λ now uuid.
        mark_failed now w.key r.fingerprint w.claim_token e.code e.message (pos e.status_code))
      else pure tt

  -- A claim whose request is refused before anything was submitted is settled as failed.
  abbrev pub release : Request → ApiError → World Node → Handler Node Unit
  release r e w =
      if truthy w.key && (truthy w.claim_token && (leb 400 e.status_code && ltb e.status_code 500))
      then (do row ← stored h (λ now uuid. state w.key); give_up r e w row)
      else pure tt

  -- `api_error`
  unfoldable pub api_error_handler : Request → ApiError → Handler Node Response
  unfolding state
  api_error_handler r e = do
    w ← get_world
    release r e w
    pure (record { payload = failure_payload e.code e.message; status_code = pos e.status_code })

  -- `unhandled`, also for what an error handler raises.
  abbrev pub unhandled : Response
  unhandled = record {
    payload = failure_payload "internal_error" "Internal server error";
    status_code = pos 500;
  }

  abbrev pub or_unhandled : Result Failure Response × World Node → Response × World Node
  or_unhandled (ok response, w) = (response, w)
  or_unhandled (err e, w) = (unhandled, w)

  -- The error handlers on what a handler has come to.
  abbrev pub handled : Request → Result Failure Response × World Node → Response × World Node
  handled r (ok response, w) = (response, w)
  handled r (err (api e), w) = or_unhandled (api_error_handler r e w)
  handled r (err (replayed payload status), w) =
      (record { payload = payload; status_code = status }, w)
  handled r (err (crash text), w) = (unhandled, w)

  -- A request and its response. `authenticate_and_prepare` has set `g` up: without a key and without a claim.
  unfoldable pub respond : Handler Node Response → Request → World Node → Response × World Node
  unfolding api_error_handler
  respond handler r w = handled r (handler (record w { key = ""; claim_token = "" }))
