-- ===== src/Lightning/Store/Settle.antt =====
-- CohesionStore of lightning_flask/src/infra/cohesion.py: what the worker that holds a claim does with it.
-- `lower` stands for Python's `str.lower`. Each method is one statement and its own transaction, which no
-- exception rolls back.
use rails.Prelude.{
  ℕ, ◌+◌, String, string_eq, nat_eq, Bool, false, not, ◌&&◌, none, some, ◌==◌, ltb, if◌then◌else◌,
}
use rails.Prelude.Int.{ℤ}
use rails.Json.{Json, bool, str, obj, end, field}
use rails.Text.{take, truthy}
use rails.Effect.{pure, raise, ◌>>=◌}
use rails.Table.{holds}
use rails.Lightning.Errors.{ApiError}
use rails.Lightning.Strip.{strip_keys, response_sensitive_keys}
use rails.Lightning.Store.Rows.{
  State, is_claimed, is_open, is_in_doubt, Idempotency, lease_of, Store, update_rows,
}

-- `_lost_claim`
abbrev pub lost_claim : ApiError
lost_claim = record {
  message = "This worker no longer owns the idempotency claim";
  status_code = 409;
  code = "idempotency_claim_lost";
}

-- `fingerprint = ? AND claim_token = ?`
abbrev pub is_owner : String → String → Idempotency → Bool
is_owner fingerprint claim_token r = r.fingerprint == fingerprint && holds r.claim_token claim_token

-- `UPDATE … SET f WHERE key = ? AND p`, with `if cursor.rowcount != 1: raise self._lost_claim()`.
unfoldable pub update_owned :
    String → (Idempotency → Bool) → (Idempotency → Idempotency) → Store Unit
update_owned key p f = do
  n ← update_rows (λ r. r.key == key && p r) f
  if not (n == 1) then raise lost_claim else pure tt

-- `… AND state IN ('CLAIMED', 'SUBMITTED', 'UNKNOWN')`
abbrev pub may_settle : String → String → Idempotency → Bool
may_settle fingerprint claim_token r = is_owner fingerprint claim_token r && is_open r.state

abbrev pub saved : ℕ → Json → ℤ → Idempotency → Idempotency
saved now response status_code r = record r {
  status_code = status_code;
  response_json = response;
  state = State.succeeded;
  settled_at = some now;
  claim_token = none;
  lease_expires_at = none;
  last_error = none;
}

unfoldable pub save_idempotent :
    (String → String) → ℕ → String → String → String → Json → ℤ → Store Unit
save_idempotent lower now key fingerprint claim_token response status_code =
    update_owned key (may_settle fingerprint claim_token)
      (saved now (strip_keys lower response_sensitive_keys response) status_code)

-- `… AND state = 'CLAIMED'`
abbrev pub may_submit : String → String → Idempotency → Bool
may_submit fingerprint claim_token r = is_owner fingerprint claim_token r && is_claimed r.state

abbrev pub submitted_row : ℕ → ℕ → String → Idempotency → Idempotency
submitted_row lease now payment_hash r = record r {
  state = State.submitted;
  payment_hash = some payment_hash;
  lease_expires_at = some (now + lease_of lease);
}

unfoldable pub mark_submitted : ℕ → ℕ → String → String → String → String → Store Unit
mark_submitted lease now key fingerprint claim_token payment_hash =
    update_owned key (may_submit fingerprint claim_token) (submitted_row lease now payment_hash)

abbrev pub failure_payload : String → String → Json
failure_payload error_code message = obj (
    field "success" (bool false)
      (field "error" (obj (field "code" (str error_code) (field "message" (str message) end))) end))

abbrev pub failed : ℕ → String → String → ℤ → Idempotency → Idempotency
failed now error_code message status_code r = record r {
  status_code = status_code;
  response_json = failure_payload error_code message;
  state = State.failed_final;
  settled_at = some now;
  claim_token = none;
  lease_expires_at = none;
  last_error = some (take 500 message);
}

unfoldable pub mark_failed : ℕ → String → String → String → String → String → ℤ → Store Unit
mark_failed now key fingerprint claim_token error_code message status_code =
    update_owned key (may_settle fingerprint claim_token)
      (failed now error_code message status_code)

-- `… AND state IN ('SUBMITTED', 'UNKNOWN')`
abbrev pub may_doubt : String → String → Idempotency → Bool
may_doubt fingerprint claim_token r = is_owner fingerprint claim_token r && is_in_doubt r.state

-- `(error or "Lightning payment result is unknown")[:500]`
abbrev pub unknown_reason : String → String
unknown_reason error =
    take 500 (if truthy error then error else "Lightning payment result is unknown")

abbrev pub left_unknown : ℕ → ℕ → String → String → Idempotency → Idempotency
left_unknown lease now payment_hash error r = record r {
  state = State.unknown;
  payment_hash = some payment_hash;
  lease_expires_at = some (now + lease_of lease);
  last_error = some (unknown_reason error);
}

unfoldable pub mark_unknown : ℕ → ℕ → String → String → String → String → String → Store Unit
mark_unknown lease now key fingerprint claim_token payment_hash error =
    update_owned key (may_doubt fingerprint claim_token) (left_unknown lease now payment_hash error)

abbrev pub beaten : ℕ → ℕ → Idempotency → Idempotency
beaten lease now r = record r { lease_expires_at = some (now + lease_of lease) }

unfoldable pub heartbeat_claim : ℕ → ℕ → String → String → String → Store Bool
heartbeat_claim lease now key fingerprint claim_token = do
  n ← update_rows (λ r. r.key == key && may_settle fingerprint claim_token r) (beaten lease now)
  pure (ltb 0 n)
