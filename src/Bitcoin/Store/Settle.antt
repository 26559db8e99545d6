-- ===== src/Bitcoin/Store/Settle.antt =====
-- CohesionStore of bitcoin_core_backend/src/infra/store.py: how a claim ends, or is left for the next
-- worker.
use rails.Prelude.{
  ℕ, ◌+◌, String, string_eq, nat_eq, Bool, false, not, ◌&&◌, Option, none, some, ◌==◌,
  if◌then◌else◌,
}
use rails.Prelude.Int.{ℤ}
use rails.Json.{Json, bool, str, obj, end, field}
use rails.Text.{take, truthy}
use rails.Effect.{pure, gets, atomic, ◌>>=◌, ◌>>◌}
use rails.Table.{holds}
use rails.Bitcoin.Store.Rows.{
  State, is_final, is_claimed, is_rejectable, is_sendable, IdempotencyRecord, TransactionRecord,
  Settings, claim_lease_seconds, Store, find_key, update_transactions,
}
use rails.Bitcoin.Store.Claim.{update_claimed}

-- `scope = ? AND request_hash = ? AND claim_token = ? AND state NOT IN ('SUCCEEDED', 'FAILED_FINAL')`
abbrev pub may_respond : String → String → String → IdempotencyRecord → Bool
may_respond scope request_hash claim_token r =
    r.scope == scope
    && (r.request_hash == request_hash
        && (holds r.claim_token claim_token && not (is_final r.state)))

abbrev pub responded : Settings → ℕ → ℤ → Json → IdempotencyRecord → IdempotencyRecord
responded c now status_code response r = record r {
  status_code = status_code;
  response_json = response;
  expires_at = now + c.ttl;
  state = State.succeeded;
  settled_at = some now;
  lease_expires_at = none;
  claim_token = none;
  last_error = none;
}

unfoldable pub store_response :
    Settings → ℕ → String → String → String → String → ℤ → Json → Store Unit
store_response c now key scope request_hash claim_token status_code response =
    update_claimed key (may_respond scope request_hash claim_token)
      (responded c now status_code response)

-- `WHERE id = (SELECT prepared_record_id FROM idempotency_records WHERE key = ?)`
abbrev pub is_prepared_of : Option IdempotencyRecord → TransactionRecord → Bool
is_prepared_of none t = false
is_prepared_of (some r) t = elim r.prepared_record_id [ none ↦ false | some i ↦ t.id == i ]

abbrev pub with_status : ℕ → String → TransactionRecord → TransactionRecord
with_status now status t = record t { status = status; updated_at = now }

-- `UPDATE transaction_records SET status = ?, updated_at = ?` at the record of a key.
unfoldable pub set_status : ℕ → String → String → Store ℕ
set_status now key status = do
  row ← gets (find_key key)
  update_transactions (is_prepared_of row) (with_status now status)

-- `claim_token = ? AND payment_hash = ? AND state IN ('PREPARED', 'UNKNOWN', 'BROADCAST')`
abbrev pub may_send : String → String → IdempotencyRecord → Bool
may_send claim_token txid r =
    holds r.claim_token claim_token && (holds r.payment_hash txid && is_sendable r.state)

abbrev pub sent : Settings → ℕ → String → IdempotencyRecord → IdempotencyRecord
sent c now txid r = record r {
  state = State.broadcast;
  payment_hash = some txid;
  lease_expires_at = some (now + claim_lease_seconds c);
  last_error = none;
}

unfoldable pub mark_broadcast : Settings → ℕ → String → String → String → Store Unit
mark_broadcast c now key claim_token txid = atomic do
  update_claimed key (may_send claim_token txid) (sent c now txid)
  set_status now key "broadcast"
  pure tt

-- The body that a failed request replays.
abbrev pub failure_payload : String → String → Json
failure_payload error_code message = obj (
    field "success" (bool false)
      (field "errorCode" (str error_code) (field "message" (str message) end)))

abbrev pub failed : ℕ → ℤ → String → String → IdempotencyRecord → IdempotencyRecord
failed now status_code error_code message r = record r {
  status_code = status_code;
  response_json = failure_payload error_code message;
  state = State.failed_final;
  settled_at = some now;
  lease_expires_at = none;
  claim_token = none;
  last_error = some (take 500 message);
}

-- `claim_token = ? AND state = 'CLAIMED'`
abbrev pub may_fail : String → IdempotencyRecord → Bool
may_fail claim_token r = holds r.claim_token claim_token && is_claimed r.state

unfoldable pub mark_failed : ℕ → String → String → ℤ → String → String → Store Unit
mark_failed now key claim_token status_code error_code message =
    update_claimed key (may_fail claim_token) (failed now status_code error_code message)

-- `claim_token = ? AND state IN ('PREPARED', 'UNKNOWN')`
abbrev pub may_reject : String → IdempotencyRecord → Bool
may_reject claim_token r = holds r.claim_token claim_token && is_rejectable r.state

unfoldable pub mark_prepared_failed : ℕ → String → String → ℤ → String → String → Store Unit
mark_prepared_failed now key claim_token status_code error_code message = atomic do
  update_claimed key (may_reject claim_token) (failed now status_code error_code message)
  set_status now key "rejected"
  pure tt

-- `(error or "Bitcoin broadcast result is unknown")[:500]`
abbrev pub unknown_reason : String → String
unknown_reason error =
    take 500 (if truthy error then error else "Bitcoin broadcast result is unknown")

abbrev pub left_unknown : Settings → ℕ → String → String → IdempotencyRecord → IdempotencyRecord
left_unknown c now txid error r = record r {
  state = State.unknown;
  payment_hash = some txid;
  lease_expires_at = some (now + claim_lease_seconds c);
  last_error = some (unknown_reason error);
}

unfoldable pub mark_unknown : Settings → ℕ → String → String → String → String → Store Unit
mark_unknown c now key claim_token txid error =
    update_claimed key (may_send claim_token txid) (left_unknown c now txid error)
