-- ===== src/Bitcoin/Store/Claim.antt =====
-- CohesionStore of bitcoin_core_backend/src/infra/store.py: the operations on a claim. `now` is what
-- the operation reads from the clock, `claim_token` the text of its fresh uuid4.
use rails.Prelude.{
  ℕ, ◌+◌, String, string_eq, nat_eq, Bool, true, not, ◌&&◌, ◌||◌, Option, none, some, ◌==◌, ltb,
  leb, if◌then◌else◌,
}
use rails.Prelude.Int.{negsuc}
use rails.Json.{obj, end}
use rails.Text.{truthy_column}
use rails.Effect.{Result, ok, err, pure, raise, gets, atomic, ◌>>=◌, ◌>>◌}
use rails.Table.{holds, select}
use rails.Bitcoin.Errors.{Error, api_error}
use rails.Bitcoin.Store.Rows.{
  State, is_final, is_open, IdempotencyRecord, Settings, claim_lease_seconds, IdempotencyReplay,
  ClaimOutcome, claim, replay, Store, find_key, update_records, insert_record, delete_records,
}

abbrev pub key_reused : Error
key_reused =
    api_error 409 "IDEMPOTENCY_KEY_REUSED"
      "Idempotency-Key was already used for a different request."

abbrev pub in_progress : Error
in_progress =
    api_error 409 "IDEMPOTENCY_IN_PROGRESS"
      "A request with this Idempotency-Key is still in progress."

-- `_lost_claim`
abbrev pub lost_claim : Error
lost_claim =
    api_error 409 "IDEMPOTENCY_CLAIM_LOST" "This worker no longer owns the idempotency claim."

-- `UPDATE … SET f WHERE key = ? AND p`, with `if updated.rowcount != 1: raise self._lost_claim()`.
unfoldable pub update_claimed :
    String → (IdempotencyRecord → Bool) → (IdempotencyRecord → IdempotencyRecord) → Store Unit
update_claimed key p f = atomic do
  n ← update_records (λ r. r.key == key && p r) f
  if not (n == 1) then raise lost_claim else pure tt

-- `row["scope"] != scope or row["request_hash"] != request_hash`
abbrev pub is_other_request : String → String → IdempotencyRecord → Bool
is_other_request scope request_hash r =
    not (r.scope == scope) || not (r.request_hash == request_hash)

abbrev replayable :
    String → String → Option IdempotencyRecord → Result Error (Option IdempotencyReplay)
replayable scope request_hash none = ok none
replayable scope request_hash (some r) =
    if is_other_request scope request_hash r
    then err key_reused
    else if is_final r.state
    then ok (some (record { status_code = r.status_code; response = r.response_json }))
    else ok none

unfoldable pub get_replay : ℕ → String → String → String → Store (Option IdempotencyReplay)
get_replay now key scope request_hash db = (
  replayable scope request_hash
      (select (λ r. r.key == key && ltb now r.expires_at) db.idempotency_records),
  db,
)

-- `int(row["lease_expires_at"] or 0)`
abbrev pub or_zero : Option ℕ → ℕ
or_zero none = 0
or_zero (some t) = t

-- The lease test of a row that a worker holds.
abbrev pub is_leased : ℕ → IdempotencyRecord → Bool
is_leased now r = truthy_column r.claim_token && ltb now (or_zero r.lease_expires_at)

-- `claim_token IS NULL OR lease_expires_at IS NULL OR lease_expires_at <= now`
abbrev pub is_free : ℕ → Option String → Option ℕ → Bool
is_free now none lease = true
is_free now (some u) none = true
is_free now (some u) (some t) = leb t now

-- The row that a fresh claim inserts; the columns that the INSERT does not name have their default.
abbrev pub fresh_record : Settings → ℕ → String → String → String → String → IdempotencyRecord
fresh_record c now claim_token key scope request_hash = record {
  key = key;
  scope = scope;
  request_hash = request_hash;
  status_code = negsuc 0;
  response_json = obj end;
  created_at = now;
  expires_at = now + c.ttl;
  claim_token = some claim_token;
  claimed_at = some now;
  lease_expires_at = some (now + claim_lease_seconds c);
  state = State.claimed;
  payment_hash = none;
  payment_network = "";
  settled_at = none;
  prepared_record_id = none;
  last_error = none;
}

-- What the take-over of a free row sets.
abbrev pub taken : Settings → ℕ → String → IdempotencyRecord → IdempotencyRecord
taken c now claim_token r = record r {
  claim_token = some claim_token;
  claimed_at = some now;
  lease_expires_at = some (now + claim_lease_seconds c);
  expires_at = now + c.ttl;
}

-- An expired row is deleted before it is looked at.
drop_expired : ℕ → String → Option IdempotencyRecord → Store (Option IdempotencyRecord)
drop_expired now key none = pure none
drop_expired now key (some r) =
    if leb r.expires_at now
    then (do delete_records (λ x. x.key == key); pure none)
    else pure (some r)

claim_row :
    Settings → ℕ → String → String → String → String → Option IdempotencyRecord → Store ClaimOutcome
claim_row c now claim_token key scope request_hash none = do
  insert_record (fresh_record c now claim_token key scope request_hash)
  pure (
      claim (record {
        key = key;
        token = claim_token;
        state = State.claimed;
        prepared_record_id = none;
      }))
claim_row c now claim_token key scope request_hash (some r) =
    if is_other_request scope request_hash r
    then raise key_reused
    else if is_final r.state
    then pure (replay (record { status_code = r.status_code; response = r.response_json }))
    else if is_leased now r
    then raise in_progress
    else do
      n ←
          update_records
            (λ x.
              x.key == key
              && (x.request_hash == request_hash && is_free now x.claim_token x.lease_expires_at))
            (taken c now claim_token)
      if not (n == 1)
          then raise in_progress
          else pure (
              claim (record {
                key = key;
                token = claim_token;
                state = r.state;
                prepared_record_id = r.prepared_record_id;
              }))

unfoldable pub claim_idempotent :
    Settings → ℕ → String → String → String → String → Store ClaimOutcome
unfolding drop_expired claim_row
claim_idempotent c now claim_token key scope request_hash = atomic do
  row ← gets (find_key key)
  row ← drop_expired now key row
  claim_row c now claim_token key scope request_hash row

unfoldable pub heartbeat_claim : Settings → ℕ → String → String → Store Bool
heartbeat_claim c now key claim_token = do
  n ←
      update_records (λ r. r.key == key && (holds r.claim_token claim_token && is_open r.state))
        (λ r. record r { lease_expires_at = some (now + claim_lease_seconds c) })
  pure (ltb 0 n)

-- `idempotency_state`: the row, of which the caller sees six columns.
unfoldable pub idempotency_state : String → Store (Option IdempotencyRecord)
idempotency_state key = gets (find_key key)

unfoldable pub prune_expired : ℕ → Store ℕ
prune_expired now = delete_records (λ r. leb r.expires_at now)
