-- ===== src/Lightning/Store/Claim.antt =====
-- CohesionStore of lightning_flask/src/infra/cohesion.py: the claim of a key. `now` is what the method reads
-- from the clock, `claim_token` the text of its fresh uuid4.
use rails.Prelude.{
  ℕ, ◌+◌, String, string_eq, nat_eq, Bool, true, not, ◌&&◌, Option, none, some, ◌==◌, ltb, leb,
  if◌then◌else◌,
}
use rails.Prelude.Int.{negsuc}
use rails.Json.{obj, end}
use rails.Text.{truthy_column}
use rails.Effect.{pure, raise, gets, atomic, ◌>>=◌, ◌>>◌}
use rails.Lightning.Errors.{ApiError}
use rails.Lightning.Store.Rows.{
  State, is_final, Idempotency, lease_of, ClaimOutcome, claim, replay, find_key, Store, update_rows,
  insert_row,
}

abbrev pub conflict : ApiError
conflict = record {
  message = "Idempotency-Key was reused with a different request";
  status_code = 409;
  code = "idempotency_conflict";
}

abbrev pub in_progress : ApiError
in_progress = record {
  message = "Request with this Idempotency-Key is still in progress";
  status_code = 409;
  code = "idempotency_in_progress";
}

-- `payment_hash or ""`
abbrev pub or_empty : Option String → String
or_empty none = ""
or_empty (some s) = s

-- `int(row["lease_expires_at"] or 0)`
abbrev pub or_zero : Option ℕ → ℕ
or_zero none = 0
or_zero (some t) = t

-- The row that a fresh claim inserts; the columns that the INSERT does not name are NULL.
abbrev pub fresh_row : ℕ → ℕ → String → String → String → Option String → String → Idempotency
fresh_row lease now claim_token key fingerprint payment_hash network = record {
  key = key;
  fingerprint = fingerprint;
  status_code = negsuc 0;
  response_json = obj end;
  created_at = now;
  claim_token = some claim_token;
  claimed_at = some now;
  lease_expires_at = some (now + lease_of lease);
  state = State.claimed;
  payment_hash = some (or_empty payment_hash);
  payment_network = network;
  settled_at = none;
  last_error = none;
}

-- `row["claim_token"] and int(row["lease_expires_at"] or 0) > now`
abbrev pub is_leased : ℕ → Idempotency → Bool
is_leased now r = truthy_column r.claim_token && ltb now (or_zero r.lease_expires_at)

-- `claim_token IS NULL OR lease_expires_at IS NULL OR lease_expires_at <= now`
abbrev pub is_free : ℕ → Option String → Option ℕ → Bool
is_free now none lease = true
is_free now (some u) none = true
is_free now (some u) (some t) = leb t now

abbrev pub may_take : ℕ → String → Idempotency → Bool
may_take now fingerprint r =
    r.fingerprint == fingerprint && is_free now r.claim_token r.lease_expires_at

abbrev pub taken : ℕ → ℕ → String → Idempotency → Idempotency
taken lease now claim_token r = record r {
  claim_token = some claim_token;
  claimed_at = some now;
  lease_expires_at = some (now + lease_of lease);
}

-- `str(row["payment_hash"] or "") or payment_hash`
abbrev pub existing_hash : Option String → Option String → Option String
existing_hash stored payment_hash = if truthy_column stored then stored else payment_hash

claim_row :
    ℕ
    → ℕ
    → String
    → String
    → String
    → Option String
    → String
    → Option Idempotency
    → Store ClaimOutcome
claim_row lease now claim_token key fingerprint payment_hash network none = do
  insert_row (fresh_row lease now claim_token key fingerprint payment_hash network)
  pure (
      claim (record {
        key = key;
        token = claim_token;
        state = State.claimed;
        payment_hash = payment_hash;
      }))
claim_row lease now claim_token key fingerprint payment_hash network (some r) =
    if not (r.fingerprint == fingerprint)
    then raise conflict
    else if is_final r.state
    then pure (replay (record { payload = r.response_json; status_code = r.status_code }))
    else if is_leased now r
    then raise in_progress
    else do
      n ←
          update_rows (λ x. x.key == key && may_take now fingerprint x)
            (taken lease now claim_token)
      if not (n == 1)
          then raise in_progress
          else pure (
              claim (record {
                key = key;
                token = claim_token;
                state = r.state;
                payment_hash = existing_hash r.payment_hash payment_hash;
              }))

unfoldable pub claim_idempotent :
    ℕ → ℕ → String → String → String → Option String → String → Store ClaimOutcome
unfolding claim_row
claim_idempotent lease now claim_token key fingerprint payment_hash network = atomic do
  row ← gets (find_key key)
  claim_row lease now claim_token key fingerprint payment_hash network row
