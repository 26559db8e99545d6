-- ===== src/Bitcoin/Store/Claiming.antt =====
-- `claim_idempotent` decided by the row that its key finds, branch by branch.
use rails.Prelude.{
  ℕ, String, string_eq, nat_eq, ◌≡◌, Bool, true, false, ◌&&◌, ◌==◌, Option, none, some, List, arith,
  leb, if◌then◌else◌,
}
use rails.Effect.{Result, ok, err}
use rails.Table.{count, delete, insert}
use rails.Bitcoin.Errors.{Error}
use rails.Bitcoin.Store.Rows.{
  is_final, IdempotencyRecord, Db, Settings, ClaimOutcome, claim, replay, find_key,
}
use rails.Bitcoin.Store.Claim.{
  key_reused, in_progress, is_other_request, is_leased, is_free, fresh_record, taken,
  claim_idempotent,
}
use rails.Bitcoin.Store.Owner.{HasKeys, after_update, count_claimed}

-- The claim that the winner of a row is given.
abbrev pub claim_of : String → String → IdempotencyRecord → ClaimOutcome
claim_of key token r = claim (record {
  key = key;
  token = token;
  state = r.state;
  prepared_record_id = r.prepared_record_id;
})

abbrev pub replay_of : IdempotencyRecord → ClaimOutcome
replay_of r = replay (record { status_code = r.status_code; response = r.response_json })

abbrev pub claim_test : ℕ → String → IdempotencyRecord → Bool
claim_test now request_hash x =
    x.request_hash == request_hash && is_free now x.claim_token x.lease_expires_at

-- A key that has no row, or an expired one.
abbrev pub is_vacant : ℕ → Option IdempotencyRecord → Bool
is_vacant now none = true
is_vacant now (some r) = leb r.expires_at now

module _ (c : Settings) (now : ℕ) (token key scope request_hash : String) (db : Db) where
  abbrev pub newcomer : IdempotencyRecord
  newcomer = fresh_record c now token key scope request_hash

  abbrev inserted : List IdempotencyRecord → Db
  inserted t = record db { idempotency_records = insert newcomer t }

  pub claim_idempotent-missing :
      find_key key db ≡ none
      → claim_idempotent c now token key scope request_hash db
        ≡ (ok (claim_of key token newcomer), inserted db.idempotency_records)
  unfolding claim_idempotent
  claim_idempotent-missing missing = rw missing

  pub claim_idempotent-expired :
      {r : IdempotencyRecord}
      → find_key key db ≡ some r
      → leb r.expires_at now ≡ true
      → claim_idempotent c now token key scope request_hash db ≡ (
        ok (claim_of key token newcomer),
        inserted (delete (λ x. x.key == key) db.idempotency_records),
      )
  unfolding claim_idempotent
  claim_idempotent-expired found old = rw (found, old)

  -- The answer for a row that has not expired.
  abbrev pub decided : IdempotencyRecord → Result Error ClaimOutcome × Db
  decided r =
      if is_other_request scope request_hash r
      then (err key_reused, db)
      else if is_final r.state
      then (ok (replay_of r), db)
      else if is_leased now r
      then (err in_progress, db)
      else if claim_test now request_hash r
      then (
        ok (claim_of key token r),
        after_update key (claim_test now request_hash) (taken c now token) db,
      )
      else (err in_progress, db)

  pub claim_idempotent-live :
      {r : IdempotencyRecord}
      → HasKeys db
      → find_key key db ≡ some r
      → leb r.expires_at now ≡ false
      → claim_idempotent c now token key scope request_hash db ≡ decided r
  unfolding claim_idempotent
  claim_idempotent-live {r} u found live = rw (found, live) (ground (arith, counted))
    where
      counted :
          count (λ x. x.key == key && claim_test now request_hash x) db.idempotency_records
          ≡ (if claim_test now request_hash r then 1 else 0)
      counted =
          rw found at (count_claimed key (claim_test now request_hash) (taken c now token) db u)
