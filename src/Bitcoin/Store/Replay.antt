-- ===== src/Bitcoin/Store/Replay.antt =====
-- What a client gets that sends a settled request again.
use rails.Prelude.{
  ℕ, ◌+◌, ◌<◌, String, string_eq, eq_iff, ◌≡◌, refl, sym, ◌∙◌, true, some, List, arith,
}
use mathlib.Core.Option.{some-injective}
use rails.Prelude.Int.{ℤ}
use rails.Json.{Json}
use rails.Effect.{ok}
use rails.Bitcoin.Store.Rows.{is_final, IdempotencyRecord, Db, Settings, replay, find_key}
use rails.Bitcoin.Store.Claim.{claim_idempotent}
use rails.Bitcoin.Store.Settle.{
  may_respond, responded, failed, failure_payload, store_response, mark_failed,
}
use rails.Bitcoin.Store.Calls.{Call, step, run}
use rails.Bitcoin.Store.Owner.{HasKeys, update_claimed-ok}
use rails.Bitcoin.Store.Keys.{step-HasKeys, run-HasKeys}
use rails.Bitcoin.Store.Claiming.{replay_of, claim_idempotent-live}
use rails.Bitcoin.Store.History.{Before, run-final}

-- A settled row answers a claim of its own request with its replay.
claim_settled :
    (c : Settings) (now : ℕ) (token key scope request_hash : String) (db : Db)
    (r : IdempotencyRecord)
    → HasKeys db
    → find_key key db ≡ some r
    → is_final r.state ≡ true
    → now < r.expires_at
    → r.scope ≡ scope
    → r.request_hash ≡ request_hash
    → claim_idempotent c now token key scope request_hash db ≡ (ok (replay_of r), db)
claim_settled c now token key scope request_hash db r u found final live same_scope same_hash =
    rw (claim_idempotent-live c now token key scope request_hash db u found (ground arith))
      (ground (arith, eq_iff r.scope scope, eq_iff r.request_hash request_hash))

module _ (c : Settings) (now : ℕ) (key scope request_hash token : String) (status : ℤ)
    (response : Json) (db : Db) (u : HasKeys db) where
  abbrev answered : Db
  answered = (store_response c now key scope request_hash token status response db).1

  answered-HasKeys : HasKeys answered
  unfolding step
  answered-HasKeys =
      step-HasKeys c now (Call.responds key scope request_hash token status response) db u

  answered_row :
      (store_response c now key scope request_hash token status response db).0 ≡ ok tt
      → (r : IdempotencyRecord) × (find_key key db ≡ some r)
        × (may_respond scope request_hash token r ≡ true)
        × (find_key key answered ≡ some (responded c now status response r))
  unfolding store_response
  answered_row done = update_claimed-ok key _ _ db u (λ r. refl) done

  -- Once `store_response` has returned, and whatever calls of whatever workers come between, a claim of
  -- the same key, scope and request hash, made before the response expires, answers with the replay
  -- of that status and that response, and changes nothing.
  -- The keys of the database are distinct.
  pub replay_after_response :
      (later : ℕ) (token' : String) (calls : List (ℕ × Call))
      → (store_response c now key scope request_hash token status response db).0 ≡ ok tt
      → Before (now + c.ttl) calls
      → later < now + c.ttl
      → claim_idempotent c later token' key scope request_hash (run c calls answered)
        ≡ (ok (replay (record { status_code = status; response = response })), run c calls answered)
  replay_after_response later token' calls done before live =
      let (r, found, may, kept) = answered_row done in
      let row : IdempotencyRecord = responded c now status response r in
      let still : find_key key (run c calls answered) ≡ some row =
        run-final c key row calls answered answered-HasKeys kept refl before in
      claim_settled c later token' key scope request_hash (run c calls answered) row
        (run-HasKeys c calls answered answered-HasKeys) still refl live
        (ground (arith, eq_iff r.scope scope)) (ground (arith, eq_iff r.request_hash request_hash))

module _ (c : Settings) (now : ℕ) (key token : String) (status : ℤ) (error_code message : String)
    (db : Db) (u : HasKeys db) (r : IdempotencyRecord) (found : find_key key db ≡ some r) where
  abbrev failed_db : Db
  failed_db = (mark_failed now key token status error_code message db).1

  failed-HasKeys : HasKeys failed_db
  unfolding step
  failed-HasKeys = step-HasKeys c now (Call.fails key token status error_code message) db u

  failed_row :
      (mark_failed now key token status error_code message db).0 ≡ ok tt
      → find_key key failed_db ≡ some (failed now status error_code message r)
  unfolding mark_failed
  failed_row done =
      let (x, fx, may, kept) = update_claimed-ok key _ _ db u (λ r. refl) done in
      let same : x ≡ r = some-injective x r (sym fx ∙ found) in rw same at kept

  -- Once `mark_failed` has returned, and whatever calls come between, a claim of the same request made
  -- before the row expires answers with the recorded failure, its status code and its payload.
  -- The keys of the database are distinct.
  pub replay_after_failure :
      (later : ℕ) (token' : String) (calls : List (ℕ × Call))
      → (mark_failed now key token status error_code message db).0 ≡ ok tt
      → Before r.expires_at calls
      → later < r.expires_at
      → claim_idempotent c later token' key r.scope r.request_hash (run c calls failed_db) ≡ (
        ok (
            replay
              (record { status_code = status; response = failure_payload error_code message })),
        run c calls failed_db,
      )
  replay_after_failure later token' calls done before live =
      let row : IdempotencyRecord = failed now status error_code message r in
      let still : find_key key (run c calls failed_db) ≡ some row =
        run-final c key row calls failed_db failed-HasKeys (failed_row done) refl before in
      claim_settled c later token' key r.scope r.request_hash (run c calls failed_db) row
        (run-HasKeys c calls failed_db failed-HasKeys) still refl live refl refl
