-- ===== src/Bitcoin/Post/Twice.antt =====
-- A POST that is sent twice.
use rails.Prelude.{ℕ, ◌+◌, ◌<◌, String, ◌≡◌, Bool, true, some, List, inl, inr}
use rails.Prelude.Int.{ℤ, pos}
use rails.Json.{Json, Fields, obj}
use rails.Effect.{Result, ok, err, Result-cases}
use rails.Bitcoin.Errors.{Error}
use rails.Bitcoin.Store.Rows.{Db, Settings, IdempotencyClaim, claim}
use rails.Bitcoin.Store.Claim.{claim_idempotent}
use rails.Bitcoin.Store.Settle.{store_response}
use rails.Bitcoin.Store.Calls.{Call, run}
use rails.Bitcoin.Store.Owner.{HasKeys}
use rails.Bitcoin.Store.History.{Before}
use rails.Bitcoin.Store.Replay.{replay_after_response}
use rails.Bitcoin.Validation.Text.{validate_idempotency_key}
use rails.Bitcoin.Post.{
  Request, Moment, JsonHandler, scope_of, namespaced, ok_body, ok_fields, marked, is_success,
  json_post,
}

module _ (c : Settings) (fingerprint : String → String → Fields → String) (handler : JsonHandler)
    (required : Bool) (m : Moment) (r : Request) (body : Fields) (key : String) (db : Db)
    (cl : IdempotencyClaim) (claimed_db handled_db : Db) (payload : Fields) (status : ℕ)
    (posted : r.body ≡ obj body)
    (keyed : validate_idempotency_key r.idempotency_header ≡ ok (some key))
    (granted : claim_idempotent c m.claims_at m.claim_token
        (namespaced r key)
        (scope_of r)
        (fingerprint r.method r.path body)
        db
      ≡ (ok (claim cl), claimed_db))
    (handled : handler body
        (some key)
        (fingerprint r.method r.path body)
        (some (namespaced r key))
        (some cl.token)
        claimed_db
      ≡ (ok (payload, status), handled_db))
    (success : is_success status ≡ true) where
  abbrev stored : Result Error Unit × Db
  stored =
      store_response c m.responds_at (namespaced r key) (scope_of r)
        (fingerprint r.method r.path body) cl.token (pos status) (ok_body r payload) handled_db

  -- The first POST is answered if and only if its response is stored.
  first_post :
      json_post c fingerprint handler required m r db
      ≡ (elim stored.0 [ ok a ↦ ok (ok_body r payload, pos status) | err e ↦ err e ], stored.1)
  unfolding json_post
  first_post =
      rw (posted, keyed, granted, handled, success)
        (elim (Result-cases stored.0) [ inl (a, e) ↦ rw e | inr (e₀, e) ↦ rw e ])

  -- Once a POST has been granted the claim of its Idempotency-Key, its handler has returned a payload with
  -- a status of success, leaving the keys of the database distinct, and the POST has been answered, the
  -- answer is that payload. The same POST, sent again after whatever calls of whatever workers, before the
  -- response expires, is answered with the same status and the same body, marked as a replay under its own
  -- request id, whatever the handler, and changes nothing.
  pub second_post_replays :
      (handler' : JsonHandler) (m' : Moment) (r' : Request) (first : Json × ℤ)
      (calls : List (ℕ × Call))
      → HasKeys handled_db
      → r'.body ≡ r.body
      → r'.method ≡ r.method
      → r'.path ≡ r.path
      → r'.principal_id ≡ r.principal_id
      → r'.idempotency_header ≡ r.idempotency_header
      → (json_post c fingerprint handler required m r db).0 ≡ ok first
      → Before (m.responds_at + c.ttl) calls
      → m'.claims_at < m.responds_at + c.ttl
      → let db' = run c calls (json_post c fingerprint handler required m r db).1 in
        (first ≡ (ok_body r payload, pos status))
        × (json_post c fingerprint handler' required m' r' db'
            ≡ (ok (obj (marked r' (ok_fields r payload)), pos status), db'))
  unfolding json_post
  second_post_replays handler' m' r' first calls u body' method' path' principal' header' done
        before live =
      let answered = rw first_post at done in
      elim (Result-cases stored.0) [
        | inr (e₀, e) ↦ absurd (cc (rw e at answered))
        | inl (a, e) ↦
            let again =
              replay_after_response c m.responds_at (namespaced r key) (scope_of r)
                (fingerprint r.method r.path body) cl.token (pos status) (ok_body r payload)
                handled_db u m'.claims_at m'.claim_token calls e before live in
            rw first_post (
              cc (rw e at answered),
              rw (body', posted, header', keyed, method', path', principal', again),
            )
      ]
