-- ===== src/Bitcoin/Store/Fencing.antt =====
-- The token of a claim fences: who does not hold it changes nothing.
use rails.Prelude.{
  ℕ, ◌+◌, String, string_eq, ◌≡◌, Bool, true, false, ◌&&◌, inl, inr, some, arith, Option-cases,
}
use rails.Prelude.Int.{ℤ}
use rails.Json.{Json}
use rails.Effect.{ok, err}
use rails.Table.{holds}
use rails.Bitcoin.Store.Rows.{
  is_open, claim_lease_seconds, IdempotencyRecord, Db, Settings, find_key,
}
use rails.Bitcoin.Store.Claim.{lost_claim, heartbeat_claim, update_claimed}
use rails.Bitcoin.Store.Prepared.{Signed, save_prepared_broadcast}
use rails.Bitcoin.Store.Settle.{
  store_response, mark_broadcast, mark_failed, mark_prepared_failed, mark_unknown, may_respond,
  may_send, may_fail, may_reject, responded, left_unknown, sent, failed,
}
use rails.Table.Owned.{passes}
use rails.Bitcoin.Store.Owner.{HasKeys, update_claimed_lem, updated_by_none, count_claimed}
use rails.Bitcoin.Store.Saving.{save_prepared_broadcast_lem}

-- The worker with this token owns the row of the key.
abbrev pub owns : String → String → Db → Bool
owns token key db = passes (λ r. holds r.claim_token token) (find_key key db)

module _ (key token : String) (db : Db) (u : HasKeys db) (stale : owns token key db ≡ false) where
  -- A test that asks for the token fails at the key's row.
  misses :
      (p : IdempotencyRecord → Bool)
      → ((r : IdempotencyRecord) → p r ≡ true → holds r.claim_token token ≡ true)
      → passes p (find_key key db) ≡ false
  misses p asks = elim (Option-cases (find_key key db)) [
    | inl missing ↦ rw missing
    | inr (r, found) ↦
        let other : holds r.claim_token token ≡ false = rw found at stale in
        rw found (ground (arith, asks r))
  ]

  stale_update :
      (p : IdempotencyRecord → Bool) (f : IdempotencyRecord → IdempotencyRecord)
      → ((r : IdempotencyRecord) → p r ≡ true → holds r.claim_token token ≡ true)
      → update_claimed key p f db ≡ (err lost_claim, db)
  stale_update p f asks = rw (update_claimed_lem key p f db u, misses p asks)

  stale_save :
      (c : Settings) (now : ℕ) (request_hash : String) (t : Signed)
      → save_prepared_broadcast c now key token request_hash t db ≡ (err lost_claim, db)
  stale_save c now request_hash t =
      rw (save_prepared_broadcast_lem c now key token request_hash t db u)
        (elim (Option-cases (find_key key db)) [
          | inl missing ↦ rw missing
          | inr (r, found) ↦
              let other : holds r.claim_token token ≡ false = rw found at stale in rw (found, other)
        ])

  stale_heartbeat : (c : Settings) (now : ℕ) → heartbeat_claim c now key token db ≡ (ok false, db)
  unfolding heartbeat_claim
  stale_heartbeat c now =
      let p : IdempotencyRecord → Bool = λ r. holds r.claim_token token && is_open r.state in
      let f : IdempotencyRecord → IdempotencyRecord =
        λ r. record r { lease_expires_at = some (now + claim_lease_seconds c) } in
      let lost : passes p (find_key key db) ≡ false = misses p (λ r h. ground arith) in
      rw (count_claimed key p f db u, lost, updated_by_none key p f db u lost)

  -- A worker that does not hold the claim of the key changes nothing: its response, its prepared
  -- transaction and its marks all end in `IDEMPOTENCY_CLAIM_LOST`, and its heartbeat returns false.
  -- The keys of the database are distinct.
  pub stale_worker_is_fenced :
      (c : Settings) (now : ℕ) (scope request_hash txid error_code message : String) (status : ℤ)
      (response : Json) (t : Signed)
      → (store_response c now key scope request_hash token status response db
          ≡ (err lost_claim, db))
        × (save_prepared_broadcast c now key token request_hash t db ≡ (err lost_claim, db))
        × (mark_broadcast c now key token txid db ≡ (err lost_claim, db))
        × (mark_failed now key token status error_code message db ≡ (err lost_claim, db))
        × (mark_prepared_failed now key token status error_code message db ≡ (err lost_claim, db))
        × (mark_unknown c now key token txid message db ≡ (err lost_claim, db))
        × (heartbeat_claim c now key token db ≡ (ok false, db))
  unfolding store_response mark_broadcast mark_failed mark_prepared_failed mark_unknown
  stale_worker_is_fenced c now scope request_hash txid error_code message status response t = (
    stale_update (may_respond scope request_hash token) (responded c now status response)
        (λ r h. ground arith),
    stale_save c now request_hash t,
    rw (stale_update (may_send token txid) (sent c now txid) (λ r h. ground arith)),
    stale_update (may_fail token) (failed now status error_code message) (λ r h. ground arith),
    rw (
        stale_update (may_reject token) (failed now status error_code message)
          (λ r h. ground arith)),
    stale_update (may_send token txid) (left_unknown c now txid message) (λ r h. ground arith),
    stale_heartbeat c now,
  )
