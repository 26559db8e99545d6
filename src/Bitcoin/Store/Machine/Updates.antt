-- ===== src/Bitcoin/Store/Machine/Updates.antt =====
-- The methods that are one owned UPDATE, and the pruning, move every key along the state machine.
use rails.Prelude.{
  ℕ, ◌+◌, String, string_eq, nat_eq, eq_iff, ◌≡◌, refl, sym, ap, Bool, true, ◌&&◌, ◌==◌, Option,
  none, some, arith, inl, inr, Bool-cases, leb, if◌then◌else◌,
}
use rails.Prelude.Int.{ℤ}
use rails.Json.{Json}
use rails.Table.{holds}
use rails.Table.Laws.{updated, kept, find-delete, key-find}
use rails.Bitcoin.Store.Rows.{
  is_open, IdempotencyRecord, Db, Settings, claim_lease_seconds, key_of, find_key,
}
use rails.Bitcoin.Store.Claim.{heartbeat_claim, prune_expired, update_claimed}
use rails.Bitcoin.Store.Settle.{
  may_send, sent, failed, may_reject, store_response, mark_broadcast, mark_failed,
  mark_prepared_failed, mark_unknown, set_status,
}
use rails.Table.Owned.{passes}
use rails.Bitcoin.Store.Owner.{HasKeys, after_update, update_claimed_lem, find_key-after_update}
use rails.Bitcoin.Store.Machine.{
  Label, acting, Moves, stays, beats, sends, doubts, responds, fails, rejects, vanishes,
}

module _ (c : Settings) (now : ℕ) (who : Label) (j : String) where
  -- An owned UPDATE moves as its effect does on a row that passes its test.
  pub update-Moves :
      (key : String) (p : IdempotencyRecord → Bool) (f : IdempotencyRecord → IdempotencyRecord)
      (db : Db)
      → ((r : IdempotencyRecord) → (f r).key ≡ r.key)
      → ((r : IdempotencyRecord)
          → find_key key db ≡ some r
          → p r ≡ true
          → Moves c now who (some r) (some (f r)))
      → Moves c now who (find_key j db) (find_key j (after_update key p f db))
  update-Moves key p f db same move =
      rw (find_key-after_update key p f db same j) (go (find_key j db) refl)
    where
      go :
          (o : Option IdempotencyRecord)
          → find_key j db ≡ o
          → Moves c now who o (if key == j then updated p f o else o)
      go none e = stays (ground arith)
      go (some r) e = elim (Bool-cases (key == j)) [
        | inr other ↦ stays (rw other)
        | inl mine ↦ elim (Bool-cases (p r)) [
          | inl hit ↦ rw (mine, hit) (move r (rw ((eq_iff key j).0 mine) e) hit)
          | inr miss ↦ stays (rw (mine, miss))
        ]
      ]

  pub claimed-Moves :
      (key : String) (p : IdempotencyRecord → Bool) (f : IdempotencyRecord → IdempotencyRecord)
      (db : Db)
      → HasKeys db
      → ((r : IdempotencyRecord) → (f r).key ≡ r.key)
      → ((r : IdempotencyRecord)
          → find_key key db ≡ some r
          → p r ≡ true
          → Moves c now who (some r) (some (f r)))
      → Moves c now who (find_key j db) (find_key j (update_claimed key p f db).1)
  claimed-Moves key p f db u same move =
      rw (update_claimed_lem key p f db u) (elim (Bool-cases (passes p (find_key key db))) [
        | inl won ↦ rw won (update-Moves key p f db same move)
        | inr lost ↦ rw lost (stays refl)
      ])

  pub prune-Moves :
      (db : Db) → HasKeys db → Moves c now who (find_key j db) (find_key j (prune_expired now db).1)
  unfolding prune_expired
  prune-Moves db u =
      rw (find-delete key_of (λ r. leb r.expires_at now) j db.idempotency_records u)
        (go (find_key j db))
    where
      go : (o : Option IdempotencyRecord) → Moves c now who o (kept (λ r. leb r.expires_at now) o)
      go none = stays refl
      go (some r) = elim (Bool-cases (leb r.expires_at now)) [
        | inl old ↦ vanishes old (rw old)
        | inr live ↦ stays (rw live)
      ]

-- A call for a key acts on the row of this key.
acting-find :
    (key token : String) (r : IdempotencyRecord) (db : Db)
    → find_key key db ≡ some r
    → acting key token ≡ acting r.key token
acting-find key token r db found =
    ap (λ k. acting k token) (sym (key-find key_of key r db.idempotency_records found))

module _ (c : Settings) (now : ℕ) (j : String) where
  pub heartbeat-Moves :
      (key token : String) (db : Db)
      → Moves c now
          (acting key token)
          (find_key j db)
          (find_key j (heartbeat_claim c now key token db).1)
  unfolding heartbeat_claim
  heartbeat-Moves key token db =
      update-Moves c now (acting key token) j key
        (λ r. holds r.claim_token token && is_open r.state)
        (λ r. record r { lease_expires_at = some (now + claim_lease_seconds c) }) db (λ r. refl)
        λ r found p.
          beats token r (acting-find key token r db found) refl (ground arith) (ground arith) refl

  pub respond-Moves :
      (key scope request_hash token : String) (status : ℤ) (response : Json) (db : Db)
      → HasKeys db
      → Moves c now
          (acting key token)
          (find_key j db)
          (find_key j (store_response c now key scope request_hash token status response db).1)
  unfolding store_response
  respond-Moves key scope request_hash token status response db u =
      claimed-Moves c now (acting key token) j key _ _ db u (λ r. refl)
        λ r found p.
          responds token status response r (acting-find key token r db found) refl (ground arith)
            (ground arith) refl

  pub unknown-Moves :
      (key token txid error : String) (db : Db)
      → HasKeys db
      → Moves c now
          (acting key token)
          (find_key j db)
          (find_key j (mark_unknown c now key token txid error db).1)
  unfolding mark_unknown
  unknown-Moves key token txid error db u =
      claimed-Moves c now (acting key token) j key _ _ db u (λ r. refl)
        λ r found p.
          doubts token txid error r (acting-find key token r db found) refl (ground arith)
            (ground arith) (ground arith) refl

  pub failed-Moves :
      (key token : String) (status : ℤ) (error_code message : String) (db : Db)
      → HasKeys db
      → Moves c now
          (acting key token)
          (find_key j db)
          (find_key j (mark_failed now key token status error_code message db).1)
  unfolding mark_failed
  failed-Moves key token status error_code message db u =
      claimed-Moves c now (acting key token) j key _ _ db u (λ r. refl)
        λ r found p.
          fails token status error_code message r (acting-find key token r db found) refl
            (ground arith) (ground arith) refl

  pub broadcast-Moves :
      (key token txid : String) (db : Db)
      → HasKeys db
      → Moves c now
          (acting key token)
          (find_key j db)
          (find_key j (mark_broadcast c now key token txid db).1)
  unfolding mark_broadcast set_status
  broadcast-Moves key token txid db u =
      rw (update_claimed_lem key (may_send token txid) (sent c now txid) db u)
        (elim (Bool-cases (passes (may_send token txid) (find_key key db))) [
          | inl won ↦ rw won (
              update-Moves c now (acting key token) j key (may_send token txid) (sent c now txid) db
                (λ r. refl)
                λ r found p.
                  sends token txid r (acting-find key token r db found) refl (ground arith)
                    (ground arith) (ground arith) refl)
          | inr lost ↦ rw lost (stays refl)
        ])

  pub reject-Moves :
      (key token : String) (status : ℤ) (error_code message : String) (db : Db)
      → HasKeys db
      → Moves c now
          (acting key token)
          (find_key j db)
          (find_key j (mark_prepared_failed now key token status error_code message db).1)
  unfolding mark_prepared_failed set_status
  reject-Moves key token status error_code message db u =
      rw (update_claimed_lem key (may_reject token) (failed now status error_code message) db u)
        (elim (Bool-cases (passes (may_reject token) (find_key key db))) [
          | inl won ↦ rw won (
              update-Moves c now (acting key token) j key (may_reject token)
                (failed now status error_code message) db (λ r. refl)
                λ r found p.
                  rejects token status error_code message r (acting-find key token r db found) refl
                    (ground arith) (ground arith) refl)
          | inr lost ↦ rw lost (stays refl)
        ])
