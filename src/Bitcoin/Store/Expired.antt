-- ===== src/Bitcoin/Store/Expired.antt =====
-- What becomes of a row whose `expires_at` has passed.
use rails.Prelude.{
  ℕ, ◌+◌, ◌≤◌, String, string_eq, nat_eq, eq_iff, ◌≡◌, refl, ◌==◌, none, some, List, [], ◌∷◌, arith,
  leb,
}
use rails.Effect.{ok}
use rails.Table.{count, delete, insert}
use rails.Table.Laws.{kept, find-delete, find-insert, key-find, select-find}
use rails.Bitcoin.Store.Rows.{State, IdempotencyRecord, Db, Settings, claim, key_of, find_key}
use rails.Bitcoin.Store.Claim.{claim_idempotent, prune_expired}
use rails.Bitcoin.Store.Prepared.{load_prepared_broadcast}
use rails.Bitcoin.Store.Transactions.{size}
use rails.Bitcoin.Store.Owner.{HasKeys}
use rails.Bitcoin.Store.Claiming.{newcomer, claim_idempotent-expired}

-- What `prune_expired` deletes, and what it leaves.
size-prune :
    (now : ℕ) (t : List IdempotencyRecord)
    → count (λ r. leb r.expires_at now) t + size (delete (λ r. leb r.expires_at now) t) ≡ size t
unfolding count delete size
size-prune now [] = refl
size-prune now (r ∷ t) = ground (arith, size-prune now t)

-- `prune_expired` deletes the expired rows and no other: a key finds its row afterwards if the row has
-- not expired, and nothing if it has. It returns how many rows it has deleted, and leaves the
-- transaction records.
-- The keys of the database are distinct.
pub prune_expired_lem :
    (now : ℕ) (key : String) (db : Db)
    → HasKeys db
    → (n : ℕ) × ((prune_expired now db).0 ≡ ok n)
      × (n + size (prune_expired now db).1.idempotency_records ≡ size db.idempotency_records)
      × (find_key key (prune_expired now db).1 ≡ kept (λ r. leb r.expires_at now) (find_key key db))
      × ((prune_expired now db).1.transaction_records ≡ db.transaction_records)
unfolding prune_expired
prune_expired_lem now key db u = (
  count (λ r. leb r.expires_at now) db.idempotency_records,
  refl,
  size-prune now db.idempotency_records,
  find-delete key_of (λ r. leb r.expires_at now) key db.idempotency_records u,
  refl,
)

-- When the row of a key has expired, whatever its state, `claim_idempotent` answers any request with a
-- new claim, without a prepared transaction, and the transaction that the row named, be it broadcast or
-- of unknown outcome, is no longer loaded under the key.
-- The keys of the database are distinct.
pub expired_request_is_forgotten :
    (c : Settings) (now : ℕ) (token key scope request_hash : String) (db : Db)
    (r : IdempotencyRecord)
    → HasKeys db
    → find_key key db ≡ some r
    → r.expires_at ≤ now
    → let (answer, db') = claim_idempotent c now token key scope request_hash db in
      (answer
        ≡ ok (
            claim (record {
              key = key;
              token = token;
              state = State.claimed;
              prepared_record_id = none;
            })))
      × (load_prepared_broadcast key request_hash db' ≡ (ok none, db'))
      × (db'.transaction_records ≡ db.transaction_records)
unfolding load_prepared_broadcast
expired_request_is_forgotten c now token key scope request_hash db r u found old =
    rw (claim_idempotent-expired c now token key scope request_hash db found (ground arith)) (
      refl,
      rw (
          select-find key_of (λ x. x.request_hash == request_hash) key
            (newcomer c now token key scope request_hash db) _ fresh
            (ground (arith, eq_iff request_hash request_hash))),
      refl,
    )
  where
    fresh :
        find_key key (record db {
          idempotency_records =
              insert
                (newcomer c now token key scope request_hash db)
                (delete (λ x. x.key == key) db.idempotency_records);
        })
        ≡ some (newcomer c now token key scope request_hash db)
    fresh =
        rw
          (find-insert key_of key (newcomer c now token key scope request_hash db)
            (delete (λ x. x.key == key) db.idempotency_records)
            (rw (find-delete key_of (λ x. x.key == key) key db.idempotency_records u, found)
              (ground
                (arith, key-find key_of key r db.idempotency_records found, eq_iff r.key key))))
          (ground (arith, eq_iff key key))
