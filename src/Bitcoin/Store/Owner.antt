-- ===== src/Bitcoin/Store/Owner.antt =====
-- What an UPDATE of an owned row does: it is decided by the row that the key finds, and it touches no
-- other key.
use rails.Prelude.{
  ap, String, string_eq, eq_iff, nat_eq, ◌≡◌, Bool, true, false, ◌&&◌, ◌==◌, some, arith, inl, inr,
  Bool-cases, Option-cases, if◌then◌else◌,
}
use rails.Effect.{ok, err}
use rails.Table.{update, count}
use rails.Table.Laws.{IsUnique, updated}
use rails.Table.Owned.{
  passes, count-owned, find-update-owned, update-owned-IsUnique, update-owned-none,
}
use rails.Bitcoin.Store.Rows.{IdempotencyRecord, Db, key_of, find_key}
use rails.Bitcoin.Store.Claim.{lost_claim, update_claimed}

-- The keys of the table are distinct.
abbrev pub HasKeys : Db → Type 0
HasKeys db = IsUnique key_of db.idempotency_records

-- The database behind the UPDATE.
abbrev pub after_update :
    String → (IdempotencyRecord → Bool) → (IdempotencyRecord → IdempotencyRecord) → Db → Db
after_update key p f db = record db {
  idempotency_records = update (λ r. r.key == key && p r) f db.idempotency_records;
}

module _ (key : String) (p : IdempotencyRecord → Bool) (f : IdempotencyRecord → IdempotencyRecord)
    (db : Db) where
  pub count_claimed :
      HasKeys db
      → count (λ r. r.key == key && p r) db.idempotency_records
        ≡ (if passes p (find_key key db) then 1 else 0)
  count_claimed u = count-owned key_of key p f db.idempotency_records u

  pub update_claimed_lem :
      HasKeys db
      → update_claimed key p f db ≡ (
          if passes p (find_key key db)
          then (ok tt, after_update key p f db)
          else (err lost_claim, db))
  unfolding update_claimed
  update_claimed_lem u = ground (arith, count_claimed u)

  -- The UPDATE writes the row of its key, and no other.
  pub find_key-after_update :
      ((r : IdempotencyRecord) → (f r).key ≡ r.key)
      → (j : String)
      → find_key j (after_update key p f db)
        ≡ (if key == j then updated p f (find_key j db) else find_key j db)
  find_key-after_update same j = find-update-owned key_of key p f db.idempotency_records same j

  pub after_update-HasKeys :
      ((r : IdempotencyRecord) → (f r).key ≡ r.key) → HasKeys db → HasKeys (after_update key p f db)
  after_update-HasKeys same u = update-owned-IsUnique key_of key p f db.idempotency_records same u

  pub updated_by_none :
      HasKeys db → passes p (find_key key db) ≡ false → after_update key p f db ≡ db
  updated_by_none u lost =
      ap (λ t. record db { idempotency_records = t })
        (update-owned-none key_of key p f db.idempotency_records u lost)

  -- An owned UPDATE that succeeds has found a row that passes its test.
  pub update_claimed-ok :
      HasKeys db
      → ((r : IdempotencyRecord) → (f r).key ≡ r.key)
      → (update_claimed key p f db).0 ≡ ok tt
      → (r : IdempotencyRecord) × (find_key key db ≡ some r)
        × (p r ≡ true)
        × (find_key key (update_claimed key p f db).1 ≡ some (f r))
  update_claimed-ok u same done = elim (Option-cases (find_key key db)) [
    | inl missing ↦ absurd (ground (arith, update_claimed_lem u))
    | inr (r, found) ↦ elim (Bool-cases (p r)) [
      | inr miss ↦ absurd (ground (arith, update_claimed_lem u))
      | inl hit ↦ (
        r,
        found,
        hit,
        rw (update_claimed_lem u, found, hit)
            (rw (find_key-after_update same key, found, hit) (ground (arith, eq_iff key key))),
      )
    ]
  ]
