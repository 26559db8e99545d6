-- ===== src/Bitcoin/Store/Saving.antt =====
-- `save_prepared_broadcast` decided by the row that its key finds, branch by branch.
use rails.Prelude.{
  ℕ, suc, String, string_eq, nat_eq, ◌≡◌, refl, true, ◌⊎◌, ◌||◌, not, ◌==◌, Option, none, some,
  arith, inl, inr, Bool-cases, Option-cases, if◌then◌else◌,
}
use rails.Effect.{Result, ok, err, atomic, lift}
use rails.Table.{holds, insert}
use rails.Bitcoin.Errors.{Error}
use rails.Bitcoin.Store.Rows.{
  is_claimed, IdempotencyRecord, Db, Settings, PreparedBroadcast, find_key, find_id,
}
use rails.Bitcoin.Store.Claim.{lost_claim}
use rails.Bitcoin.Store.Prepared.{
  Signed, load_row, prepared_row, prepared_of, may_prepare, prepared_record,
  save_prepared_broadcast,
}
use rails.Bitcoin.Store.Owner.{HasKeys, after_update, update_claimed_lem}

-- A transaction that only reads leaves the database alone, whether it raises or not.
atomic-lift : {A : Type 0} (r : Result Error A) (db : Db) → atomic (lift r) db ≡ (r, db)
atomic-lift (ok a) db = refl
atomic-lift (err e) db = refl

module _ (c : Settings) (now : ℕ) (key token request_hash : String) (t : Signed) (db : Db) where
  -- The database once the transaction's row is in.
  abbrev pub recorded : Db
  recorded = record db {
    transaction_records =
        insert (prepared_row now key request_hash t (suc db.last_id)) db.transaction_records;
    last_id = suc db.last_id;
  }

  abbrev pub saved_db : Db
  saved_db =
      after_update key (may_prepare token) (prepared_record c now t.expected_txid (suc db.last_id))
        recorded

  abbrev pub decided : Option IdempotencyRecord → Result Error PreparedBroadcast × Db
  decided none = (err lost_claim, db)
  decided (some r) =
      if not (holds r.claim_token token) || not (r.request_hash == request_hash)
      then (err lost_claim, db)
      else elim r.prepared_record_id [
        | some i ↦ (load_row request_hash (find_id i db), db)
        | none ↦
            if is_claimed r.state
            then (ok (prepared_of request_hash t (suc db.last_id)), saved_db)
            else (err lost_claim, db)
      ]

  pub save_prepared_broadcast_lem :
      HasKeys db
      → save_prepared_broadcast c now key token request_hash t db ≡ decided (find_key key db)
  unfolding save_prepared_broadcast
  save_prepared_broadcast_lem u = elim (Option-cases (find_key key db)) [
    | inl missing ↦ rw missing
    | inr (r, found) ↦
        rw found
          (elim (Bool-cases
            (not (holds r.claim_token token) || not (r.request_hash == request_hash))) [
              | inl e ↦ rw e
              | inr owned ↦ elim (Option-cases r.prepared_record_id) [
                | inr (i, e) ↦ rw (owned, e) (atomic-lift (load_row request_hash (find_id i db)) db)
                | inl e ↦ elim (Bool-cases (is_claimed r.state)) [
                  | inr e' ↦ rw (owned, e, e')
                  | inl e' ↦
                      let won : may_prepare token r ≡ true = ground arith in
                      rw (owned, e, e')
                        (rw (
                          update_claimed_lem key (may_prepare token)
                              (prepared_record c now t.expected_txid (suc db.last_id)) recorded u,
                          found,
                          won,
                        ))
                ]
              ]
            ])
  ]

  -- A save leaves the database alone, or records the transaction and binds the key to it.
  pub save_cases :
      HasKeys db
      → let db' = (save_prepared_broadcast c now key token request_hash t db).1 in
        (db' ≡ db) ⊎ (db' ≡ saved_db)
  save_cases u = rw (save_prepared_broadcast_lem u) (go (find_key key db))
    where
      go : (o : Option IdempotencyRecord) → ((decided o).1 ≡ db) ⊎ ((decided o).1 ≡ saved_db)
      go none = inl refl
      go (some r) =
          elim (Bool-cases
            (not (holds r.claim_token token) || not (r.request_hash == request_hash))) [
              | inl other ↦ rw other (inl refl)
              | inr owned ↦ elim (Option-cases r.prepared_record_id) [
                | inr (i, old) ↦ rw (owned, old) (inl refl)
                | inl fresh ↦ elim (Bool-cases (is_claimed r.state)) [
                  | inr past ↦ rw (owned, fresh, past) (inl refl)
                  | inl claimed ↦ rw (owned, fresh, claimed) (inr refl)
                ]
              ]
            ]
