-- ===== src/Bitcoin/Store/Durable.antt =====
-- What is loaded is what was saved.
use rails.Prelude.{
  ℕ, suc, String, string_eq, nat_eq, eq_iff, ◌≡◌, refl, sym, ◌∙◌, true, false, not, ◌||◌, ◌==◌,
  Option, none, some, List, arith, inl, inr, Bool-cases, Option-cases,
}
use mathlib.Core.Path.{subst}
use rails.Effect.{ok, Result}
use rails.Text.{truthy}
use rails.Table.{holds}
use rails.Table.Laws.{find-insert_new, select-find}
use rails.Bitcoin.Errors.{Error}
use rails.Bitcoin.Store.Rows.{
  is_claimed, IdempotencyRecord, TransactionRecord, Db, Settings, PreparedBroadcast, key_of, id_of,
  find_key, find_id,
}
use rails.Bitcoin.Store.Prepared.{
  Signed, load_row, prepared_row, prepared_of, may_prepare, prepared_record,
  save_prepared_broadcast, load_prepared_broadcast,
}
use rails.Bitcoin.Store.Calls.{Call, step, run}
use rails.Bitcoin.Store.Owner.{HasKeys, find_key-after_update}
use rails.Bitcoin.Store.Saving.{decided, recorded, saved_db, save_prepared_broadcast_lem}
use rails.Bitcoin.Store.Keys.{step-HasKeys}
use rails.Bitcoin.Store.Forward.{Unexpired, run-Forward}
use rails.Bitcoin.Store.Immutable.{SameTransaction, transaction_is_immutable}

-- The status of a record is no part of what is loaded of it.
load_row-SameTransaction :
    (request_hash : String) (t t' : TransactionRecord)
    → SameTransaction t t'
    → load_row request_hash (some t') ≡ load_row request_hash (some t)
load_row-SameTransaction request_hash t t' same = rw same.unchanged

-- A row that names a transaction loads it.
load_named :
    (key request_hash : String) (db : Db) (r : IdempotencyRecord) (i : ℕ) (p : PreparedBroadcast)
    → find_key key db ≡ some r
    → r.request_hash ≡ request_hash
    → r.prepared_record_id ≡ some i
    → load_row request_hash (find_id i db) ≡ ok p
    → load_prepared_broadcast key request_hash db ≡ (ok (some p), db)
unfolding load_prepared_broadcast
load_named key request_hash db r i p found mine named loaded = rw (
  select-find key_of (λ x. x.request_hash == request_hash) key r db.idempotency_records found
      (ground (arith, eq_iff r.request_hash request_hash)),
  named,
  loaded,
)

-- The key is bound to a stored transaction that loads as `p`.
record IsBound (key request_hash : String) (db : Db) (p : PreparedBroadcast) : Type 0 where
  row : IdempotencyRecord
  id : ℕ
  transaction : TransactionRecord
  found : find_key key db ≡ some row
  mine : row.request_hash ≡ request_hash
  named : row.prepared_record_id ≡ some id
  stored : find_id id db ≡ some transaction
  loads : load_row request_hash (some transaction) ≡ ok p

run-IsBound :
    (c : Settings) (calls : List (ℕ × Call)) (key request_hash : String) (db : Db)
    (p : PreparedBroadcast)
    → HasKeys db
    → Unexpired c key calls db
    → IsBound key request_hash db p
    → IsBound key request_hash (run c calls db) p
run-IsBound c calls key request_hash db p u live b =
    let (r, found, fwd) = run-Forward c key calls db b.row u b.found live in
    let (t, stored, same) = transaction_is_immutable c calls b.id b.transaction db u b.stored in
    record {
      row = r;
      id = b.id;
      transaction = t;
      found = found;
      mine = fwd.request_hash ∙ b.mine;
      named = (fwd.prepared b.id b.named).0;
      stored = stored;
      loads = load_row-SameTransaction request_hash b.transaction t same ∙ b.loads;
    }

loaded-IsBound :
    (key request_hash : String) (db : Db) (p : PreparedBroadcast) (r : IdempotencyRecord) (i : ℕ)
    → find_key key db ≡ some r
    → r.request_hash ≡ request_hash
    → r.prepared_record_id ≡ some i
    → load_row request_hash (find_id i db) ≡ ok p
    → IsBound key request_hash db p
loaded-IsBound key request_hash db p r i found mine named loaded =
    elim (Option-cases (find_id i db)) [
      | inl missing ↦ absurd (cc (rw missing at loaded))
      | inr (t, stored) ↦ record {
        row = r;
        id = i;
        transaction = t;
        found = found;
        mine = mine;
        named = named;
        stored = stored;
        loads = rw stored at loaded;
      }
    ]

module _ (c : Settings) (now : ℕ) (key token request_hash : String) (t : Signed) (db : Db)
    (u : HasKeys db) (fresh : find_id (suc db.last_id) db ≡ none) (psbt : truthy t.psbt ≡ true)
    (raw_tx : truthy t.raw_tx ≡ true) (txid : truthy t.expected_txid ≡ true)
    (p : PreparedBroadcast) where
  abbrev saved : Db
  saved = (save_prepared_broadcast c now key token request_hash t db).1

  saved-HasKeys : HasKeys saved
  unfolding step
  saved-HasKeys = step-HasKeys c now (Call.saves key token request_hash t) db u

  new-IsBound :
      (r : IdempotencyRecord)
      → find_key key db ≡ some r
      → not (holds r.claim_token token) || not (r.request_hash == request_hash) ≡ false
      → is_claimed r.state ≡ true
      → ◌≡◌ {A = Result Error PreparedBroadcast}
          (ok (prepared_of request_hash t (suc db.last_id)))
          (ok p)
      → IsBound key request_hash (saved_db c now key token request_hash t db) p
  new-IsBound r e owned claimed done =
      let id : ℕ = suc db.last_id in
      record {
        row = prepared_record c now t.expected_txid id r;
        id = id;
        transaction = prepared_row now key request_hash t id;
        found =
            rw
              (
                find_key-after_update key (may_prepare token)
                    (prepared_record c now t.expected_txid id)
                    (recorded c now key token request_hash t db) (λ x. refl) key,
                e,
              )
              (ground (arith, eq_iff key key));
        mine = ground (arith, eq_iff r.request_hash request_hash);
        named = refl;
        stored =
            rw
              (find-insert_new id_of id (prepared_row now key request_hash t id)
                db.transaction_records fresh)
              (ground arith);
        loads = ground (arith, eq_iff request_hash request_hash);
      }

  saved-IsBound :
      (save_prepared_broadcast c now key token request_hash t db).0 ≡ ok p
      → IsBound key request_hash saved p
  saved-IsBound =
      subst
        (λ (o : Result Error PreparedBroadcast × Db). o.0 ≡ ok p → IsBound key request_hash o.1 p)
        (sym (save_prepared_broadcast_lem c now key token request_hash t db u))
        (go (find_key key db) refl)
    where
      go :
          (o : Option IdempotencyRecord)
          → find_key key db ≡ o
          → (decided c now key token request_hash t db o).0 ≡ ok p
          → IsBound key request_hash (decided c now key token request_hash t db o).1 p
      go none e = λ done. absurd (cc)
      go (some r) e =
          elim (Bool-cases
            (not (holds r.claim_token token) || not (r.request_hash == request_hash))) [
              | inl other ↦ rw other (λ done. absurd (cc))
              | inr owned ↦ elim (Option-cases r.prepared_record_id) [
                | inr (i, old) ↦
                    rw (owned, old)
                      (loaded-IsBound key request_hash db p r i e
                        (ground (arith, eq_iff r.request_hash request_hash)) old)
                | inl unprepared ↦ elim (Bool-cases (is_claimed r.state)) [
                  | inr past ↦ rw (owned, unprepared, past) (λ done. absurd (cc))
                  | inl claimed ↦
                      rw (owned, unprepared, claimed) (λ done. new-IsBound r e owned claimed done)
                ]
              ]
            ]

  -- Once `save_prepared_broadcast` has returned a prepared broadcast, and whatever calls of whatever
  -- workers come between while the row of the key does not expire, `load_prepared_broadcast` returns
  -- the same one: the same record, PSBT, raw transaction, txid, outputs and amounts. The id of the
  -- next record is unused, and the texts of the transaction are not empty.
  -- The keys of the database are distinct.
  pub load-save_prepared :
      (calls : List (ℕ × Call))
      → (save_prepared_broadcast c now key token request_hash t db).0 ≡ ok p
      → Unexpired c key calls saved
      → load_prepared_broadcast key request_hash (run c calls saved)
        ≡ (ok (some p), run c calls saved)
  load-save_prepared calls done live =
      let b =
        run-IsBound c calls key request_hash saved p saved-HasKeys live (saved-IsBound done) in
      load_named key request_hash (run c calls saved) b.row b.id p b.found b.mine b.named
        (rw b.stored b.loads)
