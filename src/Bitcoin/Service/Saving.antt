-- ===== src/Bitcoin/Service/Saving.antt =====
-- What `save_prepared_broadcast` and `load_prepared_broadcast` return is kept by the store, and how the
-- store's methods that a broadcast calls are histories.
use rails.Prelude.{
  ℕ, suc, String, string_eq, nat_eq, eq_iff, ◌≡◌, refl, sym, not, ◌&&◌, ◌||◌, ◌==◌, Option, none,
  some, [], ◌∷◌, arith, inl, inr, Bool-cases, Option-cases,
}
use mathlib.Core.Path.{subst}
use rails.Prelude.Int.{ℤ}
use rails.Effect.{ok, Result, Result-cases}
use rails.Table.{holds, select}
use rails.Table.Laws.{find-insert_new}
use rails.Bitcoin.Errors.{Error}
use rails.Bitcoin.Store.Rows.{
  is_claimed, IdempotencyRecord, TransactionRecord, Db, Settings, PreparedBroadcast, id_of,
  find_key, find_id,
}
use rails.Bitcoin.Store.Claim.{heartbeat_claim}
use rails.Bitcoin.Store.Prepared.{
  Signed, load_row, prepared_row, prepared_of, save_prepared_broadcast, load_prepared_broadcast,
}
use rails.Bitcoin.Store.Settle.{mark_broadcast, mark_prepared_failed, mark_unknown}
use rails.Bitcoin.Store.Calls.{Call, step, run}
use rails.Bitcoin.Store.Saving.{decided, saved_db, save_prepared_broadcast_lem}
use rails.Bitcoin.Store.Invariant.{IsWellFormed}
use rails.Bitcoin.Service.Sent.{IsKept, IsHistory}

pub load_same :
    (key request_hash : String) (db : Db) → (load_prepared_broadcast key request_hash db).1 ≡ db
unfolding load_prepared_broadcast
load_same key request_hash db = ground arith

module _ (c : Settings) where
  pub heartbeat-IsHistory :
      (key token : String) → IsHistory c (λ now. heartbeat_claim c now key token)
  unfolding run step
  heartbeat-IsHistory key token = record {
    calls = λ now db. (now, Call.beats key token) ∷ [];
    runs = λ now db. refl;
  }

  pub save-IsHistory :
      (key token request_hash : String) (t : Signed)
      → IsHistory c (λ now. save_prepared_broadcast c now key token request_hash t)
  unfolding run step
  save-IsHistory key token request_hash t = record {
    calls = λ now db. (now, Call.saves key token request_hash t) ∷ [];
    runs = λ now db. refl;
  }

  pub broadcast-IsHistory :
      (key token txid : String) → IsHistory c (λ now. mark_broadcast c now key token txid)
  unfolding run step
  broadcast-IsHistory key token txid = record {
    calls = λ now db. (now, Call.sends key token txid) ∷ [];
    runs = λ now db. refl;
  }

  pub unknown-IsHistory :
      (key token txid error : String) → IsHistory c (λ now. mark_unknown c now key token txid error)
  unfolding run step
  unknown-IsHistory key token txid error = record {
    calls = λ now db. (now, Call.loses key token txid error) ∷ [];
    runs = λ now db. refl;
  }

  pub failed-IsHistory :
      (key token : String) (status : ℤ) (code message : String)
      → IsHistory c (λ now. mark_prepared_failed now key token status code message)
  unfolding run step
  failed-IsHistory key token status code message = record {
    calls = λ now db. (now, Call.rejects key token status code message) ∷ [];
    runs = λ now db. refl;
  }

  pub load-IsHistory :
      (key request_hash : String) → IsHistory c (λ now. load_prepared_broadcast key request_hash)
  unfolding run
  load-IsHistory key request_hash = record {
    calls = λ now db. [];
    runs = λ now db. load_same key request_hash db;
  }

-- A row that loads as a prepared broadcast.
row-IsKept :
    (request_hash : String) (i : ℕ) (db : Db) (p : PreparedBroadcast)
    → load_row request_hash (find_id i db) ≡ ok p
    → IsKept request_hash p.raw_tx p.expected_txid db
row-IsKept request_hash i db p loads = go (find_id i db) refl loads
  where
    go :
        (o : Option TransactionRecord)
        → find_id i db ≡ o
        → load_row request_hash o ≡ ok p
        → IsKept request_hash p.raw_tx p.expected_txid db
    go none found loads = absurd (cc)
    go (some t) found loads = record {
      id = i;
      transaction = t;
      found = found;
      kind = ground (arith, eq_iff t.kind "broadcast");
      request_hash = ground (arith, eq_iff t.request_hash request_hash);
      raw_tx = ground arith;
      txid = ground arith;
    }

-- What a load returns is kept.
pub load-IsKept :
    (key request_hash : String) (db : Db) (p : PreparedBroadcast)
    → (load_prepared_broadcast key request_hash db).0 ≡ ok (some p)
    → IsKept request_hash p.raw_tx p.expected_txid db
unfolding load_prepared_broadcast
load-IsKept key request_hash db p done =
    go (select (λ r. r.key == key && r.request_hash == request_hash) db.idempotency_records) refl
  where
    go :
        (o : Option IdempotencyRecord)
        → select (λ r. r.key == key && r.request_hash == request_hash) db.idempotency_records ≡ o
        → IsKept request_hash p.raw_tx p.expected_txid db
    go none e = absurd (cc (rw e at done))
    go (some r) e = elim (Option-cases r.prepared_record_id) [
      | inl fresh ↦ absurd (cc (rw (e, fresh) at done))
      | inr (i, named) ↦ elim (Result-cases (load_row request_hash (find_id i db))) [
        | inr (x, failed) ↦ absurd (cc (rw (e, named, failed) at done))
        | inl (q, loads) ↦ row-IsKept request_hash i db p (cc (loads, rw (e, named, loads) at done))
      ]
    ]

-- What a save returns is kept from then on.
pub save-IsKept :
    (c : Settings) (now : ℕ) (key token request_hash : String) (t : Signed) (db : Db)
    (p : PreparedBroadcast)
    → IsWellFormed db
    → (save_prepared_broadcast c now key token request_hash t db).0 ≡ ok p
    → IsKept request_hash p.raw_tx p.expected_txid
        (save_prepared_broadcast c now key token request_hash t db).1
save-IsKept c now key token request_hash t db p wf =
    subst
      (λ (o : Result Error PreparedBroadcast × Db).
        o.0 ≡ ok p → IsKept request_hash p.raw_tx p.expected_txid o.1)
      (sym (save_prepared_broadcast_lem c now key token request_hash t db wf.keys))
      (go (find_key key db))
  where
    new :
        ◌≡◌ {A = Result Error PreparedBroadcast}
          (ok (prepared_of request_hash t (suc db.last_id)))
          (ok p)
        → IsKept request_hash p.raw_tx p.expected_txid (saved_db c now key token request_hash t db)
    new done = record {
      id = suc db.last_id;
      transaction = prepared_row now key request_hash t (suc db.last_id);
      found =
          rw
            (find-insert_new id_of (suc db.last_id)
              (prepared_row now key request_hash t (suc db.last_id)) db.transaction_records
              (wf.fresh (suc db.last_id) (omega arith)))
            (ground arith);
      kind = refl;
      request_hash = refl;
      raw_tx = ground arith;
      txid = ground arith;
    }

    go :
        (o : Option IdempotencyRecord)
        → (decided c now key token request_hash t db o).0 ≡ ok p
        → IsKept request_hash p.raw_tx p.expected_txid
            (decided c now key token request_hash t db o).1
    go none = λ done. absurd (cc)
    go (some r) =
        elim (Bool-cases
          (not (holds r.claim_token token) || not (r.request_hash == request_hash))) [
            | inl other ↦ rw other (λ done. absurd (cc))
            | inr owned ↦ elim (Option-cases r.prepared_record_id) [
              | inr (i, old) ↦ rw (owned, old) (λ done. row-IsKept request_hash i db p done)
              | inl fresh ↦ elim (Bool-cases (is_claimed r.state)) [
                | inr past ↦ rw (owned, fresh, past) (λ done. absurd (cc))
                | inl claimed ↦ rw (owned, fresh, claimed) (λ done. new done)
              ]
            ]
          ]
