-- ===== src/Bitcoin/Store/Immutable.antt =====
-- The prepared transaction: once written it is never rewritten.
use rails.Prelude.{
  ℕ, nat_eq, string_eq, ◌≡◌, refl, some, List, [], ◌∷◌, inl, inr, Bool-cases, if◌then◌else◌,
}
use rails.Table.{update}
use rails.Table.Laws.{find, find-update, find-insert_old}
use rails.Bitcoin.Store.Rows.{TransactionRecord, Db, Settings, id_of, find_id}
use rails.Bitcoin.Store.Settle.{is_prepared_of, with_status}
use rails.Bitcoin.Store.Calls.{Call, step, run}
use rails.Bitcoin.Store.Owner.{HasKeys}
use rails.Bitcoin.Store.Keys.{step-HasKeys}
use rails.Bitcoin.Store.Ledger.{Writes, same, records, restates, step-Writes}

-- `t'` is the record `t` up to its status and the time of its last change.
pub record SameTransaction (t t' : TransactionRecord) : Type 0 where
  pub unchanged : t' ≡ record t { status = t'.status; updated_at = t'.updated_at }

SameTransaction-refl : (t : TransactionRecord) → SameTransaction t t
SameTransaction-refl t = record { unchanged = refl }

SameTransaction-trans :
    {s t v : TransactionRecord} → SameTransaction s t → SameTransaction t v → SameTransaction s v
SameTransaction-trans a b = record { unchanged = cc (a.unchanged, b.unchanged) }

Writes-keep :
    (db : Db) (table : List TransactionRecord) (last_id i : ℕ) (t : TransactionRecord)
    → Writes db table last_id
    → find_id i db ≡ some t
    → (t' : TransactionRecord) × (find id_of i table ≡ some t') × SameTransaction t t'
Writes-keep db table last_id i t (same e _) found = (t, rw e found, SameTransaction-refl t)
Writes-keep db table last_id i t (records r _ e _) found =
    (t, rw e (find-insert_old id_of i r t db.transaction_records found), SameTransaction-refl t)
Writes-keep db table last_id i t (restates now status o e _) found =
    elim (Bool-cases (is_prepared_of o t)) [
      | inl hit ↦ (with_status now status t, rw (e, moved, hit), record { unchanged = refl })
      | inr miss ↦ (t, rw (e, moved, miss), SameTransaction-refl t)
    ]
  where
    moved :
        find id_of i (update (is_prepared_of o) (with_status now status) db.transaction_records)
        ≡ some (if is_prepared_of o t then with_status now status t else t)
    moved = rw found at (
        find-update id_of (is_prepared_of o) (with_status now status) (λ r. refl) i
          db.transaction_records)

pub step-SameTransaction :
    (c : Settings) (now : ℕ) (call : Call) (i : ℕ) (t : TransactionRecord) (db : Db)
    → HasKeys db
    → find_id i db ≡ some t
    → (t' : TransactionRecord) × (find_id i (step c now call db) ≡ some t') × SameTransaction t t'
step-SameTransaction c now call i t db u found =
    Writes-keep db _ _ i t (step-Writes c now db u call) found

-- In every history a transaction record stays, with its id, wallet, outputs, PSBT, raw transaction,
-- txid and all else but its status and the time of its last change.
-- The keys of the database are distinct.
pub transaction_is_immutable :
    (c : Settings) (calls : List (ℕ × Call)) (i : ℕ) (t : TransactionRecord) (db : Db)
    → HasKeys db
    → find_id i db ≡ some t
    → (t' : TransactionRecord) × (find_id i (run c calls db) ≡ some t') × SameTransaction t t'
unfolding run
transaction_is_immutable c [] i t db u found = (t, found, SameTransaction-refl t)
transaction_is_immutable c ((now, call) ∷ calls) i t db u found =
    let (x, fx, kept) = step-SameTransaction c now call i t db u found in
    let (t', ft, kept') =
      transaction_is_immutable c calls i x (step c now call db) (step-HasKeys c now call db u) fx in
    (t', ft, SameTransaction-trans kept kept')
