-- ===== src/Bitcoin/Store/Ledger.antt =====
-- What a call may do to `transaction_records`: nothing, one new record under the next id, or a new
-- status for records that are there.
use rails.Prelude.{
  ℕ, suc, nat_eq, String, string_eq, ◌≡◌, refl, Bool, Option, List, arith, inl, inr, Bool-cases,
}
use rails.Prelude.Int.{ℤ}
use rails.Table.{insert, update}
use rails.Bitcoin.Store.Rows.{IdempotencyRecord, TransactionRecord, Db, Settings, find_key}
use rails.Bitcoin.Store.Claim.{claim_idempotent, heartbeat_claim, prune_expired, update_claimed}
use rails.Bitcoin.Store.Prepared.{Signed, save_prepared_broadcast}
use rails.Bitcoin.Store.Settle.{
  store_response, mark_broadcast, mark_failed, mark_prepared_failed, mark_unknown, set_status,
  is_prepared_of, with_status, may_send, sent, may_reject, failed,
}
use rails.Bitcoin.Store.Transactions.{record_transaction}
use rails.Bitcoin.Store.Calls.{Call, step}
use rails.Table.Owned.{passes}
use rails.Bitcoin.Store.Owner.{HasKeys, update_claimed_lem}
use rails.Bitcoin.Store.Saving.{save_cases}

pub data Writes (db : Db) (table : List TransactionRecord) (last_id : ℕ) : Type 0 where
  same : table ≡ db.transaction_records → last_id ≡ db.last_id → Writes db table last_id
  records :
      (t : TransactionRecord)
      → t.id ≡ suc db.last_id
      → table ≡ insert t db.transaction_records
      → last_id ≡ suc db.last_id
      → Writes db table last_id
  restates :
      (now : ℕ) (status : String) (o : Option IdempotencyRecord)
      → table ≡ update (is_prepared_of o) (with_status now status) db.transaction_records
      → last_id ≡ db.last_id
      → Writes db table last_id

module _ (c : Settings) (now : ℕ) (db : Db) (u : HasKeys db) where
  update_claimed-Writes :
      (key : String) (p : IdempotencyRecord → Bool) (f : IdempotencyRecord → IdempotencyRecord)
      → let db' = (update_claimed key p f db).1 in Writes db db'.transaction_records db'.last_id
  unfolding update_claimed
  update_claimed-Writes key p f = same (ground arith) (ground arith)

  claim-Writes :
      (token key scope request_hash : String)
      → let db' = (claim_idempotent c now token key scope request_hash db).1 in
        Writes db db'.transaction_records db'.last_id
  unfolding claim_idempotent
  claim-Writes token key scope request_hash = same (ground arith) (ground arith)

  broadcast-Writes :
      (key token txid : String)
      → let db' = (mark_broadcast c now key token txid db).1 in
        Writes db db'.transaction_records db'.last_id
  unfolding mark_broadcast set_status
  broadcast-Writes key token txid =
      rw (update_claimed_lem key (may_send token txid) (sent c now txid) db u)
        (elim (Bool-cases (passes (may_send token txid) (find_key key db))) [
          | inr lost ↦ rw lost (same refl refl)
          | inl won ↦ rw won (restates now "broadcast" _ refl refl)
        ])

  reject-Writes :
      (key token : String) (status : ℤ) (error_code message : String)
      → let db' = (mark_prepared_failed now key token status error_code message db).1 in
        Writes db db'.transaction_records db'.last_id
  unfolding mark_prepared_failed set_status
  reject-Writes key token status error_code message =
      rw (update_claimed_lem key (may_reject token) (failed now status error_code message) db u)
        (elim (Bool-cases (passes (may_reject token) (find_key key db))) [
          | inr lost ↦ rw lost (same refl refl)
          | inl won ↦ rw won (restates now "rejected" _ refl refl)
        ])

  save-Writes :
      (key token request_hash : String) (t : Signed)
      → let db' = (save_prepared_broadcast c now key token request_hash t db).1 in
        Writes db db'.transaction_records db'.last_id
  save-Writes key token request_hash t = elim (save_cases c now key token request_hash t db u) [
    | inl kept ↦ rw kept (same refl refl)
    | inr saved ↦ rw saved (records _ refl refl refl)
  ]

  -- Every call writes the transaction records in one of these ways.
  pub step-Writes :
      (call : Call) → let db' = step c now call db in Writes db db'.transaction_records db'.last_id
  unfolding step heartbeat_claim store_response mark_failed mark_unknown record_transaction
      prune_expired
  step-Writes (Call.claims token key scope request_hash) = claim-Writes token key scope request_hash
  step-Writes (Call.beats key token) = same refl refl
  step-Writes (Call.responds key scope request_hash token status response) =
      update_claimed-Writes key _ _
  step-Writes (Call.saves key token request_hash t) = save-Writes key token request_hash t
  step-Writes (Call.sends key token txid) = broadcast-Writes key token txid
  step-Writes (Call.fails key token status error_code message) = update_claimed-Writes key _ _
  step-Writes (Call.rejects key token status error_code message) =
      reject-Writes key token status error_code message
  step-Writes (Call.loses key token txid error) = update_claimed-Writes key _ _
  step-Writes (Call.records d) = records _ refl refl refl
  step-Writes Call.prunes = same refl refl
