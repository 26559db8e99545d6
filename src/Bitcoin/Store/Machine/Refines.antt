-- ===== src/Bitcoin/Store/Machine/Refines.antt =====
-- Every method of the store moves every key along the state machine, and keeps the keys distinct.
use rails.Prelude.{
  ℕ, suc, ◌||◌, String, sym, ◌∙◌, string_eq, nat_eq, eq_iff, ◌≡◌, refl, not, ◌==◌, Option, none,
  some, arith, inl, inr, Bool-cases, Option-cases,
}
use mathlib.Core.Option.{some-injective}
use rails.Table.{holds}
use rails.Table.Laws.{key-find}
use rails.Bitcoin.Store.Rows.{is_claimed, IdempotencyRecord, Db, Settings, key_of, find_key}
use rails.Bitcoin.Store.Owner.{HasKeys}
use rails.Bitcoin.Store.Machine.{Label, claiming, saving, acting, plain, Moves, stays, prepares}
use rails.Bitcoin.Store.Prepared.{Signed, may_prepare, prepared_record, save_prepared_broadcast}
use rails.Bitcoin.Store.Saving.{
  decided as save_decided, recorded, saved_db, save_prepared_broadcast_lem,
}
use rails.Bitcoin.Store.Transactions.{record_transaction}
use rails.Bitcoin.Store.Calls.{Call, step}
use rails.Bitcoin.Store.Machine.Updates.{
  update-Moves, heartbeat-Moves, respond-Moves, unknown-Moves, failed-Moves, broadcast-Moves,
  reject-Moves, prune-Moves,
}
use rails.Bitcoin.Store.Machine.Claims.{claim-Moves}

-- What a call brings to a database.
abbrev pub label : Db → Call → Label
label db (Call.claims token key scope request_hash) = claiming token key scope request_hash
label db (Call.saves key token request_hash t) =
    saving key token (suc db.last_id) request_hash t.expected_txid
label db (Call.beats key token) = acting key token
label db (Call.responds key scope request_hash token status response) = acting key token
label db (Call.sends key token txid) = acting key token
label db (Call.fails key token status error_code message) = acting key token
label db (Call.rejects key token status error_code message) = acting key token
label db (Call.loses key token txid error) = acting key token
label db (Call.records d) = plain
label db Call.prunes = plain

module _ (c : Settings) (now : ℕ) (j : String) where
  save_new-Moves :
      (key token request_hash : String) (t : Signed) (db : Db) (r : IdempotencyRecord)
      → find_key key db ≡ some r
      → r.prepared_record_id ≡ none
      → r.request_hash ≡ request_hash
      → Moves c now
          (saving key token (suc db.last_id) request_hash t.expected_txid)
          (find_key j db)
          (find_key j (saved_db c now key token request_hash t db))
  save_new-Moves key token request_hash t db r found fresh mine =
      update-Moves c now (saving key token (suc db.last_id) request_hash t.expected_txid) j key
        (may_prepare token) (prepared_record c now t.expected_txid (suc db.last_id))
        (recorded c now key token request_hash t db) (λ x. refl)
        λ x fx p.
          let same : r ≡ x = some-injective r x (sym found ∙ fx) in
          prepares token t.expected_txid (suc db.last_id) x
            (rw (key-find key_of key x db.idempotency_records fx, sym same, mine)) refl
            (ground arith) (ground arith) (rw same at fresh) refl

  save-Moves :
      (key token request_hash : String) (t : Signed) (db : Db)
      → HasKeys db
      → Moves c now
          (saving key token (suc db.last_id) request_hash t.expected_txid)
          (find_key j db)
          (find_key j (save_prepared_broadcast c now key token request_hash t db).1)
  save-Moves key token request_hash t db u =
      rw (save_prepared_broadcast_lem c now key token request_hash t db u)
        (go (find_key key db) refl)
    where
      go :
          (o : Option IdempotencyRecord)
          → find_key key db ≡ o
          → Moves c now
              (saving key token (suc db.last_id) request_hash t.expected_txid)
              (find_key j db)
              (find_key j (save_decided c now key token request_hash t db o).1)
      go none e = stays refl
      go (some r) e =
          elim (Bool-cases
            (not (holds r.claim_token token) || not (r.request_hash == request_hash))) [
              | inl other ↦ rw other (stays refl)
              | inr owned ↦ elim (Option-cases r.prepared_record_id) [
                | inr (i, old) ↦ rw (owned, old) (stays refl)
                | inl fresh ↦ elim (Bool-cases (is_claimed r.state)) [
                  | inr past ↦ rw (owned, fresh, past) (stays refl)
                  | inl claimed ↦
                      rw (owned, fresh, claimed)
                        (save_new-Moves key token request_hash t db r e fresh
                          (ground (arith, eq_iff r.request_hash request_hash)))
                ]
              ]
            ]

  -- In a table with distinct keys every call of the store moves the row of every key along the state machine
  -- `Moves`. But for a claim of a vacant key and the deletion of an expired row, a row moves only by a call for
  -- its own key: by a claim of the same request, or by a call whose token is the claim token of the row.
  pub step-Moves :
      (call : Call) (db : Db)
      → HasKeys db
      → Moves c now (label db call) (find_key j db) (find_key j (step c now call db))
  unfolding step record_transaction
  step-Moves (Call.claims token key scope request_hash) db u =
      claim-Moves c now j token key scope request_hash db u
  step-Moves (Call.beats key token) db u = heartbeat-Moves c now j key token db
  step-Moves (Call.responds key scope request_hash token status response) db u =
      respond-Moves c now j key scope request_hash token status response db u
  step-Moves (Call.saves key token request_hash t) db u = save-Moves key token request_hash t db u
  step-Moves (Call.sends key token txid) db u = broadcast-Moves c now j key token txid db u
  step-Moves (Call.fails key token status error_code message) db u =
      failed-Moves c now j key token status error_code message db u
  step-Moves (Call.rejects key token status error_code message) db u =
      reject-Moves c now j key token status error_code message db u
  step-Moves (Call.loses key token txid error) db u =
      unknown-Moves c now j key token txid error db u
  step-Moves (Call.records d) db u = stays refl
  step-Moves Call.prunes db u = prune-Moves c now plain j db u
