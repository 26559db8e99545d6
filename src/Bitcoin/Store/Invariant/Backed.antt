-- ===== src/Bitcoin/Store/Invariant/Backed.antt =====
-- The transactions that the rows name, across every call.
use rails.Prelude.{
  ℕ, suc, ◌<◌, String, string_eq, nat_eq, eq_iff, ◌≡◌, refl, sym, ◌∙◌, Option, none, some, List,
  arith, inl, inr,
}
use mathlib.Core.Option.{some-injective}
use rails.Table.Laws.{find, find-update, find-insert_new}
use rails.Bitcoin.Store.Rows.{
  IdempotencyRecord, TransactionRecord, Db, Settings, id_of, find_key, find_id,
}
use rails.Bitcoin.Store.Calls.{Call, step}
use rails.Bitcoin.Store.Settle.{is_prepared_of, with_status}
use rails.Bitcoin.Store.Prepared.{Signed, prepared_row, prepared_record, save_prepared_broadcast}
use rails.Bitcoin.Store.Saving.{save_cases}
use rails.Bitcoin.Store.Owner.{HasKeys}
use rails.Bitcoin.Store.Forward.{text_of}
use rails.Bitcoin.Store.Machine.Refines.{label}
use rails.Bitcoin.Store.Ledger.{Writes, same, records, restates}
use rails.Bitcoin.Store.Immutable.{step-SameTransaction}
use rails.Bitcoin.Store.Machine.{
  saving, Moves, stays, begins, takes, beats, prepares, sends, doubts, responds, fails, rejects,
  vanishes,
}
use rails.Bitcoin.Store.Invariant.{IsBacked, Backed, IsWellFormed}

pub Writes-fresh :
    (db : Db) (table : List TransactionRecord) (last_id : ℕ)
    → ((i : ℕ) → db.last_id < i → find_id i db ≡ none)
    → Writes db table last_id
    → (i : ℕ) → last_id < i
    → find id_of i table ≡ none
Writes-fresh db table last_id fresh (same e e') i h = rw e (fresh i (omega arith))
Writes-fresh db table last_id fresh (records t own e e') i h =
    rw (e, find-insert_new id_of i t db.transaction_records (rw own (fresh _ (omega arith))))
      (ground (arith, fresh i))
Writes-fresh db table last_id fresh (restates now status o e e') i h = rw (
  e,
  find-update id_of (is_prepared_of o) (with_status now status) (λ r. refl) i
      db.transaction_records,
  fresh i (omega arith),
)

-- A row that names the same transaction, for the same request and txid, is backed as well.
IsBacked-step :
    (c : Settings) (now : ℕ) (call : Call) (db : Db) (r r' : IdempotencyRecord) (i : ℕ)
    → HasKeys db
    → IsBacked db r i
    → r'.request_hash ≡ r.request_hash
    → r'.payment_hash ≡ r.payment_hash
    → IsBacked (step c now call db) r' i
IsBacked-step c now call db r r' i u b hash paid =
    let (t, found, kept) = step-SameTransaction c now call i b.transaction db u b.stored in
    record {
      transaction = t;
      stored = found;
      kind = cc (kept.unchanged, b.kind);
      request_hash = cc (kept.unchanged, b.request_hash);
      txid = cc (kept.unchanged, b.txid);
    }

-- The row that a save has bound is backed by the record that it has written.
save-IsBacked :
    (c : Settings) (now : ℕ) (key token request_hash : String) (t : Signed) (db : Db) (j : String)
    (x : IdempotencyRecord)
    → HasKeys db
    → find_id (suc db.last_id) db ≡ none
    → find_key j db ≡ some x
    → x.prepared_record_id ≡ none
    → x.request_hash ≡ request_hash
    → let db' = (save_prepared_broadcast c now key token request_hash t db).1 in
      let r' = prepared_record c now t.expected_txid (suc db.last_id) x in
      find_key j db' ≡ some r' → IsBacked db' r' (suc db.last_id)
save-IsBacked c now key token request_hash t db j x u fresh found unprepared mine moved =
    elim (save_cases c now key token request_hash t db u) [
      | inl kept ↦
          let x' : Option IdempotencyRecord =
            some (prepared_record c now t.expected_txid (suc db.last_id) x) in
          let unmoved : find_key j db ≡ x' = rw kept at moved in
          absurd (cc (unmoved, found, unprepared))
      | inr saved ↦ rw saved (record {
        transaction = prepared_row now key request_hash t (suc db.last_id);
        stored =
            rw
              (find-insert_new id_of (suc db.last_id)
                (prepared_row now key request_hash t (suc db.last_id)) db.transaction_records fresh)
              (ground arith);
        kind = refl;
        request_hash = rw mine;
        txid = refl;
      })
    ]

prepared-IsBacked :
    (c : Settings) (now : ℕ) (call : Call) (db : Db)
    → IsWellFormed db
    → (j key token : String) (x : IdempotencyRecord) (id i : ℕ) (txid : String)
    → label db call ≡ saving key token id x.request_hash txid
    → find_key j db ≡ some x
    → x.prepared_record_id ≡ none
    → find_key j (step c now call db) ≡ some (prepared_record c now txid id x)
    → id ≡ i
    → IsBacked (step c now call db) (prepared_record c now txid id x) i
unfolding step
prepared-IsBacked c now (Call.saves key token request_hash t) db wf j key' token' x id i txid mine
      found unprepared moved same_id =
    let own : id ≡ suc db.last_id = cc in
    let own_i : i ≡ suc db.last_id = cc in
    let paid : txid ≡ t.expected_txid = cc in
    rw (own_i, own, paid)
      (save-IsBacked c now key token request_hash t db j x wf.keys (wf.fresh _ (omega arith)) found
        unprepared (cc) (rw (own, paid) at moved))
prepared-IsBacked c now (Call.claims _ _ _ _) db wf j key' token' x id i txid mine found un moved
      e =
    absurd (cc)
prepared-IsBacked c now _ db wf j key' token' x id i txid mine found un moved e = absurd (cc)

module _ (c : Settings) (now : ℕ) (call : Call) (db : Db) (wf : IsWellFormed db) (j : String) where
  -- Where a move keeps the transaction and the txid of a row, the row stays backed.
  moved-Backed :
      (o' : Option IdempotencyRecord) (x r' : IdempotencyRecord)
      → find_key j db ≡ some x
      → o' ≡ some r'
      → r'.request_hash ≡ x.request_hash
      → r'.prepared_record_id ≡ x.prepared_record_id
      → r'.payment_hash ≡ x.payment_hash
      → Backed (step c now call db) o'
  moved-Backed o' x r' found e hash prepared paid =
      let backed : Backed db (some x) = rw found at (wf.backed j) in
      rw e
        (λ i h. IsBacked-step c now call db x r' i wf.keys (backed i (sym prepared ∙ h)) hash paid)

  pub Moves-Backed :
      (o o' : Option IdempotencyRecord)
      → find_key j db ≡ o
      → find_key j (step c now call db) ≡ o'
      → Moves c now (label db call) o o'
      → Backed (step c now call db) o'
  Moves-Backed none o' eo eo' (stays e) = rw e tt
  Moves-Backed (some x) o' eo eo' (stays e) = moved-Backed o' x x eo e refl refl refl
  Moves-Backed o o' eo eo' (begins t _ _ _ mine vacant e) = rw e (λ i h. absurd (cc))
  Moves-Backed o o' eo eo' (vanishes vacant e) = rw e tt
  Moves-Backed o o' eo eo' (takes t x mine e vacant open_row free e') =
      moved-Backed o' x _ (eo ∙ e) e' refl refl refl
  Moves-Backed o o' eo eo' (beats _ x _ e held open_row e') =
      moved-Backed o' x _ (eo ∙ e) e' refl refl refl
  Moves-Backed o o' eo eo' (sends _ txid x _ e held hash state e') =
      moved-Backed o' x _ (eo ∙ e) e' refl refl
        (ground (arith, eq_iff (text_of x.payment_hash) txid))
  Moves-Backed o o' eo eo' (doubts _ txid _ x _ e held hash state e') =
      moved-Backed o' x _ (eo ∙ e) e' refl refl
        (ground (arith, eq_iff (text_of x.payment_hash) txid))
  Moves-Backed o o' eo eo' (responds _ _ _ x _ e held state e') =
      moved-Backed o' x _ (eo ∙ e) e' refl refl refl
  Moves-Backed o o' eo eo' (fails _ _ _ _ x _ e held state e') =
      moved-Backed o' x _ (eo ∙ e) e' refl refl refl
  Moves-Backed o o' eo eo' (rejects _ _ _ _ x _ e held state e') =
      moved-Backed o' x _ (eo ∙ e) e' refl refl refl
  Moves-Backed o o' eo eo' (prepares token txid id x mine e held state unprepared e') =
      rw e' (λ i h.
        prepared-IsBacked c now call db wf j x.key token x id i txid mine (eo ∙ e) unprepared
          (eo' ∙ e') (some-injective id i h))
