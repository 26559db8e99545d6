-- ===== src/Bitcoin/Store/Invariant.antt =====
-- The well-formedness of the database: what its rows say of themselves and of each other.
pub mod Sound
pub mod Backed
pub mod Keeps
use rails.Prelude.{
  ℕ, suc, ◌≤◌, ◌<◌, ◌+◌, String, string_eq, nat_eq, eq_iff, nat_beq_iff, ◌≡◌, refl, sym, ◌∙◌, Bool,
  true, false, not, ◌&&◌, ◌||◌, ◌==◌, Option, none, some, List, [], ◌∷◌, arith, inl, inr, leb,
  Bool-cases, Option-cases, if◌then◌else◌,
}
use mathlib.Core.Option.{some-injective}
use rails.Prelude.Int.{ℤ, negsuc}
use rails.Json.{obj, end}
use rails.Table.{holds, insert, select}
use rails.Table.Laws.{find, find-update, find-insert_new, key-find}
use rails.Bitcoin.Store.Rows.{
  State, is_final, is_claimed, is_sendable, IdempotencyRecord, TransactionRecord, Db, Settings,
  id_of, find_key, find_id,
}
use rails.Bitcoin.Store.Calls.{Call, step, run}
use rails.Bitcoin.Store.Settle.{is_prepared_of, with_status}
use rails.Bitcoin.Store.Prepared.{Signed, prepared_row, prepared_record, save_prepared_broadcast}
use rails.Bitcoin.Store.Saving.{save_cases}
use rails.Bitcoin.Store.Owner.{HasKeys}
use rails.Bitcoin.Store.Forward.{text_of}
use rails.Bitcoin.Store.Keys.{step-HasKeys}
use rails.Bitcoin.Store.Machine.Refines.{label, step-Moves}
use rails.Bitcoin.Store.Ledger.{Writes, same, records, restates, step-Writes}
use rails.Bitcoin.Store.Immutable.{step-SameTransaction}
use rails.Bitcoin.Store.Claiming.{is_vacant}
use rails.Bitcoin.Store.Machine.{
  Label, claiming, saving, plain, Moves, stays, begins, takes, beats, prepares, sends, doubts,
  responds, fails, rejects, vanishes,
}

abbrev pub is_set {ℓ} : {A : Type ℓ} → Option A → Bool
is_set none = false
is_set (some a) = true

-- What the columns of a row say in each state.
pub record IsSound (r : IdempotencyRecord) : Type 0 where
  -- A settled request is held by no one and has no lease.
  pub released :
      is_final r.state ≡ true
      → (r.claim_token ≡ none) × (r.lease_expires_at ≡ none) × (is_set r.settled_at ≡ true)
  -- An open request is held under a lease, and holds no answer yet.
  pub held :
      is_final r.state ≡ false
      → (is_set r.claim_token ≡ true)
        × (is_set r.lease_expires_at ≡ true)
        × (r.settled_at ≡ none)
        × (r.status_code ≡ negsuc 0)
  -- A request that is just claimed has no transaction.
  pub unprepared : r.state ≡ State.claimed → (r.prepared_record_id ≡ none) × (r.payment_hash ≡ none)
  -- One that may be broadcast has its transaction and its txid.
  pub prepared :
      is_sendable r.state ≡ true
      → (is_set r.prepared_record_id ≡ true) × (is_set r.payment_hash ≡ true)

abbrev pub Sound : Option IdempotencyRecord → Type 0
Sound none = Unit
Sound (some r) = IsSound r

-- The transaction that a row names is there, and it is that of the row's request and txid.
pub record IsBacked (db : Db) (r : IdempotencyRecord) (i : ℕ) : Type 0 where
  pub transaction : TransactionRecord
  pub stored : find_id i db ≡ some transaction
  pub kind : transaction.kind ≡ "broadcast"
  pub request_hash : transaction.request_hash ≡ r.request_hash
  pub txid : transaction.txid ≡ r.payment_hash

abbrev pub Backed : Db → Option IdempotencyRecord → Type 0
Backed db none = Unit
Backed db (some r) = (i : ℕ) → r.prepared_record_id ≡ some i → IsBacked db r i

-- The well-formed databases.
pub record IsWellFormed (db : Db) : Type 0 where
  pub keys : HasKeys db
  pub fresh : (i : ℕ) → db.last_id < i → find_id i db ≡ none
  pub sound : (key : String) → Sound (find_key key db)
  pub backed : (key : String) → Backed db (find_key key db)

-- The empty database of `_init_db`.
abbrev pub empty_db : Db
empty_db = record { idempotency_records = []; transaction_records = []; last_id = 0 }
