-- ===== src/Bitcoin/Store/Rows.antt =====
-- The data of bitcoin_core_backend/src/infra/store.py: the two tables, the frozen dataclasses that
-- the store returns, and the statements over the tables as actions.
use rails.Prelude.{ℕ, suc, String, string_eq, nat_eq, Bool, true, false, Option, List, max}
use rails.Prelude.Int.{ℤ}
use rails.Json.{Json, Fields}
use rails.Effect.{Action, ok}
use rails.Table.{update, count, delete, insert}
use rails.Table.Laws.{find}
use rails.Bitcoin.Errors.{Error}

-- The texts that the `state` column takes.
pub data State : Type 0 where
  claimed prepared broadcast unknown succeeded failed_final : State

-- `state in {"SUCCEEDED", "FAILED_FINAL"}`
abbrev pub is_final : State → Bool
is_final State.succeeded = true
is_final State.failed_final = true
is_final _ = false

abbrev pub is_claimed : State → Bool
is_claimed State.claimed = true
is_claimed _ = false

-- `state IN ('PREPARED', 'UNKNOWN')`
abbrev pub is_rejectable : State → Bool
is_rejectable State.prepared = true
is_rejectable State.unknown = true
is_rejectable _ = false

-- `state IN ('PREPARED', 'UNKNOWN', 'BROADCAST')`
abbrev pub is_sendable : State → Bool
is_sendable State.prepared = true
is_sendable State.unknown = true
is_sendable State.broadcast = true
is_sendable _ = false

-- `state IN ('CLAIMED', 'PREPARED', 'BROADCAST', 'UNKNOWN')`
abbrev pub is_open : State → Bool
is_open State.succeeded = false
is_open State.failed_final = false
is_open _ = true

-- A row of `idempotency_records`. A JSON column is the document that its text encodes, and an
-- INTEGER column that holds a time is a number of seconds.
pub record IdempotencyRecord : Type 0 where
  pub key : String
  pub scope : String
  pub request_hash : String
  pub status_code : ℤ
  pub response_json : Json
  pub created_at : ℕ
  pub expires_at : ℕ
  pub claim_token : Option String
  pub claimed_at : Option ℕ
  pub lease_expires_at : Option ℕ
  pub state : State
  pub payment_hash : Option String
  pub payment_network : String
  pub settled_at : Option ℕ
  pub prepared_record_id : Option ℕ
  pub last_error : Option String

-- An entry of the `outputs` lists: `{"address": …, "amountSats": …}`.
pub record Output : Type 0 where
  pub address : String
  pub amount_sats : ℕ

-- A row of `transaction_records`.
pub record TransactionRecord : Type 0 where
  pub id : ℕ
  pub wallet : String
  pub kind : String
  pub request_hash : String
  pub idempotency_key : Option String
  pub outputs_json : List Output
  pub psbt : Option String
  pub raw_tx : Option String
  pub txid : Option String
  pub status : String
  pub metadata_json : Fields
  pub created_at : ℕ
  pub updated_at : ℕ
  pub network : String

-- The database; `last_id` is what AUTOINCREMENT remembers, so that an id is never given twice.
pub record Db : Type 0 where
  pub idempotency_records : List IdempotencyRecord
  pub transaction_records : List TransactionRecord
  pub last_id : ℕ

-- `CohesionStore.__init__`: the two durations.
pub record Settings : Type 0 where
  pub ttl : ℕ
  pub lease_argument : ℕ

-- `max(5, int(claim_lease_seconds))`
abbrev pub claim_lease_seconds : Settings → ℕ
claim_lease_seconds c = max 5 c.lease_argument

pub record IdempotencyReplay : Type 0 where
  pub status_code : ℤ
  pub response : Json

pub record IdempotencyClaim : Type 0 where
  pub key : String
  pub token : String
  pub state : State
  pub prepared_record_id : Option ℕ

pub data ClaimOutcome : Type 0 where
  claim : IdempotencyClaim → ClaimOutcome
  replay : IdempotencyReplay → ClaimOutcome

pub record PreparedBroadcast : Type 0 where
  pub record_id : ℕ
  pub wallet : String
  pub request_hash : String
  pub outputs : List Output
  pub psbt : String
  pub raw_tx : String
  pub expected_txid : String
  pub fee_sats : ℤ
  pub total_output_sats : ℤ

abbrev pub key_of : IdempotencyRecord → String
key_of r = r.key

abbrev pub id_of : TransactionRecord → ℕ
id_of r = r.id

-- `SELECT … FROM idempotency_records WHERE key = ?`
abbrev pub find_key : String → Db → Option IdempotencyRecord
find_key key db = find key_of key db.idempotency_records

-- `SELECT … FROM transaction_records WHERE id = ?`
abbrev pub find_id : ℕ → Db → Option TransactionRecord
find_id id db = find id_of id db.transaction_records

abbrev pub Store : Type 0 → Type 0
Store A = Action Db Error A

-- `UPDATE idempotency_records SET f WHERE p`, which returns `rowcount`.
abbrev pub update_records :
    (IdempotencyRecord → Bool) → (IdempotencyRecord → IdempotencyRecord) → Store ℕ
update_records p f db = (
  ok (count p db.idempotency_records),
  record db { idempotency_records = update p f db.idempotency_records },
)

abbrev pub insert_record : IdempotencyRecord → Store Unit
insert_record r db = (ok tt, record db { idempotency_records = insert r db.idempotency_records })

abbrev pub delete_records : (IdempotencyRecord → Bool) → Store ℕ
delete_records p db = (
  ok (count p db.idempotency_records),
  record db { idempotency_records = delete p db.idempotency_records },
)

abbrev pub update_transactions :
    (TransactionRecord → Bool) → (TransactionRecord → TransactionRecord) → Store ℕ
update_transactions p f db = (
  ok (count p db.transaction_records),
  record db { transaction_records = update p f db.transaction_records },
)

-- `INSERT INTO transaction_records`, which returns `lastrowid`; the row is given its id.
abbrev pub insert_transaction : (ℕ → TransactionRecord) → Store ℕ
insert_transaction r db = (
  ok (suc db.last_id),
  record db {
    transaction_records = insert (r (suc db.last_id)) db.transaction_records;
    last_id = suc db.last_id;
  },
)
