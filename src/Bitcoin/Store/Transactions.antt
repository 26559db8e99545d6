-- ===== src/Bitcoin/Store/Transactions.antt =====
-- CohesionStore of bitcoin_core_backend/src/infra/store.py: the transaction records on their own.
use rails.Prelude.{
  ℕ, zero, suc, String, string_eq, Option, List, [], ◌∷◌, map, max, min, leb, if◌then◌else◌,
}
use rails.Json.{Fields}
use rails.Text.{truthy_column}
use rails.Effect.{gets}
use rails.Table.{holds}
use rails.Bitcoin.Store.Rows.{Output, TransactionRecord, Db, Store, insert_transaction}

-- The keyword arguments of `record_transaction`; `metadata or {}` is the empty dict for none.
pub record Details : Type 0 where
  pub wallet : String
  pub kind : String
  pub request_hash : String
  pub idempotency_key : Option String
  pub outputs : List Output
  pub psbt : Option String
  pub raw_tx : Option String
  pub txid : Option String
  pub status : String
  pub metadata : Fields
  pub network : String

-- `strftime('%s', 'now')` is SQLite's clock, in seconds.
abbrev pub recorded_row : ℕ → Details → ℕ → TransactionRecord
recorded_row now d id = record {
  id = id;
  wallet = d.wallet;
  kind = d.kind;
  request_hash = d.request_hash;
  idempotency_key = d.idempotency_key;
  outputs_json = d.outputs;
  psbt = d.psbt;
  raw_tx = d.raw_tx;
  txid = d.txid;
  status = d.status;
  metadata_json = d.metadata;
  created_at = now;
  updated_at = now;
  network = d.network;
}

unfoldable pub record_transaction : ℕ → Details → Store ℕ
record_transaction now d = insert_transaction (recorded_row now d)

-- `WHERE wallet = ?`, which stands in the query for a wallet that is not empty.
unfoldable pub of_wallet : Option String → List TransactionRecord → List TransactionRecord
of_wallet wallet [] = []
of_wallet wallet (r ∷ t) =
    let rest = of_wallet wallet t in
    if truthy_column wallet then (if holds wallet r.wallet then r ∷ rest else rest) else r ∷ rest

-- `ORDER BY id DESC`
unfoldable pub place : TransactionRecord → List TransactionRecord → List TransactionRecord
place r [] = r ∷ []
place r (x ∷ t) = let later = place r t in if leb x.id r.id then r ∷ x ∷ t else x ∷ later

unfoldable pub newest_first : List TransactionRecord → List TransactionRecord
newest_first [] = []
newest_first (r ∷ t) = place r (newest_first t)

-- `LIMIT ?`
unfoldable pub first : ℕ → List TransactionRecord → List TransactionRecord
first zero t = []
first (suc n) [] = []
first (suc n) (r ∷ t) = r ∷ first n t

-- The dict of each row that `recent_transactions` returns.
pub record Recent : Type 0 where
  pub id : ℕ
  pub wallet : String
  pub kind : String
  pub txid : Option String
  pub status : String
  pub idempotency_key : Option String
  pub metadata : Fields
  pub created_at : ℕ
  pub updated_at : ℕ

abbrev pub recent_of : TransactionRecord → Recent
recent_of r = record {
  id = r.id;
  wallet = r.wallet;
  kind = r.kind;
  txid = r.txid;
  status = r.status;
  idempotency_key = r.idempotency_key;
  metadata = r.metadata_json;
  created_at = r.created_at;
  updated_at = r.updated_at;
}

-- `max(1, min(limit, 100))`
abbrev pub clamp_limit : ℕ → ℕ
clamp_limit limit = max 1 (min limit 100)

unfoldable pub recent_transactions : Option String → ℕ → Store (List Recent)
recent_transactions wallet limit = gets (λ db.
    map recent_of
      (first (clamp_limit limit) (newest_first (of_wallet wallet db.transaction_records))))

unfoldable pub size {ℓ} : {A : Type ℓ} → List A → ℕ
size [] = 0
size (x ∷ t) = suc (size t)

pub record Summary : Type 0 where
  pub transaction_records : ℕ
  pub idempotency_records : ℕ

unfoldable pub summary : Store Summary
summary = gets (λ (db : Db). record {
  transaction_records = size db.transaction_records;
  idempotency_records = size db.idempotency_records;
})
