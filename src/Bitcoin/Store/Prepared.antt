-- ===== src/Bitcoin/Store/Prepared.antt =====
-- CohesionStore of bitcoin_core_backend/src/infra/store.py: the transaction that is kept before its
-- first broadcast, written and read back.
use rails.Prelude.{
  ℕ, ◌+◌, String, string_eq, nat_eq, Bool, not, ◌&&◌, ◌||◌, Option, none, some, ◌==◌, List,
  if◌then◌else◌,
}
use rails.Prelude.Int.{ℤ, pos}
use rails.Json.{Fields, get_field, int, end, field}
use rails.Text.{truthy_column}
use rails.Effect.{Result, ok, err, pure, raise, lift, gets, atomic, ◌>>=◌, ◌>>◌}
use rails.Table.{holds, select}
use rails.Bitcoin.Errors.{Error, api_error, crash}
use rails.Bitcoin.Store.Rows.{
  State, is_claimed, IdempotencyRecord, Output, TransactionRecord, Settings, claim_lease_seconds,
  PreparedBroadcast, Store, find_key, find_id, insert_transaction,
}
use rails.Bitcoin.Store.Claim.{lost_claim, update_claimed}

abbrev pub corrupt : Error
corrupt =
    api_error 500 "PREPARED_BROADCAST_CORRUPT"
      "Persisted Bitcoin broadcast state is incomplete; manual reconciliation is required."

-- `int(metadata.get(key, 0))`. The program writes whole numbers under these keys.
abbrev pub metadata_int : String → Fields → Result Error ℤ
metadata_int key fields = elim (get_field key fields) [
  | none ↦ ok (pos 0)
  | some j ↦ elim j [ int n ↦ ok n | _ ↦ err (crash "int() of a document that is no number") ]
]

-- A column of text that may be NULL, read by `str`, behind the test that it is not.
abbrev pub text_of : Option String → String
text_of none = "None"
text_of (some s) = s

abbrev pub is_corrupt : String → TransactionRecord → Bool
is_corrupt request_hash r =
    not (r.request_hash == request_hash)
    || (not (truthy_column r.psbt) || (not (truthy_column r.raw_tx) || not (truthy_column r.txid)))

abbrev pub with_amounts :
    TransactionRecord → Result Error ℤ → Result Error ℤ → Result Error PreparedBroadcast
with_amounts r (err e) _ = err e
with_amounts r (ok fee) (err e) = err e
with_amounts r (ok fee) (ok total) = ok (record {
  record_id = r.id;
  wallet = r.wallet;
  request_hash = r.request_hash;
  outputs = r.outputs_json;
  psbt = text_of r.psbt;
  raw_tx = text_of r.raw_tx;
  expected_txid = text_of r.txid;
  fee_sats = fee;
  total_output_sats = total;
})

-- `_load_prepared_by_id`, on the row that its SELECT finds.
abbrev pub load_row : String → Option TransactionRecord → Result Error PreparedBroadcast
load_row request_hash none = err corrupt
load_row request_hash (some r) =
    if not (r.kind == "broadcast") || is_corrupt request_hash r
    then err corrupt
    else with_amounts r (metadata_int "feeSats" r.metadata_json)
        (metadata_int "totalOutputSats" r.metadata_json)

abbrev pub load_prepared_by_id : ℕ → String → Store PreparedBroadcast
load_prepared_by_id record_id request_hash = do
  row ← gets (find_id record_id)
  lift (load_row request_hash row)

-- The keyword arguments of `save_prepared_broadcast` behind the claim's.
pub record Signed : Type 0 where
  pub wallet : String
  pub outputs : List Output
  pub psbt : String
  pub raw_tx : String
  pub expected_txid : String
  pub fee_sats : ℤ
  pub total_output_sats : ℤ
  pub network : String

-- The row of `transaction_records` that holds the exact transaction.
abbrev pub prepared_row : ℕ → String → String → Signed → ℕ → TransactionRecord
prepared_row now key request_hash t id = record {
  id = id;
  wallet = t.wallet;
  kind = "broadcast";
  request_hash = request_hash;
  idempotency_key = some key;
  outputs_json = t.outputs;
  psbt = some t.psbt;
  raw_tx = some t.raw_tx;
  txid = some t.expected_txid;
  status = "prepared";
  metadata_json =
      field "feeSats" (int t.fee_sats) (field "totalOutputSats" (int t.total_output_sats) end);
  created_at = now;
  updated_at = now;
  network = t.network;
}

abbrev pub prepared_of : String → Signed → ℕ → PreparedBroadcast
prepared_of request_hash t id = record {
  record_id = id;
  wallet = t.wallet;
  request_hash = request_hash;
  outputs = t.outputs;
  psbt = t.psbt;
  raw_tx = t.raw_tx;
  expected_txid = t.expected_txid;
  fee_sats = t.fee_sats;
  total_output_sats = t.total_output_sats;
}

-- `claim_token = ? AND state = 'CLAIMED'`
abbrev pub may_prepare : String → IdempotencyRecord → Bool
may_prepare claim_token r = holds r.claim_token claim_token && is_claimed r.state

abbrev pub prepared_record : Settings → ℕ → String → ℕ → IdempotencyRecord → IdempotencyRecord
prepared_record c now expected_txid record_id r = record r {
  state = State.prepared;
  prepared_record_id = some record_id;
  payment_hash = some expected_txid;
  lease_expires_at = some (now + claim_lease_seconds c);
  last_error = none;
}

insert_prepared : Settings → ℕ → String → String → String → Signed → Store PreparedBroadcast
insert_prepared c now key claim_token request_hash t = do
  record_id ← insert_transaction (prepared_row now key request_hash t)
  update_claimed key (may_prepare claim_token) (prepared_record c now t.expected_txid record_id)
  pure (prepared_of request_hash t record_id)

save_owned :
    Settings
    → ℕ
    → String
    → String
    → String
    → Signed
    → Option IdempotencyRecord
    → Store PreparedBroadcast
unfolding insert_prepared
save_owned c now key claim_token request_hash t none = raise lost_claim
save_owned c now key claim_token request_hash t (some owner) =
    if not (holds owner.claim_token claim_token) || not (owner.request_hash == request_hash)
    then raise lost_claim
    else elim owner.prepared_record_id [
      | some record_id ↦ load_prepared_by_id record_id request_hash
      | none ↦
          if not (is_claimed owner.state)
          then raise lost_claim
          else insert_prepared c now key claim_token request_hash t
    ]

unfoldable pub save_prepared_broadcast :
    Settings → ℕ → String → String → String → Signed → Store PreparedBroadcast
unfolding save_owned
save_prepared_broadcast c now key claim_token request_hash t =
    atomic do owner ← gets (find_key key); save_owned c now key claim_token request_hash t owner

abbrev load_claimed : String → Option IdempotencyRecord → Store (Option PreparedBroadcast)
load_claimed request_hash none = pure none
load_claimed request_hash (some r) = elim r.prepared_record_id [
  | none ↦ pure none
  | some record_id ↦ (do p ← load_prepared_by_id record_id request_hash; pure (some p))
]

unfoldable pub load_prepared_broadcast : String → String → Store (Option PreparedBroadcast)
load_prepared_broadcast key request_hash = do
  row ←
      gets
        (λ db. select (λ r. r.key == key && r.request_hash == request_hash) db.idempotency_records)
  load_claimed request_hash row
