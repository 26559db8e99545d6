-- ===== src/Bitcoin/Store/Tests.antt =====
-- Runs of the store of bitcoin_core_backend/src/infra/store.py, and the theorems at them.
mod Histories
use rails.Prelude.{ℕ, ◌≡◌, refl, arith, true, false, none, some, List, [], ◌∷◌}
use rails.Prelude.Int.{pos}
use rails.Json.{Json, bool, obj, end, field}
use rails.Effect.{ok, err}
use rails.Table.{select, update, count, delete, insert}
use rails.Bitcoin.Store.Rows.{
  State, IdempotencyRecord, TransactionRecord, Db, Settings, claim, replay, find_key,
}
use rails.Bitcoin.Store.Claim.{
  fresh_record, claim_idempotent, update_claimed, lost_claim, in_progress,
}
use rails.Bitcoin.Store.Prepared.{
  Signed, prepared_row, prepared_of, prepared_record, save_prepared_broadcast,
  load_prepared_broadcast,
}
use rails.Bitcoin.Store.Settle.{responded, sent, store_response}
use rails.Bitcoin.Store.Calls.{Call, step, run}
use rails.Bitcoin.Store.Invariant.{empty_db}
use rails.Bitcoin.Store.Settle.{mark_broadcast, mark_failed, mark_unknown, set_status}
use rails.Bitcoin.Store.Machine.{Moves, saving}
use rails.Bitcoin.Store.Machine.Refines.{step-Moves}
use rails.Bitcoin.Store.Replay.{replay_after_response, replay_after_failure}
use mathlib.Core.Option.{some-injective}
use rails.Prelude.{eq_iff, ◌+◌, string_eq, nat_eq}
use rails.Bitcoin.Store.Rows.{find_id}
use rails.Bitcoin.Store.Claim.{heartbeat_claim, prune_expired}
use rails.Bitcoin.Store.Settle.{mark_prepared_failed, failed, failure_payload}
use rails.Bitcoin.Store.Transactions.{size}
use rails.Bitcoin.Store.Durable.{load-save_prepared}
use rails.Bitcoin.Store.Fencing.{owns, stale_worker_is_fenced}
use rails.Bitcoin.Store.Forward.{Forward, run-Forward, lost_claim_stays_lost}
use rails.Bitcoin.Store.Immutable.{SameTransaction, transaction_is_immutable}
use rails.Bitcoin.Store.Invariant.{IsWellFormed}
use rails.Bitcoin.Store.Invariant.Keeps.{history-IsWellFormed}
use rails.Bitcoin.Store.Expired.{prune_expired_lem, expired_request_is_forgotten}
use rails.Prelude.{leb, ◌≤◌}
use rails.Bitcoin.Store.Transactions.{Recent, recent_transactions}
use rails.Bitcoin.Store.Recent.{Descending, recent_transactions_lem}
use rails.Prelude.{String}

-- A day and a minute.
abbrev pub settings : Settings
settings = record { ttl = 86400; lease_argument = 60 }

abbrev pub signed : Signed
signed = record {
  wallet = "hot";
  outputs = [];
  psbt = "cHNidA";
  raw_tx = "0200";
  expected_txid = "ab12";
  fee_sats = pos 150;
  total_output_sats = pos 20000;
  network = "mainnet";
}

abbrev pub claimed_row : IdempotencyRecord
claimed_row = fresh_record settings 100 "worker-1" "key-0001" "send" "hash"

abbrev pub claimed_db : Db
claimed_db = record {
  idempotency_records = claimed_row ∷ [];
  transaction_records = [];
  last_id = 0;
}

claims_at_100 : claim_idempotent settings 100 "worker-1" "key-0001" "send" "hash" empty_db ≡ (
  ok (
      claim (record {
        key = "key-0001";
        token = "worker-1";
        state = State.claimed;
        prepared_record_id = none;
      })),
  claimed_db,
)
unfolding claim_idempotent select insert
claims_at_100 = refl

abbrev pub prepared_db : Db
prepared_db = record {
  idempotency_records = prepared_record settings 101 "ab12" 1 claimed_row ∷ [];
  transaction_records = prepared_row 101 "key-0001" "hash" signed 1 ∷ [];
  last_id = 1;
}

saves_at_101 :
    save_prepared_broadcast settings 101 "key-0001" "worker-1" "hash" signed claimed_db
    ≡ (ok (prepared_of "hash" signed 1), prepared_db)
unfolding save_prepared_broadcast update_claimed select update count insert
saves_at_101 = refl

abbrev pub sent_row : IdempotencyRecord
sent_row = sent settings 102 "ab12" (prepared_record settings 101 "ab12" 1 claimed_row)

abbrev pub response : Json
response = obj (field "success" (bool true) end)

-- The calls of one request, from its claim to its answer.
abbrev pub request : List (ℕ × Call)
request =
    (100, Call.claims "worker-1" "key-0001" "send" "hash")
    ∷ (101, Call.saves "key-0001" "worker-1" "hash" signed)
    ∷ (102, Call.sends "key-0001" "worker-1" "ab12")
    ∷ (103, Call.responds "key-0001" "send" "hash" "worker-1" (pos 200) response)
    ∷ []

answered_by_request :
    (claim_idempotent settings 5000 "worker-2" "key-0001" "send" "hash"
      (run settings request empty_db)).0
    ≡ ok (replay (record { status_code = pos 200; response = response }))
unfolding run step claim_idempotent save_prepared_broadcast mark_broadcast set_status store_response
    update_claimed select update count insert
answered_by_request = refl

step-Moves_example :
    Moves settings 101
      (saving "key-0001" "worker-1" 1 "hash" "ab12")
      (some claimed_row)
      (some (prepared_record settings 101 "ab12" 1 claimed_row))
unfolding step save_prepared_broadcast update_claimed select update count insert
step-Moves_example =
    step-Moves settings 101 "key-0001" (Call.saves "key-0001" "worker-1" "hash" signed) claimed_db
      (refl, tt)

-- Another worker's calls, between an answer and its replay.
abbrev pub others : List (ℕ × Call)
others =
    (200, Call.claims "worker-2" "key-0001" "send" "hash")
    ∷ (201, Call.fails "key-0001" "worker-1" (pos 400) "E" "late")
    ∷ (300, Call.prunes)
    ∷ []

abbrev pub answered_db : Db
answered_db = record {
  idempotency_records = responded settings 102 (pos 200) response claimed_row ∷ [];
  transaction_records = [];
  last_id = 0;
}

replay_after_response_example :
    claim_idempotent settings 5000 "worker-3" "key-0001" "send" "hash"
      (run settings others answered_db)
    ≡ (
      ok (replay (record { status_code = pos 200; response = response })),
      run settings others answered_db,
    )
unfolding store_response update_claimed select update count
replay_after_response_example =
    replay_after_response settings 102 "key-0001" "send" "hash" "worker-1" (pos 200) response
      claimed_db (refl, tt) 5000 "worker-3" others refl
      (omega arith, (omega arith, (omega arith, tt))) (omega arith)

abbrev pub failed_row_db : Db
failed_row_db = record {
  idempotency_records = failed 102 (pos 400) "BAD" "no funds" claimed_row ∷ [];
  transaction_records = [];
  last_id = 0;
}

replay_after_failure_example :
    claim_idempotent settings 5000 "worker-3" "key-0001" "send" "hash"
      (run settings others failed_row_db)
    ≡ (
      ok (replay (record { status_code = pos 400; response = failure_payload "BAD" "no funds" })),
      run settings others failed_row_db,
    )
unfolding mark_failed update_claimed select update count
replay_after_failure_example =
    replay_after_failure settings 102 "key-0001" "worker-1" (pos 400) "BAD" "no funds" claimed_db
      (refl, tt) claimed_row refl 5000 "worker-3" others refl
      (omega arith, (omega arith, (omega arith, tt))) (omega arith)

load-save_prepared_example :
    load_prepared_broadcast "key-0001" "hash" (run settings others prepared_db)
    ≡ (ok (some (prepared_of "hash" signed 1)), run settings others prepared_db)
unfolding save_prepared_broadcast update_claimed select update count insert step claim_idempotent
    mark_failed prune_expired delete
load-save_prepared_example =
    load-save_prepared settings 101 "key-0001" "worker-1" "hash" signed claimed_db (refl, tt) refl
      refl refl refl (prepared_of "hash" signed 1) others refl (refl, (refl, (refl, tt)))
