-- ===== src/Bitcoin/Store/Tests/Histories.antt =====
-- The theorems on fencing and on histories of the Bitcoin store, at runs of it.
use rails.Prelude.{ℕ, ◌≡◌, refl, arith, false, none, some, List, [], ◌∷◌}
use rails.Prelude.Int.{pos}
use rails.Effect.{ok, err}
use rails.Table.{select, update, count, delete, insert}
use rails.Bitcoin.Store.Rows.{State, IdempotencyRecord, TransactionRecord, Db, claim, find_key}
use rails.Bitcoin.Store.Claim.{claim_idempotent, update_claimed, lost_claim}
use rails.Bitcoin.Store.Prepared.{
  prepared_row, prepared_record, save_prepared_broadcast, load_prepared_broadcast,
}
use rails.Bitcoin.Store.Settle.{store_response}
use rails.Bitcoin.Store.Calls.{Call, step, run}
use rails.Bitcoin.Store.Invariant.{empty_db}
use rails.Bitcoin.Store.Settle.{mark_broadcast, mark_failed, mark_unknown}
use mathlib.Core.Option.{some-injective}
use rails.Prelude.{eq_iff, ◌+◌, string_eq, nat_eq}
use rails.Bitcoin.Store.Rows.{find_id}
use rails.Bitcoin.Store.Claim.{heartbeat_claim, prune_expired}
use rails.Bitcoin.Store.Settle.{mark_prepared_failed}
use rails.Bitcoin.Store.Transactions.{size}
use rails.Bitcoin.Errors.{Error}
use rails.Bitcoin.Store.Lease.{leased_row_is_exclusive}
use rails.Bitcoin.Store.Fencing.{owns, stale_worker_is_fenced}
use rails.Bitcoin.Store.Forward.{Forward, run-Forward, lost_claim_stays_lost}
use rails.Bitcoin.Store.Immutable.{SameTransaction, transaction_is_immutable}
use rails.Bitcoin.Store.Invariant.{IsWellFormed}
use rails.Bitcoin.Store.Invariant.Keeps.{history-IsWellFormed}
use rails.Bitcoin.Store.Expired.{prune_expired_lem, expired_request_is_forgotten}
use rails.Prelude.{leb, ◌≤◌}
use rails.Bitcoin.Store.Transactions.{Recent, recent_transactions}
use rails.Bitcoin.Store.Recent.{Descending, recent_transactions_lem}
use rails.Prelude.{String}
use rails.Bitcoin.Store.Tests.{
  settings, signed, claimed_row, prepared_db, response, request, others,
}

stale_worker_is_fenced_example :
    (store_response settings 150 "key-0001" "send" "hash" "worker-0" (pos 400) response prepared_db
      ≡ (err lost_claim, prepared_db))
    × (save_prepared_broadcast settings 150 "key-0001" "worker-0" "hash" signed prepared_db
        ≡ (err lost_claim, prepared_db))
    × (mark_broadcast settings 150 "key-0001" "worker-0" "ab12" prepared_db
        ≡ (err lost_claim, prepared_db))
    × (mark_failed 150 "key-0001" "worker-0" (pos 400) "E" "m" prepared_db
        ≡ (err lost_claim, prepared_db))
    × (mark_prepared_failed 150 "key-0001" "worker-0" (pos 400) "E" "m" prepared_db
        ≡ (err lost_claim, prepared_db))
    × (mark_unknown settings 150 "key-0001" "worker-0" "ab12" "m" prepared_db
        ≡ (err lost_claim, prepared_db))
    × (heartbeat_claim settings 150 "key-0001" "worker-0" prepared_db ≡ (ok false, prepared_db))
unfolding select
stale_worker_is_fenced_example =
    stale_worker_is_fenced "key-0001" "worker-0" prepared_db (refl, tt) refl settings 150 "send"
      "hash" "ab12" "E" "m" (pos 400) response signed

-- Other workers' calls under the lease of "worker-1", which lasts until 161.
abbrev meanwhile : List (ℕ × Call)
meanwhile =
    (120, Call.claims "worker-2" "key-0001" "send" "hash")
    ∷ (130, Call.fails "key-0001" "worker-2" (pos 400) "E" "late")
    ∷ (140, Call.prunes)
    ∷ []

leased_row_is_exclusive_example :
    (find_key "key-0001" (run settings meanwhile prepared_db)
      ≡ some (prepared_record settings 101 "ab12" 1 claimed_row))
    × ((e : Error) × (claim_idempotent settings 150 "worker-3" "key-0001" "send" "hash"
            (run settings meanwhile prepared_db)
          ≡ (err e, run settings meanwhile prepared_db)))
unfolding select
leased_row_is_exclusive_example =
    leased_row_is_exclusive settings "key-0001" "worker-1" 161 meanwhile prepared_db
      (prepared_record settings 101 "ab12" 1 claimed_row) 150 "worker-3" "send" "hash" (refl, tt)
      refl
      (record { unfinished = refl; holder = refl; named = refl; leased = refl; live = omega arith })
      (
        omega arith,
        λ e. cc,
        (
          omega arith,
          λ e.
              ground
                (arith, (eq_iff "worker-2" "worker-1").1 (some-injective "worker-2" "worker-1" e)),
          (omega arith, λ e. cc, tt),
        ),
      )
      (omega arith)

run-Forward_example :
    (r : IdempotencyRecord) × (find_key "key-0001" (run settings others prepared_db) ≡ some r)
    × Forward (prepared_record settings 101 "ab12" 1 claimed_row) r
unfolding step claim_idempotent mark_failed update_claimed prune_expired select update count insert
    delete
run-Forward_example =
    run-Forward settings "key-0001" others prepared_db
      (prepared_record settings 101 "ab12" 1 claimed_row) (refl, tt) refl (refl, (refl, (refl, tt)))

lost_claim_stays_lost_example : owns "worker-0" "key-0001" (run settings others prepared_db) ≡ false
unfolding select
lost_claim_stays_lost_example =
    lost_claim_stays_lost settings "key-0001" "worker-0" others prepared_db (refl, tt) refl
      (
        λ e.
            ground
              (arith, (eq_iff "worker-2" "worker-0").1 (some-injective "worker-2" "worker-0" e)),
        (cc, (cc, tt)),
      )

transaction_is_immutable_example :
    (t : TransactionRecord) × (find_id 1 (run settings others prepared_db) ≡ some t)
    × SameTransaction (prepared_row 101 "key-0001" "hash" signed 1) t
unfolding select
transaction_is_immutable_example =
    transaction_is_immutable settings others 1 (prepared_row 101 "key-0001" "hash" signed 1)
      prepared_db (refl, tt) refl

history-IsWellFormed_example : IsWellFormed (run settings request empty_db)
history-IsWellFormed_example = history-IsWellFormed settings request

prune_expired_lem_example :
    (n : ℕ) × ((prune_expired 90000 prepared_db).0 ≡ ok n)
    × (n + size (prune_expired 90000 prepared_db).1.idempotency_records ≡ 1)
    × (find_key "key-0001" (prune_expired 90000 prepared_db).1 ≡ none)
    × ((prune_expired 90000 prepared_db).1.transaction_records ≡ prepared_db.transaction_records)
unfolding select size
prune_expired_lem_example = prune_expired_lem 90000 "key-0001" prepared_db (refl, tt)

expired_request_is_forgotten_example :
    let (answer, db) =
      claim_idempotent settings 90000 "worker-2" "key-0001" "send" "hash" prepared_db in
    (answer
      ≡ ok (
          claim (record {
            key = "key-0001";
            token = "worker-2";
            state = State.claimed;
            prepared_record_id = none;
          })))
    × (load_prepared_broadcast "key-0001" "hash" db ≡ (ok none, db))
    × (db.transaction_records ≡ prepared_db.transaction_records)
unfolding select
expired_request_is_forgotten_example =
    expired_request_is_forgotten settings 90000 "worker-2" "key-0001" "send" "hash" prepared_db
      (prepared_record settings 101 "ab12" 1 claimed_row) (refl, tt) refl (omega arith)

-- Three records of two wallets, of which the last two of one are asked for.
abbrev recorded : ℕ → String → TransactionRecord
recorded id wallet = record (prepared_row 101 "key-0001" "hash" signed id) { wallet = wallet }

abbrev recorded_db : Db
recorded_db = record {
  idempotency_records = [];
  transaction_records = recorded 1 "hot" ∷ recorded 2 "cold" ∷ recorded 3 "hot" ∷ [];
  last_id = 3;
}

recent_transactions_lem_example :
    (shown : List Recent) × (recent_transactions (some "hot") 20 recorded_db
      ≡ (ok shown, recorded_db))
    × Descending shown
    × (count (λ (r : Recent). leb 0 r.id) shown ≡ 2)
    × (1 ≤ 20)
    × (20 ≤ 100)
unfolding count
recent_transactions_lem_example = recent_transactions_lem (some "hot") 20 0 recorded_db
