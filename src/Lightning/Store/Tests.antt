-- ===== src/Lightning/Store/Tests.antt =====
-- Runs of the store of lightning_flask/src/infra/cohesion.py, and the theorems at them.
use mathlib.Core.Option.{some-injective}
use rails.Prelude.{
  ℕ, ◌≤◌, ◌≢◌, String, string_eq, nat_eq, eq_iff, ◌≡◌, ◌⊎◌, refl, arith, true, false, none, some,
  List, [], ◌∷◌, ◌==◌, if◌then◌else◌,
}
use rails.Prelude.Int.{pos}
use rails.Json.{Json, int, str, arr, obj, nil, cons, end, field, get_field}
use rails.Effect.{ok, err}
use rails.Table.{select, update, count, insert}
use rails.Lightning.Strip.{strip_keys, response_sensitive_keys, sanitize}
use rails.Lightning.Strip.Clean.{Strips, IsSensitive, secrets, strip_keys_lem, sanitize_lem}
use rails.Lightning.Store.Rows.{
  find_key, State, is_in_doubt, Idempotency, IdempotencyClaim, Db, replay,
}
use rails.Lightning.Store.Settle.{
  lost_claim, submitted_row, left_unknown, update_owned, mark_submitted, mark_unknown, mark_failed,
  save_idempotent, heartbeat_claim, failure_payload,
}
use rails.Lightning.Store.Claim.{fresh_row, taken, claim_idempotent}
use rails.Lightning.Store.Calls.{Call, step, run, submits_to, submissions}
use rails.Lightning.Store.Machine.{acting, Moves}
use rails.Lightning.Store.Machine.Refines.{payment_step-Moves}
use rails.Lightning.Store.Once.{submitted_at_most_once, retry_reconciles}
use rails.Lightning.Store.Settled.{replay_after_save, replay_after_mark_failed}
use rails.Lightning.Errors.{ApiError}
use rails.Lightning.Store.Lease.{leased_payment_is_exclusive}
use rails.Lightning.Store.Fencing.{owns, stale_payer_is_fenced, lost_payment_claim_stays_lost}

-- A `lower` for the tests: it knows one capital key.
abbrev lower : String → String
lower s = if s == "Payment_Preimage" then "payment_preimage" else s

abbrev claimed_row : Idempotency
claimed_row = fresh_row 60 100 "worker-1" "anon:payment-key-0001" "print" (some "aa") "mainnet"

abbrev claimed_db : Db
claimed_db = record { idempotency = claimed_row ∷ []; lightning_events = [] }

abbrev submitted_db : Db
submitted_db = record {
  idempotency = submitted_row 60 101 "aa" claimed_row ∷ [];
  lightning_events = [];
}

submits_at_101 :
    mark_submitted 60 101 "anon:payment-key-0001" "print" "worker-1" "aa" claimed_db
    ≡ (ok tt, submitted_db)
unfolding mark_submitted update_owned update count
submits_at_101 = refl

-- A worker that has died after the submission, and the one that takes its row over.
abbrev takeover : List (ℕ × Call)
takeover =
    (300, Call.claims "worker-2" "anon:payment-key-0001" "print" (some "aa") "mainnet")
    ∷ (301, Call.submits "anon:payment-key-0001" "print" "worker-2" "aa")
    ∷ (302, Call.doubts "anon:payment-key-0001" "print" "worker-2" "aa" "timeout")
    ∷ []

abbrev payment : List (ℕ × Call)
payment =
    (100, Call.claims "worker-1" "anon:payment-key-0001" "print" (some "aa") "mainnet")
    ∷ (101, Call.submits "anon:payment-key-0001" "print" "worker-1" "aa")
    ∷ takeover

one_submission :
    submissions lower 60 "anon:payment-key-0001" payment
      (record { idempotency = []; lightning_events = [] })
    ≡ 1
unfolding submissions submits_to step claim_idempotent mark_submitted mark_unknown update_owned
    select update count insert
one_submission = refl

submitted_at_most_once_example :
    submissions lower 60 "anon:payment-key-0001" takeover submitted_db ≤ 0
unfolding select
submitted_at_most_once_example =
    submitted_at_most_once lower 60 "anon:payment-key-0001" takeover submitted_db (refl, tt)

abbrev unknown_db : Db
unknown_db = record {
  idempotency =
      left_unknown 60 302 "aa" "timeout"
        (taken 60 300 "worker-2" (submitted_row 60 101 "aa" claimed_row))
      ∷ [];
  lightning_events = [];
}

abbrev second_claim : IdempotencyClaim
second_claim = record {
  key = "anon:payment-key-0001";
  token = "worker-3";
  state = State.unknown;
  payment_hash = some "aa";
}

retry_reconciles_example : is_in_doubt second_claim.state ≡ true
unfolding run step claim_idempotent mark_submitted mark_unknown update_owned select update count
    insert
retry_reconciles_example =
    retry_reconciles lower 60 101 "anon:payment-key-0001" "print" "worker-1" "aa" claimed_db
      (refl, tt) 900 "worker-3" "print" (some "aa") "mainnet" second_claim takeover refl refl

abbrev response : Json
response = obj (field "status" (str "SUCCEEDED") (field "payment_preimage" (str "00ff") end))

abbrev saved_response : Json
saved_response = obj (field "status" (str "SUCCEEDED") end)

replay_after_save_example :
    claim_idempotent 60 900 "worker-3" "anon:payment-key-0001" "print" (some "aa") "mainnet" (
      run lower 60 takeover
        (save_idempotent lower 102 "anon:payment-key-0001" "print" "worker-1" response
          (pos 202)
          submitted_db).1)
    ≡ (
      ok (replay (record { payload = saved_response; status_code = pos 202 })),
      run lower 60 takeover
          (save_idempotent lower 102 "anon:payment-key-0001" "print" "worker-1" response
            (pos 202)
            submitted_db).1,
    )
unfolding save_idempotent update_owned update count strip_keys select
replay_after_save_example =
    replay_after_save lower 60 102 "anon:payment-key-0001" "print" "worker-1" submitted_db
      (refl, tt) response (pos 202) 900 "worker-3" "print" (some "aa") "mainnet" takeover refl

replay_after_mark_failed_example :
    claim_idempotent 60 900 "worker-3" "anon:payment-key-0001" "print" (some "aa") "mainnet" (
      run lower 60 takeover
        (mark_failed 102 "anon:payment-key-0001" "print" "worker-1" "payment_rejected" "no route"
          (pos 409)
          submitted_db).1)
    ≡ (
      ok (
          replay (record {
            payload = failure_payload "payment_rejected" "no route";
            status_code = pos 409;
          })),
      run lower 60 takeover
          (mark_failed 102 "anon:payment-key-0001" "print" "worker-1" "payment_rejected" "no route"
            (pos 409)
            submitted_db).1,
    )
unfolding mark_failed update_owned update count select
replay_after_mark_failed_example =
    replay_after_mark_failed lower 60 102 "anon:payment-key-0001" "print" "worker-1" submitted_db
      (refl, tt) "payment_rejected" "no route" (pos 409) 900 "worker-3" "print" (some "aa")
      "mainnet" takeover refl

payment_step-Moves_example :
    Moves 60 101
      (acting "anon:payment-key-0001" "print" "worker-1")
      (some claimed_row)
      (some (submitted_row 60 101 "aa" claimed_row))
unfolding step mark_submitted update_owned select update count
payment_step-Moves_example =
    payment_step-Moves lower 60 101 "anon:payment-key-0001"
      (Call.submits "anon:payment-key-0001" "print" "worker-1" "aa") claimed_db (refl, tt)

stale_payer_is_fenced_example :
    (save_idempotent lower 150 "anon:payment-key-0001" "print" "worker-0" response
        (pos 409)
        submitted_db
      ≡ (err lost_claim, submitted_db))
    × (mark_submitted 60 150 "anon:payment-key-0001" "print" "worker-0" "aa" submitted_db
        ≡ (err lost_claim, submitted_db))
    × (mark_failed 150 "anon:payment-key-0001" "print" "worker-0" "E" "m" (pos 409) submitted_db
        ≡ (err lost_claim, submitted_db))
    × (mark_unknown 60 150 "anon:payment-key-0001" "print" "worker-0" "aa" "m" submitted_db
        ≡ (err lost_claim, submitted_db))
    × (heartbeat_claim 60 150 "anon:payment-key-0001" "print" "worker-0" submitted_db
        ≡ (ok false, submitted_db))
unfolding select
stale_payer_is_fenced_example =
    stale_payer_is_fenced "anon:payment-key-0001" "worker-0" submitted_db (refl, tt) refl lower 60
      150 "print" "aa" "E" "m" (pos 409) response

-- Other workers' calls under the lease of "worker-1", which lasts until 161.
abbrev meanwhile : List (ℕ × Call)
meanwhile =
    (120, Call.claims "worker-2" "anon:payment-key-0001" "print" (some "aa") "mainnet")
    ∷ (130, Call.submits "anon:payment-key-0001" "print" "worker-2" "aa")
    ∷ (140, Call.fails "anon:payment-key-0001" "print" "worker-0" "E" "late" (pos 409))
    ∷ []

not_worker-1 : (token : String) → token == "worker-1" ≡ false → some token ≢ some "worker-1"
not_worker-1 token other e =
    ground (arith, (eq_iff token "worker-1").1 (some-injective token "worker-1" e))

leased_payment_is_exclusive_example :
    (find_key "anon:payment-key-0001" (run lower 60 meanwhile submitted_db)
      ≡ some (submitted_row 60 101 "aa" claimed_row))
    × ((e : ApiError) × (claim_idempotent 60 150 "worker-3" "anon:payment-key-0001" "print"
            (some "aa")
            "mainnet"
            (run lower 60 meanwhile submitted_db)
          ≡ (err e, run lower 60 meanwhile submitted_db)))
unfolding select
leased_payment_is_exclusive_example =
    leased_payment_is_exclusive lower 60 "anon:payment-key-0001" "worker-1" 161 meanwhile
      submitted_db (submitted_row 60 101 "aa" claimed_row) 150 "worker-3" "print" (some "aa")
      "mainnet" (refl, tt) refl
      (record { unfinished = refl; holder = refl; named = refl; leased = refl })
      (
        omega arith,
        λ e. cc,
        (
          omega arith,
          not_worker-1 "worker-2" refl,
          (omega arith, not_worker-1 "worker-0" refl, tt),
        ),
      )
      (omega arith)

lost_payment_claim_stays_lost_example :
    owns "worker-0" "anon:payment-key-0001" (run lower 60 takeover submitted_db) ≡ false
unfolding select
lost_payment_claim_stays_lost_example =
    lost_payment_claim_stays_lost lower 60 "anon:payment-key-0001" "worker-0" takeover submitted_db
      (refl, tt) refl
      (
        λ e.
            ground
              (arith, (eq_iff "worker-2" "worker-0").1 (some-injective "worker-2" "worker-0" e)),
        (cc, (cc, tt)),
      )

-- A response with a key in another case, in a list.
abbrev route : Json
route =
    arr (cons (obj (field "Payment_Preimage" (str "00ff") (field "hops" (int (pos 3)) end))) nil)

strip_keys_lem_example :
    Strips lower response_sensitive_keys route
      (arr (cons (obj (field "hops" (int (pos 3)) end)) nil))
unfolding strip_keys
strip_keys_lem_example = strip_keys_lem lower response_sensitive_keys route

sanitize_lem_example :
    (IsSensitive lower secrets "token"
      × (get_field "token" (sanitize lower (field "token" (str "t") (field "memo" (str "x") end)))
          ≡ none))
    ⊎ ((¬ IsSensitive lower secrets "token")
        × (get_field "token" (sanitize lower (field "token" (str "t") (field "memo" (str "x") end)))
            ≡ get_field "token" (field "token" (str "t") (field "memo" (str "x") end))))
sanitize_lem_example =
    sanitize_lem lower "token" (field "token" (str "t") (field "memo" (str "x") end))
