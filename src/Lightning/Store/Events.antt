-- ===== src/Lightning/Store/Events.antt =====
-- CohesionStore of lightning_flask/src/infra/cohesion.py: the queries, and the log of events.
use rails.Prelude.{
  ℕ, zero, suc, List, [], ◌∷◌, ◌++◌, String, string_eq, nat_eq, Bool, false, true, Option, none,
  some, leb, if◌then◌else◌,
}
use rails.Json.{Fields}
use rails.Effect.{ok, gets}
use rails.Table.{holds, insert, count}
use rails.Lightning.Strip.{sanitize}
use rails.Lightning.Store.Rows.{State, Idempotency, LightningEvent, Db, find_key, Store}

-- `state`: the row, of which the caller sees five columns.
unfoldable pub state : String → Store (Option Idempotency)
state key = gets (find_key key)

-- `SELECT … WHERE payment_hash = ? ORDER BY created_at DESC` and `fetchone()`: a row as new as any, the
-- first of those that are.
unfoldable pub latest : String → List Idempotency → Option Idempotency
latest payment_hash [] = none
latest payment_hash (r ∷ t) =
    let rest = latest payment_hash t in
    if holds r.payment_hash payment_hash
    then elim rest [
      | none ↦ some r
      | some x ↦ if leb x.created_at r.created_at then some r else some x
    ]
    else rest

-- The row, of which the caller sees four columns.
unfoldable pub query_payment_by_hash : String → Store (Option Idempotency)
query_payment_by_hash payment_hash = gets (λ db. latest payment_hash db.idempotency)

-- The row of `append_event`; `metadata or {}` is the empty dict for none.
abbrev pub event_row :
    (String → String)
    → ℕ
    → String
    → Option String
    → Option ℕ
    → Option String
    → Fields
    → String
    → LightningEvent
event_row lower now event_type payment_hash amount_sats status metadata idempotency_key = record {
  event_type = event_type;
  payment_hash = payment_hash;
  amount_sats = amount_sats;
  status = status;
  metadata_json = sanitize lower metadata;
  created_at = now;
  idempotency_key = idempotency_key;
}

unfoldable pub append_event : LightningEvent → Store Unit
append_event e db = (ok tt, record db { lightning_events = insert e db.lightning_events })

-- `ORDER BY id DESC`, over the rows in the order of their ids, and `LIMIT ?`.
unfoldable pub first : ℕ → List LightningEvent → List LightningEvent
first zero t = []
first (suc n) [] = []
first (suc n) (e ∷ t) = e ∷ first n t

unfoldable pub newest_first : List LightningEvent → List LightningEvent
newest_first [] = []
newest_first (e ∷ t) = newest_first t ++ e ∷ []

abbrev pub is_unknown : State → Bool
is_unknown State.unknown = true
is_unknown _ = false

pub record Snapshot : Type 0 where
  pub idempotency_records : ℕ
  pub unknown_idempotency_records : ℕ
  pub lightning_events : ℕ
  pub recent_events : List LightningEvent

unfoldable pub snapshot : Store Snapshot
snapshot = gets (λ (db : Db). record {
  idempotency_records = count (λ r. true) db.idempotency;
  unknown_idempotency_records = count (λ r. is_unknown r.state) db.idempotency;
  lightning_events = count (λ e. true) db.lightning_events;
  recent_events = first 25 (newest_first db.lightning_events);
})
