-- ===== src/Lightning/Store/Rows.antt =====
-- The data of lightning_flask/src/infra/cohesion.py: the two tables and what the store returns.
use rails.Prelude.{ℕ, String, string_eq, nat_eq, Bool, true, false, Option, List, max}
use rails.Prelude.Int.{ℤ}
use rails.Json.{Json, Fields}
use rails.Effect.{Action, ok}
use rails.Table.{update, count, insert}
use rails.Table.Laws.{find, IsUnique}
use rails.Lightning.Errors.{ApiError}

-- The texts that the `state` column takes.
pub data State : Type 0 where
  claimed submitted unknown succeeded failed_final : State

-- `state in {"SUCCEEDED", "FAILED_FINAL"}`
abbrev pub is_final : State → Bool
is_final State.succeeded = true
is_final State.failed_final = true
is_final _ = false

abbrev pub is_claimed : State → Bool
is_claimed State.claimed = true
is_claimed _ = false

-- `state IN ('CLAIMED', 'SUBMITTED', 'UNKNOWN')`
abbrev pub is_open : State → Bool
is_open State.succeeded = false
is_open State.failed_final = false
is_open _ = true

-- `state IN ('SUBMITTED', 'UNKNOWN')`
abbrev pub is_in_doubt : State → Bool
is_in_doubt State.submitted = true
is_in_doubt State.unknown = true
is_in_doubt _ = false

-- A row of `idempotency`.
pub record Idempotency : Type 0 where
  pub key : String
  pub fingerprint : String
  pub status_code : ℤ
  pub response_json : Json
  pub created_at : ℕ
  pub claim_token : Option String
  pub claimed_at : Option ℕ
  pub lease_expires_at : Option ℕ
  pub state : State
  pub payment_hash : Option String
  pub payment_network : String
  pub settled_at : Option ℕ
  pub last_error : Option String

-- A row of `lightning_events`, in the order of its id.
pub record LightningEvent : Type 0 where
  pub event_type : String
  pub payment_hash : Option String
  pub amount_sats : Option ℕ
  pub status : Option String
  pub metadata_json : Fields
  pub created_at : ℕ
  pub idempotency_key : String

pub record Db : Type 0 where
  pub idempotency : List Idempotency
  pub lightning_events : List LightningEvent

-- `max(5, int(claim_lease_seconds))` of `CohesionStore.__init__`.
abbrev pub lease_of : ℕ → ℕ
lease_of claim_lease_seconds = max 5 claim_lease_seconds

pub record IdempotencyClaim : Type 0 where
  pub key : String
  pub token : String
  pub state : State
  pub payment_hash : Option String

pub record IdempotencyReplay : Type 0 where
  pub payload : Json
  pub status_code : ℤ

pub data ClaimOutcome : Type 0 where
  claim : IdempotencyClaim → ClaimOutcome
  replay : IdempotencyReplay → ClaimOutcome

abbrev pub key_of : Idempotency → String
key_of r = r.key

abbrev pub find_key : String → Db → Option Idempotency
find_key key db = find key_of key db.idempotency

-- The keys of the table are distinct.
abbrev pub HasKeys : Db → Type 0
HasKeys db = IsUnique key_of db.idempotency

abbrev pub Store : Type 0 → Type 0
Store A = Action Db ApiError A

-- `UPDATE idempotency SET f WHERE p`, which returns `rowcount`.
abbrev pub update_rows : (Idempotency → Bool) → (Idempotency → Idempotency) → Store ℕ
update_rows p f db =
    (ok (count p db.idempotency), record db { idempotency = update p f db.idempotency })

abbrev pub insert_row : Idempotency → Store Unit
insert_row r db = (ok tt, record db { idempotency = insert r db.idempotency })
