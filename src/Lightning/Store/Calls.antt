-- ===== src/Lightning/Store/Calls.antt =====
-- Every method of the Lightning store that changes the database as a call, and a history of the database
-- as a sequence of calls, each with the time that its worker read. Each method is one transaction, so that
-- every interleaving of workers, those that crash included, is such a sequence.
use rails.Prelude.{
  ℕ, ◌+◌, String, string_eq, Bool, false, ◌&&◌, ◌==◌, Option, List, [], ◌∷◌, if◌then◌else◌,
}
use rails.Prelude.Int.{ℤ}
use rails.Json.{Json}
use rails.Effect.{is_ok}
use rails.Lightning.Store.Rows.{LightningEvent, Db}
use rails.Lightning.Store.Claim.{claim_idempotent}
use rails.Lightning.Store.Settle.{
  save_idempotent, mark_submitted, mark_failed, mark_unknown, heartbeat_claim,
}
use rails.Lightning.Store.Events.{append_event}

pub data Call : Type 0 where
  claims :
      (claim_token key fingerprint : String) (payment_hash : Option String) (network : String)
      → Call
  saves : (key fingerprint claim_token : String) (response : Json) (status_code : ℤ) → Call
  submits : (key fingerprint claim_token payment_hash : String) → Call
  fails : (key fingerprint claim_token error_code message : String) (status_code : ℤ) → Call
  doubts : (key fingerprint claim_token payment_hash error : String) → Call
  beats : (key fingerprint claim_token : String) → Call
  appends : LightningEvent → Call

module _ (lower : String → String) (lease : ℕ) where
  unfoldable pub step : ℕ → Call → Db → Db
  step now (claims claim_token key fingerprint payment_hash network) db =
      (claim_idempotent lease now claim_token key fingerprint payment_hash network db).1
  step now (saves key fingerprint claim_token response status_code) db =
      (save_idempotent lower now key fingerprint claim_token response status_code db).1
  step now (submits key fingerprint claim_token payment_hash) db =
      (mark_submitted lease now key fingerprint claim_token payment_hash db).1
  step now (fails key fingerprint claim_token error_code message status_code) db =
      (mark_failed now key fingerprint claim_token error_code message status_code db).1
  step now (doubts key fingerprint claim_token payment_hash error) db =
      (mark_unknown lease now key fingerprint claim_token payment_hash error db).1
  step now (beats key fingerprint claim_token) db =
      (heartbeat_claim lease now key fingerprint claim_token db).1
  step now (appends e) db = (append_event e db).1

  unfoldable pub run : List (ℕ × Call) → Db → Db
  run [] db = db
  run ((now, call) ∷ calls) db = run calls (step now call db)

  -- Whether the call has taken the key of a payment to SUBMITTED, which the handler does right before it
  -- hands the payment to LND.
  unfoldable pub submits_to : String → ℕ → Call → Db → Bool
  submits_to key now (submits k fingerprint claim_token payment_hash) db =
      k == key && is_ok (mark_submitted lease now k fingerprint claim_token payment_hash db).0
  submits_to key now _ db = false

  -- How many calls of the history have.
  unfoldable pub submissions : String → List (ℕ × Call) → Db → ℕ
  submissions key [] db = 0
  submissions key ((now, call) ∷ calls) db =
      (if submits_to key now call db then 1 else 0) + submissions key calls (step now call db)
