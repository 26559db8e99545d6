-- ===== src/Bitcoin/Store/Calls.antt =====
-- Every mutating method of CohesionStore as a call, and a history of the database as a sequence of
-- calls. Each method is one transaction, so that a history of any number of workers, that crash or not,
-- is such a sequence. A call carries the time that its worker read from the clock.
use rails.Prelude.{ℕ, String, List, [], ◌∷◌}
use rails.Prelude.Int.{ℤ}
use rails.Json.{Json}
use rails.Bitcoin.Store.Rows.{Db, Settings}
use rails.Bitcoin.Store.Claim.{claim_idempotent, heartbeat_claim, prune_expired}
use rails.Bitcoin.Store.Prepared.{Signed, save_prepared_broadcast}
use rails.Bitcoin.Store.Settle.{
  store_response, mark_broadcast, mark_failed, mark_prepared_failed, mark_unknown,
}
use rails.Bitcoin.Store.Transactions.{Details, record_transaction}

pub data Call : Type 0 where
  claims : (claim_token key scope request_hash : String) → Call
  beats : (key claim_token : String) → Call
  responds :
      (key scope request_hash claim_token : String) (status_code : ℤ) (response : Json) → Call
  saves : (key claim_token request_hash : String) (t : Signed) → Call
  sends : (key claim_token txid : String) → Call
  fails : (key claim_token : String) (status_code : ℤ) (error_code message : String) → Call
  rejects : (key claim_token : String) (status_code : ℤ) (error_code message : String) → Call
  loses : (key claim_token txid error : String) → Call
  records : (d : Details) → Call
  prunes : Call

unfoldable pub step : Settings → ℕ → Call → Db → Db
step c now (claims claim_token key scope request_hash) db =
    (claim_idempotent c now claim_token key scope request_hash db).1
step c now (beats key claim_token) db = (heartbeat_claim c now key claim_token db).1
step c now (responds key scope request_hash claim_token status_code response) db =
    (store_response c now key scope request_hash claim_token status_code response db).1
step c now (saves key claim_token request_hash t) db =
    (save_prepared_broadcast c now key claim_token request_hash t db).1
step c now (sends key claim_token txid) db = (mark_broadcast c now key claim_token txid db).1
step c now (fails key claim_token status_code error_code message) db =
    (mark_failed now key claim_token status_code error_code message db).1
step c now (rejects key claim_token status_code error_code message) db =
    (mark_prepared_failed now key claim_token status_code error_code message db).1
step c now (loses key claim_token txid error) db =
    (mark_unknown c now key claim_token txid error db).1
step c now (records d) db = (record_transaction now d db).1
step c now prunes db = (prune_expired now db).1

unfoldable pub run : Settings → List (ℕ × Call) → Db → Db
run c [] db = db
run c ((now, call) ∷ calls) db = run c calls (step c now call db)
