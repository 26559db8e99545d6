-- ===== src/Bitcoin/Store/Machine.antt =====
-- The life of one idempotency key as a state machine, apart from tables, statements and row counts.
pub mod Updates
pub mod Claims
pub mod Refines
use rails.Prelude.{ℕ, ◌+◌, ◌≡◌, String, string_eq, Bool, true, false, Option, none, some, leb}
use rails.Prelude.Int.{ℤ}
use rails.Json.{Json}
use rails.Table.{holds}
use rails.Bitcoin.Store.Rows.{
  State, is_final, is_open, is_rejectable, is_sendable, IdempotencyRecord, Settings,
  claim_lease_seconds,
}
use rails.Bitcoin.Store.Claim.{is_leased, fresh_record, taken}
use rails.Bitcoin.Store.Prepared.{prepared_record}
use rails.Bitcoin.Store.Settle.{responded, sent, failed, left_unknown}
use rails.Bitcoin.Store.Claiming.{is_vacant}

-- What a call brings: a claim its fresh token and the request, a save the caller's key and claim token with the
-- id, the request hash and the txid of the transaction that it records, and every other call of a worker the key
-- and the claim token that it is made with.
pub data Label : Type 0 where
  claiming : (token key scope request_hash : String) → Label
  saving : (key token : String) (id : ℕ) (request_hash txid : String) → Label
  acting : (key token : String) → Label
  plain : Label

-- What one call at time `now` may do to the row of a key: `o` is the row before, `o'` the row after,
-- `who` what the call brings.
pub data Moves (c : Settings) (now : ℕ) (who : Label) (o o' : Option IdempotencyRecord)
    : Type 0 where
  stays : o' ≡ o → Moves c now who o o'
  -- A vacant key is claimed afresh.
  begins :
      (token key scope request_hash : String)
      → who ≡ claiming token key scope request_hash
      → is_vacant now o ≡ true
      → o' ≡ some (fresh_record c now token key scope request_hash)
      → Moves c now who o o'
  -- An unfinished row that no worker holds is taken over as it is, for the same request.
  takes :
      (token : String) (r : IdempotencyRecord)
      → who ≡ claiming token r.key r.scope r.request_hash
      → o ≡ some r
      → is_vacant now o ≡ false
      → is_final r.state ≡ false
      → is_leased now r ≡ false
      → o' ≡ some (taken c now token r)
      → Moves c now who o o'
  -- All that follows, but the last, is done by a call with the row's key and the token that the row holds.
  beats :
      (token : String) (r : IdempotencyRecord)
      → who ≡ acting r.key token
      → o ≡ some r
      → holds r.claim_token token ≡ true
      → is_open r.state ≡ true
      → o' ≡ some (record r { lease_expires_at = some (now + claim_lease_seconds c) })
      → Moves c now who o o'
  prepares :
      (token txid : String) (id : ℕ) (r : IdempotencyRecord)
      → who ≡ saving r.key token id r.request_hash txid
      → o ≡ some r
      → holds r.claim_token token ≡ true
      → r.state ≡ State.claimed
      → r.prepared_record_id ≡ none
      → o' ≡ some (prepared_record c now txid id r)
      → Moves c now who o o'
  sends :
      (token txid : String) (r : IdempotencyRecord)
      → who ≡ acting r.key token
      → o ≡ some r
      → holds r.claim_token token ≡ true
      → holds r.payment_hash txid ≡ true
      → is_sendable r.state ≡ true
      → o' ≡ some (sent c now txid r)
      → Moves c now who o o'
  doubts :
      (token txid error : String) (r : IdempotencyRecord)
      → who ≡ acting r.key token
      → o ≡ some r
      → holds r.claim_token token ≡ true
      → holds r.payment_hash txid ≡ true
      → is_sendable r.state ≡ true
      → o' ≡ some (left_unknown c now txid error r)
      → Moves c now who o o'
  responds :
      (token : String) (status : ℤ) (response : Json) (r : IdempotencyRecord)
      → who ≡ acting r.key token
      → o ≡ some r
      → holds r.claim_token token ≡ true
      → is_final r.state ≡ false
      → o' ≡ some (responded c now status response r)
      → Moves c now who o o'
  fails :
      (token : String) (status : ℤ) (error_code message : String) (r : IdempotencyRecord)
      → who ≡ acting r.key token
      → o ≡ some r
      → holds r.claim_token token ≡ true
      → r.state ≡ State.claimed
      → o' ≡ some (failed now status error_code message r)
      → Moves c now who o o'
  rejects :
      (token : String) (status : ℤ) (error_code message : String) (r : IdempotencyRecord)
      → who ≡ acting r.key token
      → o ≡ some r
      → holds r.claim_token token ≡ true
      → is_rejectable r.state ≡ true
      → o' ≡ some (failed now status error_code message r)
      → Moves c now who o o'
  -- An expired row is deleted.
  vanishes : is_vacant now o ≡ true → o' ≡ none → Moves c now who o o'
