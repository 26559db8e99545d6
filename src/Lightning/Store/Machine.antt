-- ===== src/Lightning/Store/Machine.antt =====
-- The life of one idempotency key of the Lightning store as a state machine, apart from tables,
-- statements and row counts.
pub mod Refines
use rails.Prelude.{ℕ, String, string_eq, ◌≡◌, true, false, Option, none, some}
use rails.Prelude.Int.{ℤ}
use rails.Json.{Json}
use rails.Lightning.Store.Rows.{State, is_final, is_open, is_in_doubt, Idempotency}
use rails.Lightning.Store.Claim.{is_leased, fresh_row, taken}
use rails.Lightning.Store.Settle.{is_owner, beaten, submitted_row, left_unknown, saved, failed}

-- What a call brings: a claim its fresh token, the key and the fingerprint of the request, and every other call
-- of a worker the key, the fingerprint and the claim token that it is made with.
pub data Label : Type 0 where
  claiming : (token key fingerprint : String) → Label
  acting : (key fingerprint token : String) → Label
  plain : Label

-- What one call at time `now` may do to the row of a key: `o` is the row before, `o'` the row after,
-- `who` what the call brings.
pub data Moves (lease now : ℕ) (who : Label) (o o' : Option Idempotency) : Type 0 where
  stays : o' ≡ o → Moves lease now who o o'
  -- A key that has no row is claimed.
  begins :
      (token key fingerprint : String) (payment_hash : Option String) (network : String)
      → who ≡ claiming token key fingerprint
      → o ≡ none
      → o' ≡ some (fresh_row lease now token key fingerprint payment_hash network)
      → Moves lease now who o o'
  -- An unfinished row that no worker holds is taken over as it is, for the same request.
  takes :
      (token : String) (r : Idempotency)
      → who ≡ claiming token r.key r.fingerprint
      → o ≡ some r
      → is_final r.state ≡ false
      → is_leased now r ≡ false
      → o' ≡ some (taken lease now token r)
      → Moves lease now who o o'
  -- All that follows is done by a call with the key and the fingerprint of the row and the token that it holds.
  beats :
      (fingerprint token : String) (r : Idempotency)
      → who ≡ acting r.key fingerprint token
      → o ≡ some r
      → is_owner fingerprint token r ≡ true
      → is_open r.state ≡ true
      → o' ≡ some (beaten lease now r)
      → Moves lease now who o o'
  submits :
      (fingerprint token payment_hash : String) (r : Idempotency)
      → who ≡ acting r.key fingerprint token
      → o ≡ some r
      → is_owner fingerprint token r ≡ true
      → r.state ≡ State.claimed
      → o' ≡ some (submitted_row lease now payment_hash r)
      → Moves lease now who o o'
  doubts :
      (fingerprint token payment_hash error : String) (r : Idempotency)
      → who ≡ acting r.key fingerprint token
      → o ≡ some r
      → is_owner fingerprint token r ≡ true
      → is_in_doubt r.state ≡ true
      → o' ≡ some (left_unknown lease now payment_hash error r)
      → Moves lease now who o o'
  saves :
      (fingerprint token : String) (response : Json) (status_code : ℤ) (r : Idempotency)
      → who ≡ acting r.key fingerprint token
      → o ≡ some r
      → is_owner fingerprint token r ≡ true
      → is_open r.state ≡ true
      → o' ≡ some (saved now response status_code r)
      → Moves lease now who o o'
  fails :
      (fingerprint token error_code message : String) (status_code : ℤ) (r : Idempotency)
      → who ≡ acting r.key fingerprint token
      → o ≡ some r
      → is_owner fingerprint token r ≡ true
      → is_open r.state ≡ true
      → o' ≡ some (failed now error_code message status_code r)
      → Moves lease now who o o'
