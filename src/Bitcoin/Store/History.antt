-- ===== src/Bitcoin/Store/History.antt =====
-- Histories: what a sequence of calls cannot change about the row of a key.
use rails.Prelude.{ℕ, ◌<◌, String, ◌≡◌, true, Option, some, List, [], ◌∷◌, arith}
use rails.Bitcoin.Store.Rows.{is_final, IdempotencyRecord, Db, Settings, find_key}
use rails.Bitcoin.Store.Calls.{Call, step, run}
use rails.Bitcoin.Store.Owner.{HasKeys}
use rails.Bitcoin.Store.Keys.{step-HasKeys}
use rails.Bitcoin.Store.Machine.{
  Label, Moves, stays, begins, takes, beats, prepares, sends, doubts, responds, fails, rejects,
  vanishes,
}
use rails.Bitcoin.Store.Machine.Refines.{step-Moves}

-- Every call of the history reads a clock before `limit`.
abbrev pub Before : ℕ → List (ℕ × Call) → Type 0
Before limit [] = Unit
Before limit ((now, _) ∷ calls) = (now < limit) × Before limit calls

module _ (c : Settings) (now : ℕ) (who : Label) (r : IdempotencyRecord) where
  -- A settled row that has not expired only stays.
  Moves-final :
      (o' : Option IdempotencyRecord)
      → is_final r.state ≡ true
      → now < r.expires_at
      → Moves c now who (some r) o'
      → o' ≡ some r
  Moves-final o' final live (stays e) = e
  Moves-final o' final live (begins _ _ _ _ _ vacant e) = absurd (ground arith)
  Moves-final o' final live (takes _ x _ e vacant open_row free e') = ground arith
  Moves-final o' final live (beats _ x _ e held open_row e') = ground arith
  Moves-final o' final live (prepares _ _ _ x _ e held state fresh e') = ground arith
  Moves-final o' final live (sends _ _ x _ e held hash state e') = ground arith
  Moves-final o' final live (doubts _ _ _ x _ e held hash state e') = ground arith
  Moves-final o' final live (responds _ _ _ x _ e held state e') = ground arith
  Moves-final o' final live (fails _ _ _ _ x _ e held state e') = ground arith
  Moves-final o' final live (rejects _ _ _ _ x _ e held state e') = ground arith
  Moves-final o' final live (vanishes vacant e) = absurd (ground arith)

module _ (c : Settings) (key : String) (r : IdempotencyRecord) where
  -- No history of calls before a settled row's expiry changes the row.
  pub run-final :
      (calls : List (ℕ × Call)) (db : Db)
      → HasKeys db
      → find_key key db ≡ some r
      → is_final r.state ≡ true
      → Before r.expires_at calls
      → find_key key (run c calls db) ≡ some r
  unfolding run
  run-final [] db u found final before = found
  run-final ((now, call) ∷ calls) db u found final before =
      run-final calls (step c now call db) (step-HasKeys c now call db u)
        (Moves-final c now _ r _ final before.0 (rw found at (step-Moves c now key call db u)))
        final before.1
