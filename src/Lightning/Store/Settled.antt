-- ===== src/Lightning/Store/Settled.antt =====
-- What a client gets that sends a settled Lightning request again.
use rails.Prelude.{
  ℕ, String, List, [], ◌∷◌, string_eq, nat_eq, eq_iff, ◌≡◌, refl, Bool, true, ◌==◌, Option, some,
  arith, inl, inr, Bool-cases, Option-cases, if◌then◌else◌,
}
use rails.Prelude.Int.{ℤ}
use rails.Json.{Json}
use rails.Effect.{ok, err}
use rails.Lightning.Strip.{strip_keys, response_sensitive_keys}
use rails.Lightning.Store.Rows.{is_final, Idempotency, Db, replay, find_key, HasKeys}
use rails.Lightning.Store.Claim.{conflict, claim_idempotent}
use rails.Lightning.Store.Settle.{
  save_idempotent, mark_failed, update_owned, may_settle, saved, failed, failure_payload,
}
use rails.Lightning.Store.Calls.{Call, step, run}
use rails.Lightning.Store.Owner.{update_owned_lem, find_key-after_update, claim_idempotent_lem}
use rails.Lightning.Store.Keys.{step-HasKeys, run-HasKeys}
use rails.Lightning.Store.Machine.{
  Label, Moves, stays, begins, takes, beats, submits, doubts, saves, fails,
}
use rails.Lightning.Store.Machine.Refines.{payment_step-Moves}

-- A settled row only stays.
Moves-final :
    (lease now : ℕ) (who : Label) (r : Idempotency) (o' : Option Idempotency)
    → Moves lease now who (some r) o'
    → is_final r.state ≡ true
    → o' ≡ some r
Moves-final lease now who r o' (stays e) final = e
Moves-final lease now who r o' (begins _ _ _ _ _ mine e e') final = absurd (cc)
Moves-final lease now who r o' (takes _ x mine e open_row free e') final = ground arith
Moves-final lease now who r o' (beats _ _ x _ e own open_row e') final = ground arith
Moves-final lease now who r o' (submits _ _ _ x _ e own state e') final = ground arith
Moves-final lease now who r o' (doubts _ _ _ _ x _ e own state e') final = ground arith
Moves-final lease now who r o' (saves _ _ _ _ x _ e own open_row e') final = ground arith
Moves-final lease now who r o' (fails _ _ _ _ _ x _ e own open_row e') final = ground arith

module _ (lower : String → String) (lease : ℕ) (key : String) (r : Idempotency)
    (final : is_final r.state ≡ true) where
  run-final :
      (calls : List (ℕ × Call)) (db : Db)
      → HasKeys db
      → find_key key db ≡ some r
      → find_key key (run lower lease calls db) ≡ some r
  unfolding run
  run-final [] db u found = found
  run-final ((now, call) ∷ calls) db u found =
      run-final calls (step lower lease now call db) (step-HasKeys lower lease now call db u) (
        Moves-final lease now _ r _ (rw found at (payment_step-Moves lower lease now key call db u))
          final)

  -- The answer to a claim on a settled row, after any history.
  claim_settled :
      (later : ℕ) (token fingerprint : String) (hash : Option String) (network : String)
      (calls : List (ℕ × Call)) (db : Db)
      → HasKeys db
      → find_key key db ≡ some r
      → claim_idempotent lease later token key fingerprint hash network (run lower lease calls db)
        ≡ (
          if r.fingerprint == fingerprint
              then ok (replay (record { payload = r.response_json; status_code = r.status_code }))
              else err conflict,
          run lower lease calls db,
        )
  claim_settled later token fingerprint hash network calls db u found =
      rw
        (
          claim_idempotent_lem lease later token key fingerprint hash network
              (run lower lease calls db) (run-HasKeys lower lease calls db u),
          run-final calls db u found,
        )
        (ground arith)

-- An owned UPDATE that succeeds has found a row that passes its test.
update_owned-ok :
    (key : String) (p : Idempotency → Bool) (f : Idempotency → Idempotency) (db : Db)
    → HasKeys db
    → ((r : Idempotency) → (f r).key ≡ r.key)
    → (update_owned key p f db).0 ≡ ok tt
    → (r : Idempotency) × (p r ≡ true) × (find_key key (update_owned key p f db).1 ≡ some (f r))
update_owned-ok key p f db u same done = elim (Option-cases (find_key key db)) [
  | inl missing ↦ absurd (ground (arith, update_owned_lem key p f db u))
  | inr (r, found) ↦ elim (Bool-cases (p r)) [
    | inr miss ↦ absurd (ground (arith, update_owned_lem key p f db u))
    | inl hit ↦ (
      r,
      hit,
      rw (update_owned_lem key p f db u, found, hit)
          (rw (find_key-after_update key p f db u same key, found, hit)
            (ground (arith, eq_iff key key))),
    )
  ]
]

module _ (lower : String → String) (lease now : ℕ) (key fingerprint token : String) (db : Db)
    (u : HasKeys db) (response : Json) (status : ℤ) where
  abbrev saved_db : Db
  saved_db = (save_idempotent lower now key fingerprint token response status db).1

  saved-HasKeys : HasKeys saved_db
  unfolding step
  saved-HasKeys =
      step-HasKeys lower lease now (Call.saves key fingerprint token response status) db u

  pub saved_row :
      (save_idempotent lower now key fingerprint token response status db).0 ≡ ok tt
      → (r : Idempotency) × (r.fingerprint ≡ fingerprint)
        × (find_key key saved_db
            ≡ some (saved now (strip_keys lower response_sensitive_keys response) status r))
  unfolding save_idempotent
  saved_row done =
      let (r, may, found) =
        update_owned-ok key (may_settle fingerprint token)
          (saved now (strip_keys lower response_sensitive_keys response) status) db u (λ x. refl)
          done in
      (r, ground (arith, eq_iff r.fingerprint fingerprint), found)

  -- Once `save_idempotent` has returned, and whatever calls come between, at any later time, a claim of
  -- the same key changes nothing: with the same fingerprint it answers with the replay of the stripped
  -- response and its status, with another it is refused as a conflict.
  -- The keys of the database are distinct.
  pub replay_after_save :
      (later : ℕ) (token' fingerprint' : String) (hash : Option String) (network : String)
      (calls : List (ℕ × Call))
      → (save_idempotent lower now key fingerprint token response status db).0 ≡ ok tt
      → claim_idempotent lease later token' key fingerprint' hash network
          (run lower lease calls saved_db)
        ≡ (
          if fingerprint == fingerprint'
              then ok (
                  replay (record {
                    payload = strip_keys lower response_sensitive_keys response;
                    status_code = status;
                  }))
              else err conflict,
          run lower lease calls saved_db,
        )
  replay_after_save later token' fingerprint' hash network calls done =
      let (r, mine, found) = saved_row done in
      rw
        (claim_settled lower lease key
          (saved now (strip_keys lower response_sensitive_keys response) status r) refl later token'
          fingerprint' hash network calls saved_db saved-HasKeys found)
        (rw mine)

module _ (lower : String → String) (lease now : ℕ) (key fingerprint token : String) (db : Db)
    (u : HasKeys db) (error_code message : String) (status : ℤ) where
  abbrev refused_db : Db
  refused_db = (mark_failed now key fingerprint token error_code message status db).1

  refused-HasKeys : HasKeys refused_db
  unfolding step
  refused-HasKeys =
      step-HasKeys lower lease now (Call.fails key fingerprint token error_code message status) db u

  refused_row :
      (mark_failed now key fingerprint token error_code message status db).0 ≡ ok tt
      → (r : Idempotency) × (r.fingerprint ≡ fingerprint)
        × (find_key key refused_db ≡ some (failed now error_code message status r))
  unfolding mark_failed
  refused_row done =
      let (r, may, found) =
        update_owned-ok key (may_settle fingerprint token) (failed now error_code message status) db
          u (λ x. refl) done in
      (r, ground (arith, eq_iff r.fingerprint fingerprint), found)

  -- Once `mark_failed` has returned, and whatever calls come between, at any later time, a claim of the
  -- same key changes nothing: with the same fingerprint it answers with the recorded failure and its
  -- status, with another it is refused as a conflict.
  -- The keys of the database are distinct.
  pub replay_after_mark_failed :
      (later : ℕ) (token' fingerprint' : String) (hash : Option String) (network : String)
      (calls : List (ℕ × Call))
      → (mark_failed now key fingerprint token error_code message status db).0 ≡ ok tt
      → claim_idempotent lease later token' key fingerprint' hash network
          (run lower lease calls refused_db)
        ≡ (
          if fingerprint == fingerprint'
              then ok (
                  replay
                    (record { payload = failure_payload error_code message; status_code = status }))
              else err conflict,
          run lower lease calls refused_db,
        )
  replay_after_mark_failed later token' fingerprint' hash network calls done =
      let (r, mine, found) = refused_row done in
      rw
        (claim_settled lower lease key (failed now error_code message status r) refl later token'
          fingerprint' hash network calls refused_db refused-HasKeys found)
        (rw mine)
