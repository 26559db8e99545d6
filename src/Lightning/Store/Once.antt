-- ===== src/Lightning/Store/Once.antt =====
-- A payment is taken to SUBMITTED once for each key, and what was submitted is never claimed afresh.
use rails.Prelude.{
  ℕ, ◌≤◌, String, List, [], ◌∷◌, string_eq, nat_eq, eq_iff, ◌≡◌, refl, sym, Bool, true, false,
  Option, none, some, arith, inl, inr, Bool-cases, Option-cases, if◌then◌else◌,
}
use rails.Effect.{ok, is_ok_lem}
use rails.Lightning.Store.Rows.{
  is_claimed, is_in_doubt, Idempotency, IdempotencyClaim, Db, claim, find_key, HasKeys,
}
use rails.Lightning.Store.Claim.{claim_idempotent}
use rails.Lightning.Store.Settle.{mark_submitted, may_submit, submitted_row}
use rails.Lightning.Store.Calls.{Call, step, run, submits_to, submissions}
use rails.Lightning.Store.Owner.{update_owned_lem, find_key-after_update, claim_idempotent_lem}
use rails.Lightning.Store.Keys.{step-HasKeys, run-HasKeys}
use rails.Lightning.Store.Machine.{
  Label, Moves, stays, begins, takes, beats, submits, doubts, saves, fails,
}
use rails.Lightning.Store.Machine.Refines.{payment_step-Moves}

-- A key that has no row, or a row that is only claimed, may still be submitted.
abbrev pub may_still_submit : Option Idempotency → Bool
may_still_submit none = true
may_still_submit (some r) = is_claimed r.state

-- Once a key may not be submitted, no move lets it be again.
Moves-past :
    (lease now : ℕ) (who : Label) (o o' : Option Idempotency)
    → Moves lease now who o o'
    → may_still_submit o ≡ false
    → may_still_submit o' ≡ false
Moves-past lease now who o o' (stays e) past = rw e past
Moves-past lease now who o o' (begins _ _ _ _ _ mine e e') past = absurd (ground arith)
Moves-past lease now who o o' (takes _ r mine e open_row free e') past = ground arith
Moves-past lease now who o o' (beats _ _ r _ e own open_row e') past = ground arith
Moves-past lease now who o o' (submits _ _ _ r _ e own state e') past = rw e'
Moves-past lease now who o o' (doubts _ _ _ _ r _ e own state e') past = rw e'
Moves-past lease now who o o' (saves _ _ _ _ r _ e own open_row e') past = rw e'
Moves-past lease now who o o' (fails _ _ _ _ _ r _ e own open_row e') past = rw e'

-- `mark_submitted` succeeds on a claimed row alone, and takes it to SUBMITTED.
pub mark_submitted-ok :
    (lease now : ℕ) (key fingerprint token payment_hash : String) (db : Db)
    → HasKeys db
    → (mark_submitted lease now key fingerprint token payment_hash db).0 ≡ ok tt
    → (r : Idempotency) × (find_key key db ≡ some r)
      × (is_claimed r.state ≡ true)
      × (find_key key (mark_submitted lease now key fingerprint token payment_hash db).1
          ≡ some (submitted_row lease now payment_hash r))
unfolding mark_submitted
mark_submitted-ok lease now key fingerprint token payment_hash db u done =
    let p : Idempotency → Bool = may_submit fingerprint token in
    let f : Idempotency → Idempotency = submitted_row lease now payment_hash in
    elim (Option-cases (find_key key db)) [
      | inl missing ↦ absurd (ground (arith, update_owned_lem key p f db u))
      | inr (r, found) ↦ elim (Bool-cases (p r)) [
        | inr miss ↦ absurd (ground (arith, update_owned_lem key p f db u))
        | inl hit ↦ (
          r,
          found,
          ground arith,
          rw (update_owned_lem key p f db u, found, hit)
              (rw (find_key-after_update key p f db u (λ x. refl) key, found, hit)
                (ground (arith, eq_iff key key))),
        )
      ]
    ]

module _ (lower : String → String) (lease : ℕ) (key : String) where
  submits_to-spends :
      (now : ℕ) (call : Call) (db : Db)
      → HasKeys db
      → submits_to lower lease key now call db ≡ true
      → (may_still_submit (find_key key db) ≡ true)
        × (may_still_submit (find_key key (step lower lease now call db)) ≡ false)
  unfolding submits_to step
  submits_to-spends now (Call.submits k fingerprint token payment_hash) db u h =
      let mine : k ≡ key = ground (arith, eq_iff k key) in
      let done : (mark_submitted lease now k fingerprint token payment_hash db).0 ≡ ok tt =
        is_ok_lem _ (ground arith) in
      let (r, found, state, moved) =
        mark_submitted-ok lease now k fingerprint token payment_hash db u done in
      (rw (sym mine, found, state), rw (sym mine, moved))
  submits_to-spends now (Call.claims _ _ _ _ _) db u h = absurd (cc)
  submits_to-spends now _ db u h = absurd (cc)

  pub run-past :
      (calls : List (ℕ × Call)) (db : Db)
      → HasKeys db
      → may_still_submit (find_key key db) ≡ false
      → may_still_submit (find_key key (run lower lease calls db)) ≡ false
  unfolding run
  run-past [] db u past = past
  run-past ((now, call) ∷ calls) db u past =
      run-past calls (step lower lease now call db) (step-HasKeys lower lease now call db u)
        (Moves-past lease now _ _ _ (payment_step-Moves lower lease now key call db u) past)

  -- In every history, whatever its workers do, lose or leave, at most one call takes a key to SUBMITTED,
  -- and none once the key's row is past CLAIMED.
  -- The keys of the database are distinct.
  pub submitted_at_most_once :
      (calls : List (ℕ × Call)) (db : Db)
      → HasKeys db
      → submissions lower lease key calls db ≤ (if may_still_submit (find_key key db) then 1 else 0)
  unfolding submissions
  submitted_at_most_once [] db u = omega arith
  submitted_at_most_once ((now, call) ∷ calls) db u =
      let later =
        submitted_at_most_once calls (step lower lease now call db)
          (step-HasKeys lower lease now call db u) in
      elim (Bool-cases (submits_to lower lease key now call db)) [
        | inl hit ↦ let (before, after) = submits_to-spends now call db u hit in ground arith
        | inr miss ↦ elim (Bool-cases (may_still_submit (find_key key db))) [
          | inl open_key ↦ ground arith
          | inr past ↦
              let past' =
                Moves-past lease now _ _ _ (payment_step-Moves lower lease now key call db u)
                  past in
              ground arith
        ]
      ]

module _ (lower : String → String) (lease now : ℕ) (key fingerprint token payment_hash : String)
    (db : Db) (u : HasKeys db) where
  abbrev pub submitted_db : Db
  submitted_db = (mark_submitted lease now key fingerprint token payment_hash db).1

  submitted-HasKeys : HasKeys submitted_db
  unfolding step
  submitted-HasKeys =
      step-HasKeys lower lease now (Call.submits key fingerprint token payment_hash) db u

  -- What a claim answers for a row that is past CLAIMED.
  claim-past :
      (later : ℕ) (token' fingerprint' : String) (hash : Option String) (network : String)
      (db' : Db) (c : IdempotencyClaim)
      → HasKeys db'
      → may_still_submit (find_key key db') ≡ false
      → (claim_idempotent lease later token' key fingerprint' hash network db').0 ≡ ok (claim c)
      → is_in_doubt c.state ≡ true
  claim-past later token' fingerprint' hash network db' c u' past =
      rw (claim_idempotent_lem lease later token' key fingerprint' hash network db' u')
        (elim (Option-cases (find_key key db')) [
          | inl missing ↦ absurd (ground arith)
          | inr (r, found) ↦
              let old : is_claimed r.state ≡ false = rw found at past in
              rw found λ done. ground arith
        ])

  -- Once `mark_submitted` has returned, and whatever calls come between, a claim of the key that is granted
  -- says that the payment is SUBMITTED or UNKNOWN, never that it is CLAIMED.
  -- The keys of the database are distinct.
  pub retry_reconciles :
      (later : ℕ) (token' fingerprint' : String) (hash : Option String) (network : String)
      (c : IdempotencyClaim) (calls : List (ℕ × Call))
      → (mark_submitted lease now key fingerprint token payment_hash db).0 ≡ ok tt
      → (claim_idempotent lease later token' key fingerprint' hash network
          (run lower lease calls submitted_db)).0
        ≡ ok (claim c)
      → is_in_doubt c.state ≡ true
  retry_reconciles later token' fingerprint' hash network c calls done claimed =
      let (r, found, state, moved) =
        mark_submitted-ok lease now key fingerprint token payment_hash db u done in
      claim-past later token' fingerprint' hash network (run lower lease calls submitted_db) c
        (run-HasKeys lower lease calls submitted_db submitted-HasKeys)
        (run-past lower lease key calls submitted_db submitted-HasKeys (rw moved)) claimed
