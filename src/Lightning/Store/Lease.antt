-- ===== src/Lightning/Store/Lease.antt =====
-- While the lease of a claim runs, the row is its worker's alone: lightning_flask/src/infra/cohesion.py.
use rails.Prelude.{
  ℕ, ◌<◌, String, string_eq, eq_iff, ◌≡◌, ◌≢◌, refl, true, false, ◌==◌, Option, none, some, List,
  [], ◌∷◌, arith, inl, inr, Bool-cases,
}
use rails.Text.{truthy}
use rails.Effect.{err}
use rails.Table.{holds}
use rails.Lightning.Errors.{ApiError}
use rails.Lightning.Store.Rows.{is_final, Idempotency, Db, find_key, HasKeys}
use rails.Lightning.Store.Claim.{conflict, in_progress, claim_idempotent}
use rails.Lightning.Store.Settle.{is_owner}
use rails.Lightning.Store.Calls.{Call, step, run}
use rails.Lightning.Store.Owner.{claim_idempotent_lem}
use rails.Lightning.Store.Keys.{step-HasKeys, run-HasKeys}
use rails.Lightning.Store.Machine.{
  Label, claiming, acting, plain, Moves, stays, begins, takes, beats, submits, doubts, saves, fails,
}
use rails.Lightning.Store.Machine.Refines.{label, payment_step-Moves}

-- The claim token that a call is made with, other than a claim's fresh one.
abbrev pub token_of : Call → Option String
token_of (Call.saves key fingerprint token response status) = some token
token_of (Call.submits key fingerprint token payment_hash) = some token
token_of (Call.fails key fingerprint token error_code message status) = some token
token_of (Call.doubts key fingerprint token payment_hash error) = some token
token_of (Call.beats key fingerprint token) = some token
token_of _ = none

-- The calls come before the time `until`, and none is made with this claim token.
abbrev pub OthersBefore : ℕ → String → List (ℕ × Call) → Type 0
OthersBefore until token [] = Unit
OthersBefore until token ((now, call) ∷ calls) =
    (now < until) × (token_of call ≢ some token) × OthersBefore until token calls

abbrev acting_token : Label → Option String
acting_token (claiming token key fingerprint) = none
acting_token (acting key fingerprint token) = some token
acting_token plain = none

acting_token-label : (call : Call) → acting_token (label call) ≡ token_of call
acting_token-label (Call.claims _ _ _ _ _) = refl
acting_token-label (Call.saves _ _ _ _ _) = refl
acting_token-label (Call.submits _ _ _ _) = refl
acting_token-label (Call.fails _ _ _ _ _ _) = refl
acting_token-label (Call.doubts _ _ _ _ _) = refl
acting_token-label (Call.beats _ _ _) = refl
acting_token-label (Call.appends _) = refl

-- The row is open, and held under the token until that time.
pub record IsHeld (token : String) (until : ℕ) (r : Idempotency) : Type 0 where
  pub unfinished : is_final r.state ≡ false
  pub holder : r.claim_token ≡ some token
  pub named : truthy token ≡ true
  pub leased : r.lease_expires_at ≡ some until

module _ (lease now : ℕ) (who : Label) (token : String) (until : ℕ) (r : Idempotency)
    (held : IsHeld token until r) (early : now < until)
    (other : acting_token who ≢ some token) where
  foreign :
      (fingerprint t : String) (x : Idempotency)
      → acting_token who ≡ some t
      → ◌≡◌ {A = Option Idempotency} (some r) (some x)
      → is_owner fingerprint t x ≡ true
      → ⊥
  foreign fingerprint t x mine e owned =
      let holder = held.holder in
      let same : holds r.claim_token t ≡ true = ground arith in
      let own : token ≡ t = (eq_iff token t).0 (rw holder at same) in other (cc (mine, own))

  Moves-held : (o' : Option Idempotency) → Moves lease now who (some r) o' → o' ≡ some r
  Moves-held o' (stays e) = e
  Moves-held o' (begins _ _ _ _ _ mine e e') = absurd (cc)
  Moves-held o' (takes _ x mine e open_row free e') =
      let holder = held.holder in
      let named = held.named in let leased = held.leased in absurd (ground arith)
  Moves-held o' (beats f t x mine e own open_row e') = absurd (foreign f t x (cc (mine)) e own)
  Moves-held o' (submits f t _ x mine e own state e') = absurd (foreign f t x (cc (mine)) e own)
  Moves-held o' (doubts f t _ _ x mine e own state e') = absurd (foreign f t x (cc (mine)) e own)
  Moves-held o' (saves f t _ _ x mine e own open_row e') = absurd (foreign f t x (cc (mine)) e own)
  Moves-held o' (fails f t _ _ _ x mine e own open_row e') =
      absurd (foreign f t x (cc (mine)) e own)

run-held :
    (lower : String → String) (lease : ℕ) (key token : String) (until : ℕ) (calls : List (ℕ × Call))
    (db : Db) (r : Idempotency)
    → HasKeys db
    → find_key key db ≡ some r
    → IsHeld token until r
    → OthersBefore until token calls
    → find_key key (run lower lease calls db) ≡ some r
unfolding run
run-held lower lease key token until [] db r u found held before = found
run-held lower lease key token until ((now, call) ∷ calls) db r u found held before =
    run-held lower lease key token until calls (step lower lease now call db) r
      (step-HasKeys lower lease now call db u)
      (Moves-held lease now (label call) token until r held before.0
        (rw (acting_token-label call) (before.1)) _
        (rw found at (payment_step-Moves lower lease now key call db u)))
      held before.2

-- While a worker's lease on an open payment runs, no one takes the payment from it: whatever the other workers
-- call meanwhile, claims, marks, answers and heartbeats, the row stays exactly as it is, and a claim of the key is
-- refused and changes nothing.
-- The keys of the database are distinct, the token of the row is not empty, and none of the calls, which all
-- come before the end of the lease, is made with this token.
pub leased_payment_is_exclusive :
    (lower : String → String) (lease : ℕ) (key token : String) (until : ℕ) (calls : List (ℕ × Call))
    (db : Db) (r : Idempotency) (now : ℕ) (fresh fingerprint : String)
    (payment_hash : Option String) (network : String)
    → HasKeys db
    → find_key key db ≡ some r
    → IsHeld token until r
    → OthersBefore until token calls
    → now < until
    → (find_key key (run lower lease calls db) ≡ some r)
      × ((e : ApiError) × (claim_idempotent lease now fresh key fingerprint payment_hash network
              (run lower lease calls db)
            ≡ (err e, run lower lease calls db)))
leased_payment_is_exclusive lower lease key token until calls db r now fresh fingerprint
      payment_hash network u found held before early =
    let there = run-held lower lease key token until calls db r u found held before in
    let open_row = held.unfinished in
    let holder = held.holder in
    let named = held.named in
    let leased = held.leased in
    (
      there,
      rw
          (
            claim_idempotent_lem lease now fresh key fingerprint payment_hash network
                (run lower lease calls db) (run-HasKeys lower lease calls db u),
            there,
          )
          (elim (Bool-cases (r.fingerprint == fingerprint)) [
            | inr e ↦ (conflict, rw e)
            | inl e ↦ (in_progress, rw (e, open_row, holder, leased, named) (ground arith))
          ]),
    )
