-- ===== src/Bitcoin/Store/Lease.antt =====
-- While the lease of a claim runs, the row is its worker's alone: bitcoin_core_backend/src/infra/store.py.
use rails.Prelude.{
  ℕ, ◌<◌, ◌≤◌, String, string_eq, eq_iff, ◌≡◌, ◌≢◌, refl, true, false, Option, none, some, List, [],
  ◌∷◌, arith, inl, inr, Bool-cases,
}
use rails.Text.{truthy}
use rails.Effect.{err}
use rails.Table.{holds}
use rails.Bitcoin.Errors.{Error}
use rails.Bitcoin.Store.Rows.{is_final, IdempotencyRecord, Db, Settings, find_key}
use rails.Bitcoin.Store.Claim.{is_other_request, key_reused, in_progress, claim_idempotent}
use rails.Bitcoin.Store.Calls.{Call, step, run}
use rails.Bitcoin.Store.Owner.{HasKeys}
use rails.Bitcoin.Store.Claiming.{claim_idempotent-live}
use rails.Bitcoin.Store.Keys.{step-HasKeys, run-HasKeys}
use rails.Bitcoin.Store.Machine.{
  Label, claiming, saving, acting, plain, Moves, stays, begins, takes, beats, prepares, sends,
  doubts, responds, fails, rejects, vanishes,
}
use rails.Bitcoin.Store.Machine.Refines.{label, step-Moves}

-- The claim token that a call is made with, other than a claim's fresh one.
abbrev pub token_of : Call → Option String
token_of (Call.beats key token) = some token
token_of (Call.responds key scope request_hash token status response) = some token
token_of (Call.saves key token request_hash t) = some token
token_of (Call.sends key token txid) = some token
token_of (Call.fails key token status error_code message) = some token
token_of (Call.rejects key token status error_code message) = some token
token_of (Call.loses key token txid error) = some token
token_of _ = none

-- The calls come before the time `until`, and none is made with this claim token.
abbrev pub OthersBefore : ℕ → String → List (ℕ × Call) → Type 0
OthersBefore until token [] = Unit
OthersBefore until token ((now, call) ∷ calls) =
    (now < until) × (token_of call ≢ some token) × OthersBefore until token calls

abbrev acting_token : Label → Option String
acting_token (claiming token key scope request_hash) = none
acting_token (saving key token id request_hash txid) = some token
acting_token (acting key token) = some token
acting_token plain = none

acting_token-label : (db : Db) (call : Call) → acting_token (label db call) ≡ token_of call
acting_token-label db (Call.claims _ _ _ _) = refl
acting_token-label db (Call.beats _ _) = refl
acting_token-label db (Call.responds _ _ _ _ _ _) = refl
acting_token-label db (Call.saves _ _ _ _) = refl
acting_token-label db (Call.sends _ _ _) = refl
acting_token-label db (Call.fails _ _ _ _ _) = refl
acting_token-label db (Call.rejects _ _ _ _ _) = refl
acting_token-label db (Call.loses _ _ _ _) = refl
acting_token-label db (Call.records _) = refl
acting_token-label db Call.prunes = refl

-- The row is open, and held under the token until that time, before which it does not expire.
pub record IsHeld (token : String) (until : ℕ) (r : IdempotencyRecord) : Type 0 where
  pub unfinished : is_final r.state ≡ false
  pub holder : r.claim_token ≡ some token
  pub named : truthy token ≡ true
  pub leased : r.lease_expires_at ≡ some until
  pub live : until ≤ r.expires_at

module _ (c : Settings) (now : ℕ) (who : Label) (token : String) (until : ℕ) (r : IdempotencyRecord)
    (held : IsHeld token until r) (early : now < until)
    (other : acting_token who ≢ some token) where
  foreign :
      (t : String) (x : IdempotencyRecord)
      → acting_token who ≡ some t
      → ◌≡◌ {A = Option IdempotencyRecord} (some r) (some x)
      → holds x.claim_token t ≡ true
      → ⊥
  foreign t x mine e holding =
      let holder = held.holder in
      let same : holds r.claim_token t ≡ true = ground arith in
      let own : token ≡ t = (eq_iff token t).0 (rw holder at same) in other (cc (mine, own))

  Moves-held : (o' : Option IdempotencyRecord) → Moves c now who (some r) o' → o' ≡ some r
  Moves-held o' (stays e) = e
  Moves-held o' (begins _ _ _ _ _ vacant e) = let live = held.live in absurd (ground arith)
  Moves-held o' (vanishes vacant e) = let live = held.live in absurd (ground arith)
  Moves-held o' (takes _ x mine e vacant open_row free e') =
      let holder = held.holder in
      let named = held.named in let leased = held.leased in absurd (ground arith)
  Moves-held o' (beats t x mine e own open_row e') = absurd (foreign t x (cc (mine)) e own)
  Moves-held o' (prepares t _ _ x mine e own state fresh e') =
      absurd (foreign t x (cc (mine)) e own)
  Moves-held o' (sends t _ x mine e own hash state e') = absurd (foreign t x (cc (mine)) e own)
  Moves-held o' (doubts t _ _ x mine e own hash state e') = absurd (foreign t x (cc (mine)) e own)
  Moves-held o' (responds t _ _ x mine e own state e') = absurd (foreign t x (cc (mine)) e own)
  Moves-held o' (fails t _ _ _ x mine e own state e') = absurd (foreign t x (cc (mine)) e own)
  Moves-held o' (rejects t _ _ _ x mine e own state e') = absurd (foreign t x (cc (mine)) e own)

run-held :
    (c : Settings) (key token : String) (until : ℕ) (calls : List (ℕ × Call)) (db : Db)
    (r : IdempotencyRecord)
    → HasKeys db
    → find_key key db ≡ some r
    → IsHeld token until r
    → OthersBefore until token calls
    → find_key key (run c calls db) ≡ some r
unfolding run
run-held c key token until [] db r u found held before = found
run-held c key token until ((now, call) ∷ calls) db r u found held before =
    run-held c key token until calls (step c now call db) r (step-HasKeys c now call db u)
      (Moves-held c now (label db call) token until r held before.0
        (rw (acting_token-label db call) (before.1)) _
        (rw found at (step-Moves c now key call db u)))
      held before.2

-- While a worker's lease on an open request runs, no one takes the request from it: whatever the other workers
-- call meanwhile, claims, saves, marks, heartbeats and prunings, the row stays exactly as it is, and a claim of
-- the key is refused and changes nothing.
-- The keys of the database are distinct, the row does not expire before the lease, its token is not empty, and
-- none of the calls, which all come before the end of the lease, is made with this token.
pub leased_row_is_exclusive :
    (c : Settings) (key token : String) (until : ℕ) (calls : List (ℕ × Call)) (db : Db)
    (r : IdempotencyRecord) (now : ℕ) (fresh scope request_hash : String)
    → HasKeys db
    → find_key key db ≡ some r
    → IsHeld token until r
    → OthersBefore until token calls
    → now < until
    → (find_key key (run c calls db) ≡ some r)
      × ((e : Error) × (claim_idempotent c now fresh key scope request_hash (run c calls db)
            ≡ (err e, run c calls db)))
leased_row_is_exclusive c key token until calls db r now fresh scope request_hash u found held
      before early =
    let there = run-held c key token until calls db r u found held before in
    let live = held.live in
    let open_row = held.unfinished in
    let holder = held.holder in
    let named = held.named in
    let leased = held.leased in
    (
      there,
      rw
          (claim_idempotent-live c now fresh key scope request_hash (run c calls db)
            (run-HasKeys c calls db u) there (ground arith))
          (elim (Bool-cases (is_other_request scope request_hash r)) [
            | inl e ↦ (key_reused, rw e)
            | inr e ↦ (in_progress, rw (e, open_row, holder, leased, named) (ground arith))
          ]),
    )
