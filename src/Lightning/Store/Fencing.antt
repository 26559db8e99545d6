-- ===== src/Lightning/Store/Fencing.antt =====
-- The token of a Lightning claim fences: who does not hold it changes nothing.
use rails.Prelude.{
  ℕ, String, List, [], ◌∷◌, string_eq, nat_eq, eq_iff, ◌≡◌, ◌≢◌, Bool, true, false, Option, some,
  arith, inl, inr, Option-cases,
}
use rails.Prelude.Int.{ℤ}
use rails.Json.{Json}
use rails.Effect.{ok, err}
use rails.Table.{holds}
use rails.Table.Owned.{passes, count-owned, update-owned-none}
use rails.Lightning.Store.Rows.{Idempotency, Db, key_of, find_key, HasKeys}
use rails.Lightning.Store.Settle.{
  lost_claim, save_idempotent, mark_submitted, mark_failed, mark_unknown, heartbeat_claim,
  update_owned, may_settle, beaten,
}
use rails.Lightning.Store.Calls.{Call, step, run}
use rails.Lightning.Store.Owner.{update_owned_lem}
use rails.Lightning.Store.Keys.{step-HasKeys}
use rails.Lightning.Store.Machine.{
  Label, claiming, Moves, stays, begins, takes, beats, submits, doubts, saves, fails,
}
use rails.Lightning.Store.Machine.Refines.{claim_token_of, label, payment_step-Moves}

abbrev holds_token : String → Option Idempotency → Bool
holds_token token o = passes (λ r. holds r.claim_token token) o

-- The worker with this token owns the row of the key.
abbrev pub owns : String → String → Db → Bool
owns token key db = holds_token token (find_key key db)

module _ (key token : String) (db : Db) (u : HasKeys db) (stale : owns token key db ≡ false) where
  -- A test that asks for the token fails at the key's row.
  misses :
      (p : Idempotency → Bool)
      → ((r : Idempotency) → p r ≡ true → holds r.claim_token token ≡ true)
      → passes p (find_key key db) ≡ false
  misses p asks = elim (Option-cases (find_key key db)) [
    | inl missing ↦ rw missing
    | inr (r, found) ↦
        let other : holds r.claim_token token ≡ false = rw found at stale in
        rw found (ground (arith, asks r))
  ]

  stale_update :
      (p : Idempotency → Bool) (f : Idempotency → Idempotency)
      → ((r : Idempotency) → p r ≡ true → holds r.claim_token token ≡ true)
      → update_owned key p f db ≡ (err lost_claim, db)
  stale_update p f asks = rw (update_owned_lem key p f db u, misses p asks)

  stale_heartbeat :
      (lease now : ℕ) (fingerprint : String)
      → heartbeat_claim lease now key fingerprint token db ≡ (ok false, db)
  unfolding heartbeat_claim
  stale_heartbeat lease now fingerprint =
      let p : Idempotency → Bool = may_settle fingerprint token in
      let lost : passes p (find_key key db) ≡ false = misses p (λ r h. ground arith) in
      rw (
        count-owned key_of key p (beaten lease now) db.idempotency u,
        lost,
        update-owned-none key_of key p (beaten lease now) db.idempotency u lost,
      )

  -- A worker that does not hold the claim of the key changes nothing: its response and its marks all end
  -- in `idempotency_claim_lost`, and its heartbeat returns false.
  -- The keys of the database are distinct.
  pub stale_payer_is_fenced :
      (lower : String → String) (lease now : ℕ)
      (fingerprint payment_hash error_code message : String) (status : ℤ) (response : Json)
      → (save_idempotent lower now key fingerprint token response status db ≡ (err lost_claim, db))
        × (mark_submitted lease now key fingerprint token payment_hash db ≡ (err lost_claim, db))
        × (mark_failed now key fingerprint token error_code message status db
            ≡ (err lost_claim, db))
        × (mark_unknown lease now key fingerprint token payment_hash message db
            ≡ (err lost_claim, db))
        × (heartbeat_claim lease now key fingerprint token db ≡ (ok false, db))
  unfolding save_idempotent mark_submitted mark_failed mark_unknown
  stale_payer_is_fenced lower lease now fingerprint payment_hash error_code message status
        response =
      (
        stale_update _ _ (λ r h. ground arith),
        stale_update _ _ (λ r h. ground arith),
        stale_update _ _ (λ r h. ground arith),
        stale_update _ _ (λ r h. ground arith),
        stale_heartbeat lease now fingerprint,
      )

-- No claim of the history is given this token: each claim has a uuid4 of its own.
abbrev pub Without : String → List (ℕ × Call) → Type 0
Without token [] = Unit
Without token ((_, call) ∷ calls) = (claim_token_of call ≢ some token) × Without token calls

other_claim :
    (call : Call) (token : String)
    → claim_token_of call ≢ some token
    → (key fingerprint : String) → label call ≢ claiming token key fingerprint
other_claim (Call.claims _ _ _ _ _) token h k f e = h (ground arith)
other_claim (Call.beats _ _ _) token h k f e = cc
other_claim _ token h k f e = cc

Moves-stale :
    (lease now : ℕ) (who : Label) (token : String) (o o' : Option Idempotency)
    → holds_token token o ≡ false
    → ((key fingerprint : String) → who ≢ claiming token key fingerprint)
    → Moves lease now who o o'
    → holds_token token o' ≡ false
Moves-stale lease now who token o o' lost other (stays e) = rw e lost
Moves-stale lease now who token o o' lost other (begins t k f _ _ mine e e') =
    rw e' (ground (arith, eq_iff t token, other k f))
Moves-stale lease now who token o o' lost other (takes t x mine e open_row free e') =
    rw e' (ground (arith, eq_iff t token, other x.key x.fingerprint))
Moves-stale lease now who token o o' lost other (beats _ _ x _ e own open_row e') = ground arith
Moves-stale lease now who token o o' lost other (submits _ _ _ x _ e own state e') = ground arith
Moves-stale lease now who token o o' lost other (doubts _ _ _ _ x _ e own state e') = ground arith
Moves-stale lease now who token o o' lost other (saves _ _ _ _ x _ e own open_row e') = ground arith
Moves-stale lease now who token o o' lost other (fails _ _ _ _ _ x _ e own open_row e') =
    ground arith

-- A worker that has lost the claim of a key never gets it back, in any history whose claims have other
-- tokens.
-- The keys of the database are distinct.
pub lost_payment_claim_stays_lost :
    (lower : String → String) (lease : ℕ) (key token : String) (calls : List (ℕ × Call)) (db : Db)
    → HasKeys db
    → owns token key db ≡ false
    → Without token calls
    → owns token key (run lower lease calls db) ≡ false
unfolding run
lost_payment_claim_stays_lost lower lease key token [] db u lost fresh = lost
lost_payment_claim_stays_lost lower lease key token ((now, call) ∷ calls) db u lost fresh =
    lost_payment_claim_stays_lost lower lease key token calls (step lower lease now call db)
      (step-HasKeys lower lease now call db u)
      (Moves-stale lease now (label call) token (find_key key db) _ lost
        (other_claim call token fresh.0) (payment_step-Moves lower lease now key call db u))
      fresh.1
