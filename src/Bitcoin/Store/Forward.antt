-- ===== src/Bitcoin/Store/Forward.antt =====
-- An unexpired row only goes forward, and a lost claim never comes back.
use rails.Prelude.{
  ℕ, ◌≤◌, String, string_eq, eq_iff, ◌≡◌, ◌≢◌, refl, false, Option, none, some, List, [], ◌∷◌,
  arith,
}
use mathlib.Core.Option.{some-injective}
use rails.Table.{holds}
use rails.Bitcoin.Store.Rows.{State, IdempotencyRecord, Db, Settings, find_key}
use rails.Bitcoin.Store.Calls.{Call, step, run}
use rails.Table.Owned.{passes}
use rails.Bitcoin.Store.Owner.{HasKeys}
use rails.Bitcoin.Store.Claiming.{is_vacant}
use rails.Bitcoin.Store.Fencing.{owns}
use rails.Bitcoin.Store.Keys.{step-HasKeys}
use rails.Bitcoin.Store.Machine.{
  Label, claiming, Moves, stays, begins, takes, beats, prepares, sends, doubts, responds, fails,
  rejects, vanishes,
}
use rails.Bitcoin.Store.Machine.Refines.{label, step-Moves}

-- The text of a column, for the comparison with another text.
abbrev pub text_of : Option String → String
text_of none = ""
text_of (some s) = s

-- How far a request has come.
abbrev pub phase : State → ℕ
phase State.claimed = 0
phase State.prepared = 1
phase State.unknown = 2
phase State.broadcast = 2
phase State.succeeded = 3
phase State.failed_final = 3

-- `r'` is a later state of the request of `r`: the same request, as far or further, with the same
-- prepared transaction.
pub record Forward (r r' : IdempotencyRecord) : Type 0 where
  pub key : r'.key ≡ r.key
  pub scope : r'.scope ≡ r.scope
  pub request_hash : r'.request_hash ≡ r.request_hash
  pub phase : phase r.state ≤ phase r'.state
  pub prepared :
      (i : ℕ)
      → r.prepared_record_id ≡ some i
      → (r'.prepared_record_id ≡ some i) × (r'.payment_hash ≡ r.payment_hash)

pub Forward-refl : (r : IdempotencyRecord) → Forward r r
Forward-refl r = record {
  key = refl;
  scope = refl;
  request_hash = refl;
  phase = omega arith;
  prepared = λ i e. (e, refl);
}

Forward-trans : {r s t : IdempotencyRecord} → Forward r s → Forward s t → Forward r t
Forward-trans a b = record {
  key = cc;
  scope = cc;
  request_hash = cc;
  phase = omega arith;
  prepared = λ i e. ground (arith, a.prepared i, b.prepared i);
}

module _ (c : Settings) (now : ℕ) (who : Label) (r : IdempotencyRecord) where
  moved :
      (o' : Option IdempotencyRecord) {x y : IdempotencyRecord}
      → ◌≡◌ {A = Option IdempotencyRecord} (some r) (some x)
      → o' ≡ some y
      → Forward x y
      → (r' : IdempotencyRecord) × (o' ≡ some r') × Forward r r'
  moved o' {x} {y} e e' f = (y, e', rw (some-injective r x e) f)

  Moves-Forward :
      (o' : Option IdempotencyRecord)
      → is_vacant now (some r) ≡ false
      → Moves c now who (some r) o'
      → (r' : IdempotencyRecord) × (o' ≡ some r') × Forward r r'
  Moves-Forward o' live (stays e) = (r, e, Forward-refl r)
  Moves-Forward o' live (begins _ _ _ _ _ vacant e) = absurd (ground arith)
  Moves-Forward o' live (takes _ x _ e vacant open_row free e') = moved o' e e' (record {
    key = refl;
    scope = refl;
    request_hash = refl;
    phase = omega arith;
    prepared = λ i h. (h, refl);
  })
  Moves-Forward o' live (beats _ x _ e held open_row e') = moved o' e e' (record {
    key = refl;
    scope = refl;
    request_hash = refl;
    phase = omega arith;
    prepared = λ i h. (h, refl);
  })
  Moves-Forward o' live (prepares _ _ _ x _ e held state fresh e') = moved o' e e' (record {
    key = refl;
    scope = refl;
    request_hash = refl;
    phase = rw state (omega arith);
    prepared = λ i h. absurd (cc (h, fresh));
  })
  Moves-Forward o' live (sends _ txid x _ e held hash state e') = moved o' e e' (record {
    key = refl;
    scope = refl;
    request_hash = refl;
    phase = ground arith;
    prepared = λ i h. ground (arith, eq_iff (text_of x.payment_hash) txid);
  })
  Moves-Forward o' live (doubts _ txid _ x _ e held hash state e') = moved o' e e' (record {
    key = refl;
    scope = refl;
    request_hash = refl;
    phase = ground arith;
    prepared = λ i h. ground (arith, eq_iff (text_of x.payment_hash) txid);
  })
  Moves-Forward o' live (responds _ _ _ x _ e held state e') = moved o' e e' (record {
    key = refl;
    scope = refl;
    request_hash = refl;
    phase = ground arith;
    prepared = λ i h. (h, refl);
  })
  Moves-Forward o' live (fails _ _ _ _ x _ e held state e') = moved o' e e' (record {
    key = refl;
    scope = refl;
    request_hash = refl;
    phase = rw state (omega arith);
    prepared = λ i h. (h, refl);
  })
  Moves-Forward o' live (rejects _ _ _ _ x _ e held state e') = moved o' e e' (record {
    key = refl;
    scope = refl;
    request_hash = refl;
    phase = ground arith;
    prepared = λ i h. (h, refl);
  })
  Moves-Forward o' live (vanishes vacant e) = absurd (ground arith)

-- At no call of the history has the row of the key expired.
abbrev pub Unexpired : Settings → String → List (ℕ × Call) → Db → Type 0
Unexpired c key [] db = Unit
Unexpired c key ((now, call) ∷ calls) db =
    (is_vacant now (find_key key db) ≡ false) × Unexpired c key calls (step c now call db)

-- As long as it does not expire, the row of a key goes forward only, whatever the calls: it never
-- returns to an earlier phase, and keeps its scope, its request hash and its prepared transaction.
-- The keys of the database are distinct.
pub run-Forward :
    (c : Settings) (key : String) (calls : List (ℕ × Call)) (db : Db) (r : IdempotencyRecord)
    → HasKeys db
    → find_key key db ≡ some r
    → Unexpired c key calls db
    → (r' : IdempotencyRecord) × (find_key key (run c calls db) ≡ some r') × Forward r r'
unfolding run
run-Forward c key [] db r u found live = (r, found, Forward-refl r)
run-Forward c key ((now, call) ∷ calls) db r u found live =
    let (x, fx, fwd) =
      Moves-Forward c now (label db call) r (find_key key (step c now call db)) (rw found at live.0)
        (rw found at (step-Moves c now key call db u)) in
    let (r', fr, fwd') =
      run-Forward c key calls (step c now call db) x (step-HasKeys c now call db u) fx live.1 in
    (r', fr, Forward-trans fwd fwd')

-- The fresh token of a claim.
abbrev pub claim_token_of : Call → Option String
claim_token_of (Call.claims token key scope request_hash) = some token
claim_token_of _ = none

other_claim :
    (db : Db) (call : Call) (token : String)
    → claim_token_of call ≢ some token
    → (key scope request_hash : String) → label db call ≢ claiming token key scope request_hash
other_claim db (Call.claims _ _ _ _) token h k sc rh e = h (ground arith)
other_claim db (Call.beats _ _) token h k sc rh e = cc
other_claim db _ token h k sc rh e = cc

-- No claim of the history is given this token: each claim has a uuid4 of its own.
abbrev pub Without : String → List (ℕ × Call) → Type 0
Without token [] = Unit
Without token ((_, call) ∷ calls) = (claim_token_of call ≢ some token) × Without token calls

Moves-stale :
    (c : Settings) (now : ℕ) (who : Label) (token : String) (o o' : Option IdempotencyRecord)
    → passes (λ r. holds r.claim_token token) o ≡ false
    → ((key scope request_hash : String) → who ≢ claiming token key scope request_hash)
    → Moves c now who o o'
    → passes (λ r. holds r.claim_token token) o' ≡ false
Moves-stale c now who token o o' lost other (stays e) = rw e lost
Moves-stale c now who token o o' lost other (begins t k sc rh mine vacant e) =
    rw e (ground (arith, eq_iff t token, other k sc rh))
Moves-stale c now who token o o' lost other (takes t x mine e vacant open_row free e') =
    rw e' (ground (arith, eq_iff t token, other x.key x.scope x.request_hash))
Moves-stale c now who token o o' lost other (vanishes vacant e) = rw e
Moves-stale c now who token o o' lost other (beats _ x _ e held open_row e') = ground arith
Moves-stale c now who token o o' lost other (prepares _ _ _ x _ e held state fresh e') =
    ground arith
Moves-stale c now who token o o' lost other (sends _ txid x _ e held hash state e') = ground arith
Moves-stale c now who token o o' lost other (doubts _ txid _ x _ e held hash state e') =
    ground arith
Moves-stale c now who token o o' lost other (responds _ _ _ x _ e held state e') = ground arith
Moves-stale c now who token o o' lost other (fails _ _ _ _ x _ e held state e') = ground arith
Moves-stale c now who token o o' lost other (rejects _ _ _ _ x _ e held state e') = ground arith

-- A worker that has lost the claim of a key never gets it back, in any history whose claims have other
-- tokens.
-- The keys of the database are distinct.
pub lost_claim_stays_lost :
    (c : Settings) (key token : String) (calls : List (ℕ × Call)) (db : Db)
    → HasKeys db
    → owns token key db ≡ false
    → Without token calls
    → owns token key (run c calls db) ≡ false
unfolding run
lost_claim_stays_lost c key token [] db u lost fresh = lost
lost_claim_stays_lost c key token ((now, call) ∷ calls) db u lost fresh =
    lost_claim_stays_lost c key token calls (step c now call db) (step-HasKeys c now call db u)
      (Moves-stale c now (label db call) token (find_key key db) _ lost
        (other_claim db call token fresh.0) (step-Moves c now key call db u))
      fresh.1
