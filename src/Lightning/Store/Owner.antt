-- ===== src/Lightning/Store/Owner.antt =====
-- What the owned UPDATE of the Lightning store and its claim do, by the row that their key finds.
use rails.Prelude.{
  ℕ, String, string_eq, nat_eq, ◌≡◌, Bool, not, ◌&&◌, ◌==◌, Option, none, some, arith, inl, inr,
  Bool-cases, Option-cases, if◌then◌else◌,
}
use rails.Effect.{Result, ok, err}
use rails.Table.{update, count, insert}
use rails.Table.Laws.{updated}
use rails.Table.Owned.{
  passes, count-owned, find-update-owned, update-owned-IsUnique, update-owned-none,
}
use rails.Lightning.Errors.{ApiError}
use rails.Lightning.Store.Rows.{
  is_final, Idempotency, Db, ClaimOutcome, claim, replay, key_of, find_key, HasKeys,
}
use rails.Lightning.Store.Claim.{
  conflict, in_progress, fresh_row, is_leased, may_take, taken, existing_hash, claim_idempotent,
}
use rails.Lightning.Store.Settle.{lost_claim, update_owned}

-- The database behind the UPDATE.
abbrev pub after_update : String → (Idempotency → Bool) → (Idempotency → Idempotency) → Db → Db
after_update key p f db = record db {
  idempotency = update (λ r. r.key == key && p r) f db.idempotency;
}

module _ (key : String) (p : Idempotency → Bool) (f : Idempotency → Idempotency) (db : Db)
    (u : HasKeys db) where
  pub update_owned_lem : update_owned key p f db ≡ (
      if passes p (find_key key db) then (ok tt, after_update key p f db) else (err lost_claim, db))
  unfolding update_owned
  update_owned_lem = elim (Bool-cases (passes p (find_key key db))) [
    | inl won ↦ rw (count-owned key_of key p f db.idempotency u, won)
    | inr lost ↦ rw (
      count-owned key_of key p f db.idempotency u,
      lost,
      update-owned-none key_of key p f db.idempotency u lost,
    )
  ]

  pub find_key-after_update :
      ((r : Idempotency) → (f r).key ≡ r.key)
      → (j : String)
      → find_key j (after_update key p f db)
        ≡ (if key == j then updated p f (find_key j db) else find_key j db)
  find_key-after_update same j = find-update-owned key_of key p f db.idempotency same j

  pub after_update-HasKeys :
      ((r : Idempotency) → (f r).key ≡ r.key) → HasKeys (after_update key p f db)
  after_update-HasKeys same = update-owned-IsUnique key_of key p f db.idempotency same u

module _ (lease now : ℕ) (token key fingerprint : String) (payment_hash : Option String)
    (network : String) (db : Db) where
  abbrev pub newcomer : Idempotency
  newcomer = fresh_row lease now token key fingerprint payment_hash network

  abbrev pub inserted : Db
  inserted = record db { idempotency = insert newcomer db.idempotency }

  -- The answer to a claim, for the row that its key finds.
  abbrev pub decided : Option Idempotency → Result ApiError ClaimOutcome × Db
  decided none = (
    ok (
        claim (record {
          key = key;
          token = token;
          state = newcomer.state;
          payment_hash = payment_hash;
        })),
    inserted,
  )
  decided (some r) =
      if not (r.fingerprint == fingerprint)
      then (err conflict, db)
      else if is_final r.state
      then (ok (replay (record { payload = r.response_json; status_code = r.status_code })), db)
      else if is_leased now r
      then (err in_progress, db)
      else if may_take now fingerprint r
      then (
        ok (
            claim (record {
              key = key;
              token = token;
              state = r.state;
              payment_hash = existing_hash r.payment_hash payment_hash;
            })),
        after_update key (may_take now fingerprint) (taken lease now token) db,
      )
      else (err in_progress, db)

  pub claim_idempotent_lem :
      HasKeys db
      → claim_idempotent lease now token key fingerprint payment_hash network db
        ≡ decided (find_key key db)
  unfolding claim_idempotent
  claim_idempotent_lem u = elim (Option-cases (find_key key db)) [
    | inl missing ↦ rw missing
    | inr (r, found) ↦
        let counted : count (λ x. x.key == key && may_take now fingerprint x) db.idempotency
            ≡ (if may_take now fingerprint r then 1 else 0) =
          rw found at (
            count-owned key_of key (may_take now fingerprint) (taken lease now token) db.idempotency
              u) in
        rw found (ground (arith, counted))
  ]
