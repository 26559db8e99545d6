-- ===== src/Lightning/Store/Keys.antt =====
-- The PRIMARY KEY of `idempotency` holds in every history: no INSERT of the code can violate it.
use rails.Prelude.{
  ℕ, String, List, [], ◌∷◌, string_eq, nat_eq, ◌≡◌, refl, Bool, not, ◌==◌, Option, some, inl, inr,
  Bool-cases, Option-cases,
}
use rails.Table.Laws.{insert-IsUnique}
use rails.Table.Owned.{passes}
use rails.Lightning.Store.Rows.{is_final, Idempotency, Db, key_of, find_key, HasKeys}
use rails.Lightning.Store.Claim.{claim_idempotent, may_take, taken, is_leased}
use rails.Lightning.Store.Settle.{
  save_idempotent, mark_submitted, mark_failed, mark_unknown, heartbeat_claim, update_owned,
  may_settle, beaten,
}
use rails.Lightning.Store.Events.{append_event}
use rails.Lightning.Store.Calls.{Call, step, run}
use rails.Lightning.Store.Owner.{
  update_owned_lem, after_update-HasKeys, newcomer, decided, claim_idempotent_lem,
}

owned-HasKeys :
    (key : String) (p : Idempotency → Bool) (f : Idempotency → Idempotency) (db : Db)
    → HasKeys db
    → ((r : Idempotency) → (f r).key ≡ r.key)
    → HasKeys (update_owned key p f db).1
owned-HasKeys key p f db u same =
    rw (update_owned_lem key p f db u) (elim (Bool-cases (passes p (find_key key db))) [
      | inl won ↦ rw won (after_update-HasKeys key p f db u same)
      | inr lost ↦ rw lost u
    ])

module _ (lease now : ℕ) (token key fingerprint : String) (payment_hash : Option String)
    (network : String) (db : Db) (u : HasKeys db) where
  taken-HasKeys :
      (r : Idempotency)
      → HasKeys (decided lease now token key fingerprint payment_hash network db (some r)).1
  taken-HasKeys r = elim (Bool-cases (not (r.fingerprint == fingerprint))) [
    | inl e ↦ rw e u
    | inr e₁ ↦ elim (Bool-cases (is_final r.state)) [
      | inl e ↦ rw (e₁, e) u
      | inr e₂ ↦ elim (Bool-cases (is_leased now r)) [
        | inl e ↦ rw (e₁, e₂, e) u
        | inr e₃ ↦ elim (Bool-cases (may_take now fingerprint r)) [
          | inr e ↦ rw (e₁, e₂, e₃, e) u
          | inl e ↦
              rw (e₁, e₂, e₃, e)
                (after_update-HasKeys key (may_take now fingerprint) (taken lease now token) db u
                  (λ x. refl))
        ]
      ]
    ]
  ]

  claim-HasKeys :
      HasKeys (claim_idempotent lease now token key fingerprint payment_hash network db).1
  claim-HasKeys =
      rw (claim_idempotent_lem lease now token key fingerprint payment_hash network db u)
        (elim (Option-cases (find_key key db)) [
          | inr (r, found) ↦ rw found (taken-HasKeys r)
          | inl missing ↦ rw missing (
              insert-IsUnique key_of
                (newcomer lease now token key fingerprint payment_hash network db) db.idempotency
                missing u)
        ])

module _ (lower : String → String) (lease : ℕ) where
  pub step-HasKeys :
      (now : ℕ) (call : Call) (db : Db) → HasKeys db → HasKeys (step lower lease now call db)
  unfolding step save_idempotent mark_submitted mark_failed mark_unknown heartbeat_claim
      append_event
  step-HasKeys now (Call.claims token key fingerprint payment_hash network) db u =
      claim-HasKeys lease now token key fingerprint payment_hash network db u
  step-HasKeys now (Call.saves key _ _ _ _) db u = owned-HasKeys key _ _ db u (λ r. refl)
  step-HasKeys now (Call.submits key _ _ _) db u = owned-HasKeys key _ _ db u (λ r. refl)
  step-HasKeys now (Call.fails key _ _ _ _ _) db u = owned-HasKeys key _ _ db u (λ r. refl)
  step-HasKeys now (Call.doubts key _ _ _ _) db u = owned-HasKeys key _ _ db u (λ r. refl)
  step-HasKeys now (Call.beats key fingerprint token) db u =
      after_update-HasKeys key (may_settle fingerprint token) (beaten lease now) db u (λ r. refl)
  step-HasKeys now (Call.appends e) db u = u

  pub run-HasKeys :
      (calls : List (ℕ × Call)) (db : Db) → HasKeys db → HasKeys (run lower lease calls db)
  unfolding run
  run-HasKeys [] db u = u
  run-HasKeys ((now, call) ∷ calls) db u =
      run-HasKeys calls (step lower lease now call db) (step-HasKeys now call db u)
