-- ===== src/Bitcoin/Store/Machine/Claims.antt =====
-- A claim moves every key along the state machine.
use rails.Prelude.{
  ℕ, String, List, sym, ◌∙◌, string_eq, nat_eq, eq_iff, ◌≡◌, refl, true, false, ◌==◌, none, some,
  arith, inl, inr, Bool-cases, Option-cases, leb,
}
use mathlib.Core.Option.{some-injective}
use rails.Table.{delete, insert}
use rails.Table.Laws.{find, find-delete, find-insert_new, key-find}
use rails.Bitcoin.Store.Rows.{is_final, IdempotencyRecord, Db, Settings, key_of, find_key}
use rails.Bitcoin.Store.Claim.{claim_idempotent, taken, is_leased, is_other_request}
use rails.Bitcoin.Store.Owner.{HasKeys}
use rails.Bitcoin.Store.Claiming.{
  is_vacant, newcomer, claim_test, claim_idempotent-missing, claim_idempotent-expired,
  claim_idempotent-live,
}
use rails.Bitcoin.Store.Machine.{claiming, Moves, stays, begins, takes}
use rails.Bitcoin.Store.Machine.Updates.{update-Moves}

module _ (c : Settings) (now : ℕ) (j : String) where
  begin-Moves :
      (token key scope request_hash : String) (db : Db)
      → is_vacant now (find_key key db) ≡ true
      → (t : List IdempotencyRecord) → find key_of key t ≡ none
      → (key == j ≡ false → find key_of j t ≡ find_key j db)
      → Moves c now
          (claiming token key scope request_hash)
          (find_key j db)
          (find key_of j (insert (newcomer c now token key scope request_hash db) t))
  begin-Moves token key scope request_hash db vacant t new same =
      rw (find-insert_new key_of j (newcomer c now token key scope request_hash db) t new)
        (elim (Bool-cases (key == j)) [
          | inl mine ↦
              rw mine (
                begins token key scope request_hash refl (rw ((eq_iff key j).0 mine) at vacant)
                  refl)
          | inr other ↦ rw other (stays (same other))
        ])

  missing-Moves :
      (token key scope request_hash : String) (db : Db)
      → find_key key db ≡ none
      → Moves c now
          (claiming token key scope request_hash)
          (find_key j db)
          (find_key j (claim_idempotent c now token key scope request_hash db).1)
  missing-Moves token key scope request_hash db missing =
      rw (claim_idempotent-missing c now token key scope request_hash db missing) (
        begin-Moves token key scope request_hash db (rw missing) db.idempotency_records missing
          (λ _. refl))

  expired-Moves :
      (token key scope request_hash : String) (db : Db) (r : IdempotencyRecord)
      → HasKeys db
      → find_key key db ≡ some r
      → leb r.expires_at now ≡ true
      → Moves c now
          (claiming token key scope request_hash)
          (find_key j db)
          (find_key j (claim_idempotent c now token key scope request_hash db).1)
  expired-Moves token key scope request_hash db r u found old =
      rw (claim_idempotent-expired c now token key scope request_hash db found old) (
        begin-Moves token key scope request_hash db (rw (found, old))
          (delete (λ x. x.key == key) db.idempotency_records) gone others)
    where
      gone : find key_of key (delete (λ x. x.key == key) db.idempotency_records) ≡ none
      gone =
          rw (find-delete key_of (λ x. x.key == key) key db.idempotency_records u, found)
            (ground (arith, key-find key_of key r db.idempotency_records found, eq_iff r.key key))

      others :
          key == j ≡ false
          → find key_of j (delete (λ x. x.key == key) db.idempotency_records) ≡ find_key j db
      others other =
          rw (find-delete key_of (λ x. x.key == key) j db.idempotency_records u)
            (elim (Option-cases (find_key j db)) [
              | inl missing ↦ rw missing
              | inr (x, e) ↦ rw e (
                  ground (
                    arith,
                    key-find key_of j x db.idempotency_records e,
                    eq_iff x.key key,
                    eq_iff key j,
                  ))
            ])

  -- A claim that is not another request's brings the row's own key, scope and hash.
  claiming-find :
      (token key scope request_hash : String) (db : Db) (x : IdempotencyRecord)
      → find_key key db ≡ some x
      → is_other_request scope request_hash x ≡ false
      → claiming token key scope request_hash ≡ claiming token x.key x.scope x.request_hash
  claiming-find token key scope request_hash db x found same =
      let k = key-find key_of key x db.idempotency_records found in
      let sc : x.scope ≡ scope = ground (arith, eq_iff x.scope scope) in
      let hash : x.request_hash ≡ request_hash =
        ground (arith, eq_iff x.request_hash request_hash) in
      rw (k, sc, hash)

  live-Moves :
      (token key scope request_hash : String) (db : Db) (r : IdempotencyRecord)
      → HasKeys db
      → find_key key db ≡ some r
      → leb r.expires_at now ≡ false
      → Moves c now
          (claiming token key scope request_hash)
          (find_key j db)
          (find_key j (claim_idempotent c now token key scope request_hash db).1)
  live-Moves token key scope request_hash db r u found live =
      rw (claim_idempotent-live c now token key scope request_hash db u found live)
        (elim (Bool-cases (is_other_request scope request_hash r)) [
          | inl e ↦ rw e (stays refl)
          | inr e₁ ↦ elim (Bool-cases (is_final r.state)) [
            | inl e ↦ rw (e₁, e) (stays refl)
            | inr e₂ ↦ elim (Bool-cases (is_leased now r)) [
              | inl e ↦ rw (e₁, e₂, e) (stays refl)
              | inr e₃ ↦ elim (Bool-cases (claim_test now request_hash r)) [
                | inr e ↦ rw (e₁, e₂, e₃, e) (stays refl)
                | inl e ↦
                    rw (e₁, e₂, e₃, e)
                      (update-Moves c now (claiming token key scope request_hash) j key
                        (claim_test now request_hash) (taken c now token) db (λ x. refl)
                        λ x fx p.
                          let same : r ≡ x = some-injective r x (sym found ∙ fx) in
                          takes token x
                            (claiming-find token key scope request_hash db x fx (rw same at e₁))
                            refl (rw same at live) (rw same at e₂) (rw same at e₃) refl)
              ]
            ]
          ]
        ])

  pub claim-Moves :
      (token key scope request_hash : String) (db : Db)
      → HasKeys db
      → Moves c now
          (claiming token key scope request_hash)
          (find_key j db)
          (find_key j (claim_idempotent c now token key scope request_hash db).1)
  claim-Moves token key scope request_hash db u = elim (Option-cases (find_key key db)) [
    | inl missing ↦ missing-Moves token key scope request_hash db missing
    | inr (r, found) ↦ elim (Bool-cases (leb r.expires_at now)) [
      | inl old ↦ expired-Moves token key scope request_hash db r u found old
      | inr live ↦ live-Moves token key scope request_hash db r u found live
    ]
  ]
