-- ===== src/Bitcoin/Store/Keys.antt =====
-- The PRIMARY KEY of `idempotency_records` holds in every history: no INSERT of the code can violate it.
use rails.Prelude.{
  ℕ, suc, String, string_eq, eq_iff, nat_eq, ◌≡◌, refl, Bool, true, false, ◌&&◌, ◌==◌, some, List,
  [], ◌∷◌, arith, inl, inr, Bool-cases, Option-cases, leb,
}
use rails.Prelude.Int.{ℤ}
use rails.Table.{holds, delete}
use rails.Table.Laws.{find-delete, key-find, delete-IsUnique, insert-IsUnique}
use rails.Bitcoin.Store.Rows.{is_final, is_open, IdempotencyRecord, Db, Settings, key_of, find_key}
use rails.Bitcoin.Store.Claim.{
  claim_idempotent, heartbeat_claim, prune_expired, update_claimed, taken, is_leased,
  is_other_request,
}
use rails.Bitcoin.Store.Prepared.{Signed, may_prepare, prepared_record, save_prepared_broadcast}
use rails.Bitcoin.Store.Settle.{
  may_send, sent, failed, may_reject, store_response, mark_broadcast, mark_failed,
  mark_prepared_failed, mark_unknown, set_status,
}
use rails.Bitcoin.Store.Transactions.{record_transaction}
use rails.Bitcoin.Store.Calls.{Call, step, run}
use rails.Table.Owned.{passes}
use rails.Bitcoin.Store.Owner.{HasKeys, update_claimed_lem, after_update-HasKeys}
use rails.Bitcoin.Store.Claiming.{
  newcomer, claim_test, claim_idempotent-missing, claim_idempotent-expired, claim_idempotent-live,
}
use rails.Bitcoin.Store.Saving.{recorded, save_cases}

update_claimed-HasKeys :
    (key : String) (p : IdempotencyRecord → Bool) (f : IdempotencyRecord → IdempotencyRecord)
    (db : Db)
    → ((r : IdempotencyRecord) → (f r).key ≡ r.key)
    → HasKeys db
    → HasKeys (update_claimed key p f db).1
update_claimed-HasKeys key p f db same u =
    rw (update_claimed_lem key p f db u) (elim (Bool-cases (passes p (find_key key db))) [
      | inl won ↦ rw won (after_update-HasKeys key p f db same u)
      | inr lost ↦ rw lost u
    ])

module _ (c : Settings) (now : ℕ) (key token : String) (db : Db) (u : HasKeys db) where
  broadcast-HasKeys : (txid : String) → HasKeys (mark_broadcast c now key token txid db).1
  unfolding mark_broadcast set_status
  broadcast-HasKeys txid =
      rw (update_claimed_lem key (may_send token txid) (sent c now txid) db u)
        (elim (Bool-cases (passes (may_send token txid) (find_key key db))) [
          | inl won ↦
              rw won
                (after_update-HasKeys key (may_send token txid) (sent c now txid) db (λ r. refl) u)
          | inr lost ↦ rw lost u
        ])

  live_claim-HasKeys :
      (scope request_hash : String) (r : IdempotencyRecord)
      → find_key key db ≡ some r
      → leb r.expires_at now ≡ false
      → HasKeys (claim_idempotent c now token key scope request_hash db).1
  live_claim-HasKeys scope request_hash r found live =
      rw (claim_idempotent-live c now token key scope request_hash db u found live)
        (elim (Bool-cases (is_other_request scope request_hash r)) [
          | inl e ↦ rw e u
          | inr e₁ ↦ elim (Bool-cases (is_final r.state)) [
            | inl e ↦ rw (e₁, e) u
            | inr e₂ ↦ elim (Bool-cases (is_leased now r)) [
              | inl e ↦ rw (e₁, e₂, e) u
              | inr e₃ ↦ elim (Bool-cases (claim_test now request_hash r)) [
                | inr e ↦ rw (e₁, e₂, e₃, e) u
                | inl e ↦
                    rw (e₁, e₂, e₃, e)
                      (after_update-HasKeys key (claim_test now request_hash) (taken c now token) db
                        (λ x. refl) u)
              ]
            ]
          ]
        ])

  expired_claim-HasKeys :
      (scope request_hash : String) (r : IdempotencyRecord)
      → find_key key db ≡ some r
      → leb r.expires_at now ≡ true
      → HasKeys (claim_idempotent c now token key scope request_hash db).1
  expired_claim-HasKeys scope request_hash r found old =
      rw (claim_idempotent-expired c now token key scope request_hash db found old) (
        insert-IsUnique key_of (newcomer c now token key scope request_hash db)
          (delete (λ x. x.key == key) db.idempotency_records)
          (rw (find-delete key_of (λ x. x.key == key) key db.idempotency_records u, found)
            (ground (arith, key-find key_of key r db.idempotency_records found, eq_iff r.key key)))
          (delete-IsUnique key_of (λ x. x.key == key) db.idempotency_records u))

  claim-HasKeys :
      (scope request_hash : String)
      → HasKeys (claim_idempotent c now token key scope request_hash db).1
  claim-HasKeys scope request_hash = elim (Option-cases (find_key key db)) [
    | inl missing ↦ rw (claim_idempotent-missing c now token key scope request_hash db missing) (
        insert-IsUnique key_of (newcomer c now token key scope request_hash db)
          db.idempotency_records missing u)
    | inr (r, found) ↦ elim (Bool-cases (leb r.expires_at now)) [
      | inl old ↦ expired_claim-HasKeys scope request_hash r found old
      | inr live ↦ live_claim-HasKeys scope request_hash r found live
    ]
  ]

  save-HasKeys :
      (request_hash : String) (t : Signed)
      → HasKeys (save_prepared_broadcast c now key token request_hash t db).1
  save-HasKeys request_hash t = elim (save_cases c now key token request_hash t db u) [
    | inl same ↦ rw same u
    | inr saved ↦ rw saved (
        after_update-HasKeys key (may_prepare token)
          (prepared_record c now t.expected_txid (suc db.last_id))
          (recorded c now key token request_hash t db) (λ x. refl) u)
  ]

reject-HasKeys :
    (now : ℕ) (key token : String) (status : ℤ) (error_code message : String) (db : Db)
    → HasKeys db
    → HasKeys (mark_prepared_failed now key token status error_code message db).1
unfolding mark_prepared_failed set_status
reject-HasKeys now key token status error_code message db u =
    rw (update_claimed_lem key (may_reject token) (failed now status error_code message) db u)
      (elim (Bool-cases (passes (may_reject token) (find_key key db))) [
        | inl won ↦ rw won (
            after_update-HasKeys key (may_reject token) (failed now status error_code message) db
              (λ r. refl) u)
        | inr lost ↦ rw lost u
      ])

module _ (c : Settings) where
  -- Every call keeps the keys of the table distinct.
  pub step-HasKeys : (now : ℕ) (call : Call) (db : Db) → HasKeys db → HasKeys (step c now call db)
  unfolding step heartbeat_claim store_response mark_failed mark_unknown record_transaction
      prune_expired
  step-HasKeys now (Call.claims token key scope request_hash) db u =
      claim-HasKeys c now key token db u scope request_hash
  step-HasKeys now (Call.beats key token) db u =
      after_update-HasKeys key (λ r. holds r.claim_token token && is_open r.state) _ db (λ r. refl)
        u
  step-HasKeys now (Call.responds key scope request_hash token status response) db u =
      update_claimed-HasKeys key _ _ db (λ r. refl) u
  step-HasKeys now (Call.saves key token request_hash t) db u =
      save-HasKeys c now key token db u request_hash t
  step-HasKeys now (Call.sends key token txid) db u = broadcast-HasKeys c now key token db u txid
  step-HasKeys now (Call.fails key token status error_code message) db u =
      update_claimed-HasKeys key _ _ db (λ r. refl) u
  step-HasKeys now (Call.rejects key token status error_code message) db u =
      reject-HasKeys now key token status error_code message db u
  step-HasKeys now (Call.loses key token txid error) db u =
      update_claimed-HasKeys key _ _ db (λ r. refl) u
  step-HasKeys now (Call.records d) db u = u
  step-HasKeys now Call.prunes db u =
      delete-IsUnique key_of (λ r. leb r.expires_at now) db.idempotency_records u

  pub run-HasKeys : (calls : List (ℕ × Call)) (db : Db) → HasKeys db → HasKeys (run c calls db)
  unfolding run
  run-HasKeys [] db u = u
  run-HasKeys ((now, call) ∷ calls) db u =
      run-HasKeys calls (step c now call db) (step-HasKeys now call db u)
