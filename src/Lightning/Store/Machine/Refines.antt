-- ===== src/Lightning/Store/Machine/Refines.antt =====
-- Every method of the Lightning store moves every key along the state machine, and keeps the keys
-- distinct.
use rails.Prelude.{
  ℕ, String, string_eq, nat_eq, eq_iff, ◌≡◌, refl, sym, ap, ◌∙◌, Bool, true, false, not, ◌==◌,
  Option, none, some, arith, inl, inr, Bool-cases, Option-cases, if◌then◌else◌,
}
use mathlib.Core.Option.{some-injective}
use rails.Table.Laws.{updated, find-insert_new, key-find}
use rails.Table.Owned.{passes}
use rails.Lightning.Store.Rows.{is_final, Idempotency, Db, key_of, find_key, HasKeys}
use rails.Lightning.Store.Claim.{claim_idempotent, may_take, taken, is_leased}
use rails.Lightning.Store.Settle.{
  save_idempotent, mark_submitted, mark_failed, mark_unknown, heartbeat_claim, update_owned,
  may_settle, beaten,
}
use rails.Lightning.Store.Events.{append_event}
use rails.Lightning.Store.Calls.{Call, step}
use rails.Lightning.Store.Owner.{
  after_update, update_owned_lem, find_key-after_update, newcomer, decided, claim_idempotent_lem,
}
use rails.Lightning.Store.Machine.{
  Label, claiming, acting, plain, Moves, stays, begins, takes, beats, submits, doubts, saves, fails,
}

-- The fresh token of a claim.
abbrev pub claim_token_of : Call → Option String
claim_token_of (Call.claims token key fingerprint payment_hash network) = some token
claim_token_of _ = none

-- What a call brings.
abbrev pub label : Call → Label
label (Call.claims token key fingerprint payment_hash network) = claiming token key fingerprint
label (Call.saves key fingerprint token response status) = acting key fingerprint token
label (Call.submits key fingerprint token payment_hash) = acting key fingerprint token
label (Call.fails key fingerprint token error_code message status) = acting key fingerprint token
label (Call.doubts key fingerprint token payment_hash error) = acting key fingerprint token
label (Call.beats key fingerprint token) = acting key fingerprint token
label (Call.appends e) = plain

-- A call for a key acts on the row of this key.
acting-find :
    (key fingerprint token : String) (r : Idempotency) (db : Db)
    → find_key key db ≡ some r
    → acting key fingerprint token ≡ acting r.key fingerprint token
acting-find key fingerprint token r db found =
    ap (λ k. acting k fingerprint token) (sym (key-find key_of key r db.idempotency found))

claiming-find :
    (token key fingerprint : String) (r : Idempotency) (db : Db)
    → find_key key db ≡ some r
    → not (r.fingerprint == fingerprint) ≡ false
    → claiming token key fingerprint ≡ claiming token r.key r.fingerprint
claiming-find token key fingerprint r db found mine =
    let k = key-find key_of key r db.idempotency found in
    let f : r.fingerprint ≡ fingerprint = ground (arith, eq_iff r.fingerprint fingerprint) in
    rw (k, f)

module _ (lease now : ℕ) (who : Label) (j : String) (db : Db) (u : HasKeys db) where
  -- An owned UPDATE moves as its effect does on a row that passes its test.
  update-Moves :
      (key : String) (p : Idempotency → Bool) (f : Idempotency → Idempotency)
      → ((r : Idempotency) → (f r).key ≡ r.key)
      → ((r : Idempotency)
          → find_key key db ≡ some r
          → p r ≡ true
          → Moves lease now who (some r) (some (f r)))
      → Moves lease now who (find_key j db) (find_key j (after_update key p f db))
  update-Moves key p f same move =
      rw (find_key-after_update key p f db u same j) (go (find_key j db) refl)
    where
      go :
          (o : Option Idempotency)
          → find_key j db ≡ o
          → Moves lease now who o (if key == j then updated p f o else o)
      go none e = stays (ground arith)
      go (some r) e = elim (Bool-cases (key == j)) [
        | inr other ↦ stays (rw other)
        | inl mine ↦ elim (Bool-cases (p r)) [
          | inl hit ↦ rw (mine, hit) (move r (rw ((eq_iff key j).0 mine) e) hit)
          | inr miss ↦ stays (rw (mine, miss))
        ]
      ]

  owned-Moves :
      (key : String) (p : Idempotency → Bool) (f : Idempotency → Idempotency)
      → ((r : Idempotency) → (f r).key ≡ r.key)
      → ((r : Idempotency)
          → find_key key db ≡ some r
          → p r ≡ true
          → Moves lease now who (some r) (some (f r)))
      → Moves lease now who (find_key j db) (find_key j (update_owned key p f db).1)
  owned-Moves key p f same move =
      rw (update_owned_lem key p f db u) (elim (Bool-cases (passes p (find_key key db))) [
        | inl won ↦ rw won (update-Moves key p f same move)
        | inr lost ↦ rw lost (stays refl)
      ])

module _ (lease now : ℕ) (token key fingerprint : String) (payment_hash : Option String)
    (network : String) (db : Db) (u : HasKeys db) where
  taken-Moves :
      (j : String) (r : Idempotency)
      → find_key key db ≡ some r
      → Moves lease now
          (claiming token key fingerprint)
          (find_key j db)
          (find_key j (decided lease now token key fingerprint payment_hash network db (some r)).1)
  taken-Moves j r found = elim (Bool-cases (not (r.fingerprint == fingerprint))) [
    | inl e ↦ rw e (stays refl)
    | inr e₁ ↦ elim (Bool-cases (is_final r.state)) [
      | inl e ↦ rw (e₁, e) (stays refl)
      | inr e₂ ↦ elim (Bool-cases (is_leased now r)) [
        | inl e ↦ rw (e₁, e₂, e) (stays refl)
        | inr e₃ ↦ elim (Bool-cases (may_take now fingerprint r)) [
          | inr e ↦ rw (e₁, e₂, e₃, e) (stays refl)
          | inl e ↦
              rw (e₁, e₂, e₃, e)
                (update-Moves lease now (claiming token key fingerprint) j db u key
                  (may_take now fingerprint) (taken lease now token) (λ x. refl)
                  λ x fx p.
                    let same : r ≡ x = some-injective r x (sym found ∙ fx) in
                    takes token x (claiming-find token key fingerprint x db fx (rw same at e₁)) refl
                      (rw same at e₂) (rw same at e₃) refl)
        ]
      ]
    ]
  ]

  claim-Moves :
      (j : String)
      → Moves lease now
          (claiming token key fingerprint)
          (find_key j db)
          (find_key j (claim_idempotent lease now token key fingerprint payment_hash network db).1)
  claim-Moves j =
      rw (claim_idempotent_lem lease now token key fingerprint payment_hash network db u)
        (elim (Option-cases (find_key key db)) [
          | inr (r, found) ↦ rw found (taken-Moves j r found)
          | inl missing ↦ rw missing (
              rw
                (find-insert_new key_of j
                  (newcomer lease now token key fingerprint payment_hash network db) db.idempotency
                  missing)
                (elim (Bool-cases (key == j)) [
                  | inl mine ↦ rw mine (
                      begins token key fingerprint payment_hash network refl
                        (rw ((eq_iff key j).0 mine) at missing) refl)
                  | inr other ↦ rw other (stays refl)
                ]))
        ])

module _ (lower : String → String) (lease now : ℕ) (j : String) where
  -- In a table with distinct keys every call of the Lightning store moves the row of every key along the state
  -- machine `Moves`. But for a claim of a key without a row, a row moves only by a call for its own key: by a
  -- claim of the same request, or by a call whose token is the claim token of the row.
  pub payment_step-Moves :
      (call : Call) (db : Db)
      → HasKeys db
      → Moves lease now (label call) (find_key j db) (find_key j (step lower lease now call db))
  unfolding step save_idempotent mark_submitted mark_failed mark_unknown heartbeat_claim
      append_event
  payment_step-Moves (Call.claims token key fingerprint payment_hash network) db u =
      claim-Moves lease now token key fingerprint payment_hash network db u j
  payment_step-Moves (Call.saves key fingerprint token response status) db u =
      owned-Moves lease now (acting key fingerprint token) j db u key _ _ (λ r. refl)
        λ r found p.
          saves fingerprint token _ status r (acting-find key fingerprint token r db found) refl
            (ground arith) (ground arith) refl
  payment_step-Moves (Call.submits key fingerprint token payment_hash) db u =
      owned-Moves lease now (acting key fingerprint token) j db u key _ _ (λ r. refl)
        λ r found p.
          submits fingerprint token payment_hash r (acting-find key fingerprint token r db found)
            refl (ground arith) (ground arith) refl
  payment_step-Moves (Call.fails key fingerprint token error_code message status) db u =
      owned-Moves lease now (acting key fingerprint token) j db u key _ _ (λ r. refl)
        λ r found p.
          fails fingerprint token error_code message status r
            (acting-find key fingerprint token r db found) refl (ground arith) (ground arith) refl
  payment_step-Moves (Call.doubts key fingerprint token payment_hash error) db u =
      owned-Moves lease now (acting key fingerprint token) j db u key _ _ (λ r. refl)
        λ r found p.
          doubts fingerprint token payment_hash error r
            (acting-find key fingerprint token r db found) refl (ground arith) (ground arith) refl
  payment_step-Moves (Call.beats key fingerprint token) db u =
      update-Moves lease now (acting key fingerprint token) j db u key
        (may_settle fingerprint token) (beaten lease now) (λ r. refl)
        λ r found p.
          beats fingerprint token r (acting-find key fingerprint token r db found) refl
            (ground arith) (ground arith) refl
  payment_step-Moves (Call.appends e) db u = stays refl
