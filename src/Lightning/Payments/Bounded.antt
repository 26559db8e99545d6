-- ===== src/Lightning/Payments/Bounded.antt =====
-- How often a request pays, and what it pays: the invariant of the handler in
-- lightning_flask/src/api/app.py, and its rules for the calls of LND and of the store.
use rails.Prelude.{
  ℕ, suc, ◌+◌, ◌≤◌, String, string_eq, ◌≡◌, refl, Bool, true, false, ◌&&◌, ◌==◌, List, [], ◌∷◌, ◌⊎◌,
  inl, inr, arith, Bool-cases, if◌then◌else◌,
}
use rails.Effect.{Result, ok, err}
use rails.Effect.Triple.{Outcome, Triple}
use rails.Lightning.Errors.{ApiError, Failure}
use rails.Lightning.Store.Rows.{Db, Store, find_key, HasKeys}
use rails.Lightning.Store.Settle.{mark_submitted}
use rails.Lightning.Store.Calls.{Call, step, run}
use rails.Lightning.Store.Keys.{run-HasKeys}
use rails.Lightning.Store.Once.{may_still_submit, mark_submitted-ok, run-past}
use rails.Lightning.Host.{Host, World, LndCall, as_failure, request, stored}
use rails.Lightning.Lnd.{payments_path}

-- The request to LND that makes a payment.
abbrev pub pays : LndCall → Bool
pays x = x.method == "POST" && x.path == payments_path

unfoldable pub payments : List LndCall → ℕ
payments [] = 0
payments (x ∷ calls) = (if pays x then 1 else 0) + payments calls

-- Every call that pays is one with `W`.
abbrev pub AllPaid : (LndCall → Type 0) → List LndCall → Type 0
AllPaid W [] = Unit
AllPaid W (x ∷ calls) = ((pays x ≡ false) ⊎ W x) × AllPaid W calls

-- What is left of a key's one payment.
abbrev pub left : String → Db → ℕ
left key db = if may_still_submit (find_key key db) then 1 else 0

module _ {Node : Type 0} (W : LndCall → Type 0) (key : String) (n : ℕ) where
  -- What was paid and what may still be paid is at most n.
  pub record Keeps (w : World Node) : Type 0 where
    pub keys : HasKeys w.db
    pub bound : payments w.calls + left key w.db ≤ n
    pub paid : AllPaid W w.calls

  -- The same, with a payment to be made.
  pub record Spends (w : World Node) : Type 0 where
    pub keys : HasKeys w.db
    pub bound : suc (payments w.calls) + left key w.db ≤ n
    pub paid : AllPaid W w.calls

-- A method that does to the database what some calls do.
pub record IsHistory {A : Type 0} (lower : String → String) (lease : ℕ) (m : ℕ → String → Store A)
    : Type 0 where
  pub calls : ℕ → String → Db → List (ℕ × Call)
  pub runs :
      (now : ℕ) (uuid : String) (db : Db)
      → (m now uuid db).1 ≡ run lower lease (calls now uuid db) db

run-left :
    (lower : String → String) (lease : ℕ) (key : String) (calls : List (ℕ × Call)) (db : Db)
    → HasKeys db
    → left key (run lower lease calls db) ≤ left key db
run-left lower lease key calls db u = elim (Bool-cases (may_still_submit (find_key key db))) [
  | inl open_key ↦ ground arith
  | inr past ↦ let later = run-past lower lease key calls db u past in ground arith
]

module _ {Node : Type 0} (W : LndCall → Type 0) (h : Host Node) (key : String) (n : ℕ) where
  abbrev K : World Node → Type 0
  K = Keeps W key n

  abbrev M : World Node → Type 0
  M = Spends W key n

  both :
      {A : Type 0} (F : World Node → Type 0) (o : Result Failure A × World Node)
      → F o.1
      → Outcome F (λ _. F) o
  both F (ok a, w) k = k
  both F (err e, w) k = k

  others-Keeps :
      (w : World Node) → K w → K (record w { db = run h.lower h.lease (h.others w.tick) w.db })
  others-Keeps w k =
      let less = run-left h.lower h.lease key (h.others w.tick) w.db k.keys in
      record {
        keys = run-HasKeys h.lower h.lease (h.others w.tick) w.db k.keys;
        bound = omega arith;
        paid = k.paid;
      }

  stored-Keeps :
      {A : Type 0} (m : ℕ → String → Store A) (w : World Node)
      → IsHistory h.lower h.lease m
      → K w
      → K (stored h m w).1
  unfolding stored
  stored-Keeps m w i k =
      let db = run h.lower h.lease (h.others w.tick) w.db in
      let own = i.calls (h.clock w.tick) (h.uuid w.tick) db in
      let k' = others-Keeps w k in
      let less = run-left h.lower h.lease key own db k'.keys in
      let after : K (record w { db = run h.lower h.lease own db }) = record {
        keys = run-HasKeys h.lower h.lease own db k'.keys;
        bound = omega arith;
        paid = k.paid;
      } in
      record {
        keys = rw (i.runs (h.clock w.tick) (h.uuid w.tick) db) (after.keys);
        bound = rw (i.runs (h.clock w.tick) (h.uuid w.tick) db) (after.bound);
        paid = k.paid;
      }

  -- The store's methods keep the invariant.
  pub stored_rule :
      {A : Type 0} (m : ℕ → String → Store A)
      → IsHistory h.lower h.lease m
      → Triple K K (stored h m) (λ _. K)
  stored_rule m i = record { at = λ w k. both K (stored h m w) (stored-Keeps m w i k) }

  -- `mark_submitted` that returns has spent what was left of the key.
  spent :
      (now : ℕ) (fingerprint token payment_hash : String) (db : Db)
      → HasKeys db
      → (mark_submitted h.lease now key fingerprint token payment_hash db).0 ≡ ok tt
      → suc (left key (mark_submitted h.lease now key fingerprint token payment_hash db).1)
        ≤ left key db
  spent now fingerprint token payment_hash db u done =
      let (r, found, state, moved) =
        mark_submitted-ok h.lease now key fingerprint token payment_hash db u done in
      rw (found, moved, state) (omega arith)

  submits-IsHistory :
      (fingerprint token payment_hash : String)
      → IsHistory h.lower h.lease
          (λ now uuid. mark_submitted h.lease now key fingerprint token payment_hash)
  unfolding run step
  submits-IsHistory fingerprint token payment_hash = record {
    calls = λ now uuid db. (now, Call.submits key fingerprint token payment_hash) ∷ [];
    runs = λ now uuid db. refl;
  }

  submitted-Outcome :
      (o : Result ApiError Unit × Db) (w : World Node)
      → K (record w { db = o.1 })
      → (o.0 ≡ ok tt → M (record w { db = o.1 }))
      → Outcome K (λ _. M) (as_failure o.0, record w { db = o.1 })
  submitted-Outcome (ok tt, db) w k m = m refl
  submitted-Outcome (err e, db) w k m = k

  pub submit_rule :
      (fingerprint token payment_hash : String)
      → Triple K K
          (stored h (λ now uuid. mark_submitted h.lease now key fingerprint token payment_hash))
          (λ _. M)
  unfolding stored
  submit_rule fingerprint token payment_hash = record {
    at = λ w k.
        let db = run h.lower h.lease (h.others w.tick) w.db in
        let now = h.clock w.tick in
        let k' = others-Keeps w k in
        let kept =
          stored-Keeps (λ now uuid. mark_submitted h.lease now key fingerprint token payment_hash) w
            (submits-IsHistory fingerprint token payment_hash) k in
        submitted-Outcome (mark_submitted h.lease now key fingerprint token payment_hash db)
          (record w { tick = suc w.tick })
          (record { keys = kept.keys; bound = kept.bound; paid = kept.paid })
          (λ done.
            let less = spent now fingerprint token payment_hash db k'.keys done in
            record { keys = kept.keys; bound = omega arith; paid = k.paid });
  }

  -- A request to LND that makes no payment.
  pub request-Keeps : (x : LndCall) → pays x ≡ false → (w : World Node) → K w → K (request h x w).1
  unfolding request payments
  request-Keeps x unpaid w k =
      let b = k.bound in
      record { keys = k.keys; bound = rw unpaid (omega arith); paid = (inl unpaid, k.paid) }

  pub request_rule : (x : LndCall) → pays x ≡ false → Triple K K (request h x) (λ _. K)
  request_rule x unpaid = record { at = λ w k. both K (request h x w) (request-Keeps x unpaid w k) }

  -- The payment, right behind `mark_submitted`.
  pub payment_rule : (x : LndCall) → pays x ≡ true → W x → Triple K M (request h x) (λ _. K)
  unfolding request payments
  payment_rule x pays_it fits = record {
    at = λ w k.
        let b = k.bound in
        both K (request h x w)
          (record { keys = k.keys; bound = rw pays_it (omega arith); paid = (inr fits, k.paid) });
  }
