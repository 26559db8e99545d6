-- ===== src/Lightning/Payments/Accepting.antt =====
-- What stands in the store when a payment is accepted: the rules for a claim at hand.
use rails.Prelude.{ℕ, suc, String, ◌≡◌, refl, true, some}
use rails.Prelude.Int.{pos}
use rails.Json.{Fields, obj}
use rails.Text.{truthy}
use rails.Effect.{Result, ok, err, pure, continue}
use rails.Effect.Triple.{Outcome, Triple}
use rails.Lightning.Errors.{ApiError, Failure}
use rails.Lightning.Strip.{strip_keys, response_sensitive_keys}
use rails.Lightning.Store.Rows.{State, Idempotency, Db, Store, find_key, HasKeys}
use rails.Lightning.Store.Settle.{save_idempotent, saved}
use rails.Lightning.Store.Settled.{saved_row}
use rails.Lightning.Store.Calls.{run}
use rails.Lightning.Store.Keys.{run-HasKeys}
use rails.Lightning.Host.{
  Host, World, LndCall, as_failure, request, stored, set_key, set_claim_token,
}
use rails.Lightning.Api.{Request, Response, json, idempotent}
use rails.Lightning.Payments.Bounded.{IsHistory}

-- The key's row is settled, and replays this response.
pub record IsAccepted {Node : Type 0} (h : Host Node) (key : String) (response : Response)
    (w : World Node) : Type 0 where
  pub row : Idempotency
  pub found : find_key key w.db ≡ some row
  pub state : row.state ≡ State.succeeded
  pub status : row.status_code ≡ response.status_code
  pub payload : row.response_json ≡ strip_keys h.lower response_sensitive_keys response.payload

-- Nothing is claimed of a request that raises.
pub record Any {Node : Type 0} (w : World Node) : Type 0 where

-- The keys of the database are distinct.
pub record Keyed {Node : Type 0} (w : World Node) : Type 0 where
  pub keys : HasKeys w.db

-- The same, and `g` names the key.
pub record Named {Node : Type 0} (of_key : String) (w : World Node) : Type 0 where
  pub keys : HasKeys w.db
  pub key : w.key ≡ of_key

-- The same, and `g` names the key and a claim.
pub record Claimed {Node : Type 0} (of_key : String) (w : World Node) : Type 0 where
  pub keys : HasKeys w.db
  pub key : w.key ≡ of_key
  pub token : truthy w.claim_token ≡ true

module _ {Node : Type 0} (h : Host Node) where
  run-stored :
      {A : Type 0} (m : ℕ → String → Store A) (w : World Node)
      → IsHistory h.lower h.lease m
      → HasKeys w.db
      → HasKeys (stored h m w).1.db
  unfolding stored
  run-stored m w i u =
      let db = run h.lower h.lease (h.others w.tick) w.db in
      rw (i.runs (h.clock w.tick) (h.uuid w.tick) db) (
        run-HasKeys h.lower h.lease (i.calls (h.clock w.tick) (h.uuid w.tick) db) db
          (run-HasKeys h.lower h.lease (h.others w.tick) w.db u))

  both :
      {A : Type 0} (F : World Node → Type 0) (o : Result Failure A × World Node)
      → F o.1
      → Outcome F (λ _. F) o
  both F (ok a, w) k = k
  both F (err e, w) k = k

  pub stored-Keyed :
      {A : Type 0} (m : ℕ → String → Store A)
      → IsHistory h.lower h.lease m
      → Triple Keyed Keyed (stored h m) (λ _. Keyed)
  stored-Keyed m i = record {
    at = λ w k. both Keyed (stored h m w) (record { keys = run-stored m w i (k.keys) });
  }

  pub request-Keyed : (x : LndCall) → Triple Keyed Keyed (request h x) (λ _. Keyed)
  unfolding request
  request-Keyed x = record { at = λ w k. both Keyed (request h x w) (record { keys = k.keys }) }

  module _ (key : String) where
    pub stored-Named :
        {A : Type 0} (m : ℕ → String → Store A)
        → IsHistory h.lower h.lease m
        → Triple (Named key) (Named key) (stored h m) (λ _. Named key)
    unfolding stored
    stored-Named m i = record {
      at = λ w k.
          both (Named key) (stored h m w)
            (record { keys = run-stored m w i (k.keys); key = k.key });
    }

    pub set_key-Named : Triple (Any {Node = Node}) Keyed (set_key key) (λ _. Named key)
    set_key-Named = record { at = λ w k. record { keys = k.keys; key = refl } }

    pub set_claim_token-Claimed :
        (token : String)
        → truthy token ≡ true
        → Triple (Any {Node = Node}) (Named key) (set_claim_token token) (λ _. Claimed key)
    set_claim_token-Claimed token named = record {
      at = λ w k. record { keys = k.keys; key = k.key; token = named };
    }

    pub stored-Claimed :
        {A : Type 0} (m : ℕ → String → Store A)
        → IsHistory h.lower h.lease m
        → Triple (Claimed key) (Claimed key) (stored h m) (λ _. Claimed key)
    unfolding stored
    stored-Claimed m i = record {
      at = λ w k.
          both (Claimed key) (stored h m w)
            (record { keys = run-stored m w i (k.keys); key = k.key; token = k.token });
    }

    pub request-Claimed :
        (x : LndCall) → Triple (Claimed key) (Claimed key) (request h x) (λ _. Claimed key)
    unfolding request
    request-Claimed x = record {
      at = λ w k.
          both (Claimed key) (request h x w)
            (record { keys = k.keys; key = k.key; token = k.token });
    }

    saved-Outcome :
        (response : Response) (o : Result ApiError Unit × Db) (w : World Node)
        → (o.0 ≡ ok tt → IsAccepted h key response (record w { db = o.1 }))
        → Outcome Any
            (λ a w. IsAccepted h key a w)
            (continue (λ u. pure response) (as_failure o.0, record w { db = o.1 }))
    saved-Outcome response (ok tt, db) w done = done refl
    saved-Outcome response (err e, db) w done = record {}

    -- `_idempotent` returns only what it has saved.
    pub idempotent-IsAccepted :
        (r : Request) (payload : Fields) (status : ℕ)
        → truthy key ≡ true
        → Triple Any (Claimed key) (idempotent h r payload status) (λ a w. IsAccepted h key a w)
    unfolding idempotent stored
    idempotent-IsAccepted r payload status named = record {
      at = λ w k.
          let db = run h.lower h.lease (h.others w.tick) w.db in
          let u = run-HasKeys h.lower h.lease (h.others w.tick) w.db k.keys in
          rw (k.key, named, k.token)
            (saved-Outcome (json payload status)
              (save_idempotent h.lower (h.clock w.tick) key r.fingerprint w.claim_token
                (obj payload) (pos status) db)
              (record w { tick = suc w.tick; key = key })
              (λ done.
                let (row, mine, found) =
                  saved_row h.lower h.lease (h.clock w.tick) key r.fingerprint w.claim_token db u
                    (obj payload) (pos status) done in
                record {
                  row =
                      saved (h.clock w.tick)
                        (strip_keys h.lower response_sensitive_keys (obj payload)) (pos status) row;
                  found = found;
                  state = refl;
                  status = refl;
                  payload = refl;
                }));
    }
