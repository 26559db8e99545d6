-- ===== src/Bitcoin/Service/Sent.antt =====
-- What is handed to the network is kept: the vocabulary, and the steps of a request that keep it so.
use rails.Prelude.{
  ℕ, String, string_eq, ◌≡◌, refl, ◌∙◌, ap, true, false, ◌==◌, Bool, Option, none, some, List, [],
  ◌∷◌,
}
use rails.Json.{Items, str}
use rails.Effect.{Result, ok, err}
use rails.Effect.Triple.{Outcome, Triple, strengthen_rule}
use rails.Bitcoin.Errors.{Error}
use rails.Bitcoin.Store.Rows.{Settings, TransactionRecord, Db, Store, find_id}
use rails.Bitcoin.Store.Calls.{Call, run}
use rails.Bitcoin.Store.Immutable.{transaction_is_immutable}
use rails.Bitcoin.Store.Invariant.{IsWellFormed}
use rails.Bitcoin.Store.Invariant.Keeps.{run-IsWellFormed}
use rails.Bitcoin.Service.World.{Host, World, RpcCall, one, call, stored}

-- A raw transaction with its txid stands in the store, under the hash of the request.
pub record IsKept (of_hash of_raw of_txid : String) (db : Db) : Type 0 where
  pub id : ℕ
  pub transaction : TransactionRecord
  pub found : find_id id db ≡ some transaction
  pub kind : transaction.kind ≡ "broadcast"
  pub request_hash : transaction.request_hash ≡ of_hash
  pub raw_tx : transaction.raw_tx ≡ some of_raw
  pub txid : transaction.txid ≡ some of_txid

abbrev pub is_send : RpcCall → Bool
is_send x = x.method == "sendrawtransaction"

-- A call, if it sends a transaction, sends one that was kept before the call and is kept still.
abbrev pub SendsKept : String → Db → RpcCall → Type 0
SendsKept request_hash db x =
    is_send x ≡ true
    → (raw_tx : String) × (txid : String) × (x.params ≡ one (str raw_tx))
      × IsKept request_hash raw_tx txid x.seen
      × IsKept request_hash raw_tx txid db

abbrev pub AllKept : String → Db → List RpcCall → Type 0
AllKept request_hash db [] = Unit
AllKept request_hash db (x ∷ calls) = SendsKept request_hash db x × AllKept request_hash db calls

module _ (request_hash : String) (c : Settings) (calls : List (ℕ × Call)) (db : Db)
    (wf : IsWellFormed db) where
  pub run-IsKept :
      (raw_tx txid : String)
      → IsKept request_hash raw_tx txid db
      → IsKept request_hash raw_tx txid (run c calls db)
  run-IsKept raw_tx txid k =
      let (t, found, same) =
        transaction_is_immutable c calls k.id k.transaction db wf.keys k.found in
      record {
        id = k.id;
        transaction = t;
        found = found;
        kind = ap (λ (x : TransactionRecord). x.kind) same.unchanged ∙ k.kind;
        request_hash =
            ap (λ (x : TransactionRecord). x.request_hash) same.unchanged ∙ k.request_hash;
        raw_tx = ap (λ (x : TransactionRecord). x.raw_tx) same.unchanged ∙ k.raw_tx;
        txid = ap (λ (x : TransactionRecord). x.txid) same.unchanged ∙ k.txid;
      }

  pub run-AllKept :
      (log : List RpcCall) → AllKept request_hash db log → AllKept request_hash (run c calls db) log
  run-AllKept [] k = tt
  run-AllKept (x ∷ log) k = (
    λ e.
        let (raw_tx, txid, params, before, kept) = k.0 e in
        (raw_tx, txid, params, before, run-IsKept raw_tx txid kept),
    run-AllKept log k.1,
  )

-- The invariant of a request.
pub record Keeps {Node : Type 0} (request_hash : String) (w : World Node) : Type 0 where
  pub wf : IsWellFormed w.db
  pub sent : AllKept request_hash w.db w.calls

-- The same with a prepared transaction at hand.
pub record Holds {Node : Type 0} (request_hash raw_tx txid : String) (w : World Node) : Type 0 where
  pub keeps : Keeps request_hash w
  pub kept : IsKept request_hash raw_tx txid w.db

-- A method that does to the database what some calls do.
pub record IsHistory {A : Type 0} (c : Settings) (m : ℕ → Store A) : Type 0 where
  pub calls : ℕ → Db → List (ℕ × Call)
  pub runs : (now : ℕ) (db : Db) → (m now db).1 ≡ run c (calls now db) db

module _ {Node : Type 0} (h : Host Node) (request_hash : String) where
  stored-Keeps :
      {A : Type 0} (m : ℕ → Store A) (w : World Node)
      → IsHistory h.settings m
      → Keeps request_hash w
      → Keeps request_hash (stored h m w).1
  unfolding stored
  stored-Keeps m w i k =
      let others = h.others w.tick in
      let db = run h.settings others w.db in
      let own = i.calls (h.clock w.tick) db in
      let wf = run-IsWellFormed h.settings others w.db k.wf in
      record {
        wf = rw (i.runs (h.clock w.tick) db) (run-IsWellFormed h.settings own db wf);
        sent = rw (i.runs (h.clock w.tick) db) (
            run-AllKept request_hash h.settings own db wf w.calls
              (run-AllKept request_hash h.settings others w.db k.wf w.calls k.sent));
      }

  stored-IsKept :
      {A : Type 0} (m : ℕ → Store A) (raw_tx txid : String) (w : World Node)
      → IsHistory h.settings m
      → IsWellFormed w.db
      → IsKept request_hash raw_tx txid w.db
      → IsKept request_hash raw_tx txid (stored h m w).1.db
  unfolding stored
  stored-IsKept m raw_tx txid w i wf k =
      let others = h.others w.tick in
      let db = run h.settings others w.db in
      let own = i.calls (h.clock w.tick) db in
      rw (i.runs (h.clock w.tick) db) (
        run-IsKept request_hash h.settings own db (run-IsWellFormed h.settings others w.db wf)
          raw_tx txid (run-IsKept request_hash h.settings others w.db wf raw_tx txid k))

  both :
      {A : Type 0} (F : World Node → Type 0) (o : Result Error A × World Node)
      → F o.1
      → Outcome F (λ _. F) o
  both F (ok a, w) k = k
  both F (err e, w) k = k

  -- The store's methods keep the invariant, and what is kept.
  pub stored_rule :
      {A : Type 0} (m : ℕ → Store A)
      → IsHistory h.settings m
      → Triple (Keeps request_hash) (Keeps request_hash) (stored h m) (λ _. Keeps request_hash)
  stored_rule m i = record {
    at = λ w k. both (Keeps request_hash) (stored h m w) (stored-Keeps m w i k);
  }

  with_value :
      {A : Type 0} (F G : World Node → Type 0) (Q : A → Db → Type 0)
      (o : Result Error A × World Node)
      → ((w : World Node) → G w → F w)
      → G o.1
      → ((a : A) → o.0 ≡ ok a → Q a o.1.db)
      → Outcome F (λ a w. G w × Q a w.db) o
  with_value F G Q (ok a, w) weaker g q = (g, q a refl)
  with_value F G Q (err e, w) weaker g q = weaker w g

  -- The same, with what the method says of the value that it returns.
  pub stored_rule_with :
      {A : Type 0} (m : ℕ → Store A) (Q : A → Db → Type 0)
      → IsHistory h.settings m
      → ((now : ℕ) (db : Db) → IsWellFormed db → (a : A) → (m now db).0 ≡ ok a → Q a (m now db).1)
      → Triple
          (Keeps request_hash)
          (Keeps request_hash)
          (stored h m)
          (λ a w. Keeps request_hash w × Q a w.db)
  unfolding stored
  stored_rule_with m Q i says = record {
    at = λ w k.
        with_value (Keeps request_hash) (Keeps request_hash) Q (stored h m w) (λ w k. k)
          (stored-Keeps m w i k)
          (says (h.clock w.tick) (run h.settings (h.others w.tick) w.db)
            (run-IsWellFormed h.settings (h.others w.tick) w.db k.wf));
  }

  pub stored_rule-Holds_with :
      {A : Type 0} (m : ℕ → Store A) (raw_tx txid : String) (Q : A → Db → Type 0)
      → IsHistory h.settings m
      → ((now : ℕ) (db : Db) → IsWellFormed db → (a : A) → (m now db).0 ≡ ok a → Q a (m now db).1)
      → Triple
          (Keeps request_hash)
          (Holds request_hash raw_tx txid)
          (stored h m)
          (λ a w. Holds request_hash raw_tx txid w × Q a w.db)
  unfolding stored
  stored_rule-Holds_with m raw_tx txid Q i says = record {
    at = λ w k.
        with_value (Keeps request_hash) (Holds request_hash raw_tx txid) Q (stored h m w)
          (λ w k. k.keeps)
          (record {
            keeps = stored-Keeps m w i k.keeps;
            kept = stored-IsKept m raw_tx txid w i k.keeps.wf k.kept;
          })
          (says (h.clock w.tick) (run h.settings (h.others w.tick) w.db)
            (run-IsWellFormed h.settings (h.others w.tick) w.db k.keeps.wf));
  }

  pub stored_rule-Holds :
      {A : Type 0} (m : ℕ → Store A) (raw_tx txid : String)
      → IsHistory h.settings m
      → Triple
          (Keeps request_hash)
          (Holds request_hash raw_tx txid)
          (stored h m)
          (λ _. Holds request_hash raw_tx txid)
  stored_rule-Holds m raw_tx txid i =
      strengthen_rule
        (stored_rule-Holds_with m raw_tx txid (λ a db. Unit {0}) i (λ now db wf a done. tt))
        (λ a w k. k.0)

  -- Calls of Bitcoin Core leave the store alone; one that sends must send what is kept.
  pub call_rule :
      (method : String) (params : Items) (wallet : Option String)
      → method == "sendrawtransaction" ≡ false
      → Triple
          (Keeps request_hash)
          (Keeps request_hash)
          (call h method params wallet)
          (λ _. Keeps request_hash)
  unfolding call
  call_rule method params wallet other = record {
    at = λ w k.
        both (Keeps request_hash) (call h method params wallet w)
          (record { wf = k.wf; sent = (λ e. absurd (cc (e, other)), k.sent) });
  }

  pub call_rule-Holds :
      (raw_tx txid method : String) (params : Items) (wallet : Option String)
      → method == "sendrawtransaction" ≡ false
      → Triple
          (Holds request_hash raw_tx txid)
          (Holds request_hash raw_tx txid)
          (call h method params wallet)
          (λ _. Holds request_hash raw_tx txid)
  unfolding call
  call_rule-Holds raw_tx txid method params wallet other = record {
    at = λ w k. both (Holds request_hash raw_tx txid) (call h method params wallet w) (record {
      keeps = record { wf = k.keeps.wf; sent = (λ e. absurd (cc (e, other)), k.keeps.sent) };
      kept = k.kept;
    });
  }

  pub send_rule :
      (raw_tx txid : String)
      → Triple
          (Holds request_hash raw_tx txid)
          (Holds request_hash raw_tx txid)
          (call h "sendrawtransaction" (one (str raw_tx)) none)
          (λ _. Holds request_hash raw_tx txid)
  unfolding call
  send_rule raw_tx txid = record {
    at = λ w k.
        both (Holds request_hash raw_tx txid)
          (call h "sendrawtransaction" (one (str raw_tx)) none w)
          (record {
            keeps = record {
              wf = k.keeps.wf;
              sent = (λ e. (raw_tx, txid, refl, k.kept, k.kept), k.keeps.sent);
            };
            kept = k.kept;
          });
  }
