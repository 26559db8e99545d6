-- ===== src/Bitcoin/Service/World.antt =====
-- What a request of bitcoin_core_backend/src/services/bitcoin_service.py works on: Bitcoin Core behind the
-- RPC client of infra/rpc.py, and the store. Both are shared with the other workers, whose calls come
-- between any two of this request's.
use rails.Prelude.{ℕ, suc, String, string_eq, Option, none, some, List, ◌∷◌}
use rails.Json.{Json, Items, null, obj, nil, cons, get_field}
use rails.Effect.{Result, ok, err, Action}
use rails.Bitcoin.Errors.{Error, crash}
use rails.Bitcoin.Rpc.{Response, payload, url_wallet, read_response}
use rails.Bitcoin.Store.Rows.{Db, Settings, Store}
use rails.Bitcoin.Store.Calls.{Call, run}

-- What the process runs on. `post` is the session's POST to Bitcoin Core, whose state, and that of the
-- network behind it, is a `Node`; `show` is `str` of a document that is no text, `upper` is `str.upper`.
-- Before its store call number n this request reads the time `clock n`, and `others n` is what other
-- workers have called on the store since its last one.
pub record Host (Node : Type 0) : Type 0 where
  pub post : Option String → Json → Node → Response × Node
  pub show : Json → String
  pub upper : String → String
  pub settings : Settings
  pub clock : ℕ → ℕ
  pub others : ℕ → List (ℕ × Call)

-- A call that was made, with the database as this request last saw it before the call.
pub record RpcCall : Type 0 where
  pub method : String
  pub params : Items
  pub wallet : Option String
  pub seen : Db

-- `next_id` is the counter of the client; `calls` is the log of this request's calls, the last one first.
pub record World (Node : Type 0) : Type 0 where
  pub node : Node
  pub next_id : ℕ
  pub calls : List RpcCall
  pub db : Db
  pub tick : ℕ

abbrev pub Service : Type 0 → Type 0 → Type 0
Service Node A = Action (World Node) Error A

-- `d.get(key)` and `d.get(key, default)` on a document, which may be no dict.
abbrev pub get_default : String → Json → Json → Result Error Json
get_default key default (obj fields) = elim (get_field key fields) [
  | none ↦ ok default
  | some j ↦ ok j
]
get_default key default _ = err (crash "AttributeError: `get` of a document that is no dict")

abbrev pub get : String → Json → Result Error Json
get key document = get_default key null document

-- A list as a parameter.
abbrev pub one : Json → Items
one j = cons j nil

abbrev pub two : Json → Json → Items
two j k = cons j (cons k nil)

module _ {Node : Type 0} (h : Host Node) where
  -- `self._rpc.call(method, params, wallet)`
  unfoldable pub call : String → Items → Option String → Service Node Json
  call method params wallet w =
      let answer = h.post (url_wallet wallet) (payload w.next_id method params) w.node in
      (
        read_response h.show method answer.0,
        record w {
          node = answer.1;
          next_id = suc w.next_id;
          calls =
              record { method = method; params = params; wallet = wallet; seen = w.db } ∷ w.calls;
        },
      )

  -- A method of the store: one transaction, behind those of the other workers.
  unfoldable pub stored : {A : Type 0} → (ℕ → Store A) → Service Node A
  stored m w =
      let o = m (h.clock w.tick) (run h.settings (h.others w.tick) w.db) in
      (o.0, record w { db = o.1; tick = suc w.tick })
