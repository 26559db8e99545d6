-- ===== src/Lightning/Host.antt =====
-- What a request of lightning_flask/src/api/app.py works on: LND behind the HTTP of infra/lnd.py, the store,
-- and `g`. LND and the store are shared with the other workers, whose calls come between any two of this
-- request's.
use rails.Prelude.{ℕ, suc, String, Option, none, some, List, ◌∷◌, if◌then◌else◌}
use rails.Prelude.Int.{ℤ}
use rails.Json.{Json, Fields, null, str, obj, end, get_field, get_or_null, is_truthy}
use rails.Effect.{Result, ok, err, Action}
use rails.Lightning.Errors.{ApiError, Failure, api, api_error, crash}
use rails.Lightning.Store.Rows.{Db, Store}
use rails.Lightning.Store.Calls.{Call, run}

-- A request to LND: its method, its path, and its query or its body, null where there is none.
pub record LndCall : Type 0 where
  pub method : String
  pub path : String
  pub query : Json
  pub body : Json

-- What `urlopen` leads to: an HTTPError and the document of its body, if it is one; another URLError; any other
-- exception, with its text; or a body: empty, no JSON, or a document.
pub data Answer : Type 0 where
  http_error : Option Json → Answer
  unavailable : Answer
  broken : String → Answer
  empty garbled : Answer
  document : Json → Answer

-- `send` is the HTTP to LND, whose state, and that of the network behind it, is a `Node`; `show` is `str` of a
-- document that is no text, `lower` and `upper` are Python's, `unbase64` is `b64decode(…, validate=True).hex()`
-- and none where it raises, `whole` is `int` of the float that `str` shows so, and `quote` is urllib's.
-- A request counts its store calls and its readings of the clock: at the one of number n it reads the time
-- `clock n` and draws the uuid4 `uuid n`, and before a store call of number n other workers have called
-- `others n` on the store.
pub record Host (Node : Type 0) : Type 0 where
  pub send : LndCall → Node → Answer × Node
  pub show : Json → String
  pub lower : String → String
  pub upper : String → String
  pub unbase64 : String → Option String
  pub whole : String → Result Failure ℤ
  pub quote : String → String
  pub lease : ℕ
  pub clock : ℕ → ℕ
  pub uuid : ℕ → String
  pub others : ℕ → List (ℕ × Call)

-- `key` and `claim_token` are those of `g`; `calls` is the log of this request's requests to LND, the last
-- one first.
pub record World (Node : Type 0) : Type 0 where
  pub node : Node
  pub calls : List LndCall
  pub db : Db
  pub tick : ℕ
  pub key : String
  pub claim_token : String

abbrev pub Handler : Type 0 → Type 0 → Type 0
Handler Node A = Action (World Node) Failure A

abbrev pub as_failure : {A : Type 0} → Result ApiError A → Result Failure A
as_failure (ok a) = ok a
as_failure (err e) = err (api e)

-- `d.get(key)` and `d.get(key, default)` on a document, which may be no dict.
abbrev pub get_default : String → Json → Json → Result Failure Json
get_default key default (obj fields) = elim (get_field key fields) [
  | none ↦ ok default
  | some j ↦ ok j
]
get_default key default _ = err (crash "AttributeError: `get` of a document that is no dict")

abbrev pub get : String → Json → Result Failure Json
get key j = get_default key null j

-- `g.idempotency_key = key`
abbrev pub set_key : {Node : Type 0} → String → Handler Node Unit
set_key key w = (ok tt, record w { key = key })

-- `g.idempotency_claim_token = token`
abbrev pub set_claim_token : {Node : Type 0} → String → Handler Node Unit
set_claim_token token w = (ok tt, record w { claim_token = token })

abbrev pub get_world : {Node : Type 0} → Handler Node (World Node)
get_world w = (ok w, w)

module _ {Node : Type 0} (h : Host Node) where
  -- `str(value)`
  abbrev pub text_of : Json → String
  text_of (str s) = s
  text_of j = h.show j

  abbrev or_rejected : Json → Json
  or_rejected j = if is_truthy j then j else str "LND rejected request"

  -- `parsed.get("error") or parsed.get("message") or message`
  abbrev message_of : Fields → Json
  message_of parsed =
      if is_truthy (get_or_null "error" parsed)
      then get_or_null "error" parsed
      else or_rejected (get_or_null "message" parsed)

  unfoldable pub read_answer : Answer → Result Failure Json
  read_answer (http_error none) = err (api_error "LND rejected request" 502 "lnd_http_error")
  read_answer (http_error (some (obj parsed))) =
      err (api_error (text_of (message_of parsed)) 502 "lnd_http_error")
  read_answer (http_error (some j)) = err (crash "AttributeError: an error without `get`")
  read_answer unavailable = err (api_error "LND REST API is unavailable" 503 "lnd_unavailable")
  read_answer (broken text) = err (crash text)
  read_answer empty = ok (obj end)
  read_answer garbled =
      err (api_error "LND REST API returned invalid JSON" 502 "lnd_protocol_error")
  read_answer (document j) = ok j

  -- `_request`
  unfoldable pub request : LndCall → Handler Node Json
  request c w =
      let answer = h.send c w.node in
      (read_answer answer.0, record w { node = answer.1; calls = c ∷ w.calls })

  -- A method of the store: one transaction, behind those of the other workers.
  unfoldable pub stored : {A : Type 0} → (ℕ → String → Store A) → Handler Node A
  stored m w =
      let o = m (h.clock w.tick) (h.uuid w.tick) (run h.lower h.lease (h.others w.tick) w.db) in
      (as_failure o.0, record w { db = o.1; tick = suc w.tick })

  -- `int(time.time())`
  unfoldable pub time_now : Handler Node ℕ
  time_now w = (ok (h.clock w.tick), record w { tick = suc w.tick })
