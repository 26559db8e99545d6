-- ===== src/Bitcoin/Post.antt =====
-- `_json_post` of bitcoin_core_backend/src/api/app.py: the idempotent POST around a handler. The handler is
-- an argument, as it is in the program; `fingerprint` stands for `fingerprint_for_request`, a hash.
pub mod Twice
mod Tests
use Prim.Native.String.{◌++◌ as text_append}
use rails.Prelude.{
  ℕ, ◌+◌, String, string_eq, Bool, true, false, not, ◌&&◌, ◌==◌, Option, none, some, ltb, leb,
  if◌then◌else◌,
}
use rails.Prelude.Int.{ℤ, pos}
use rails.Json.{Json, Fields, null, bool, str, obj, end, field, set_field}
use rails.Effect.{Result, ok, err, pure, raise, lift, ◌>>=◌, ◌>>◌}
use rails.Bitcoin.Errors.{Error, api_error, crash}
use rails.Bitcoin.Store.Rows.{Settings, IdempotencyClaim, ClaimOutcome, claim, replay, Store}
use rails.Bitcoin.Store.Claim.{claim_idempotent}
use rails.Bitcoin.Store.Settle.{store_response}
use rails.Bitcoin.Validation.Text.{validate_idempotency_key}

-- What the code reads of the request and of `g`; the body is the document that `get_json` returns.
pub record Request : Type 0 where
  pub method : String
  pub path : String
  pub idempotency_header : Option String
  pub principal_id : String
  pub request_id : String
  pub body : Json

-- The moments at which the claim and the response read the clock, and the text of the claim's uuid4.
pub record Moment : Type 0 where
  pub claims_at : ℕ
  pub responds_at : ℕ
  pub claim_token : String

-- `handler(body, idempotency_key, request_hash, storage_key, claim_token)`, which returns a payload and a
-- status, 200 where it returns a payload alone.
abbrev pub JsonHandler : Type 0
JsonHandler = Fields → Option String → String → Option String → Option String → Store (Fields × ℕ)

abbrev pub scope_of : Request → String
scope_of r = text_append r.method (text_append ":" r.path)

-- `f"{principal}:{idempotency_key}"`
abbrev pub namespaced : Request → String → String
namespaced r key = text_append r.principal_id (text_append ":" key)

-- `_ok`
abbrev pub ok_fields : Request → Fields → Fields
ok_fields r payload =
    field "success" (bool true)
      (field "data" (obj payload) (field "requestId" (str r.request_id) end))

abbrev pub ok_body : Request → Fields → Json
ok_body r payload = obj (ok_fields r payload)

-- The cached response, under the id of this request and marked as a replay; the code stores dicts only.
abbrev pub marked : Request → Fields → Fields
marked r cached =
    set_field "idempotentReplay" (bool true) (set_field "requestId" (str r.request_id) cached)

abbrev pub replayed : Request → Json → Result Error Json
replayed r (obj cached) = ok (obj (marked r cached))
replayed r _ = err (crash "TypeError: item assignment on a document that is no dict")

abbrev pub is_success : ℕ → Bool
is_success status = leb 200 status && ltb status 300

module _ (c : Settings) (fingerprint : String → String → Fields → String)
    (handler : JsonHandler) where
  abbrev pub hash_of : Request → Fields → String
  hash_of r body = fingerprint r.method r.path body

  -- A request without a key.
  post_unclaimed : Request → Fields → Store (Json × ℤ)
  post_unclaimed r body = do
    result ← handler body none (hash_of r body) none none
    pure (ok_body r result.0, pos result.1)

  -- A request under the claim that it was given.
  post_claimed : Moment → Request → Fields → String → IdempotencyClaim → Store (Json × ℤ)
  post_claimed m r body key cl = do
    result ← handler body (some key) (hash_of r body) (some (namespaced r key)) (some cl.token)
    if is_success result.1
        then store_response c m.responds_at (namespaced r key) (scope_of r) (hash_of r body)
            cl.token (pos result.1) (ok_body r result.0)
        else pure tt
    pure (ok_body r result.0, pos result.1)

  answer : Moment → Request → Fields → String → ClaimOutcome → Store (Json × ℤ)
  unfolding post_claimed
  answer m r body key (replay x) = do
    cached ← lift (replayed r x.response)
    pure (cached, x.status_code)
  answer m r body key (claim cl) = post_claimed m r body key cl

  post_keyed : Moment → Request → Fields → String → Store (Json × ℤ)
  unfolding answer
  post_keyed m r body key = do
    outcome ←
        claim_idempotent c m.claims_at m.claim_token (namespaced r key) (scope_of r)
          (hash_of r body)
    answer m r body key outcome

  post_object : Bool → Moment → Request → Fields → Option String → Store (Json × ℤ)
  unfolding post_unclaimed post_keyed
  post_object require_idempotency m r body none =
      if require_idempotency
      then raise (api_error 428 "IDEMPOTENCY_REQUIRED" "Idempotency-Key header is required.")
      else post_unclaimed r body
  post_object require_idempotency m r body (some key) = post_keyed m r body key

  post_body : Bool → Moment → Request → Json → Store (Json × ℤ)
  unfolding post_object
  post_body require_idempotency m r (obj body) = do
    key ← lift (validate_idempotency_key r.idempotency_header)
    post_object require_idempotency m r body key
  post_body require_idempotency m r _ =
      raise (api_error 400 "INVALID_JSON" "Request body must be a JSON object.")

  unfoldable pub json_post : Bool → Moment → Request → Store (Json × ℤ)
  unfolding post_body
  json_post require_idempotency m r = post_body require_idempotency m r r.body
