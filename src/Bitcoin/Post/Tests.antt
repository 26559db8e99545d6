-- ===== src/Bitcoin/Post/Tests.antt =====
-- A run of `_json_post` of bitcoin_core_backend/src/api/app.py, and its theorem at it.
use Prim.Native.String.{◌++◌ as text_append}
use rails.Prelude.{String, ◌≡◌, refl, true, some, none, [], ◌∷◌, arith}
use rails.Prelude.Int.{ℤ, pos}
use rails.Json.{Json, Fields, bool, str, obj, end, field}
use rails.Text.{length, every}
use rails.Effect.{ok, raise}
use rails.Table.{select, update, count, insert}
use rails.Bitcoin.Errors.{crash}
use rails.Bitcoin.Store.Rows.{State, Db, Settings}
use rails.Bitcoin.Store.Claim.{fresh_record, claim_idempotent, update_claimed}
use rails.Bitcoin.Store.Settle.{store_response}
use rails.Bitcoin.Store.Calls.{run}
use rails.Bitcoin.Validation.Text.{validate_idempotency_key}
use rails.Bitcoin.Post.{Request, Moment, JsonHandler, json_post, ok_fields, ok_body, marked}
use rails.Bitcoin.Post.Twice.{second_post_replays}

abbrev settings : Settings
settings = record { ttl = 86400; lease_argument = 60 }

abbrev fingerprint : String → String → Fields → String
fingerprint method path body = text_append method path

abbrev handler : JsonHandler
handler body key hash storage_key token db = (ok (field "txid" (str "ab12") end, 200), db)

-- A handler that is not to be called.
abbrev broken : JsonHandler
broken body key hash storage_key token = raise (crash "called again")

abbrev body : Fields
body = field "confirmBroadcast" (bool true) end

abbrev post : Request
post = record {
  method = "POST";
  path = "/v1/send";
  idempotency_header = some "payout-2024-07";
  principal_id = "ops";
  request_id = "first";
  body = obj body;
}

abbrev again : Request
again = record post { request_id = "second" }

abbrev moment : Moment
moment = record { claims_at = 100; responds_at = 105; claim_token = "worker-1" }

abbrev later : Moment
later = record { claims_at = 5000; responds_at = 5001; claim_token = "worker-2" }

abbrev empty_db : Db
empty_db = record { idempotency_records = []; transaction_records = []; last_id = 0 }

abbrev claimed_db : Db
claimed_db = record {
  idempotency_records =
      fresh_record settings 100 "worker-1" "ops:payout-2024-07" "POST:/v1/send" "POST/v1/send" ∷ [];
  transaction_records = [];
  last_id = 0;
}

second_post_replays_example :
    let db' =
      run settings [] (json_post settings fingerprint handler true moment post empty_db).1 in
    (◌≡◌ {A = Json × ℤ}
      (ok_body post (field "txid" (str "ab12") end), pos 200)
      (ok_body post (field "txid" (str "ab12") end), pos 200))
    × (json_post settings fingerprint broken true later again db'
        ≡ (ok (obj (marked again (ok_fields post (field "txid" (str "ab12") end))), pos 200), db'))
unfolding json_post validate_idempotency_key length every claim_idempotent store_response
    update_claimed select update count insert
second_post_replays_example =
    second_post_replays settings fingerprint handler true moment post body "payout-2024-07" empty_db
      (record {
        key = "ops:payout-2024-07";
        token = "worker-1";
        state = State.claimed;
        prepared_record_id = none;
      })
      claimed_db claimed_db (field "txid" (str "ab12") end) 200 refl refl refl refl refl broken
      later again (ok_body post (field "txid" (str "ab12") end), pos 200) [] (refl, tt) refl refl
      refl refl refl refl tt (omega arith)
