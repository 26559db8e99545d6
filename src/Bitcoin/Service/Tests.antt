-- ===== src/Bitcoin/Service/Tests.antt =====
-- A broadcast against a scripted Bitcoin Core, and the theorems at it, of
-- bitcoin_core_backend/src/services/bitcoin_service.py.
mod Again
use rails.Prelude.{
  ℕ, String, string_eq, ◌≡◌, ◌≢◌, refl, ap, true, false, Bool, Option, some, none, List, [], ◌∷◌,
  arith, ◌==◌, if◌then◌else◌,
}
use rails.Prelude.Int.{pos, negsuc}
use rails.Json.{
  Json, Items, Fields, null, bool, int, float, str, arr, obj, nil, cons, end, field, get_or_null,
  item_count,
}
use rails.Text.{length, every, strip, strip_start, strip_end, take}
use rails.Text.Digits.{put_digits, scan, digit_char, nat_text}
use rails.Effect.{Result, ok, err}
use rails.Table.{select, update, count, insert, delete}
use rails.Bitcoin.Errors.{Error}
use rails.Bitcoin.Config.{AppConfig}
use rails.Bitcoin.Rpc.{Response, answered, read_response}
use rails.Bitcoin.Store.Rows.{Db, Settings, Output, PreparedBroadcast}
use rails.Bitcoin.Store.Calls.{Call, step, run}
use rails.Bitcoin.Store.Claim.{claim_idempotent, heartbeat_claim, update_claimed}
use rails.Bitcoin.Store.Prepared.{save_prepared_broadcast, load_prepared_broadcast}
use rails.Bitcoin.Store.Settle.{mark_broadcast, set_status}
use rails.Bitcoin.Store.Invariant.{empty_db, IsWellFormed}
use rails.Bitcoin.Store.Invariant.Keeps.{history-IsWellFormed}
use rails.Bitcoin.Validation.{
  normalize_outputs, merge_outputs, merge, amount_at, total, sort, place, validate_address_literal,
  parse_positive_int, parse_unsigned_int, parse_non_negative_int,
}
use rails.Bitcoin.Validation.Text.{validate_wallet_name, has_double_dot, validate_txid, lower_hex}
use rails.Bitcoin.Validation.Sats.{
  sats_to_btc_string, fraction, btc_to_sats, parse_decimal, round_28, truncated, drop_underscores,
}
use rails.Bitcoin.Service.World.{Host, World, call, stored}
use rails.Bitcoin.Service.Funding.{
  fund_psbt, funded_of, funding_options, validate_outputs_on_core, core_outputs, subtract_fee,
}
use rails.Bitcoin.Service.Submit.{
  broadcast, settle, send, returned_txid, confirm, unknown_transaction, transaction_known,
  wallet_knows, require_claim_heartbeat, broadcast_result,
}
use rails.Bitcoin.Service.Broadcast.{
  create_sign_and_send, prepare_and_broadcast, prepare, sign_and_save,
}
use rails.Bitcoin.Service.Sent.{AllKept}
use rails.Bitcoin.Service.Submitting.{IsSettled}
use rails.Bitcoin.Service.Persisted.{sent_is_kept, result_is_broadcast, only_confirmed_acts}

abbrev config : AppConfig
config = record {
  rpc_url = "https://bitcoin-core:8332";
  rpc_user = "rails";
  rpc_password = "secret";
  default_wallet = "kerosene";
  chain = "mainnet";
  api_keys = [];
  read_api_keys = [];
  write_api_keys = [];
  admin_token = "";
  auth_disabled = false;
  allow_wallet_create = false;
  allow_broadcast = true;
  max_outputs_per_tx = 64;
  max_send_sats = 10000000;
  default_min_confirmations = 1;
  idempotency_ttl_seconds = 86400;
  state_db_path = "/var/lib/state.sqlite3";
  rate_limit_per_minute = 120;
  rate_limit_backend = "memory";
  redis_url = "";
  production = true;
  tls_enabled = true;
  allow_insecure_rpc = false;
  instance_count = 1;
}

abbrev txid : String
txid = "00112233445566778899aabbccddeeff00112233445566778899aabbccddeeff"

abbrev success : Json → Response
success result = answered 200 (some (obj (field "result" result (field "error" null end))))

abbrev not_found : Response
not_found = answered 500 (
    some (
      obj (
        field "result" null (
          field "error"
            (obj (field "code" (int (pos 5)) (field "message" (str "no such transaction") end)))
            end))))

abbrev no_wallet : Response
no_wallet = answered 500 (some (obj (field "error" (obj (field "code" (int (negsuc 17)) end)) end)))

-- Bitcoin Core's answer to each method; it does not know the transaction yet.
abbrev answer : String → Response
answer method =
    if method == "validateaddress"
    then success (obj (field "isvalid" (bool true) end))
    else if method == "walletcreatefundedpsbt"
    then success (
        obj (
          field "psbt" (str "cHNidP8BA")
            (field "fee" (float "1.41e-06") (field "changepos" (int (pos 1)) end))))
    else if method == "walletprocesspsbt"
    then success (obj (field "psbt" (str "cHNidP8BB") (field "complete" (bool true) end)))
    else if method == "finalizepsbt"
    then success (obj (field "hex" (str "0200000001ab") (field "complete" (bool true) end)))
    else if method == "decoderawtransaction"
    then success (obj (field "txid" (str txid) end))
    else if method == "testmempoolaccept"
    then success (arr (cons (obj (field "allowed" (bool true) end)) nil))
    else if method == "sendrawtransaction"
    then success (str txid)
    else if method == "listwallets"
    then success (arr nil)
    else if method == "createwallet"
    then success (obj end)
    else if method == "loadwallet"
    then no_wallet
    else not_found

abbrev method_of : Json → String
method_of (obj f) = elim (get_or_null "method" f) [ str s ↦ s | _ ↦ "" ]
method_of _ = ""

-- Another worker sends a payment of its own between this request's first and second transaction.
abbrev host : Host Unit
host = record {
  post = λ wallet payload node. (answer (method_of payload), node);
  show = λ j. "";
  upper = λ s. if s == "economical" then "ECONOMICAL" else s;
  settings = record { ttl = 86400; lease_argument = 60 };
  clock = λ n. 101;
  others = λ n. (101, Call.claims "worker-2" "ops:other" "POST:/v1/send" "other-hash") ∷ [];
}

abbrev body : Fields
body = field "confirmBroadcast" (bool true) (
    field "outputs"
      (arr (
        cons
          (obj
            (field "address" (str "bc1qexampleexample") (field "amountSats" (int (pos 25000)) end)))
          nil))
      end)

abbrev key : String
key = "ops:payout-2024-07"

abbrev start_calls : List (ℕ × Call)
start_calls = (100, Call.claims "worker-1" key "POST:/v1/send" "hash") ∷ []

abbrev start : World Unit
start = record {
  node = tt;
  next_id = 1;
  calls = [];
  db = run host.settings start_calls empty_db;
  tick = 0;
}

abbrev ran : Result Error Fields × World Unit
ran = create_sign_and_send config host "kerosene" body (some key) "hash" (some "worker-1") start

abbrev prepared : PreparedBroadcast
prepared = record {
  record_id = 1;
  wallet = "kerosene";
  request_hash = "hash";
  outputs = record { address = "bc1qexampleexample"; amount_sats = 25000 } ∷ [];
  psbt = "cHNidP8BB";
  raw_tx = "0200000001ab";
  expected_txid = txid;
  fee_sats = pos 141;
  total_output_sats = pos 25000;
}

abbrev result : Fields
result = broadcast_result prepared

ran_lem : ran.0 ≡ ok result
unfolding create_sign_and_send prepare_and_broadcast prepare sign_and_save fund_psbt funded_of
    funding_options validate_outputs_on_core core_outputs subtract_fee call stored read_response run
    step claim_idempotent heartbeat_claim update_claimed save_prepared_broadcast
    load_prepared_broadcast mark_broadcast set_status select update count insert delete
    normalize_outputs merge_outputs merge amount_at total sort place validate_address_literal
    parse_positive_int parse_unsigned_int parse_non_negative_int validate_wallet_name has_double_dot
    validate_txid lower_hex sats_to_btc_string fraction btc_to_sats parse_decimal round_28 truncated
    broadcast settle send returned_txid confirm unknown_transaction transaction_known wallet_knows
    require_claim_heartbeat length every strip strip_start strip_end scan put_digits nat_text
    digit_char take item_count
ran_lem = refl

sent_is_kept_example : AllKept "hash" ran.1.db ran.1.calls
sent_is_kept_example =
    sent_is_kept config host "kerosene" body (some key) "hash" (some "worker-1") start
      (history-IsWellFormed host.settings start_calls) refl

result_is_broadcast_example : IsSettled "hash" key result ran.1
result_is_broadcast_example =
    result_is_broadcast config host "kerosene" body (some key) "hash" (some "worker-1") start result
      (history-IsWellFormed host.settings start_calls) refl ran_lem

only_confirmed_acts_example :
    (config.allow_broadcast ≡ true)
    × ((k : String) × (some key ≡ some k) × (k ≢ ""))
    × ((t : String) × (some "worker-1" ≡ some t) × (t ≢ ""))
    × (get_or_null "confirmBroadcast" body ≡ bool true)
only_confirmed_acts_example =
    only_confirmed_acts config host "kerosene" body (some key) "hash" (some "worker-1") start
      (λ e h. let raised : ran.0 ≡ err e = ap (λ o. o.0) h in cc (ran_lem, raised))
