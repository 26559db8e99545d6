-- ===== src/Bitcoin/Service/Tests/Again.antt =====
-- A retry of the broadcast, and the opening of a wallet, against the same Bitcoin Core, of
-- bitcoin_core_backend/src/services/bitcoin_service.py.
use rails.Prelude.{◌≡◌, refl, true, some, []}
use rails.Json.{Fields, bool, end, field, item_count, null}
use rails.Text.{length, every, strip, strip_start, strip_end, take}
use rails.Text.Digits.{put_digits, scan, digit_char, nat_text}
use rails.Effect.{ok}
use rails.Table.{select, update, count, insert, delete}
use rails.Bitcoin.Config.{AppConfig}
use rails.Bitcoin.Rpc.{read_response}
use rails.Bitcoin.Store.Calls.{step, run}
use rails.Bitcoin.Store.Claim.{claim_idempotent, heartbeat_claim, update_claimed}
use rails.Bitcoin.Store.Prepared.{save_prepared_broadcast, load_prepared_broadcast}
use rails.Bitcoin.Store.Settle.{mark_broadcast, set_status}
use rails.Bitcoin.Validation.{
  normalize_outputs, merge_outputs, merge, amount_at, total, sort, place, validate_address_literal,
  parse_positive_int, parse_unsigned_int, parse_non_negative_int,
}
use rails.Bitcoin.Validation.Text.{validate_wallet_name, has_double_dot, validate_txid, lower_hex}
use rails.Bitcoin.Validation.Sats.{
  sats_to_btc_string, fraction, btc_to_sats, parse_decimal, round_28, truncated,
}
use rails.Bitcoin.Service.World.{World, call, stored}
use rails.Bitcoin.Service.Funding.{
  fund_psbt, funded_of, funding_options, validate_outputs_on_core, core_outputs, subtract_fee,
}
use rails.Bitcoin.Service.Submit.{
  broadcast, settle, send, returned_txid, confirm, unknown_transaction, transaction_known,
  wallet_knows, require_claim_heartbeat,
}
use rails.Bitcoin.Service.Broadcast.{
  create_sign_and_send, prepare_and_broadcast, prepare, sign_and_save,
}
use rails.Bitcoin.Service.Wallets.{open_wallet, opened, is_in, after_load, create_wallet}
use rails.Bitcoin.Service.Only.{AllCalls}
use rails.Bitcoin.Service.Opening.{MayCreate, wallet_is_created_on_request}
use rails.Bitcoin.Service.Resending.{Resends, retry_sends_the_same}
use rails.Bitcoin.Service.Tests.{config, host, body, key, start, ran, prepared}

-- The worker comes back with nothing but the store.
abbrev retried : World Unit
retried = record { node = tt; next_id = 1; calls = []; db = ran.1.db; tick = 0 }

retry_sends_the_same_example :
    AllCalls
      (Resends "0200000001ab")
      (create_sign_and_send config host "kerosene" body
        (some key)
        "hash"
        (some "worker-1")
        retried).1.calls
unfolding create_sign_and_send prepare_and_broadcast prepare sign_and_save fund_psbt funded_of
    funding_options validate_outputs_on_core core_outputs subtract_fee call stored read_response run
    step claim_idempotent heartbeat_claim update_claimed save_prepared_broadcast
    load_prepared_broadcast mark_broadcast set_status select update count insert delete
    normalize_outputs merge_outputs merge amount_at total sort place validate_address_literal
    parse_positive_int parse_unsigned_int parse_non_negative_int validate_wallet_name has_double_dot
    validate_txid lower_hex sats_to_btc_string fraction btc_to_sats parse_decimal round_28 truncated
    broadcast settle send returned_txid confirm unknown_transaction transaction_known wallet_knows
    require_claim_heartbeat length every strip strip_start strip_end scan put_digits nat_text
    digit_char take item_count
retry_sends_the_same_example =
    retry_sends_the_same config host "kerosene" body (some key) "hash" (some "worker-1") prepared
      retried refl refl

abbrev creating : AppConfig
creating = record config { allow_wallet_create = true }

abbrev request : Fields
request = field "createIfMissing" (bool true) end

opened_lem :
    (open_wallet creating host request start).0
    ≡ ok (opened "kerosene" true (field "warning" null end))
unfolding open_wallet is_in after_load create_wallet call read_response validate_wallet_name
    has_double_dot length every take
opened_lem = refl

wallet_is_created_on_request_example :
    AllCalls (MayCreate creating request) (open_wallet creating host request start).1.calls
wallet_is_created_on_request_example = wallet_is_created_on_request creating host request start refl
