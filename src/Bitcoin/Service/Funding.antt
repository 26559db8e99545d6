-- ===== src/Bitcoin/Service/Funding.antt =====
-- bitcoin_core_backend/src/services/bitcoin_service.py: `_fund_psbt` and what it calls, and `create_psbt`.
use rails.Prelude.{
  ℕ, String, string_eq, nat_eq, Bool, true, false, not, ◌&&◌, ◌||◌, ◌==◌, Option, none, some, List,
  [], ◌∷◌, if◌then◌else◌,
}
use rails.Prelude.Int.{ℤ, pos}
use rails.Json.{
  Json, Items, Fields, null, bool, int, str, arr, obj, nil, cons, end, field, get_field,
  get_or_null, is_truthy,
}
use rails.Effect.{Result, ok, err, and_then, pure, raise, lift, ◌>>=◌, ◌>>◌}
use rails.Bitcoin.Errors.{Error, api_error}
use rails.Bitcoin.Rpc.{text_of}
use rails.Bitcoin.Config.{AppConfig}
use rails.Bitcoin.Store.Rows.{Output}
use rails.Bitcoin.Store.Transactions.{Details, record_transaction}
use rails.Bitcoin.Validation.{
  normalize_outputs, total, validate_address_literal, parse_non_negative_int,
}
use rails.Bitcoin.Validation.Text.{validate_wallet_name}
use rails.Bitcoin.Validation.Sats.{sats_to_btc_string, btc_to_sats}
use rails.Bitcoin.Service.World.{Host, Service, get, get_default, one, call, stored}

-- `isinstance(index, int)`, of which a bool is one.
abbrev pub is_int : Json → Bool
is_int (int n) = true
is_int (bool b) = true
is_int _ = false

all_ints : Items → Bool
all_ints nil = true
all_ints (cons j rest) = is_int j && all_ints rest

abbrev invalid_subtract : Error
invalid_subtract =
    api_error 400 "INVALID_SUBTRACT_FEE" "subtractFeeFromOutputs must be a list of output indexes."

unfoldable pub subtract_fee : Option Json → Result Error Items
unfolding all_ints
subtract_fee none = ok nil
subtract_fee (some null) = ok nil
subtract_fee (some (arr indexes)) = if all_ints indexes then ok indexes else err invalid_subtract
subtract_fee (some _) = err invalid_subtract

-- `bool(body.get(key, default))`
abbrev pub flag : String → Bool → Fields → Bool
flag key default body = elim (get_field key body) [ none ↦ default | some j ↦ is_truthy j ]

-- `body.get(key) or text`
abbrev pub or_text : Json → String → Json
or_text j text = if is_truthy j then j else str text

-- The outputs as Bitcoin Core takes them: `[{address: amount}]`.
unfoldable pub core_outputs : List Output → Result Error Items
core_outputs [] = ok nil
core_outputs (o ∷ outputs) = and_then (sats_to_btc_string o.amount_sats) (λ amount.
    and_then (core_outputs outputs)
      (λ rest. ok (cons (obj (field o.address (str amount) end)) rest)))

-- What `_fund_psbt` returns.
pub record Funded : Type 0 where
  pub wallet : String
  pub outputs : List Output
  pub psbt : String
  pub fee_sats : ℤ
  pub total_output_sats : ℕ
  pub change_position : Json

abbrev pub conf_target : ℕ → ℕ
conf_target n = if n == 0 then 6 else n

module _ {Node : Type 0} (h : Host Node) where
  -- `_funding_options`
  unfoldable pub funding_options : Fields → Bool → Result Error Fields
  funding_options body lock_unspents =
      and_then
        (parse_non_negative_int (get_or_null "confTarget" body) "confTarget" (pos 6) (some 1008))
        (λ target.
          let mode =
            h.upper (text_of h.show (or_text (get_or_null "estimateMode" body) "economical")) in
          if not (mode == "UNSET" || (mode == "ECONOMICAL" || mode == "CONSERVATIVE"))
          then err (
              api_error 400 "INVALID_ESTIMATE_MODE"
                "estimateMode must be economical or conservative.")
          else and_then (subtract_fee (get_field "subtractFeeFromOutputs" body)) (λ subtract. ok (
              field "conf_target" (int (pos (conf_target target))) (
                field "estimate_mode" (str mode) (
                  field "replaceable" (bool (flag "replaceable" true body)) (
                    field "lockUnspents" (bool (lock_unspents || flag "lockUnspents" false body)) (
                      field "subtractFeeFromOutputs" (arr subtract) (
                        field "change_type"
                          (str (text_of h.show (or_text (get_or_null "changeType" body) "bech32")))
                          end))))))))

  -- `_validate_outputs_on_core`
  unfoldable pub validate_outputs_on_core : List Output → Service Node Unit
  validate_outputs_on_core [] = pure tt
  validate_outputs_on_core (o ∷ outputs) = do
    address ← lift (validate_address_literal (str o.address))
    result ← call h "validateaddress" (one (str address)) none
    valid ← lift (get "isvalid" result)
    if not (is_truthy valid)
        then raise
            (api_error 400 "INVALID_BITCOIN_ADDRESS" "Bitcoin Core rejected an output address.")
        else validate_outputs_on_core outputs

  abbrev pub psbt_of : Json → Json
  psbt_of (obj result) = get_or_null "psbt" result
  psbt_of _ = null

  unfoldable pub funded_of : String → List Output → Json → Result Error Funded
  funded_of wallet outputs result =
      if not (is_truthy (psbt_of result))
      then err (api_error 502 "PSBT_MISSING" "Bitcoin Core did not return a funded PSBT.")
      else and_then (get_default "fee" (int (pos 0)) result) (λ fee.
        and_then (btc_to_sats fee) (λ fee_sats. and_then (get "changepos" result) (λ change.
          ok (record {
            wallet = wallet;
            outputs = outputs;
            psbt = text_of h.show (psbt_of result);
            fee_sats = fee_sats;
            total_output_sats = total outputs;
            change_position = change;
          }))))

module _ {Node : Type 0} (config : AppConfig) (h : Host Node) where
  -- `_fund_psbt`
  unfoldable pub fund_psbt : String → Fields → Bool → Service Node Funded
  unfolding funded_of
  fund_psbt wallet_name body lock_unspents = do
    wallet ← lift (validate_wallet_name (str wallet_name))
    outputs ← lift (normalize_outputs body config.max_outputs_per_tx config.max_send_sats)
    validate_outputs_on_core h outputs
    options ← lift (funding_options h body lock_unspents)
    amounts ← lift (core_outputs outputs)
    result ←
        call h "walletcreatefundedpsbt"
          (cons (arr nil)
            (cons (arr amounts) (cons (int (pos 0)) (cons (obj options) (cons (bool true) nil)))))
          (some wallet)
    lift (funded_of h wallet outputs result)

  abbrev psbt_details : Funded → Option String → String → Details
  psbt_details funded idempotency_key request_hash = record {
    wallet = funded.wallet;
    kind = "psbt";
    request_hash = request_hash;
    idempotency_key = idempotency_key;
    outputs = funded.outputs;
    psbt = some funded.psbt;
    raw_tx = none;
    txid = none;
    status = "created";
    metadata =
        field "feeSats" (int funded.fee_sats) (field "changePosition" funded.change_position end);
    network = config.chain;
  }

  abbrev psbt_view : ℕ → Funded → Fields
  psbt_view record_id funded = field "recordId" (int (pos record_id)) (
      field "wallet" (str funded.wallet) (
        field "psbt" (str funded.psbt) (
          field "feeSats" (int funded.fee_sats) (
            field "totalOutputSats" (int (pos funded.total_output_sats)) (
              field "changePosition" funded.change_position (field "complete" (bool false) end))))))

  unfoldable pub create_psbt : String → Fields → Option String → String → Service Node Fields
  create_psbt wallet_name body idempotency_key request_hash = do
    funded ← fund_psbt wallet_name body false
    record_id ←
        stored h (λ now. record_transaction now (psbt_details funded idempotency_key request_hash))
    pure (psbt_view record_id funded)
