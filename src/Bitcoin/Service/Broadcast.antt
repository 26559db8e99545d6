-- ===== src/Bitcoin/Service/Broadcast.antt =====
-- bitcoin_core_backend/src/services/bitcoin_service.py: `create_sign_and_send`, up to the prepared
-- transaction.
use rails.Prelude.{
  String, string_eq, Bool, true, false, not, ◌||◌, Option, none, some, if◌then◌else◌,
}
use rails.Prelude.Int.{pos}
use rails.Json.{Json, Fields, null, bool, str, obj, cons, get_or_null, is_truthy}
use rails.Text.{truthy_column}
use rails.Effect.{pure, raise, lift, attempt, ◌>>=◌, ◌>>◌}
use rails.Bitcoin.Errors.{Error, api_error}
use rails.Bitcoin.Rpc.{text_of}
use rails.Bitcoin.Config.{AppConfig}
use rails.Bitcoin.Store.Rows.{PreparedBroadcast}
use rails.Bitcoin.Store.Prepared.{save_prepared_broadcast, load_prepared_broadcast}
use rails.Bitcoin.Validation.Text.{validate_txid}
use rails.Bitcoin.Service.World.{Host, Service, get, one, two, call, stored}
use rails.Bitcoin.Service.Funding.{Funded, fund_psbt}
use rails.Bitcoin.Service.Unlock.{or_unlock}
use rails.Bitcoin.Service.Submit.{broadcast}

abbrev pub not_final : Error
not_final = api_error 409 "PSBT_NOT_FINAL" "Bitcoin Core could not finalize the PSBT."

abbrev pub broadcast_disabled : Error
broadcast_disabled =
    api_error 403 "BROADCAST_DISABLED"
      "Broadcasting is disabled. Set BITCOIN_BACKEND_ALLOW_BROADCAST=true to enable it."

abbrev pub idempotency_required : Error
idempotency_required =
    api_error 428 "IDEMPOTENCY_REQUIRED" "Idempotency-Key is required for broadcast requests."

abbrev pub confirmation_required : Error
confirmation_required =
    api_error 400 "BROADCAST_CONFIRMATION_REQUIRED" "confirmBroadcast must be true."

-- `decoded.get("txid") if isinstance(decoded, dict) else None`
abbrev pub txid_of : Json → Json
txid_of (obj decoded) = get_or_null "txid" decoded
txid_of _ = null

-- `is not True`
abbrev pub is_true : Json → Bool
is_true (bool b) = b
is_true _ = false

abbrev pub text_or_empty : Option String → String
text_or_empty none = ""
text_or_empty (some s) = s

module _ {Node : Type 0} (config : AppConfig) (h : Host Node) where
  -- The wallet's signature, the final transaction and its row, behind a funded PSBT.
  unfoldable pub sign_and_save : String → String → String → Funded → Service Node PreparedBroadcast
  sign_and_save key claim_token request_hash funded = do
    processed ←
        call h "walletprocesspsbt"
          (cons (str funded.psbt) (cons (bool true) (two (str "ALL") (bool false))))
          (some funded.wallet)
    psbt ← lift (get "psbt" processed)
    finalized ← call h "finalizepsbt" (two psbt (bool true)) none
    complete ← lift (get "complete" finalized)
    hex ← lift (get "hex" finalized)
    if not (is_truthy complete) || not (is_truthy hex) then raise not_final else pure tt
    decoded ← call h "decoderawtransaction" (one (str (text_of h.show hex))) none
    expected_txid ← lift (validate_txid (txid_of decoded))
    stored h (λ now. save_prepared_broadcast h.settings now key claim_token request_hash (record {
      wallet = funded.wallet;
      outputs = funded.outputs;
      psbt = if is_truthy psbt then text_of h.show psbt else funded.psbt;
      raw_tx = text_of h.show hex;
      expected_txid = expected_txid;
      fee_sats = funded.fee_sats;
      total_output_sats = pos funded.total_output_sats;
      network = config.chain;
    }))

  unfoldable pub prepare :
      String
      → Fields
      → String
      → String
      → String
      → Option PreparedBroadcast
      → Service Node PreparedBroadcast
  prepare wallet_name body key claim_token request_hash (some p) = pure p
  prepare wallet_name body key claim_token request_hash none = do
    funded ← fund_psbt config h wallet_name body true
    saved ← attempt (sign_and_save key claim_token request_hash funded)
    or_unlock h funded saved

  -- Behind the guards.
  unfoldable pub prepare_and_broadcast :
      String → Fields → String → String → String → Service Node Fields
  prepare_and_broadcast wallet_name body key claim_token request_hash = do
    loaded ← stored h (λ now. load_prepared_broadcast key request_hash)
    p ← prepare wallet_name body key claim_token request_hash loaded
    broadcast h key claim_token p

  unfoldable pub create_sign_and_send :
      String → Fields → Option String → String → Option String → Service Node Fields
  create_sign_and_send wallet_name body idempotency_key request_hash claim_token =
      if not config.allow_broadcast
      then raise broadcast_disabled
      else if not (truthy_column idempotency_key) || not (truthy_column claim_token)
      then raise idempotency_required
      else if not (is_true (get_or_null "confirmBroadcast" body))
      then raise confirmation_required
      else prepare_and_broadcast wallet_name body (text_or_empty idempotency_key)
          (text_or_empty claim_token) request_hash
