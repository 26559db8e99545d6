-- ===== src/Bitcoin/Service/Submit.antt =====
-- bitcoin_core_backend/src/services/bitcoin_service.py: `create_sign_and_send` from the prepared
-- transaction on, and what it calls.
use rails.Prelude.{String, string_eq, Bool, true, false, not, ◌==◌, none, some, ltb, if◌then◌else◌}
use rails.Prelude.Int.{pos}
use rails.Json.{Json, Fields, bool, int, str, arr, obj, cons, end, field, is_truthy}
use rails.Effect.{Result, ok, err, pure, raise, lift, attempt, ◌>>=◌, ◌>>◌}
use rails.Bitcoin.Errors.{RpcError, Error, api, rpc, crash, api_error, rpc_text}
use rails.Bitcoin.Store.Rows.{PreparedBroadcast}
use rails.Bitcoin.Store.Claim.{heartbeat_claim}
use rails.Bitcoin.Store.Settle.{mark_broadcast, mark_prepared_failed, mark_unknown}
use rails.Bitcoin.Validation.Text.{validate_txid}
use rails.Bitcoin.Service.World.{Host, Service, get, one, two, call, stored}
use rails.Bitcoin.Service.Unlock.{unlock_psbt_inputs}

-- `_broadcast_result`
abbrev pub broadcast_result : PreparedBroadcast → Fields
broadcast_result p = field "recordId" (int (pos p.record_id)) (
    field "wallet" (str p.wallet) (
      field "txid" (str p.expected_txid) (
        field "feeSats" (int p.fee_sats) (
          field "totalOutputSats" (int p.total_output_sats)
            (field "mempoolAccepted" (bool true) end)))))

abbrev pub mempool_rejected : Json → Error
mempool_rejected reason = api (record {
  status_code = 409;
  code = "MEMPOOL_REJECTED";
  message = "Bitcoin Core rejected the transaction.";
  details = field "rejectReason" reason end;
})

abbrev pub result_unknown : RpcError → String → Error
result_unknown e txid = api (record {
  status_code = if ltb e.status_code 500 then 503 else e.status_code;
  code = "BROADCAST_RESULT_UNKNOWN";
  message =
      "Bitcoin broadcast result is unknown; the exact prepared transaction will be reconciled before retry.";
  details = field "txid" (str txid) end;
})

abbrev pub txid_mismatch : Error
txid_mismatch =
    api_error 502 "BROADCAST_TXID_MISMATCH"
      "Bitcoin Core returned a txid different from the persisted transaction."

-- `mempool[0] if mempool else {}`
abbrev pub first_of : Json → Result Error Json
first_of (arr (cons j rest)) = ok j
first_of (str s) = if is_truthy (str s) then ok (str s) else ok (obj end)
first_of j =
    if is_truthy j then err (crash "an index into a document that is no list") else ok (obj end)

-- Whether a call has raised an RpcError: any other exception goes through.
abbrev pub answered : {A : Type 0} → Result Error A → Result Error Bool
answered (ok a) = ok true
answered (err (rpc e)) = ok false
answered (err e) = err e

module _ {Node : Type 0} (h : Host Node) where
  unfoldable pub wallet_knows : String → String → Bool → Service Node Bool
  wallet_knows wallet txid true = pure true
  wallet_knows wallet txid false = do
    r ←
        attempt
          (call h "gettransaction" (cons (str txid) (two (bool true) (bool true))) (some wallet))
    lift (answered r)

  -- `_transaction_known`
  unfoldable pub transaction_known : String → String → Service Node Bool
  unfolding wallet_knows
  transaction_known wallet txid = do
    r ← attempt (call h "getmempoolentry" (one (str txid)) none)
    pooled ← lift (answered r)
    wallet_knows wallet txid pooled

  -- `_require_claim_heartbeat`, whose message says "broadcast" where the store's says "idempotency".
  unfoldable pub require_claim_heartbeat : String → String → Service Node Unit
  require_claim_heartbeat key claim_token = do
    held ← stored h (λ now. heartbeat_claim h.settings now key claim_token)
    if held
        then pure tt
        else raise (
            api_error 409 "IDEMPOTENCY_CLAIM_LOST"
              "This worker no longer owns the broadcast claim.")

  -- The one way to a result: the key is BROADCAST under the txid.
  unfoldable pub settle : String → String → PreparedBroadcast → String → Service Node Fields
  settle key claim_token p txid = do
    stored h (λ now. mark_broadcast h.settings now key claim_token txid)
    pure (broadcast_result p)

  unfoldable pub reject : String → String → PreparedBroadcast → Json → Bool → Service Node Fields
  reject key claim_token p first true = settle key claim_token p p.expected_txid
  reject key claim_token p first false = do
    stored h (λ now.
        mark_prepared_failed now key claim_token (pos 409) "MEMPOOL_REJECTED"
          "Bitcoin Core rejected the prepared transaction.")
    unlock_psbt_inputs h p.wallet p.psbt
    reason ← lift (get "reject-reason" first)
    raise (mempool_rejected reason)

  -- What the answer to `sendrawtransaction` leads to, up to the txid that it gives.
  unfoldable pub doubt : String → String → PreparedBroadcast → RpcError → Bool → Service Node String
  doubt key claim_token p e true = pure p.expected_txid
  doubt key claim_token p e false = do
    stored h (λ now. mark_unknown h.settings now key claim_token p.expected_txid (rpc_text e))
    raise (result_unknown e p.expected_txid)

  unfoldable pub returned_txid :
      String → String → PreparedBroadcast → Result Error String → Service Node String
  unfolding doubt
  returned_txid key claim_token p (ok txid) = pure txid
  returned_txid key claim_token p (err (rpc e)) = do
    known ← transaction_known p.wallet p.expected_txid
    doubt key claim_token p e known
  returned_txid key claim_token p (err e) = raise e

  unfoldable pub send : String → String → PreparedBroadcast → Service Node String
  unfolding returned_txid
  send key claim_token p = do
    r ←
        attempt
          (do j ← call h "sendrawtransaction" (one (str p.raw_tx)) none; lift (validate_txid j))
    returned_txid key claim_token p r

  unfoldable pub confirm : String → String → PreparedBroadcast → String → Service Node Fields
  confirm key claim_token p txid =
      if not (txid == p.expected_txid)
      then (do
        stored h (λ now.
            mark_unknown h.settings now key claim_token p.expected_txid
              "Bitcoin Core returned a different txid")
        raise txid_mismatch)
      else settle key claim_token p txid

  unfoldable pub unknown_transaction : String → String → PreparedBroadcast → Service Node Fields
  unfolding reject confirm
  unknown_transaction key claim_token p = do
    mempool ← call h "testmempoolaccept" (one (arr (one (str p.raw_tx)))) none
    first ← lift (first_of mempool)
    allowed ← lift (get "allowed" first)
    if not (is_truthy allowed)
        then (do
          known ← transaction_known p.wallet p.expected_txid
          reject key claim_token p first known)
        else (do txid ← send key claim_token p; confirm key claim_token p txid)

  -- What follows once there is a prepared transaction.
  unfoldable pub broadcast : String → String → PreparedBroadcast → Service Node Fields
  unfolding unknown_transaction
  broadcast key claim_token p = do
    require_claim_heartbeat key claim_token
    known ← transaction_known p.wallet p.expected_txid
    if known
        then settle key claim_token p p.expected_txid
        else unknown_transaction key claim_token p
