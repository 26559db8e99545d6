-- ===== src/Bitcoin/Service/Wallets.antt =====
-- bitcoin_core_backend/src/services/bitcoin_service.py: the wallets, their balances, addresses, outputs and
-- transactions.
use rails.Prelude.{
  ℕ, zero, suc, String, string_eq, Bool, true, false, not, ◌||◌, ◌==◌, none, some, if◌then◌else◌,
}
use rails.Prelude.Int.{ℤ, pos}
use rails.Json.{
  Json, Items, Fields, null, bool, int, str, arr, obj, nil, cons, end, field, get_field,
  get_or_null, is_truthy,
}
use rails.Text.{take, truthy, is_infix}
use rails.Effect.{Result, ok, err, and_then, pure, raise, lift, attempt, ◌>>=◌}
use rails.Bitcoin.Errors.{Error, rpc, crash, api_error, is_code}
use rails.Bitcoin.Config.{AppConfig}
use rails.Bitcoin.Validation.{parse_non_negative_int}
use rails.Bitcoin.Validation.Text.{
  validate_wallet_name, validate_label, validate_address_type, validate_txid,
}
use rails.Bitcoin.Validation.Sats.{btc_to_sats}
use rails.Bitcoin.Service.World.{Host, Service, get, get_default, one, two, call}
use rails.Bitcoin.Service.Funding.{flag, or_text}

-- `name in document`: an element of a list, a key of a dict, a part of a text.
has_item : String → Items → Bool
has_item name nil = false
has_item name (cons (str s) rest) = s == name || has_item name rest
has_item name (cons _ rest) = has_item name rest

unfoldable pub is_in : String → Json → Result Error Bool
unfolding has_item
is_in name (arr items) = ok (has_item name items)
is_in name (obj fields) = ok (elim (get_field name fields) [ none ↦ false | some j ↦ true ])
is_in name (str s) = ok (is_infix name s)
is_in name _ = err (crash "TypeError: not a container")

abbrev pub opened : String → Bool → Fields → Fields
opened wallet created more =
    field "wallet" (str wallet) (field "loaded" (bool true) (field "created" (bool created) more))

abbrev pub create_disabled : Error
create_disabled =
    api_error 403 "WALLET_CREATE_DISABLED"
      "Wallet creation is disabled. Set BITCOIN_BACKEND_ALLOW_WALLET_CREATE=true to enable it."

-- `result.get("warning") if isinstance(result, dict) else None`
abbrev warning_of : Json → Json
warning_of (obj result) = get_or_null "warning" result
warning_of _ = null

-- The parameters of `createwallet`.
abbrev pub wallet_params : String → Bool → Bool → Items
wallet_params wallet disable_private_keys blank = cons (str wallet) (
    cons (bool disable_private_keys)
      (cons (bool blank) (cons (str "") (cons (bool true) (two (bool true) (bool true))))))

module _ {Node : Type 0} (config : AppConfig) (h : Host Node) where
  unfoldable pub create_wallet : String → Bool → Bool → Service Node Fields
  create_wallet wallet disable_private_keys blank =
      if not config.allow_wallet_create then raise create_disabled else do
        result ← call h "createwallet" (wallet_params wallet disable_private_keys blank) none
        pure (opened wallet true (field "warning" (warning_of result) end))

  -- What follows `loadwallet`.
  unfoldable pub after_load : String → Bool → Bool → Bool → Result Error Json → Service Node Fields
  unfolding create_wallet
  after_load wallet create_if_missing disable_private_keys blank (ok j) =
      pure (opened wallet false end)
  after_load wallet create_if_missing disable_private_keys blank (err (rpc e)) =
      if not (is_code 18 e.rpc_code) || not create_if_missing
      then raise (rpc e)
      else create_wallet wallet disable_private_keys blank
  after_load wallet create_if_missing disable_private_keys blank (err e) = raise e

  unfoldable pub open_wallet : Fields → Service Node Fields
  open_wallet body = do
    wallet ← lift (validate_wallet_name (or_text (get_or_null "name" body) config.default_wallet))
    loaded ← call h "listwallets" nil none
    present ← lift (is_in wallet loaded)
    if present then pure (opened wallet false end) else (do
      r ← attempt (call h "loadwallet" (one (str wallet)) none)
      after_load wallet (flag "createIfMissing" false body) (flag "disablePrivateKeys" false body)
          (flag "blank" false body) r)

  abbrev sats_at : String → Json → Result Error ℤ
  sats_at key document = and_then (get_default key (int (pos 0)) document) btc_to_sats

  unfoldable pub wallet_balance : String → Service Node Fields
  wallet_balance wallet_name = do
    wallet ← lift (validate_wallet_name (str wallet_name))
    balances ← call h "getbalances" nil (some wallet)
    info ← call h "getwalletinfo" nil (some wallet)
    mine ← lift (get_default "mine" (obj end) balances)
    tx_count ← lift (get "txcount" info)
    keypool_oldest ← lift (get "keypoololdest" info)
    private_keys ← lift (get_default "private_keys_enabled" (bool true) info)
    avoid_reuse ← lift (get "avoid_reuse" info)
    trusted ← lift (sats_at "trusted" mine)
    pending ← lift (sats_at "untrusted_pending" mine)
    immature ← lift (sats_at "immature" mine)
    pure (
        field "wallet" (str wallet) (
          field "txCount" tx_count (
            field "keypoolOldest" keypool_oldest (
              field "privateKeysEnabled" (bool (is_truthy private_keys)) (
                field "avoidReuse" avoid_reuse (
                  field "trustedSats" (int trusted) (
                    field "untrustedPendingSats" (int pending)
                      (field "immatureSats" (int immature) end))))))))

  unfoldable pub new_address : String → Fields → Service Node Fields
  new_address wallet_name body = do
    wallet ← lift (validate_wallet_name (str wallet_name))
    label ← lift (validate_label (get_or_null "label" body) "")
    address_type ← lift (validate_address_type (get_or_null "addressType" body))
    address ← call h "getnewaddress" (two (str label) (str address_type)) (some wallet)
    validation ← call h "validateaddress" (one address) none
    valid ← lift (get "isvalid" validation)
    pure (
        field "wallet" (str wallet) (
          field "address" address (
            field "addressType" (str address_type)
              (field "label" (str label) (field "isValid" (bool (is_truthy valid)) end)))))

  -- The view of one unspent output.
  abbrev compact : Json → Result Error Fields
  compact utxo = and_then (get "txid" utxo) (λ txid. and_then (get "vout" utxo) (λ vout.
      and_then (get "address" utxo) (λ address. and_then (sats_at "amount" utxo) (λ amount.
        and_then (get "confirmations" utxo) (λ confirmations.
          and_then (get "spendable" utxo) (λ spendable. and_then (get "solvable" utxo) (λ solvable.
            and_then (get "safe" utxo) (λ safe.
              and_then (get_default "reused" (bool false) utxo) (λ reused. ok (
                field "txid" txid (
                  field "vout" vout (
                    field "address" address (
                      field "amountSats" (int amount) (
                        field "confirmations" confirmations (
                          field "spendable" spendable (
                            field "solvable" solvable
                              (field "safe" safe (field "reused" reused end))))))))))))))))))

  -- The first `n` of a list, in their view.
  unfoldable pub compact_items : ℕ → Items → Result Error Items
  compact_items zero items = ok nil
  compact_items (suc n) nil = ok nil
  compact_items (suc n) (cons utxo rest) =
      and_then (compact utxo)
        (λ first. and_then (compact_items n rest) (λ later. ok (cons (obj first) later)))

  -- `utxos[:max_count]` and the loop over it.
  compact_all : ℕ → Json → Result Error Items
  unfolding compact_items
  compact_all n (arr items) = compact_items n items
  compact_all n (str s) =
      if truthy (take n s) then err (crash "AttributeError: `get` of a text") else ok nil
  compact_all n _ = err (crash "TypeError: not a sequence")

  -- `list_utxos`; the query holds what the URL says of the two parameters.
  unfoldable pub list_utxos : String → Fields → Service Node Fields
  unfolding compact_all
  list_utxos wallet_name query = do
    wallet ← lift (validate_wallet_name (str wallet_name))
    min_conf ← lift (
        parse_non_negative_int (get_or_null "minConfirmations" query) "minConfirmations"
          (pos config.default_min_confirmations) (some 9999999))
    max_count ←
        lift (parse_non_negative_int (get_or_null "limit" query) "limit" (pos 100) (some 500))
    utxos ←
        call h "listunspent"
          (cons (int (pos min_conf)) (cons (int (pos 9999999)) (two (arr nil) (bool true))))
          (some wallet)
    views ← lift (compact_all max_count utxos)
    pure (
        field "wallet" (str wallet)
          (field "minConfirmations" (int (pos min_conf)) (field "utxos" (arr views) end)))

  -- `btc_to_sats(tx.get("fee", 0)) if tx.get("fee") is not None else None`
  abbrev fee_of : Json → Result Error Json
  fee_of null = ok null
  fee_of fee = and_then (btc_to_sats fee) (λ n. ok (int n))

  unfoldable pub wallet_transaction : String → String → Service Node Fields
  wallet_transaction wallet_name txid_value = do
    wallet ← lift (validate_wallet_name (str wallet_name))
    txid ← lift (validate_txid (str txid_value))
    tx ← call h "gettransaction" (cons (str txid) (two (bool true) (bool true))) (some wallet)
    shown ← lift (get_default "txid" (str txid) tx)
    amount ← lift (sats_at "amount" tx)
    fee_value ← lift (get "fee" tx)
    fee ← lift (fee_of fee_value)
    confirmations ← lift (get_default "confirmations" (int (pos 0)) tx)
    trusted ← lift (get "trusted" tx)
    details ← lift (get_default "details" (arr nil) tx)
    blockhash ← lift (get "blockhash" tx)
    time ← lift (get "time" tx)
    replaceable ← lift (get "bip125-replaceable" tx)
    pure (
        field "wallet" (str wallet) (
          field "txid" shown (
            field "amountSats" (int amount) (
              field "feeSats" fee (
                field "confirmations" confirmations (
                  field "trusted" trusted (
                    field "details" details (
                      field "blockhash" blockhash
                        (field "time" time (field "bip125Replaceable" replaceable end))))))))))
