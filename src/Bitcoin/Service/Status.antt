-- ===== src/Bitcoin/Service/Status.antt =====
-- bitcoin_core_backend/src/services/bitcoin_service.py: `node_status` and `cohesion_status`.
use rails.Prelude.{String, true, Option, none, some, List, if◌then◌else◌}
use rails.Json.{Fields, bool, str, nil, end, field, is_truthy}
use rails.Text.{truthy_column}
use rails.Effect.{pure, lift, ◌>>=◌}
use rails.Bitcoin.Config.{AppConfig}
use rails.Bitcoin.Store.Transactions.{Recent, Summary, summary, recent_transactions}
use rails.Bitcoin.Validation.Text.{validate_wallet_name}
use rails.Bitcoin.Service.World.{Host, Service, get, call, stored}
use rails.Bitcoin.Service.Wallets.{is_in}

-- What `cohesion_status` returns: the checks and the chain, and what the store says.
pub record CohesionStatus : Type 0 where
  pub wallet : String
  pub checks : Fields
  pub chain : Fields
  pub state : Summary
  pub recent_transactions : List Recent

module _ {Node : Type 0} (h : Host Node) where
  unfoldable pub node_status : Service Node Fields
  node_status = do
    chain ← call h "getblockchaininfo" nil none
    network ← call h "getnetworkinfo" nil none
    wallets ← call h "listwallets" nil none
    name ← lift (get "chain" chain)
    blocks ← lift (get "blocks" chain)
    headers ← lift (get "headers" chain)
    progress ← lift (get "verificationprogress" chain)
    downloading ← lift (get "initialblockdownload" chain)
    pruned ← lift (get "pruned" chain)
    connections ← lift (get "connections" network)
    active ← lift (get "networkactive" network)
    pure (
        field "chain" name (
          field "blocks" blocks (
            field "headers" headers (
              field "verificationProgress" progress (
                field "initialBlockDownload" downloading (
                  field "pruned" pruned (
                    field "connections" connections
                      (field "networkActive" active (field "loadedWallets" wallets end)))))))))

  -- `wallet_name or self._config.default_wallet`
  abbrev or_default : Option String → String → String
  or_default none default = default
  or_default (some s) default = if truthy_column (some s) then s else default

  unfoldable pub cohesion_status : AppConfig → Option String → Service Node CohesionStatus
  cohesion_status config wallet_name = do
    wallet ← lift (validate_wallet_name (str (or_default wallet_name config.default_wallet)))
    chain ← call h "getblockchaininfo" nil none
    loaded_wallets ← call h "listwallets" nil none
    wallet_loaded ← lift (is_in wallet loaded_wallets)
    store_summary ← stored h (λ now. summary)
    recent ← stored h (λ now. recent_transactions (if wallet_loaded then some wallet else none) 10)
    name ← lift (get "chain" chain)
    downloading ← lift (get "initialblockdownload" chain)
    blocks ← lift (get "blocks" chain)
    headers ← lift (get "headers" chain)
    progress ← lift (get "verificationprogress" chain)
    pure (record {
      wallet = wallet;
      checks = field "rpcReachable" (bool true) (
          field "walletLoaded" (bool wallet_loaded) (
            field "chainKnown" (bool (is_truthy name)) (
              field "initialBlockDownload" (bool (is_truthy downloading))
                (field "localStateWritable" (bool true) end))));
      chain = field "name" name (
          field "blocks" blocks
            (field "headers" headers (field "verificationProgress" progress end)));
      state = store_summary;
      recent_transactions = recent;
    })
