-- ===== src/Bitcoin/Service/Resending.antt =====
-- A retry sends the transaction that was prepared, and makes no other.
use rails.Prelude.{
  String, string_eq, ◌≡◌, refl, true, false, not, ◌||◌, ◌==◌, Bool, Option, none, some, [],
}
use rails.Json.{
  Json, Items, Fields, null, bool, int, float, str, arr, obj, nil, cons, get_or_null, is_truthy,
}
use rails.Text.{truthy_column}
use rails.Effect.{Result, ok, err}
use rails.Effect.Triple.{
  Outcome, Triple, bind_rule, attempt_rule, pure_rule, raise_rule, lift_rule, if_rule,
}
use rails.Bitcoin.Errors.{Error, RpcError, api, rpc, crash}
use rails.Bitcoin.Config.{AppConfig}
use rails.Bitcoin.Store.Rows.{PreparedBroadcast}
use rails.Bitcoin.Store.Prepared.{load_prepared_broadcast}
use rails.Bitcoin.Store.Calls.{run}
use rails.Bitcoin.Validation.Text.{validate_txid}
use rails.Bitcoin.Service.World.{Host, World, RpcCall, Service, get, one, call, stored}
use rails.Bitcoin.Service.Unlock.{
  vin_of, unlocked_inputs, unlock_all, unlock, unlock_decoded, unlock_psbt_inputs,
}
use rails.Bitcoin.Service.Submit.{
  answered, transaction_known, wallet_knows, require_claim_heartbeat, settle, reject, doubt,
  returned_txid, send, confirm, unknown_transaction, broadcast, first_of, mempool_rejected,
  txid_mismatch,
}
use rails.Bitcoin.Service.Broadcast.{
  broadcast_disabled, idempotency_required, confirmation_required, is_true, text_or_empty, prepare,
  prepare_and_broadcast, create_sign_and_send,
}
use rails.Bitcoin.Service.Only.{AllCalls, Only, call-Only, stored-Only}

-- The calls with which the wallet funds and signs a transaction.
abbrev pub signs : RpcCall → Bool
signs x = x.method == "walletcreatefundedpsbt" || x.method == "walletprocesspsbt"

-- A call funds and signs nothing, and sends `raw_tx` if it sends.
abbrev pub Resends : String → RpcCall → Type 0
Resends raw_tx x =
    (signs x ≡ false) × (x.method == "sendrawtransaction" ≡ true → x.params ≡ one (str raw_tx))

module _ {Node : Type 0} (h : Host Node) (key token : String) (p : PreparedBroadcast) where
  abbrev P : RpcCall → Type 0
  P = Resends p.raw_tx

  abbrev K : World Node → Type 0
  K = Only h P

  abbrev Keeping : {A : Type 0} → Service Node A → Type 0
  Keeping m = Triple K K m (λ _. K)

  -- A call of any other method.
  ask :
      (method : String) (params : Items) (wallet : Option String)
      → method == "walletcreatefundedpsbt" || method == "walletprocesspsbt" ≡ false
      → method == "sendrawtransaction" ≡ false
      → Triple K K (call h method params wallet) (λ _. K)
  ask method params wallet unsigned unsent =
      call-Only h P method params wallet (λ db. (unsigned, λ e. absurd (cc (e, unsent))))

  unlock_all-Only :
      (wallet : String) (inputs : Items) → Triple K K (unlock_all h wallet inputs) (λ _. K)
  unfolding unlock_all
  unlock_all-Only wallet nil = pure_rule _ tt (λ s k. k)
  unlock_all-Only wallet (cons j rest) =
      bind_rule (ask "lockunspent" _ _ refl refl) (λ r. pure_rule _ tt (λ s k. k))

  unlock-Only : (wallet : String) (vin : Json) → Triple K K (unlock h wallet vin) (λ _. K)
  unfolding unlock
  unlock-Only wallet (arr vin) = unlock_all-Only wallet (unlocked_inputs vin)
  unlock-Only wallet null = pure_rule _ tt (λ s k. k)
  unlock-Only wallet (bool b) = pure_rule _ tt (λ s k. k)
  unlock-Only wallet (int n) = pure_rule _ tt (λ s k. k)
  unlock-Only wallet (float t) = pure_rule _ tt (λ s k. k)
  unlock-Only wallet (str s) = pure_rule _ tt (λ s k. k)
  unlock-Only wallet (obj f) = pure_rule _ tt (λ s k. k)

  unlock_psbt_inputs-Only :
      (wallet psbt : String) → Triple K K (unlock_psbt_inputs h wallet psbt) (λ _. K)
  unfolding unlock_psbt_inputs unlock_decoded
  unlock_psbt_inputs-Only wallet psbt =
      bind_rule
        (attempt_rule (
          bind_rule (ask "decodepsbt" _ none refl refl)
            (λ decoded. bind_rule (lift_rule (vin_of decoded)) (λ vin. unlock-Only wallet vin))))
        (λ r. pure_rule _ tt (λ s k. k))

  wallet_knows-Only :
      (known : Bool) → Triple K K (wallet_knows h p.wallet p.expected_txid known) (λ _. K)
  unfolding wallet_knows
  wallet_knows-Only true = pure_rule _ true (λ s k. k)
  wallet_knows-Only false =
      bind_rule (attempt_rule (ask "gettransaction" _ _ refl refl)) (λ r. lift_rule (answered r))

  known-Only : Triple K K (transaction_known h p.wallet p.expected_txid) (λ _. K)
  unfolding transaction_known
  known-Only =
      bind_rule (attempt_rule (ask "getmempoolentry" _ none refl refl))
        (λ r. bind_rule (lift_rule (answered r)) (λ pooled. wallet_knows-Only pooled))

  heartbeat-Only : Triple K K (require_claim_heartbeat h key token) (λ _. K)
  unfolding require_claim_heartbeat
  heartbeat-Only =
      bind_rule (stored-Only h P _)
        (λ held. if_rule held _ _ (λ e. pure_rule _ tt (λ s k. k)) (λ e. raise_rule _ _ (λ s k. k)))

  settle-Only : (txid : String) → Triple K K (settle h key token p txid) (λ _. K)
  unfolding settle
  settle-Only txid = bind_rule (stored-Only h P _) (λ u. pure_rule _ _ (λ s k. k))

  reject-Only :
      (first : Json) (known : Bool) → Triple K K (reject h key token p first known) (λ _. K)
  unfolding reject
  reject-Only first true = settle-Only p.expected_txid
  reject-Only first false = bind_rule (stored-Only h P _) (λ u.
      bind_rule (unlock_psbt_inputs-Only p.wallet p.psbt) (λ v.
        bind_rule (lift_rule (get "reject-reason" first))
          (λ reason. raise_rule _ (mempool_rejected reason) (λ s k. k))))

  doubt-Only : (e : RpcError) (known : Bool) → Triple K K (doubt h key token p e known) (λ _. K)
  unfolding doubt
  doubt-Only e true = pure_rule _ p.expected_txid (λ s k. k)
  doubt-Only e false = bind_rule (stored-Only h P _) (λ u. raise_rule _ _ (λ s k. k))

  returned-Only : (r : Result Error String) → Triple K K (returned_txid h key token p r) (λ _. K)
  unfolding returned_txid
  returned-Only (ok txid) = pure_rule _ txid (λ s k. k)
  returned-Only (err (rpc e)) = bind_rule known-Only (λ known. doubt-Only e known)
  returned-Only (err (api e)) = raise_rule _ (api e) (λ s k. k)
  returned-Only (err (crash e)) = raise_rule _ (crash e) (λ s k. k)

  send-Only : Triple K K (send h key token p) (λ _. K)
  unfolding send
  send-Only =
      bind_rule
        (attempt_rule (
          bind_rule
            (call-Only h P "sendrawtransaction" (one (str p.raw_tx)) none (λ db. (refl, λ e. refl)))
            (λ j. lift_rule (validate_txid j))))
        returned-Only

  confirm-Only : (txid : String) → Triple K K (confirm h key token p txid) (λ _. K)
  unfolding confirm
  confirm-Only txid =
      if_rule (not (txid == p.expected_txid)) _ _
        (λ e. bind_rule (stored-Only h P _) (λ u. raise_rule _ txid_mismatch (λ s k. k)))
        (λ e. settle-Only txid)

  broadcast-Only : Triple K K (broadcast h key token p) (λ _. K)
  unfolding broadcast unknown_transaction
  broadcast-Only = bind_rule heartbeat-Only (λ u. bind_rule known-Only (λ known.
      if_rule known _ _ (λ e. settle-Only p.expected_txid)
        (λ e. bind_rule (ask "testmempoolaccept" _ none refl refl) (λ mempool.
          bind_rule (lift_rule (first_of mempool)) (λ first.
            bind_rule (lift_rule (get "allowed" first)) (λ allowed.
              if_rule (not (is_truthy allowed)) _ _
                (λ e. bind_rule known-Only (λ known. reject-Only first known))
                (λ e. bind_rule send-Only confirm-Only)))))))

  pub outcome :
      {A : Type 0} (o : Result Error A × World Node) → Outcome K (λ _. K) o → AllCalls P o.1.calls
  outcome (ok a, w) k = k.calls
  outcome (err e, w) k = k.calls

module _ {Node : Type 0} (config : AppConfig) (h : Host Node) (wallet_name : String) (body : Fields)
    (key : Option String) (request_hash : String) (token : Option String)
    (p : PreparedBroadcast) where
  abbrev Start : World Node → Type 0
  Start w =
      K h (text_or_empty key) (text_or_empty token) p w
      × ((load_prepared_broadcast (text_or_empty key) request_hash
            (run h.settings (h.others w.tick) w.db)).0
          ≡ ok (some p))

  abbrev M : World Node → Type 0
  M = K h (text_or_empty key) (text_or_empty token) p

  loaded-Outcome :
      (o : Result Error (Option PreparedBroadcast) × World Node)
      → o.0 ≡ ok (some p)
      → M o.1
      → Outcome M (λ q w. M w × (q ≡ some p)) o
  loaded-Outcome (ok q, w) e k = (k, cc)
  loaded-Outcome (err e', w) e k = absurd (cc)

  load-Only :
      Triple M Start
        (stored h (λ now. load_prepared_broadcast (text_or_empty key) request_hash))
        (λ q w. M w × (q ≡ some p))
  unfolding stored
  load-Only = record {
    at = λ w k.
        loaded-Outcome
          (stored h (λ now. load_prepared_broadcast (text_or_empty key) request_hash) w) k.1
          (record { calls = k.0.calls });
  }

  prepared-Only :
      (q : Option PreparedBroadcast)
      → Triple M
          (λ w. M w × (q ≡ some p))
          (prepare config h wallet_name body
            (text_or_empty key)
            (text_or_empty token)
            request_hash
            q)
          (λ r w. M w × (r ≡ p))
  unfolding prepare
  prepared-Only none = record { at = λ w k. absurd (cc (k.1)) }
  prepared-Only (some r) = pure_rule _ r (λ w k. (k.0, cc (k.1)))

  same-Only :
      (r : PreparedBroadcast)
      → Triple M
          (λ w. M w × (r ≡ p))
          (broadcast h (text_or_empty key) (text_or_empty token) r)
          (λ _. M)
  same-Only r = record {
    at = λ w k. rw (k.1) ((broadcast-Only h (text_or_empty key) (text_or_empty token) p).at w k.0);
  }

  create-Only :
      Triple M Start
        (create_sign_and_send config h wallet_name body key request_hash token)
        (λ _. M)
  unfolding create_sign_and_send prepare_and_broadcast
  create-Only =
      if_rule (not config.allow_broadcast) _ _ (λ e. raise_rule _ broadcast_disabled (λ s k. k.0))
        (λ e.
          if_rule (not (truthy_column key) || not (truthy_column token)) _ _
            (λ e. raise_rule _ idempotency_required (λ s k. k.0))
            (λ e.
              if_rule (not (is_true (get_or_null "confirmBroadcast" body))) _ _
                (λ e. raise_rule _ confirmation_required (λ s k. k.0))
                (λ e. bind_rule load-Only (λ q. bind_rule (prepared-Only q) same-Only))))

  -- Once the store holds a prepared transaction for the key and the request, a request under that key funds
  -- and signs no other, whatever Bitcoin Core answers and whatever the other workers do meanwhile, and whatever
  -- it hands to `sendrawtransaction` is that transaction. The request starts with no calls made.
  pub retry_sends_the_same :
      (w : World Node)
      → w.calls ≡ []
      → (load_prepared_broadcast
          (text_or_empty key)
          request_hash
          (run h.settings (h.others w.tick) w.db)).0
        ≡ ok (some p)
      → AllCalls
          (Resends p.raw_tx)
          (create_sign_and_send config h wallet_name body key request_hash token w).1.calls
  retry_sends_the_same w fresh prepared =
      outcome h (text_or_empty key) (text_or_empty token) p
        (create_sign_and_send config h wallet_name body key request_hash token w)
        (create-Only.at w (record { calls = rw fresh tt }, prepared))
