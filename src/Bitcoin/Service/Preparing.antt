-- ===== src/Bitcoin/Service/Preparing.antt =====
-- What the steps of `create_sign_and_send` up to the prepared transaction keep.
use rails.Prelude.{
  String, string_eq, ◌≡◌, refl, ◌∙◌, ap, true, not, ◌||◌, Bool, Option, none, some, List, [], ◌∷◌,
}
use rails.Json.{Json, Items, Fields, null, bool, int, float, str, arr, obj, nil, cons, is_truthy}
use rails.Effect.{Result, ok, err}
use rails.Effect.Triple.{
  Triple, Tried, try_rule, bind_rule, attempt_rule, pure_rule, raise_rule, lift_rule, if_rule,
  strengthen_rule,
}
use rails.Bitcoin.Errors.{Error}
use rails.Bitcoin.Config.{AppConfig}
use rails.Bitcoin.Store.Rows.{Output, PreparedBroadcast}
use rails.Bitcoin.Service.World.{Host, World, get, stored}
use rails.Bitcoin.Validation.{normalize_outputs, validate_address_literal}
use rails.Bitcoin.Validation.Text.{validate_wallet_name, validate_txid}
use rails.Bitcoin.Service.Funding.{
  Funded, validate_outputs_on_core, fund_psbt, funding_options, core_outputs, funded_of,
}
use rails.Bitcoin.Store.Prepared.{Signed, save_prepared_broadcast, load_prepared_broadcast}
use rails.Bitcoin.Service.Unlock.{
  vin_of, unlocked_inputs, unlock_all, unlock, unlock_decoded, unlock_psbt_inputs, or_unlock,
}
use rails.Bitcoin.Service.Broadcast.{sign_and_save, prepare, not_final, txid_of}
use rails.Bitcoin.Service.Sent.{IsKept, Keeps, Holds, stored_rule_with, call_rule}
use rails.Bitcoin.Service.Saving.{
  save-IsHistory, load-IsHistory, load_same, load-IsKept, save-IsKept,
}

module _ {Node : Type 0} (h : Host Node) (request_hash : String) where
  abbrev pub K : World Node → Type 0
  K = Keeps request_hash

  abbrev pub Prepared : PreparedBroadcast → World Node → Type 0
  Prepared p = Holds request_hash p.raw_tx p.expected_txid

  validate_outputs-Keeping :
      (outputs : List Output) → Triple K K (validate_outputs_on_core h outputs) (λ _. K)
  unfolding validate_outputs_on_core
  validate_outputs-Keeping [] = pure_rule _ tt (λ s k. k)
  validate_outputs-Keeping (o ∷ outputs) =
      bind_rule (lift_rule (validate_address_literal (str o.address))) (λ address.
        bind_rule (call_rule h request_hash "validateaddress" _ none refl) (λ result.
          bind_rule (lift_rule (get "isvalid" result)) (λ valid.
            if_rule (not (is_truthy valid)) _ _ (λ e. raise_rule _ _ (λ s k. k))
              (λ e. validate_outputs-Keeping outputs))))

  unlock_all-Keeping :
      (wallet : String) (inputs : Items) → Triple K K (unlock_all h wallet inputs) (λ _. K)
  unfolding unlock_all
  unlock_all-Keeping wallet nil = pure_rule _ tt (λ s k. k)
  unlock_all-Keeping wallet (cons j rest) =
      bind_rule (call_rule h request_hash "lockunspent" _ _ refl) (λ r. pure_rule _ tt (λ s k. k))

  unlock-Keeping : (wallet : String) (vin : Json) → Triple K K (unlock h wallet vin) (λ _. K)
  unfolding unlock
  unlock-Keeping wallet (arr vin) = unlock_all-Keeping wallet (unlocked_inputs vin)
  unlock-Keeping wallet null = pure_rule _ tt (λ s k. k)
  unlock-Keeping wallet (bool b) = pure_rule _ tt (λ s k. k)
  unlock-Keeping wallet (int n) = pure_rule _ tt (λ s k. k)
  unlock-Keeping wallet (float t) = pure_rule _ tt (λ s k. k)
  unlock-Keeping wallet (str s) = pure_rule _ tt (λ s k. k)
  unlock-Keeping wallet (obj f) = pure_rule _ tt (λ s k. k)

  pub unlock_psbt_inputs-Keeping :
      (wallet psbt : String) → Triple K K (unlock_psbt_inputs h wallet psbt) (λ _. K)
  unfolding unlock_psbt_inputs unlock_decoded
  unlock_psbt_inputs-Keeping wallet psbt =
      bind_rule
        (attempt_rule (
          bind_rule (call_rule h request_hash "decodepsbt" _ none refl)
            (λ decoded. bind_rule (lift_rule (vin_of decoded)) (λ vin. unlock-Keeping wallet vin))))
        (λ r. pure_rule _ tt (λ s k. k))

  -- A save that returns a prepared broadcast has kept it.
  save_rule :
      (key token : String) (t : Signed)
      → Triple K K
          (stored h (λ now. save_prepared_broadcast h.settings now key token request_hash t))
          Prepared
  save_rule key token t =
      strengthen_rule
        (stored_rule_with h request_hash
          (λ now. save_prepared_broadcast h.settings now key token request_hash t)
          (λ p db. IsKept request_hash p.raw_tx p.expected_txid db)
          (save-IsHistory h.settings key token request_hash t)
          (λ now db wf p done. save-IsKept h.settings now key token request_hash t db p wf done))
        (λ p w k. record { keeps = k.0; kept = k.1 })

  unfoldable pub Unprepared : Option PreparedBroadcast → World Node → Type 0
  Unprepared none = K
  Unprepared (some p) = Prepared p

  pub load_rule :
      (key : String)
      → Triple K K (stored h (λ now. load_prepared_broadcast key request_hash)) Unprepared
  unfolding Unprepared
  load_rule key =
      strengthen_rule
        (stored_rule_with h request_hash (λ now. load_prepared_broadcast key request_hash)
          (λ o db.
            (p : PreparedBroadcast) → o ≡ some p → IsKept request_hash p.raw_tx p.expected_txid db)
          (load-IsHistory h.settings key request_hash)
          (λ now db wf o done p e.
            rw (load_same key request_hash db)
              (load-IsKept key request_hash db p (done ∙ ap ok e))))
        go
    where
      go :
          (o : Option PreparedBroadcast) (w : World Node)
          → K w
            × ((p : PreparedBroadcast)
                → o ≡ some p
                → IsKept request_hash p.raw_tx p.expected_txid w.db)
          → Unprepared o w
      go none w k = k.0
      go (some p) w k = record { keeps = k.0; kept = k.1 p refl }

module _ {Node : Type 0} (config : AppConfig) (h : Host Node) (request_hash : String) where
  fund_psbt-Keeping :
      (wallet_name : String) (body : Fields) (lock : Bool)
      → Triple
          (K h request_hash)
          (K h request_hash)
          (fund_psbt config h wallet_name body lock)
          (λ _. K h request_hash)
  unfolding fund_psbt
  fund_psbt-Keeping wallet_name body lock =
      bind_rule (lift_rule (validate_wallet_name (str wallet_name))) (λ wallet.
        bind_rule
          (lift_rule (normalize_outputs body config.max_outputs_per_tx config.max_send_sats))
          (λ outputs. bind_rule (validate_outputs-Keeping h request_hash outputs) (λ u.
            bind_rule (lift_rule (funding_options h body lock)) (λ options.
              bind_rule (lift_rule (core_outputs outputs)) (λ amounts.
                bind_rule (call_rule h request_hash "walletcreatefundedpsbt" _ _ refl)
                  (λ result. lift_rule (funded_of h wallet outputs result)))))))

  sign_and_save-Prepared :
      (key token : String) (funded : Funded)
      → Triple
          (K h request_hash)
          (K h request_hash)
          (sign_and_save config h key token request_hash funded)
          (Prepared h request_hash)
  unfolding sign_and_save
  sign_and_save-Prepared key token funded =
      bind_rule (call_rule h request_hash "walletprocesspsbt" _ _ refl) (λ processed.
        bind_rule (lift_rule (get "psbt" processed)) (λ psbt.
          bind_rule (call_rule h request_hash "finalizepsbt" _ _ refl) (λ finalized.
            bind_rule (lift_rule (get "complete" finalized)) (λ complete.
              bind_rule (lift_rule (get "hex" finalized)) (λ hex.
                bind_rule
                  (if_rule (not (is_truthy complete) || not (is_truthy hex)) _ _
                    (λ e. raise_rule (λ _. K h request_hash) not_final (λ s k. k))
                    (λ e. pure_rule (λ _. K h request_hash) tt (λ s k. k)))
                  (λ u.
                    bind_rule (call_rule h request_hash "decoderawtransaction" _ _ refl) (λ decoded.
                      bind_rule (lift_rule (validate_txid (txid_of decoded)))
                        (λ txid. save_rule h request_hash key token _))))))))

  or_unlock-Prepared :
      (funded : Funded) (r : Result Error PreparedBroadcast)
      → Triple
          (K h request_hash)
          (Tried (K h request_hash) (Prepared h request_hash) r)
          (or_unlock h funded r)
          (Prepared h request_hash)
  or_unlock-Prepared funded (ok p) = pure_rule _ p (λ s k. k)
  or_unlock-Prepared funded (err e) =
      bind_rule (unlock_psbt_inputs-Keeping h request_hash funded.wallet funded.psbt)
        (λ u. raise_rule _ e (λ s k. k))

  -- Whatever is prepared is kept, loaded or new.
  pub prepare-Prepared :
      (wallet_name : String) (body : Fields) (key token : String) (o : Option PreparedBroadcast)
      → Triple
          (K h request_hash)
          (Unprepared h request_hash o)
          (prepare config h wallet_name body key token request_hash o)
          (Prepared h request_hash)
  unfolding prepare Unprepared
  prepare-Prepared wallet_name body key token (some p) = pure_rule _ p (λ s k. k)
  prepare-Prepared wallet_name body key token none =
      bind_rule (fund_psbt-Keeping wallet_name body true) (λ funded.
        bind_rule (try_rule (sign_and_save-Prepared key token funded))
          (λ r. or_unlock-Prepared funded r))
