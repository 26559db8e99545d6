-- ===== src/Bitcoin/Service/Opening.antt =====
-- A wallet is created only where that is configured and asked for.
use rails.Prelude.{String, string_eq, ◌≡◌, true, false, not, ◌||◌, ◌==◌, Bool, none, [], arith}
use rails.Json.{Json, Fields, nil, str, get_or_null}
use rails.Effect.{Result, ok, err}
use rails.Effect.Triple.{
  Outcome, Triple, bind_rule, attempt_rule, pure_rule, raise_rule, lift_rule, if_rule,
}
use rails.Bitcoin.Errors.{Error, api, rpc, crash, is_code}
use rails.Bitcoin.Config.{AppConfig}
use rails.Bitcoin.Validation.Text.{validate_wallet_name}
use rails.Bitcoin.Service.World.{Host, World, RpcCall, one}
use rails.Bitcoin.Service.Funding.{flag, or_text}
use rails.Bitcoin.Service.Wallets.{
  is_in, opened, create_disabled, create_wallet, after_load, open_wallet,
}
use rails.Bitcoin.Service.Only.{AllCalls, Only, call-Only}

-- A call, if it creates a wallet, is allowed to by the settings and asked to by the request.
abbrev pub MayCreate : AppConfig → Fields → RpcCall → Type 0
MayCreate config body x =
    x.method == "createwallet" ≡ true
    → (config.allow_wallet_create ≡ true) × (flag "createIfMissing" false body ≡ true)

module _ {Node : Type 0} (config : AppConfig) (h : Host Node) (body : Fields) where
  abbrev P : RpcCall → Type 0
  P = MayCreate config body

  abbrev K : World Node → Type 0
  K = Only h P

  create_wallet-Only :
      (wallet : String) (disable_private_keys blank : Bool)
      → flag "createIfMissing" false body ≡ true
      → Triple K K (create_wallet config h wallet disable_private_keys blank) (λ _. K)
  unfolding create_wallet
  create_wallet-Only wallet disable_private_keys blank asked =
      if_rule (not config.allow_wallet_create) _ _ (λ e. raise_rule _ create_disabled (λ s k. k))
        (λ e.
          bind_rule (call-Only h P "createwallet" _ none (λ db f. (ground arith, asked)))
            (λ result. pure_rule _ _ (λ s k. k)))

  after_load-Only :
      (wallet : String) (disable_private_keys blank : Bool) (r : Result Error Json)
      → Triple K K
          (after_load config h wallet
            (flag "createIfMissing" false body)
            disable_private_keys
            blank
            r)
          (λ _. K)
  unfolding after_load
  after_load-Only wallet disable_private_keys blank (ok j) = pure_rule _ _ (λ s k. k)
  after_load-Only wallet disable_private_keys blank (err (rpc e)) =
      if_rule (not (is_code 18 e.rpc_code) || not (flag "createIfMissing" false body)) _ _
        (λ f. raise_rule _ (rpc e) (λ s k. k))
        (λ f. create_wallet-Only wallet disable_private_keys blank (ground arith))
  after_load-Only wallet disable_private_keys blank (err (api e)) = raise_rule _ (api e) (λ s k. k)
  after_load-Only wallet disable_private_keys blank (err (crash e)) =
      raise_rule _ (crash e) (λ s k. k)

  open_wallet-Only : Triple K K (open_wallet config h body) (λ _. K)
  unfolding open_wallet
  open_wallet-Only =
      bind_rule
        (lift_rule (validate_wallet_name (or_text (get_or_null "name" body) config.default_wallet)))
        (λ wallet. bind_rule (call-Only h P "listwallets" nil none (λ db f. absurd (cc))) (λ loaded.
          bind_rule (lift_rule (is_in wallet loaded)) (λ present.
            if_rule present _ _ (λ e. pure_rule _ (opened wallet false _) (λ s k. k))
              (λ e.
                bind_rule
                  (attempt_rule
                    (call-Only h P "loadwallet" (one (str wallet)) none (λ db f. absurd (cc))))
                  (λ r.
                    after_load-Only wallet (flag "disablePrivateKeys" false body)
                      (flag "blank" false body) r)))))

  outcome :
      {A : Type 0} (o : Result Error A × World Node) → Outcome K (λ _. K) o → AllCalls P o.1.calls
  outcome (ok a, w) k = k.calls
  outcome (err e, w) k = k.calls

  -- Whatever Bitcoin Core answers, the request calls `createwallet` only if the settings allow it and the body
  -- asks for it. The request starts with no calls made.
  pub wallet_is_created_on_request :
      (w : World Node)
      → w.calls ≡ []
      → AllCalls (MayCreate config body) (open_wallet config h body w).1.calls
  wallet_is_created_on_request w fresh =
      outcome (open_wallet config h body w) (open_wallet-Only.at w (record { calls = rw fresh tt }))
