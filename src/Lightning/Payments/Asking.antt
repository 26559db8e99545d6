-- ===== src/Lightning/Payments/Asking.antt =====
-- What lightning_flask/src/infra/lnd.py asks of LND for a payment: only `pay_invoice` pays.
use rails.Prelude.{ℕ, zero, suc, String, Option, none, some, ◌≡◌, refl, false, string_eq}
use rails.Prelude.Int.{ℤ, pos}
use rails.Json.{Json, Items, Fields, null, str, nil, cons}
use rails.Effect.Triple.{Triple, bind_rule, pure_rule, lift_rule, if_rule}
use rails.Lightning.Security.{validate_payment_hash}
use rails.Lightning.Host.{Host, World, LndCall, Handler, get, get_default, request}
use rails.Lightning.Lnd.{
  get_lnd, post_lnd, pay_body, payments_path, int_at, hash_of, after_page, in_page, find_payment,
  search_pages, decode_invoice, lookup_payment, pay_invoice, page_of,
}
use rails.Lightning.Payments.Checks.{Plan}
use rails.Lightning.Payments.Bounded.{Keeps, Spends, pays, payment_rule}

-- Whatever the requests that make no payment keep is kept.
module _ {Node : Type 0} (h : Host Node) (K : World Node → Type 0)
    (ask : (x : LndCall) → pays x ≡ false → Triple K K (request h x) (λ _. K)) where
  get_lnd-Keeps : (path : String) (query : Json) → Triple K K (get_lnd h path query) (λ _. K)
  get_lnd-Keeps path query = ask _ refl

  pub decode_invoice-Keeps :
      (payment_request : String) → Triple K K (decode_invoice h payment_request) (λ _. K)
  unfolding decode_invoice
  decode_invoice-Keeps payment_request = bind_rule (get_lnd-Keeps _ null) (λ result.
      bind_rule (lift_rule (hash_of h result)) (λ hash.
        bind_rule (lift_rule (int_at h "num_satoshis" result)) (λ amount.
          bind_rule (lift_rule (int_at h "timestamp" result)) (λ timestamp.
            bind_rule (lift_rule (int_at h "expiry" result)) (λ expiry.
              bind_rule (lift_rule (get "destination" result)) (λ destination.
                bind_rule (lift_rule (int_at h "cltv_expiry" result)) (λ cltv.
                  bind_rule (lift_rule (get "description" result)) (λ description.
                    bind_rule (lift_rule (get_default "network" (str "") result)) (λ named.
                      bind_rule (lift_rule _) (λ network. pure_rule _ _ (λ w k. k)))))))))))

  module _ (hash : String) where
    module _ (offset : ℤ) (result : Json) (deeper : ℤ → Handler Node Fields)
        (keeps : (next : ℤ) → Triple K K (deeper next) (λ _. K)) where
      after_page-Keeps :
          (found : Option Fields)
          → Triple K K (after_page h hash offset result deeper found) (λ _. K)
      after_page-Keeps (some view) = pure_rule _ view (λ w k. k)
      after_page-Keeps none =
          bind_rule (lift_rule (int_at h "last_index_offset" result))
            (λ next. if_rule _ _ _ (λ e. pure_rule _ _ (λ w k. k)) (λ e. keeps next))

      in_page-Keeps :
          (items : Items) → Triple K K (in_page h hash offset result deeper items) (λ _. K)
      in_page-Keeps nil = pure_rule _ _ (λ w k. k)
      in_page-Keeps (cons j rest) =
          bind_rule (lift_rule (find_payment h hash (cons j rest))) after_page-Keeps

    search_pages-Keeps :
        (rounds : ℕ) (offset : ℤ) → Triple K K (search_pages h rounds hash offset) (λ _. K)
    unfolding search_pages
    search_pages-Keeps zero offset = pure_rule _ _ (λ w k. k)
    search_pages-Keeps (suc rounds) offset = bind_rule (get_lnd-Keeps "/v1/payments" _) (λ result.
        in_page-Keeps offset result (search_pages h rounds hash) (search_pages-Keeps rounds)
          (page_of h result))

  pub lookup_payment-Keeps : (value : Json) → Triple K K (lookup_payment h value) (λ _. K)
  unfolding lookup_payment
  lookup_payment-Keeps value =
      bind_rule (lift_rule (validate_payment_hash h.show value))
        (λ hash. search_pages-Keeps hash 20 (pos 0))

-- What holds before and after the payment's own request holds before and after `pay_invoice`.
module _ {Node : Type 0} (h : Host Node) (M K : World Node → Type 0) where
  pub pay_invoice-Keeps :
      (payment_request : String) (fee_limit_sats timeout_seconds : ℕ) (amount_sats : Option ℕ)
      → Triple K M
          (post_lnd h payments_path
            (pay_body payment_request fee_limit_sats timeout_seconds amount_sats))
          (λ _. K)
      → Triple K M
          (pay_invoice h payment_request fee_limit_sats timeout_seconds amount_sats)
          (λ _. K)
  unfolding pay_invoice
  pay_invoice-Keeps payment_request fee_limit_sats timeout_seconds amount_sats t =
      bind_rule t (λ result. bind_rule (lift_rule (hash_of h result)) (λ hash.
        bind_rule (lift_rule (get "payment_error" result)) (λ failure. pure_rule _ _ (λ w k. k))))

-- The request of the payment by a plan.
abbrev pub payment_call : String → Plan → LndCall
payment_call payment_request plan = record {
  method = "POST";
  path = payments_path;
  query = null;
  body = pay_body payment_request plan.fee_limit_sats plan.timeout_seconds plan.sent_amount;
}

module _ {Node : Type 0} (W : LndCall → Type 0) (h : Host Node) (key : String) (n : ℕ) where
  pub pay_invoice-Spends :
      (payment_request : String) (plan : Plan)
      → W (payment_call payment_request plan)
      → Triple
          (Keeps W key n)
          (Spends W key n)
          (pay_invoice h payment_request plan.fee_limit_sats plan.timeout_seconds plan.sent_amount)
          (λ _. Keeps W key n)
  pay_invoice-Spends payment_request plan fits =
      pay_invoice-Keeps h (Spends W key n) (Keeps W key n) payment_request plan.fee_limit_sats
        plan.timeout_seconds plan.sent_amount (payment_rule W h key n _ refl fits)
