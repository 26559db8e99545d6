-- ===== src/Lightning/Payments/Quoting.antt =====
-- What lightning_flask/src/infra/lnd.py learns of an invoice before it is paid: the amount that LND answers.
use Prim.Native.String.{◌++◌ as text_append}
use rails.Prelude.{ℕ, String, string_eq, ◌≡◌, refl, ap, sym}
use rails.Prelude.Int.{ℤ}
use rails.Json.{Json, null, str}
use rails.Effect.{Result, ok, err, lift, attempt, ◌>>=◌}
use rails.Effect.Triple.{
  Outcome, Triple, Tried, bind_rule, try_rule, given_rule, pure_rule, lift_rule, lift_rule_with,
}
use rails.Lightning.Errors.{Failure, api, replayed, crash}
use rails.Lightning.Config.{Settings}
use rails.Lightning.Host.{Host, World, LndCall, Handler, get, get_default, read_answer, request}
use rails.Lightning.Lnd.{Decoded, get_lnd, int_at, hash_of, decode_invoice}
use rails.Lightning.Payments.{decoded_or_raise}
use rails.Lightning.Payments.Bounded.{Keeps, request-Keeps}

module _ {Node : Type 0} (h : Host Node) where
  -- The request that asks LND what an invoice says.
  abbrev pub payreq_call : String → LndCall
  payreq_call payment_request = record {
    method = "GET";
    path = text_append "/v1/payreq/" (h.quote payment_request);
    query = null;
    body = null;
  }

  -- Asked for the invoice, the node answers that it is of `z` sats.
  abbrev pub Quoted : Node → String → ℤ → Type 0
  Quoted node payment_request z =
      (answer : Json) × (read_answer h (h.send (payreq_call payment_request) node).0 ≡ ok answer)
      × (int_at h "num_satoshis" answer ≡ ok z)

module _ {Node : Type 0} (s : Settings) (W : LndCall → Type 0) (h : Host Node) (key : String)
    (n : ℕ) (node : Node) where
  abbrev K : World Node → Type 0
  K = Keeps W key n

  -- The invariant where LND has not been asked anything.
  abbrev pub Unasked : World Node → Type 0
  Unasked w = K w × (w.node ≡ node)

  answered :
      {A : Type 0} (r q : Result Failure A) (w : World Node)
      → q ≡ r
      → K w
      → Outcome K (λ a w. K w × (q ≡ ok a)) (r, w)
  answered (ok a) q w e k = (k, e)
  answered (err e) q w same k = k

  quote_rule :
      (payment_request : String)
      → Triple K Unasked
          (get_lnd h (text_append "/v1/payreq/" (h.quote payment_request)) null)
          (λ answer w.
            K w × (read_answer h (h.send (payreq_call h payment_request) node).0 ≡ ok answer))
  unfolding request
  quote_rule payment_request = record {
    at = λ w (k, same).
        let x = payreq_call h payment_request in
        answered (read_answer h (h.send x w.node).0) (read_answer h (h.send x node).0)
          (request h x w).1 (ap (λ v. read_answer h (h.send x v).0) (sym same))
          (request-Keeps W h key n x refl w k);
  }

  decode_rule :
      (payment_request : String)
      → Triple K Unasked
          (decode_invoice h payment_request)
          (λ decoded w. K w × Quoted h node payment_request decoded.num_satoshis)
  unfolding decode_invoice
  decode_rule payment_request = bind_rule (quote_rule payment_request) (λ result.
      given_rule (λ answer. bind_rule (lift_rule (hash_of h result)) (λ hash.
        bind_rule (lift_rule_with (int_at h "num_satoshis" result) (λ w k. k)) (λ amount.
          given_rule (λ named. bind_rule (lift_rule (int_at h "timestamp" result)) (λ timestamp.
            bind_rule (lift_rule (int_at h "expiry" result)) (λ expiry.
              bind_rule (lift_rule (get "destination" result)) (λ destination.
                bind_rule (lift_rule (int_at h "cltv_expiry" result)) (λ cltv.
                  bind_rule (lift_rule (get "description" result)) (λ description.
                    bind_rule (lift_rule (get_default "network" (str "") result)) (λ given.
                      bind_rule (lift_rule _)
                        (λ network. pure_rule _ _ (λ w k. (k, (result, answer, named)))))))))))))))

  decoded_rule :
      (payment_request : String) (o : Result Failure Decoded)
      → Triple K
          (Tried K (λ decoded w. K w × Quoted h node payment_request decoded.num_satoshis) o)
          (lift (decoded_or_raise s h o))
          (λ decoded w. K w × Quoted h node payment_request decoded.num_satoshis)
  decoded_rule payment_request (ok decoded) = record { at = λ w k. k }
  decoded_rule payment_request (err (api e)) = record { at = λ w k. k }
  decoded_rule payment_request (err (replayed payload status)) = record { at = λ w k. k }
  decoded_rule payment_request (err (crash text)) = record { at = λ w k. k }

  -- What follows the decoding knows the amount that LND has answered.
  pub invoice_rule :
      {B : Type 0} (payment_request : String) (f : Decoded → Handler Node B)
      → ((decoded : Decoded)
          → Quoted h node payment_request decoded.num_satoshis
          → Triple K K (f decoded) (λ _. K))
      → Triple K Unasked
          (do
            attempted ← attempt (decode_invoice h payment_request)
            decoded ← lift (decoded_or_raise s h attempted)
            f decoded)
          (λ _. K)
  invoice_rule payment_request f t =
      bind_rule (try_rule (decode_rule payment_request)) (λ attempted.
        bind_rule (decoded_rule payment_request attempted) (λ decoded. given_rule (t decoded)))
