-- ===== src/Lightning/Lnd/Invoices.antt =====
-- lightning_flask/src/infra/lnd.py: LndClient on invoices and channels.
use Prim.Native.String.{◌++◌ as text_append}
use rails.Prelude.{
  ℕ, String, string_eq, nat_eq, Bool, true, ◌==◌, none, some, List, [], ◌∷◌, if◌then◌else◌,
}
use rails.Prelude.Int.{ℤ, pos}
use rails.Json.{
  Json, Items, Fields, null, bool, int, str, arr, obj, nil, cons, end, field, get_field, is_truthy,
}
use rails.Text.{length}
use rails.Text.Digits.{nat_text}
use rails.Effect.{Result, ok, err, and_then, pure, lift, ◌>>=◌}
use rails.Lightning.Errors.{Failure, crash}
use rails.Lightning.Security.{validate_payment_hash}
use rails.Lightning.Host.{Host, Handler, get}
use rails.Lightning.Lnd.{or_else, int_at, as_int, hash_to_hex, get_lnd, post_lnd}

-- What `list_channels` shows of a channel; `active` is a bool and the rest as LND says it.
pub record Channel : Type 0 where
  pub active : Bool
  pub remote_pubkey : Json
  pub channel_point : Json
  pub capacity_sats : ℤ
  pub local_balance_sats : ℤ
  pub remote_balance_sats : ℤ

module _ {Node : Type 0} (h : Host Node) where
  unfoldable pub create_invoice : ℕ → String → ℕ → Handler Node Fields
  unfolding hash_to_hex
  create_invoice amount_sats memo expiry_seconds = do
    result ← post_lnd h "/v1/invoices" (
        obj (
          field "value" (str (nat_text amount_sats)) (
            field "memo" (str memo)
              (field "expiry" (str (nat_text expiry_seconds)) (field "private" (bool true) end)))))
    r_hash ← lift (get "r_hash" result)
    r_hash_str ← lift (get "r_hash_str" result)
    payment_request ← lift (get "payment_request" result)
    add_index ← lift (get "add_index" result)
    pure (
        field "payment_hash" (or_else (hash_to_hex h r_hash) r_hash_str) (
          field "payment_request" payment_request (
            field "add_index" add_index (
              field "amount_sats" (int (pos amount_sats)) (
                field "memo" (str memo) (field "expiry_seconds" (int (pos expiry_seconds)) end))))))

  -- `a or b or c`, where b may raise.
  abbrev or_else_hash : Json → Result Failure Json → String → Result Failure Json
  or_else_hash a b c =
      if is_truthy a then ok a else and_then b (λ hash. ok (or_else (hash_to_hex h hash) (str c)))

  -- `_invoice_view`
  unfoldable pub invoice_view : Json → String → Result Failure Fields
  unfolding hash_to_hex as_int
  invoice_view result fallback_hash = and_then (get "settled" result) (λ settled.
      and_then (get "r_hash_str" result) (λ r_hash_str.
        and_then (or_else_hash r_hash_str (get "r_hash" result) fallback_hash) (λ payment_hash.
          and_then (get "payment_request" result) (λ payment_request.
            and_then (get "memo" result) (λ memo. and_then (int_at h "value" result) (λ amount.
              and_then (int_at h "amt_paid_sat" result) (λ paid.
                and_then (get "state" result) (λ state.
                  and_then (get "creation_date" result) (λ creation_date.
                    and_then (get "settle_date" result) (λ settle_date.
                      and_then (get "expiry" result) (λ expiry. ok (
                        field "payment_hash" payment_hash (
                          field "payment_request" payment_request (
                            field "memo" memo (
                              field "amount_sats" (int amount) (
                                field "amount_paid_sats" (int paid) (
                                  field "state"
                                    (or_else state
                                      (str (if is_truthy settled then "SETTLED" else "OPEN")))
                                    (field "settled" (bool (is_truthy settled)) (
                                      field "creation_date" creation_date (
                                        field "settle_date" settle_date
                                          (field "expiry" expiry end)))))))))))))))))))))

  unfoldable pub lookup_invoice : Json → Handler Node Fields
  unfolding invoice_view
  lookup_invoice value = do
    payment_hash ← lift (validate_payment_hash h.show value)
    result ← get_lnd h (text_append "/v1/invoice/" payment_hash) null
    lift (invoice_view result payment_hash)

  unfoldable pub channel_view : Json → Result Failure Channel
  unfolding as_int
  channel_view channel = and_then (get "active" channel) (λ active.
      and_then (get "remote_pubkey" channel) (λ remote_pubkey.
        and_then (get "channel_point" channel) (λ channel_point.
          and_then (int_at h "capacity" channel) (λ capacity.
            and_then (int_at h "local_balance" channel) (λ local.
              and_then (int_at h "remote_balance" channel) (λ remote. ok (record {
                active = is_truthy active;
                remote_pubkey = remote_pubkey;
                channel_point = channel_point;
                capacity_sats = capacity;
                local_balance_sats = local;
                remote_balance_sats = remote;
              })))))))

  unfoldable pub channel_views : Items → Result Failure (List Channel)
  unfolding channel_view
  channel_views nil = ok []
  channel_views (cons channel rest) =
      let views = channel_views rest in
      and_then (channel_view channel) (λ view. and_then views (λ vs. ok (view ∷ vs)))

  -- `result.get("channels", [])` of a dict, as what a `for` runs over; over a dict's keys and over the letters
  -- of a text, none of which has a `get`.
  abbrev channels_in : Json → Result Failure Items
  channels_in (arr items) = ok items
  channels_in (obj end) = ok nil
  channels_in (str s) =
      if length s == 0 then ok nil else err (crash "AttributeError: a letter has no `get`")
  channels_in _ = err (crash "TypeError or AttributeError: no list of channels")

  abbrev channels_of : Json → Result Failure Items
  channels_of (obj result) = elim (get_field "channels" result) [
    | none ↦ ok nil
    | some j ↦ channels_in j
  ]
  channels_of _ = ok nil

  unfoldable pub list_channels : Handler Node (List Channel)
  unfolding channel_views
  list_channels = do
    result ← get_lnd h "/v1/channels" null
    channels ← lift (channels_of result)
    lift (channel_views channels)
