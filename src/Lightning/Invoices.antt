-- ===== src/Lightning/Invoices.antt =====
-- lightning_flask/src/api/app.py: the handlers of the invoices, and those that only read.
use rails.Prelude.{ℕ, suc, ◌+◌, String, true, Option, none, some, List, [], ◌∷◌, if◌then◌else◌}
use rails.Prelude.Int.{ℤ, pos, ◌+ℤ◌}
use rails.Json.{Json, Fields, bool, int, str, obj, end, field, get_field, get_or_null}
use rails.Effect.{pure, lift, ◌>>=◌, ◌>>◌}
use rails.Lightning.Config.{Settings}
use rails.Lightning.Security.{
  require_json_object, parse_sats, parse_optional_int, validate_memo, validate_payment_hash,
}
use rails.Lightning.Store.Events.{append_event, event_row}
use rails.Lightning.Host.{Host, Handler, stored}
use rails.Lightning.Lnd.{lookup_payment}
use rails.Lightning.Lnd.Invoices.{Channel, create_invoice, lookup_invoice, list_channels}
use rails.Lightning.Api.{Request, Response, json, require_idempotency, idempotent}

-- `body.get("memo", "")`
abbrev memo_in : Fields → Json
memo_in body = elim (get_field "memo" body) [ none ↦ str "" | some memo ↦ memo ]

abbrev column_of : Json → Option String
column_of (str s) = some s
column_of j = none

abbrev ok_with : String → Json → Fields
ok_with name j = field "success" (bool true) (field name j end)

module _ {Node : Type 0} (s : Settings) (h : Host Node) where
  -- POST /v1/invoices; LND's payment hash is a text or missing.
  unfoldable pub create_invoice_handler : Request → Handler Node Response
  unfolding require_idempotency require_json_object parse_sats validate_memo parse_optional_int
      append_event idempotent
  create_invoice_handler r = do
    require_idempotency h r
    body ← lift (require_json_object r.body)
    amount_sats ←
        lift (parse_sats (get_or_null "amount_sats" body) "amount_sats" s.max_invoice_sats)
    memo ← lift (validate_memo h.show (memo_in body))
    expiry_seconds ← lift (
        parse_optional_int (get_or_null "expiry_seconds" body) "expiry_seconds"
          s.default_invoice_expiry_seconds 60 2592000)
    result ← create_invoice h amount_sats memo expiry_seconds
    stored h (λ now uuid. append_event (
        event_row h.lower now "invoice_created" (column_of (get_or_null "payment_hash" result))
          (some amount_sats) (some "open")
          (field "memo" (str memo) (field "expiry_seconds" (int (pos expiry_seconds)) end)) ""))
    idempotent h r (ok_with "invoice" (obj result)) 201

  -- GET /v1/invoices/<payment_hash>
  unfoldable pub lookup_invoice_handler : String → Handler Node Response
  unfolding validate_payment_hash lookup_invoice
  lookup_invoice_handler value = do
    payment_hash ← lift (validate_payment_hash h.show (str value))
    invoice ← lookup_invoice h (str payment_hash)
    pure (json (ok_with "invoice" (obj invoice)) 200)

  -- GET /v1/payments/<payment_hash>
  unfoldable pub lookup_payment_handler : String → Handler Node Response
  unfolding validate_payment_hash lookup_payment
  lookup_payment_handler value = do
    payment_hash ← lift (validate_payment_hash h.show (str value))
    payment ← lookup_payment h (str payment_hash)
    pure (json (ok_with "payment" (obj payment)) 200)

  unfoldable pub active_count : List Channel → ℕ
  active_count [] = 0
  active_count (c ∷ channels) = (if c.active then 1 else 0) + active_count channels

  unfoldable pub channel_count : List Channel → ℕ
  channel_count [] = 0
  channel_count (c ∷ channels) = suc (channel_count channels)

  unfoldable pub outbound : List Channel → ℤ
  outbound [] = pos 0
  outbound (c ∷ channels) = c.local_balance_sats +ℤ outbound channels

  unfoldable pub inbound : List Channel → ℤ
  inbound [] = pos 0
  inbound (c ∷ channels) = c.remote_balance_sats +ℤ inbound channels

  -- GET /v1/channels
  unfoldable pub channels_handler : Handler Node Response
  unfolding list_channels active_count channel_count outbound inbound
  channels_handler = do
    channels ← list_channels h
    pure (
        json
          (field "success" (bool true) (
            field "activeChannelCount" (int (pos (active_count channels))) (
              field "totalChannelCount" (int (pos (channel_count channels))) (
                field "outboundLiquiditySats" (int (outbound channels))
                  (field "inboundLiquiditySats" (int (inbound channels)) end)))))
          200)
