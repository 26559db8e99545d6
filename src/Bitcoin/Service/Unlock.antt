-- ===== src/Bitcoin/Service/Unlock.antt =====
-- bitcoin_core_backend/src/services/bitcoin_service.py: `_unlock_psbt_inputs`.
use rails.Prelude.{String, string_eq, true, none, some, if◌then◌else◌}
use rails.Json.{
  Json, Items, Fields, null, bool, str, arr, obj, nil, cons, end, field, get_or_null, is_truthy,
}
use rails.Effect.{Result, ok, err, pure, raise, lift, attempt, ◌>>=◌, ◌>>◌}
use rails.Bitcoin.Errors.{Error, crash}
use rails.Bitcoin.Service.World.{Host, Service, one, two, call}
use rails.Bitcoin.Service.Funding.{Funded, is_int}

-- The inputs that are unlocked: of each `vin` entry that is a dict with a txid and a whole `vout`.
abbrev pub input_of : Fields → Items → Items
input_of item rest =
    if is_truthy (get_or_null "txid" item)
    then (if is_int (get_or_null "vout" item)
        then cons
            (obj
              (field "txid" (get_or_null "txid" item) (field "vout" (get_or_null "vout" item) end)))
            rest
        else rest)
    else rest

unfoldable pub unlocked_inputs : Items → Items
unlocked_inputs nil = nil
unlocked_inputs (cons (obj item) rest) = input_of item (unlocked_inputs rest)
unlocked_inputs (cons _ rest) = unlocked_inputs rest

-- `(decoded.get("tx") or {}).get("vin")` of a dict; of any other document there is no vin.
abbrev vin_in : Json → Result Error Json
vin_in (obj tx) = ok (get_or_null "vin" tx)
vin_in j = if is_truthy j then err (crash "AttributeError: no `get`") else ok null

unfoldable pub vin_of : Json → Result Error Json
vin_of (obj decoded) = vin_in (get_or_null "tx" decoded)
vin_of _ = ok null

module _ {Node : Type 0} (h : Host Node) where
  unfoldable pub unlock_all : String → Items → Service Node Unit
  unlock_all wallet nil = pure tt
  unlock_all wallet inputs = do
    call h "lockunspent" (two (bool true) (arr inputs)) (some wallet)
    pure tt

  unfoldable pub unlock : String → Json → Service Node Unit
  unfolding unlock_all
  unlock wallet (arr vin) = unlock_all wallet (unlocked_inputs vin)
  unlock wallet _ = pure tt

  unfoldable pub unlock_decoded : String → String → Service Node Unit
  unfolding vin_of unlock
  unlock_decoded wallet psbt = do
    decoded ← call h "decodepsbt" (one (str psbt)) none
    vin ← lift (vin_of decoded)
    unlock wallet vin

  -- `_unlock_psbt_inputs`, which swallows every exception.
  unfoldable pub unlock_psbt_inputs : String → String → Service Node Unit
  unfolding unlock_decoded
  unlock_psbt_inputs wallet psbt = do attempt (unlock_decoded wallet psbt); pure tt

  -- `except Exception: self._unlock_psbt_inputs(…); raise`
  abbrev pub or_unlock : {A : Type 0} → Funded → Result Error A → Service Node A
  or_unlock funded (ok a) = pure a
  or_unlock funded (err e) = do unlock_psbt_inputs funded.wallet funded.psbt; raise e
