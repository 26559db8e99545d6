-- ===== src/Lightning/Security/Tests.antt =====
-- The validators of lightning_flask/src/core/security.py on concrete inputs.
use rails.Prelude.{String, string_eq, ◌≡◌, refl, true, false, ◌⊎◌, some}
use rails.Text.{strip, strip_start, strip_end, starts_with, drop, truthy, every}
use rails.Text.Digits.{scan}
use rails.Effect.{ok}
use rails.Lightning.Security.Invoice.{after_word}
use rails.Lightning.Security.Bolt11.{match_invoice, decode_bolt11_amount_msat}
use rails.Lightning.Security.Auth.{compare_digest, require_bearer_token_scoped, bearer_is_scoped}

abbrev invoice : String
invoice = "LNBC25u1p3xnhl2pp5jptserfk3zk4qy42tlucycrfwxhydvlemu9pqr93tuzlv9cc7g3s"

-- 25 millionths of a bitcoin are 2500 satoshis.
invoice_amount : decode_bolt11_amount_msat invoice ≡ ok (some 2500000)
unfolding decode_bolt11_amount_msat match_invoice after_word scan
invoice_amount = refl

reader_passes : require_bearer_token_scoped "Bearer  reader " "reader" "writer" false ≡ ok tt
unfolding require_bearer_token_scoped compare_digest starts_with drop strip strip_start strip_end
    every
reader_passes = refl

bearer_is_scoped_example :
    (starts_with "Bearer " "Bearer  reader " ≡ true)
    × (((strip (drop 7 "Bearer  reader ") ≡ "writer") × (truthy "writer" ≡ true))
        ⊎ ((strip (drop 7 "Bearer  reader ") ≡ "reader")
            × (truthy "reader" ≡ true)
            × (false ≡ false)))
bearer_is_scoped_example = bearer_is_scoped "Bearer  reader " "reader" "writer" false reader_passes
