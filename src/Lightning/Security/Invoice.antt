-- ===== src/Lightning/Security/Invoice.antt =====
-- `INVOICE_RE` of lightning_flask/src/core/security.py: `^(ln(bc|tb|bcrt|bs)[0-9a-z]{20,4096})$` under
-- IGNORECASE, under which a range of letters also takes U+0130, U+0131, U+017F and U+212A, and the letter s
-- U+017F.
use Prim.Native.Char.{Char, code}
use Prim.Native.String.{[] as empty, ◌∷◌ as text_cons}
use rails.Prelude.{
  ◌+◌, String, nat_eq, Bool, false, ◌&&◌, ◌||◌, ◌==◌, Option, none, some, leb, if◌then◌else◌,
}
use rails.Text.{length, every, is_alphanumeric}

-- A letter of a pattern, a small one, in either case.
abbrev pub same_letter : Char → Char → Bool
same_letter w c = code c == code w || (code c + 32 == code w || (code w == 115 && code c == 383))

-- The text behind a word.
unfoldable pub after_word : String → String → Option String
after_word empty s = some s
after_word (text_cons w ws) empty = none
after_word (text_cons w ws) (text_cons c s) =
    let rest = after_word ws s in if same_letter w c then rest else none

abbrev is_invoice_char : Char → Bool
is_invoice_char c =
    is_alphanumeric c || (code c == 304 || (code c == 305 || (code c == 383 || code c == 8490)))

abbrev is_body : Option String → Bool
is_body none = false
is_body (some s) = every is_invoice_char s && (leb 20 (length s) && leb (length s) 4096)

unfoldable pub is_invoice : String → Bool
unfolding after_word
is_invoice s =
    is_body (after_word "lnbc" s)
    || (is_body (after_word "lntb" s)
        || (is_body (after_word "lnbcrt" s) || is_body (after_word "lnbs" s)))
