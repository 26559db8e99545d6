-- ===== src/Text/Integer.antt =====
-- `int(text)` of Python, for texts whose digits are ASCII: spaces around, a sign, digits with single
-- underscores between them, of which 4300 are allowed; `none` is a ValueError.
use Prim.Native.Char.{code}
use Prim.Native.String.{[], ◌∷◌}
use rails.Prelude.{
  ℕ, zero, suc, ◌+◌, ◌-◌, ◌*◌, String, Bool, true, false, ◌&&◌, ◌||◌, ◌==◌, nat_eq, Option, none,
  some, ltb, if◌then◌else◌,
}
use rails.Prelude.Int.{ℤ, pos, negsuc}
use rails.Text.{is_digit, strip}

-- What the digits are worth behind those read, `last` being whether a digit stands before.
unfoldable pub int_digits : ℕ → ℕ → Bool → String → Option ℕ
int_digits value count last [] =
    if last then (if ltb 4300 count then none else some value) else none
int_digits value count last (c ∷ s) =
    let rest =
      int_digits (if is_digit c then value * 10 + (code c - 48) else value)
        (if is_digit c then suc count else count) (is_digit c) s in
    if is_digit c || (code c == 95 && last) then rest else none

abbrev with_sign : Bool → Option ℕ → Option ℤ
with_sign negative none = none
with_sign true (some zero) = some (pos 0)
with_sign true (some (suc n)) = some (negsuc n)
with_sign false (some n) = some (pos n)

abbrev signed_int : String → Option ℤ
signed_int [] = none
signed_int (c ∷ s) =
    if code c == 45
    then with_sign true (int_digits 0 0 false s)
    else if code c == 43
    then with_sign false (int_digits 0 0 false s)
    else with_sign false (int_digits 0 0 false (c ∷ s))

unfoldable pub parse_int : String → Option ℤ
unfolding int_digits strip
parse_int s = signed_int (strip s)
