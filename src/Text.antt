-- ===== src/Text.antt =====
-- Text as the program cuts and tests it, character by character.
pub mod Digits
pub mod Integer
use Prim.Native.String.{[], ◌∷◌}
use Prim.Native.Char.{Char, code}
use rails.Prelude.{
  ℕ, zero, suc, ◌+◌, ◌-◌, ◌*◌, String, Bool, true, false, ◌&&◌, ◌||◌, not, ◌==◌, nat_eq, Option,
  none, some, leb, if◌then◌else◌,
}

-- `s[:n]`
unfoldable pub take : ℕ → String → String
take zero s = []
take (suc n) [] = []
take (suc n) (c ∷ s) = c ∷ take n s

-- The truth value of a text, and of a column that may be NULL.
abbrev pub truthy : String → Bool
truthy [] = false
truthy (c ∷ s) = true

abbrev pub truthy_column : Option String → Bool
truthy_column none = false
truthy_column (some s) = truthy s

-- `len(s)`, in characters.
unfoldable pub length : String → ℕ
length [] = 0
length (c ∷ s) = suc (length s)

-- A character class of a pattern, over the whole text.
unfoldable pub every : (Char → Bool) → String → Bool
every p [] = true
every p (c ∷ s) = p c && every p s

abbrev pub is_between : ℕ → ℕ → Char → Bool
is_between low high c = leb low (code c) && leb (code c) high

-- `[0-9]`
abbrev pub is_digit : Char → Bool
is_digit c = is_between 48 57 c

-- `[A-Za-z0-9]`
abbrev pub is_alphanumeric : Char → Bool
is_alphanumeric c = is_digit c || (is_between 65 90 c || is_between 97 122 c)

-- `int(s)` on a text of digits, behind what has been read.
unfoldable pub digits_value : ℕ → String → ℕ
digits_value read [] = read
digits_value read (c ∷ s) = digits_value (read * 10 + (code c - 48)) s

-- `str.isspace` of one character.
abbrev pub is_space : Char → Bool
is_space c =
    is_between 9 13 c
    || (is_between 28 32 c
        || (is_between 133 133 c
            || (is_between 160 160 c
                || (is_between 5760 5760 c
                    || (is_between 8192 8202 c
                        || (is_between 8232 8233 c
                            || (is_between 8239 8239 c
                                || (is_between 8287 8287 c || is_between 12288 12288 c))))))))

unfoldable pub strip_start : String → String
strip_start [] = []
strip_start (c ∷ s) = let rest = strip_start s in if is_space c then rest else c ∷ s

unfoldable pub strip_end : String → String
strip_end [] = []
strip_end (c ∷ s) =
    let rest = strip_end s in if is_space c && not (truthy rest) then [] else c ∷ rest

-- `s.strip()`
unfoldable pub strip : String → String
unfolding strip_start strip_end
strip s = strip_start (strip_end s)

-- `s.startswith(part)`, and `part in s`.
unfoldable pub starts_with : String → String → Bool
starts_with [] s = true
starts_with (p ∷ part) [] = false
starts_with (p ∷ part) (c ∷ s) = code p == code c && starts_with part s

unfoldable pub is_infix : String → String → Bool
unfolding starts_with
is_infix part [] = starts_with part []
is_infix part (c ∷ s) = starts_with part (c ∷ s) || is_infix part s

-- `s[n:]`
unfoldable pub drop : ℕ → String → String
drop zero s = s
drop (suc n) [] = []
drop (suc n) (c ∷ s) = drop n s
