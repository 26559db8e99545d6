-- ===== src/Text/Digits.antt =====
-- Numbers as decimal text: `str(n)`, and the digits at the head of a text.
use Prim.Native.Char.{Char, char, code}
use Prim.Native.String.{[], ◌∷◌}
use rails.Prelude.{
  ℕ, zero, suc, ◌+◌, ◌-◌, ◌*◌, ◌/◌, ◌%◌, ◌<◌, String, ◌≡◌, refl, ap, ◌∙◌, false, nat_eq, arith, ltb,
  if◌then◌else◌, inl, inr, Bool-cases,
}
use rails.Text.{is_digit}

-- The digit of a number below ten.
unfoldable pub digit_char : ℕ → Char
digit_char zero = char 48 tt
digit_char (suc zero) = char 49 tt
digit_char (suc (suc zero)) = char 50 tt
digit_char (suc (suc (suc zero))) = char 51 tt
digit_char (suc (suc (suc (suc zero)))) = char 52 tt
digit_char (suc (suc (suc (suc (suc zero))))) = char 53 tt
digit_char (suc (suc (suc (suc (suc (suc zero)))))) = char 54 tt
digit_char (suc (suc (suc (suc (suc (suc (suc zero))))))) = char 55 tt
digit_char (suc (suc (suc (suc (suc (suc (suc (suc zero)))))))) = char 56 tt
digit_char _ = char 57 tt

pub code-digit_char : (n : ℕ) → n < 10 → code (digit_char n) ≡ 48 + n
unfolding digit_char
code-digit_char zero h = refl
code-digit_char (suc zero) h = refl
code-digit_char (suc (suc zero)) h = refl
code-digit_char (suc (suc (suc zero))) h = refl
code-digit_char (suc (suc (suc (suc zero)))) h = refl
code-digit_char (suc (suc (suc (suc (suc zero))))) h = refl
code-digit_char (suc (suc (suc (suc (suc (suc zero)))))) h = refl
code-digit_char (suc (suc (suc (suc (suc (suc (suc zero))))))) h = refl
code-digit_char (suc (suc (suc (suc (suc (suc (suc (suc zero)))))))) h = refl
code-digit_char (suc (suc (suc (suc (suc (suc (suc (suc (suc zero))))))))) h = refl
code-digit_char (suc (suc (suc (suc (suc (suc (suc (suc (suc (suc n)))))))))) h =
    absurd (omega arith)

-- The digits of `n` before a text; a number has fewer digits than its successor counts.
unfoldable pub put_digits : ℕ → ℕ → String → String
put_digits zero n after = after
put_digits (suc fuel) n after =
    let more = put_digits fuel (n / 10) (digit_char (n % 10) ∷ after) in
    if ltb n 10 then digit_char (n % 10) ∷ after else more

-- `str(n)`
unfoldable pub nat_text : ℕ → String
unfolding put_digits
nat_text n = put_digits (suc n) n []

-- What the digits at the head of a text are worth behind those already read, how many they are with
-- those, and what follows them.
unfoldable pub scan : ℕ → ℕ → String → ℕ × ℕ × String
scan value count [] = (value, count, [])
scan value count (c ∷ s) =
    let more = scan (value * 10 + (code c - 48)) (suc count) s in
    if is_digit c then more else (value, count, c ∷ s)

pub scan-digit :
    (value count n : ℕ) (s : String)
    → n < 10
    → scan value count (digit_char n ∷ s) ≡ scan (value * 10 + n) (suc count) s
unfolding scan
scan-digit value count n s h = ground (arith, code-digit_char n)

deeper :
    (n : ℕ) (after : String)
    → ltb n 10 ≡ false
    → (text : String)
    → (k : ℕ) × (scan 0 0 text ≡ scan (n / 10) (suc k) (digit_char (n % 10) ∷ after))
    → (k : ℕ) × (scan 0 0 (if ltb n 10 then digit_char (n % 10) ∷ after else text)
        ≡ scan n (suc k) after)
deeper n after more text (k, e) = (
  suc k,
  rw (more, e)
      (scan-digit (n / 10) (suc k) (n % 10) after (omega arith)
        ∙ ap (λ m. scan m (suc (suc k)) after) (omega arith)),
)

-- The digits that `put_digits` writes are read back as the number.
pub scan-put_digits :
    (fuel n : ℕ) (after : String)
    → n < fuel
    → (k : ℕ) × (scan 0 0 (put_digits fuel n after) ≡ scan n (suc k) after)
unfolding put_digits
scan-put_digits zero n after h = absurd (omega arith)
scan-put_digits (suc fuel) n after h = elim (Bool-cases (ltb n 10)) [
  | inl last ↦ (
    0,
    rw last (scan-digit 0 0 (n % 10) after (omega arith) ∙ ap (λ m. scan m 1 after) (ground arith)),
  )
  | inr more ↦
      deeper n after more (put_digits fuel (n / 10) (digit_char (n % 10) ∷ after))
        (scan-put_digits fuel (n / 10) (digit_char (n % 10) ∷ after) (ground arith))
]
