-- ===== src/Bitcoin/Validation/Sats/Exact.antt =====
-- The amounts that go to Bitcoin Core come back as they were.
use Prim.Native.Char.{Char, code, char}
use Prim.Native.String.{[] as empty, ◌∷◌ as text_cons}
use rails.Prelude.{
  ℕ, zero, suc, ◌+◌, ◌*◌, ◌/◌, ◌%◌, ◌<◌, String, nat_eq, Bool, ◌≡◌, refl, ◌∙◌, ap, true, false,
  ◌||◌, ◌==◌, none, some, arith, ltb, inl, inr, Bool-cases,
}
use rails.Prelude.Int.{pos}
use rails.Json.{str}
use rails.Text.{strip, strip_start, strip_end, every, is_digit, is_space, truthy}
use rails.Text.Digits.{digit_char, code-digit_char, put_digits, scan, scan-put_digits, scan-digit}
use rails.Effect.{ok}
use rails.Bitcoin.Validation.Sats.{
  finite, fraction, sats_to_btc_string, parse_decimal, drop_underscores, signed, unsigned,
  behind_digits, behind_point, exponent, with_exponent, btc_to_sats, round_28, truncated,
  is_special, after_word,
}

module _ (whole count n : ℕ) where
  pub scan-fraction :
      n < 100000000
      → scan whole count (fraction n)
        ≡ (whole * 100000000 + n, suc (suc (suc (suc (suc (suc (suc (suc count))))))), empty)
  unfolding fraction scan
  scan-fraction h =
      scan-digit whole count (n / 10000000 % 10)
        (text_cons (digit_char (n / 1000000 % 10)) (
          text_cons (digit_char (n / 100000 % 10)) (
            text_cons (digit_char (n / 10000 % 10)) (
              text_cons (digit_char (n / 1000 % 10)) (
                text_cons (digit_char (n / 100 % 10)) (
                  text_cons (digit_char (n / 10 % 10)) (text_cons (digit_char (n % 10)) empty)))))))
        (omega arith)
      ∙ scan-digit (whole * 10 + n / 10000000 % 10) (suc count) (n / 1000000 % 10)
          (text_cons (digit_char (n / 100000 % 10)) (
            text_cons (digit_char (n / 10000 % 10)) (
              text_cons (digit_char (n / 1000 % 10)) (
                text_cons (digit_char (n / 100 % 10))
                  (text_cons (digit_char (n / 10 % 10)) (text_cons (digit_char (n % 10)) empty))))))
          (omega arith)
      ∙ scan-digit ((whole * 10 + n / 10000000 % 10) * 10 + n / 1000000 % 10) (suc (suc count))
          (n / 100000 % 10)
          (text_cons (digit_char (n / 10000 % 10)) (
            text_cons (digit_char (n / 1000 % 10)) (
              text_cons (digit_char (n / 100 % 10))
                (text_cons (digit_char (n / 10 % 10)) (text_cons (digit_char (n % 10)) empty)))))
          (omega arith)
      ∙ scan-digit
          (((whole * 10 + n / 10000000 % 10) * 10 + n / 1000000 % 10) * 10 + n / 100000 % 10)
          (suc (suc (suc count))) (n / 10000 % 10)
          (text_cons (digit_char (n / 1000 % 10)) (
            text_cons (digit_char (n / 100 % 10))
              (text_cons (digit_char (n / 10 % 10)) (text_cons (digit_char (n % 10)) empty))))
          (omega arith)
      ∙ scan-digit
          ((((whole * 10 + n / 10000000 % 10) * 10 + n / 1000000 % 10) * 10 + n / 100000 % 10) * 10
            + n / 10000 % 10)
          (suc (suc (suc (suc count)))) (n / 1000 % 10)
          (text_cons (digit_char (n / 100 % 10))
            (text_cons (digit_char (n / 10 % 10)) (text_cons (digit_char (n % 10)) empty)))
          (omega arith)
      ∙ scan-digit
          (((((whole * 10 + n / 10000000 % 10) * 10 + n / 1000000 % 10) * 10 + n / 100000 % 10) * 10
                + n / 10000 % 10)
              * 10
            + n / 1000 % 10)
          (suc (suc (suc (suc (suc count))))) (n / 100 % 10)
          (text_cons (digit_char (n / 10 % 10)) (text_cons (digit_char (n % 10)) empty))
          (omega arith)
      ∙ scan-digit
          ((((((whole * 10 + n / 10000000 % 10) * 10 + n / 1000000 % 10) * 10 + n / 100000 % 10)
                      * 10
                    + n / 10000 % 10)
                  * 10
                + n / 1000 % 10)
              * 10
            + n / 100 % 10)
          (suc (suc (suc (suc (suc (suc count)))))) (n / 10 % 10)
          (text_cons (digit_char (n % 10)) empty) (omega arith)
      ∙ scan-digit
          (((((((whole * 10 + n / 10000000 % 10) * 10 + n / 1000000 % 10) * 10 + n / 100000 % 10)
                          * 10
                        + n / 10000 % 10)
                      * 10
                    + n / 1000 % 10)
                  * 10
                + n / 100 % 10)
              * 10
            + n / 10 % 10)
          (suc (suc (suc (suc (suc (suc (suc count))))))) (n % 10) empty (omega arith)
      ∙ ap (λ (m : ℕ). (m, (suc (suc (suc (suc (suc (suc (suc (suc count)))))))), empty))
          (omega arith)

-- The characters of a plain number: digits and the point.
abbrev is_plain : Char → Bool
is_plain c = is_digit c || code c == 46

digit_char-plain : (n : ℕ) → n < 10 → is_plain (digit_char n) ≡ true
digit_char-plain n h = ground (arith, code-digit_char n)

put_digits-plain :
    (fuel n : ℕ) (after : String)
    → every is_plain after ≡ true
    → every is_plain (put_digits fuel n after) ≡ true
unfolding put_digits every
put_digits-plain zero n after h = h
put_digits-plain (suc fuel) n after h = elim (Bool-cases (ltb n 10)) [
  | inl last ↦ rw (last, digit_char-plain (n % 10) (omega arith)) h
  | inr more ↦
      rw more (put_digits-plain fuel (n / 10) _ (rw (digit_char-plain (n % 10) (omega arith)) h))
]

fraction-plain : (n : ℕ) → every is_plain (fraction n) ≡ true
unfolding fraction every
fraction-plain n = rw (
  digit_char-plain (n / 10000000 % 10) (omega arith),
  digit_char-plain (n / 1000000 % 10) (omega arith),
  digit_char-plain (n / 100000 % 10) (omega arith),
  digit_char-plain (n / 10000 % 10) (omega arith),
  digit_char-plain (n / 1000 % 10) (omega arith),
  digit_char-plain (n / 100 % 10) (omega arith),
  digit_char-plain (n / 10 % 10) (omega arith),
  digit_char-plain (n % 10) (omega arith),
)

point-plain : (n : ℕ) → every is_plain (text_cons (char 46 tt) (fraction n)) ≡ true
unfolding every
point-plain n = fraction-plain n

plain_char : (c : Char) → is_plain c ≡ true → (is_space c ≡ false) × (code c == 95 ≡ false)
plain_char c h = (ground arith, ground arith)

strip-plain :
    (s : String)
    → every is_plain s ≡ true
    → (strip_start s ≡ s) × (strip_end s ≡ s) × (drop_underscores s ≡ s)
unfolding every strip_start strip_end drop_underscores
strip-plain empty h = (refl, refl, refl)
strip-plain (text_cons c s) h =
    let p = plain_char c (ground arith) in
    let r = strip-plain s (ground arith) in (rw (p.0), rw (p.0, r.1), rw (p.1, r.2))

-- A plain text has no sign and is no name of a special number.
after_word-miss :
    (w c : Char) (ws s : String)
    → code c == code w || code c + 32 == code w ≡ false
    → after_word (text_cons w ws) (text_cons c s) ≡ none
after_word-miss w c ws s h = rw h

not-special : (c : Char) (s : String) → is_plain c ≡ true → is_special (text_cons c s) ≡ false
not-special c s h =
    let a : after_word "inf" (text_cons c s) ≡ none = after_word-miss "i" c "nf" s (ground arith) in
    let b : after_word "infinity" (text_cons c s) ≡ none =
      after_word-miss "i" c "nfinity" s (ground arith) in
    let d : after_word "nan" (text_cons c s) ≡ none = after_word-miss "n" c "an" s (ground arith) in
    let e : after_word "snan" (text_cons c s) ≡ none =
      after_word-miss "s" c "nan" s (ground arith) in
    ground (arith, a, b, d, e)

signed-plain :
    (c : Char) (s : String)
    → is_plain c ≡ true
    → signed (text_cons c s) ≡ behind_digits false (scan 0 0 (text_cons c s))
unfolding signed unsigned
signed-plain c s h =
    let minus : code c == 45 ≡ false = ground arith in
    let plus : code c == 43 ≡ false = ground arith in rw (minus, plus, not-special c s h)

parse_decimal-plain :
    (s : String)
    → truthy s ≡ true
    → every is_plain s ≡ true
    → parse_decimal s ≡ behind_digits false (scan 0 0 s)
unfolding parse_decimal strip every
parse_decimal-plain empty t h = absurd (cc)
parse_decimal-plain (text_cons c s) t h =
    let (a, b, d) = strip-plain (text_cons c s) h in rw (b, a, d) (signed-plain c s (ground arith))

truthy-put_digits :
    (fuel n : ℕ) (after : String) → truthy after ≡ true → truthy (put_digits fuel n after) ≡ true
unfolding put_digits
truthy-put_digits zero n after h = h
truthy-put_digits (suc fuel) n after h = elim (Bool-cases (ltb n 10)) [
  | inl last ↦ rw last
  | inr more ↦ rw more (truthy-put_digits fuel (n / 10) _ refl)
]

behind_digits-written :
    (whole n count : ℕ)
    → n < 100000000
    → behind_digits false (scan whole (suc count) (text_cons (char 46 tt) (fraction n)))
      ≡ some (finite false (whole * 100000000 + n) 0 8)
unfolding behind_digits behind_point exponent with_exponent scan
behind_digits-written whole n count h = rw (scan-fraction whole (suc count) n h) (ground arith)

-- The text of an amount is read as the amount, in units of 10 ^ -8.
parse-written :
    (whole n : ℕ)
    → n < 100000000
    → parse_decimal (put_digits (suc whole) whole (text_cons (char 46 tt) (fraction n)))
      ≡ some (finite false (whole * 100000000 + n) 0 8)
parse-written whole n h =
    let text : String = put_digits (suc whole) whole (text_cons (char 46 tt) (fraction n)) in
    let (k, e) =
      scan-put_digits (suc whole) whole (text_cons (char 46 tt) (fraction n)) (omega arith) in
    parse_decimal-plain text (truthy-put_digits (suc whole) whole _ refl)
      (put_digits-plain (suc whole) whole (text_cons (char 46 tt) (fraction n)) (point-plain n))
    ∙ ap (behind_digits false) e
    ∙ behind_digits-written whole n k h

unchanged-round_28 : (c : ℕ) → c < 10000000000000000000000000000 → round_28 c ≡ (c, 0)
unfolding round_28
unchanged-round_28 c h = ground arith

-- An amount of less than 10 ^ 20 satoshis that is written for Bitcoin Core in BTC is read back as the same
-- amount.
pub btc_to_sats-sats_to_btc_string :
    (sats : ℕ)
    → sats < 100000000000000000000
    → (text : String) × (sats_to_btc_string sats ≡ ok text)
      × (btc_to_sats (str text) ≡ ok (pos sats))
unfolding sats_to_btc_string btc_to_sats truncated
btc_to_sats-sats_to_btc_string sats h = (
  put_digits (suc (sats / 100000000)) (sats / 100000000)
      (text_cons (char 46 tt) (fraction (sats % 100000000))),
  ground arith,
  rw
      (
        parse-written (sats / 100000000) (sats % 100000000) (omega arith),
        unchanged-round_28 ((sats / 100000000 * 100000000 + sats % 100000000) * 100000000)
            (omega arith),
      )
      (ap (λ (n : ℕ). ok (pos n)) (omega arith)),
)
