-- ===== src/Bitcoin/Validation/Hex.antt =====
-- A validated text of hex digits is its own normal form.
use Prim.Native.Char.{Char, char, code}
use Prim.Native.String.{[] as empty, ◌∷◌ as text_cons}
use rails.Prelude.{
  ℕ, Bool, ◌⊎◌, ◌||◌, ◌+◌, suc, ◌≤◌, ◌/◌, ◌%◌, String, nat_eq, string_eq, ◌≡◌, refl, sym, ap, true,
  ◌&&◌, ◌==◌, inl, inr, arith, Bool-cases,
}
use rails.Json.{Json, null, bool, int, float, str, arr, obj}
use rails.Text.{length, every, is_between, truthy}
use rails.Effect.{ok}
use rails.Bitcoin.Validation.Text.{
  is_code, is_hex, lower_digit, lower_hex, validate_txid, validate_hex,
}

-- `[0-9a-f]`
abbrev pub is_lower_hex : Char → Bool
is_lower_hex c = is_between 48 57 c || is_between 97 102 c

-- The second text has the characters of the first, some of them 32 codes further: in ASCII a capital letter
-- is that far from its lower case.
abbrev pub Lowers : String → String → Type 0
Lowers empty empty = Unit
Lowers (text_cons c s) (text_cons d t) = ((d ≡ c) ⊎ (code d ≡ code c + 32)) × Lowers s t
Lowers (text_cons c s) empty = ⊥
Lowers empty (text_cons d t) = ⊥

-- What `lower_digit` gives for the hex digit `c`.
record IsLowered (c d : Char) : Type 0 where
  hex : is_hex d ≡ true
  lower : is_lower_hex d ≡ true
  again : lower_digit d ≡ d
  same : (d ≡ c) ⊎ (code d ≡ code c + 32)

lowered :
    {c : Char} (d : Char) (n : ℕ)
    → is_code n c ≡ true
    → is_hex d ≡ true
    → is_lower_hex d ≡ true
    → lower_digit d ≡ d
    → code d ≡ n + 32
    → IsLowered c d
lowered d n e hex lower again far = record {
  hex = hex;
  lower = lower;
  again = again;
  same = inr (ground arith);
}

lower_digit_lem : (c : Char) → is_hex c ≡ true → IsLowered c (lower_digit c)
lower_digit_lem c h = elim (Bool-cases (is_code 65 c)) [
  | inl e ↦ rw e (lowered (char 97 tt) 65 e refl refl refl refl)
  | inr e₁ ↦ elim (Bool-cases (is_code 66 c)) [
    | inl e ↦ rw (e₁, e) (lowered (char 98 tt) 66 e refl refl refl refl)
    | inr e₂ ↦ elim (Bool-cases (is_code 67 c)) [
      | inl e ↦ rw (e₁, e₂, e) (lowered (char 99 tt) 67 e refl refl refl refl)
      | inr e₃ ↦ elim (Bool-cases (is_code 68 c)) [
        | inl e ↦ rw (e₁, e₂, e₃, e) (lowered (char 100 tt) 68 e refl refl refl refl)
        | inr e₄ ↦ elim (Bool-cases (is_code 69 c)) [
          | inl e ↦ rw (e₁, e₂, e₃, e₄, e) (lowered (char 101 tt) 69 e refl refl refl refl)
          | inr e₅ ↦ elim (Bool-cases (is_code 70 c)) [
            | inl e ↦ rw (e₁, e₂, e₃, e₄, e₅, e) (lowered (char 102 tt) 70 e refl refl refl refl)
            | inr e₆ ↦
                rw (e₁, e₂, e₃, e₄, e₅, e₆)
                  (record {
                    hex = h;
                    lower = ground arith;
                    again = rw (e₁, e₂, e₃, e₄, e₅, e₆);
                    same = inl refl;
                  })
          ]
        ]
      ]
    ]
  ]
]

length-lower_hex : (s : String) → length (lower_hex s) ≡ length s
unfolding length lower_hex
length-lower_hex empty = refl
length-lower_hex (text_cons c s) = ap suc (length-lower_hex s)

-- What `lower_hex` gives for the hex digits `s`.
record IsNormal (s t : String) : Type 0 where
  hex : every is_hex t ≡ true
  lower : every is_lower_hex t ≡ true
  again : lower_hex t ≡ t
  same : Lowers s t

lower_hex-IsNormal : (s : String) → every is_hex s ≡ true → IsNormal s (lower_hex s)
unfolding every lower_hex
lower_hex-IsNormal empty h = record { hex = refl; lower = refl; again = refl; same = tt }
lower_hex-IsNormal (text_cons c s) h =
    let here = lower_digit_lem c (ground arith) in
    let rest = lower_hex-IsNormal s (ground arith) in
    record {
      hex = rw (here.hex) rest.hex;
      lower = rw (here.lower) rest.lower;
      again = rw (here.again, rest.again);
      same = (here.same, rest.same);
    }

lower_hex-truthy : (s : String) → truthy (lower_hex s) ≡ truthy s
unfolding lower_hex
lower_hex-truthy empty = refl
lower_hex-truthy (text_cons c s) = refl

-- A txid that `validate_txid` accepts comes out as 64 hex digits, all of them in lower case, that are the
-- digits of the text it is given up to their case, and that it accepts again and leaves as they are.
pub validate_txid_lem :
    (value : Json) (txid : String)
    → validate_txid value ≡ ok txid
    → (length txid ≡ 64)
      × (every is_lower_hex txid ≡ true)
      × ((s : String) × (value ≡ str s) × Lowers s txid)
      × (validate_txid (str txid) ≡ ok txid)
unfolding validate_txid
validate_txid_lem (str s) txid done = elim (Bool-cases (every is_hex s && length s == 64)) [
  | inr other ↦ absurd (ground arith)
  | inl passed ↦
      let n = lower_hex-IsNormal s (ground arith) in
      let size = length-lower_hex s in
      let same : lower_hex s ≡ txid = ground arith in
      rw (sym same, size, n.hex, n.lower, n.again)
        (ground arith, refl, (s, refl, n.same), ground arith)
]
validate_txid_lem (int z) txid done = absurd (cc)
validate_txid_lem null txid done = absurd (cc)
validate_txid_lem (bool b) txid done = absurd (cc)
validate_txid_lem (float x) txid done = absurd (cc)
validate_txid_lem (arr i) txid done = absurd (cc)
validate_txid_lem (obj f) txid done = absurd (cc)

-- A raw transaction that `validate_hex` accepts comes out as hex digits, all of them in lower case, an even
-- number of them and not more than the limit in bytes, that are the digits of the text it is given up to their
-- case, and that it accepts again and leaves as they are.
pub validate_hex_lem :
    (value : Json) (max_bytes : ℕ) (raw : String)
    → validate_hex value max_bytes ≡ ok raw
    → (length raw % 2 ≡ 0)
      × (length raw / 2 ≤ max_bytes)
      × (every is_lower_hex raw ≡ true)
      × ((s : String) × (value ≡ str s) × Lowers s raw)
      × (validate_hex (str raw) max_bytes ≡ ok raw)
unfolding validate_hex
validate_hex_lem (str s) max_bytes raw done = elim (Bool-cases (every is_hex s)) [
  | inr other ↦ absurd (ground arith)
  | inl passed ↦
      let n = lower_hex-IsNormal s passed in
      let size = length-lower_hex s in
      let full = lower_hex-truthy s in
      let same : lower_hex s ≡ raw = ground arith in
      rw (sym same, size, n.hex, n.lower, n.again, full)
        (ground arith, ground arith, refl, (s, refl, n.same), ground arith)
]
validate_hex_lem (int z) max_bytes raw done = absurd (cc)
validate_hex_lem null max_bytes raw done = absurd (cc)
validate_hex_lem (bool b) max_bytes raw done = absurd (cc)
validate_hex_lem (float x) max_bytes raw done = absurd (cc)
validate_hex_lem (arr i) max_bytes raw done = absurd (cc)
validate_hex_lem (obj f) max_bytes raw done = absurd (cc)
