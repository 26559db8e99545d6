-- ===== src/Lightning/Strip/Clean.antt =====
-- What `_strip_keys` and `_sanitize` take out of a document, and what they leave: the keys that are to be
-- stripped are described by membership, apart from the code's test.
use rails.Prelude.{
  String, string_eq, ◌≡◌, refl, ◌⊎◌, Bool, true, false, ◌==◌, none, List, [], ◌∷◌, arith, inl, inr,
  Bool-cases, eq_iff, if◌then◌else◌,
}
use rails.Json.{
  Json, Items, Fields, null, bool, int, float, str, arr, obj, nil, cons, end, field, get_field,
}
use rails.Lightning.Strip.{
  is_in, is_stripped, strip_keys, strip_items, strip_fields, without, sanitize, sensitive_keys,
}

-- The key is one of the keys.
abbrev pub IsAmong : String → List String → Type 0
IsAmong key [] = ⊥
IsAmong key (k ∷ keys) = (key ≡ k) ⊎ IsAmong key keys

-- The key or its lower case is one of the keys.
abbrev pub IsSensitive : (String → String) → List String → String → Type 0
IsSensitive lower keys key = IsAmong key keys ⊎ IsAmong (lower key) keys

-- The second document is the first without the fields of sensitive keys: its other fields are there in their
-- order, all its items, and all that is no dict or list is as it was.
abbrev mutual
  pub Strips : (String → String) → List String → Json → Json → Type 0
  Strips lower keys (obj fields) j =
      (kept : Fields) × (j ≡ obj kept) × StripsFields lower keys fields kept
  Strips lower keys (arr items) j =
      (kept : Items) × (j ≡ arr kept) × StripsItems lower keys items kept
  Strips lower keys null j = j ≡ null
  Strips lower keys (bool b) j = j ≡ bool b
  Strips lower keys (int n) j = j ≡ int n
  Strips lower keys (float x) j = j ≡ float x
  Strips lower keys (str s) j = j ≡ str s

  pub StripsItems : (String → String) → List String → Items → Items → Type 0
  StripsItems lower keys nil kept = kept ≡ nil
  StripsItems lower keys (cons j rest) kept =
      (j' : Json) × (rest' : Items) × (kept ≡ cons j' rest')
      × Strips lower keys j j'
      × StripsItems lower keys rest rest'

  pub StripsFields : (String → String) → List String → Fields → Fields → Type 0
  StripsFields lower keys end kept = kept ≡ end
  StripsFields lower keys (field k v rest) kept =
      (IsSensitive lower keys k × StripsFields lower keys rest kept)
      ⊎ ((¬ IsSensitive lower keys k)
          × ((v' : Json) × (rest' : Fields) × (kept ≡ field k v' rest')
              × Strips lower keys v v'
              × StripsFields lower keys rest rest'))

IsAmong-cases :
    (key : String) (keys : List String)
    → ((is_in key keys ≡ true) × IsAmong key keys)
      ⊎ ((is_in key keys ≡ false) × (¬ IsAmong key keys))
IsAmong-cases key [] = inr (refl, λ h. h)
IsAmong-cases key (k ∷ keys) = elim (Bool-cases (key == k)) [
  | inl here ↦ inl (rw here, inl ((eq_iff key k).0 here))
  | inr other ↦ elim (IsAmong-cases key keys) [
    | inl (found, there) ↦ inl (rw (other, found), inr there)
    | inr (missing, nowhere) ↦ inr (
      rw (other, missing),
      λ h. elim h [ inl same ↦ ground (arith, eq_iff key k) | inr there ↦ nowhere there ],
    )
  ]
]

IsSensitive-cases :
    (lower : String → String) (keys : List String) (key : String)
    → ((is_stripped lower keys key ≡ true) × IsSensitive lower keys key)
      ⊎ ((is_stripped lower keys key ≡ false) × (¬ IsSensitive lower keys key))
IsSensitive-cases lower keys key = elim (IsAmong-cases key keys) [
  | inl (found, there) ↦ inl (rw found, inl there)
  | inr (missing, nowhere) ↦ elim (IsAmong-cases (lower key) keys) [
    | inl (found, there) ↦ inl (rw (missing, found), inr there)
    | inr (missing', nowhere') ↦ inr (
      rw (missing, missing'),
      λ h. elim h [ inl there ↦ nowhere there | inr there ↦ nowhere' there ],
    )
  ]
]

mutual
  unfolding strip_keys

  strip_keys-Strips :
      (lower : String → String) (keys : List String) (j : Json)
      → Strips lower keys j (strip_keys lower keys j)
  strip_keys-Strips lower keys (obj fields) = (_, refl, strip_fields-Strips lower keys fields)
  strip_keys-Strips lower keys (arr items) = (_, refl, strip_items-Strips lower keys items)
  strip_keys-Strips lower keys null = refl
  strip_keys-Strips lower keys (bool b) = refl
  strip_keys-Strips lower keys (int n) = refl
  strip_keys-Strips lower keys (float x) = refl
  strip_keys-Strips lower keys (str s) = refl

  strip_items-Strips :
      (lower : String → String) (keys : List String) (i : Items)
      → StripsItems lower keys i (strip_items lower keys i)
  strip_items-Strips lower keys nil = refl
  strip_items-Strips lower keys (cons j rest) =
      (_, _, refl, strip_keys-Strips lower keys j, strip_items-Strips lower keys rest)

  strip_fields-Strips :
      (lower : String → String) (keys : List String) (f : Fields)
      → StripsFields lower keys f (strip_fields lower keys f)
  strip_fields-Strips lower keys end = refl
  strip_fields-Strips lower keys (field k v rest) = elim (IsSensitive-cases lower keys k) [
    | inl (gone, sensitive) ↦ rw gone (inl (sensitive, strip_fields-Strips lower keys rest))
    | inr (kept, plain) ↦ rw kept (
        inr (
          plain,
          (_, _, refl, strip_keys-Strips lower keys v, strip_fields-Strips lower keys rest),
        ))
  ]

-- `_strip_keys` takes out of a document, at every depth, the fields whose key or its lower case is one of
-- the keys, and these only: the other fields stay in their order with their values, stripped in the same way,
-- every item of a list stays, stripped too, and what is no dict or list is left as it is.
pub strip_keys_lem :
    (lower : String → String) (keys : List String) (j : Json)
    → Strips lower keys j (strip_keys lower keys j)
strip_keys_lem = strip_keys-Strips

get_field-without :
    (drop : String → Bool) (key : String) (fields : Fields)
    → get_field key (without drop fields) ≡ (if drop key then none else get_field key fields)
unfolding without
get_field-without drop key end = ground arith
get_field-without drop key (field k v rest) = elim (Bool-cases (k == key)) [
  | inl mine ↦
      let same : k ≡ key = (eq_iff k key).0 mine in
      rw same (ground (arith, eq_iff key key, get_field-without drop key rest))
  | inr other ↦ ground (arith, get_field-without drop key rest)
]

-- What is never to be logged with an event.
abbrev pub secrets : List String
secrets =
    "macaroon" ∷ "paymentRequest" ∷ "preimage" ∷ "payment_preimage" ∷ "payment_route" ∷ "token"
    ∷ "secret" ∷ []

-- Of the fields of event metadata `_sanitize` takes out each whose key or its lower case is `macaroon`,
-- `paymentRequest`, `preimage`, `payment_preimage`, `payment_route`, `token` or `secret`, and keeps every
-- other with its value.
pub sanitize_lem :
    (lower : String → String) (key : String) (fields : Fields)
    → (IsSensitive lower secrets key × (get_field key (sanitize lower fields) ≡ none))
      ⊎ ((¬ IsSensitive lower secrets key)
          × (get_field key (sanitize lower fields) ≡ get_field key fields))
sanitize_lem lower key fields =
    let found = get_field-without (is_stripped lower sensitive_keys) key fields in
    elim (IsSensitive-cases lower sensitive_keys key) [
      | inl (gone, sensitive) ↦ inl (sensitive, rw gone at found)
      | inr (kept, plain) ↦ inr (plain, rw kept at found)
    ]
