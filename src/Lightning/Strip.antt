-- ===== src/Lightning/Strip.antt =====
-- lightning_flask/src/infra/cohesion.py: the fields that never reach the disk. `lower` stands for
-- Python's `str.lower`.
pub mod Clean
use rails.Prelude.{
  String, string_eq, Bool, true, false, not, ◌||◌, ◌==◌, List, [], ◌∷◌, if◌then◌else◌,
}
use rails.Json.{Json, Items, Fields, null, bool, int, float, str, arr, obj, nil, cons, end, field}

-- `key in keys`
abbrev pub is_in : String → List String → Bool
is_in key [] = false
is_in key (k ∷ keys) = key == k || is_in key keys

-- `SENSITIVE_KEYS`
abbrev pub sensitive_keys : List String
sensitive_keys =
    "macaroon" ∷ "paymentRequest" ∷ "preimage" ∷ "payment_preimage" ∷ "payment_route" ∷ "token"
    ∷ "secret" ∷ []

-- `RESPONSE_SENSITIVE_KEYS`
abbrev pub response_sensitive_keys : List String
response_sensitive_keys = "payment_preimage" ∷ "payment_route" ∷ []

-- The negation of `key not in keys and key.lower() not in keys`.
abbrev pub is_stripped : (String → String) → List String → String → Bool
is_stripped lower keys key = is_in key keys || is_in (lower key) keys

-- `{key: value for key, value in d.items() if not drop(key)}`
unfoldable pub without : (String → Bool) → Fields → Fields
without drop end = end
without drop (field k v rest) =
    let kept = without drop rest in if drop k then kept else field k v kept

-- `_sanitize`
abbrev pub sanitize : (String → String) → Fields → Fields
sanitize lower metadata = without (is_stripped lower sensitive_keys) metadata

unfoldable mutual
  pub strip_keys : (String → String) → List String → Json → Json
  strip_keys lower keys (obj fields) = obj (strip_fields lower keys fields)
  strip_keys lower keys (arr items) = arr (strip_items lower keys items)
  strip_keys lower keys null = null
  strip_keys lower keys (bool b) = bool b
  strip_keys lower keys (int n) = int n
  strip_keys lower keys (float x) = float x
  strip_keys lower keys (str s) = str s

  pub strip_items : (String → String) → List String → Items → Items
  strip_items lower keys nil = nil
  strip_items lower keys (cons j rest) =
      cons (strip_keys lower keys j) (strip_items lower keys rest)

  pub strip_fields : (String → String) → List String → Fields → Fields
  strip_fields lower keys end = end
  strip_fields lower keys (field k v rest) =
      let kept = strip_fields lower keys rest in
      let value = strip_keys lower keys v in
      if is_stripped lower keys k then kept else field k value kept
