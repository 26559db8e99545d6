-- ===== src/Json.antt =====
-- JSON documents as the program handles them: what `json.loads` returns and `json.dumps` takes.
use rails.Prelude.{
  ℕ, suc, String, string_eq, Bool, true, false, not, ◌||◌, Option, none, some, ◌==◌, ltb,
  if◌then◌else◌,
}
use rails.Prelude.Int.{ℤ, pos, negsuc}
use rails.Text.{truthy}

-- A float is carried by the text that `str` gives of it, which is all that the program reads.
mutual
  pub data Json : Type 0 where
    null : Json
    bool : Bool → Json
    int : ℤ → Json
    float : String → Json
    str : String → Json
    arr : Items → Json
    obj : Fields → Json

  pub data Items : Type 0 where
    nil : Items
    cons : Json → Items → Items

  pub data Fields : Type 0 where
    end : Fields
    field : String → Json → Fields → Fields

-- `d.get(key)` on a dict's entries; `none` is a missing key.
abbrev pub get_field : String → Fields → Option Json
get_field key end = none
get_field key (field k v rest) = if k == key then some v else get_field key rest

-- `d.get(key)`, which is None for a missing key.
abbrev pub get_or_null : String → Fields → Json
get_or_null key fields = elim (get_field key fields) [ none ↦ null | some j ↦ j ]

-- `bool(j)`; the text of a float zero is `0.0` or `-0.0`.
abbrev pub is_truthy : Json → Bool
is_truthy null = false
is_truthy (bool b) = b
is_truthy (int (pos n)) = ltb 0 n
is_truthy (int (negsuc n)) = true
is_truthy (float t) = not (t == "0.0" || t == "-0.0")
is_truthy (str s) = truthy s
is_truthy (arr nil) = false
is_truthy (arr (cons j l)) = true
is_truthy (obj end) = false
is_truthy (obj (field k v f)) = true

-- `len(l)`
unfoldable pub item_count : Items → ℕ
item_count nil = 0
item_count (cons j rest) = suc (item_count rest)

-- `d[key] = value`
unfoldable pub set_field : String → Json → Fields → Fields
set_field key value end = field key value end
set_field key value (field k v rest) =
    let later = set_field key value rest in if k == key then field k value rest else field k v later
