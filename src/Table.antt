-- ===== src/Table.antt =====
-- The SQL statements that the two SQLite stores use, over a table as the list of its rows in the
-- order of insertion: `SELECT … WHERE`, `UPDATE … WHERE` with its row count, `DELETE … WHERE`.
pub mod Laws
pub mod Owned
use rails.Prelude.{
  ℕ, suc, ◌+◌, String, Bool, true, false, Option, none, some, List, [], ◌∷◌, ◌++◌, not, ◌==◌,
  string_eq, if◌then◌else◌,
}

module _ {ℓ} {Row : Type ℓ} where
  -- `SELECT … WHERE p` and `fetchone()`
  unfoldable pub select : (Row → Bool) → List Row → Option Row
  select p [] = none
  select p (r ∷ t) = if p r then some r else select p t

  -- `UPDATE … SET f WHERE p`
  unfoldable pub update : (Row → Bool) → (Row → Row) → List Row → List Row
  update p f [] = []
  update p f (r ∷ t) = (if p r then f r else r) ∷ update p f t

  -- The rows that satisfy `p`: `rowcount` of an UPDATE or a DELETE, and `count(*)`.
  unfoldable pub count : (Row → Bool) → List Row → ℕ
  count p [] = 0
  count p (r ∷ t) = (if p r then 1 else 0) + count p t

  -- `DELETE … WHERE p`
  unfoldable pub delete : (Row → Bool) → List Row → List Row
  delete p [] = []
  delete p (r ∷ t) = let rest = delete p t in if p r then rest else r ∷ rest

  -- `INSERT`
  unfoldable pub insert : Row → List Row → List Row
  insert r t = t ++ r ∷ []

-- `column = ?` on a column that may be NULL: NULL equals nothing.
abbrev pub holds : Option String → String → Bool
holds none v = false
holds (some u) v = u == v
