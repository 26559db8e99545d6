-- ===== src/Table/Owned.antt =====
-- Statements whose WHERE asks for a key and for a test: they see one row at most.
use rails.Prelude.{
  ◌≡◌, Bool, false, ◌&&◌, Eq, Option, none, some, List, arith, inl, inr, Option-cases,
  if◌then◌else◌,
}
use rails.Table.{update, count}
use rails.Table.Laws.{
  find, IsUnique, updated, matches, find-update, count_one, key-find, update-count_zero,
  update-IsUnique,
}

-- Whether the row that a key has found passes the test.
abbrev pub passes {ℓ} : {Row : Type ℓ} → (Row → Bool) → Option Row → Bool
passes p none = false
passes p (some r) = p r

module _ {ℓ κ} {K : Type κ} ⦃e : Eq K⦄ {Row : Type ℓ} (key : Row → K) (k : K) (p : Row → Bool)
    (f : Row → Row) (t : List Row) where
  abbrev pub owned : Row → Bool
  owned r = e.test (key r) k && p r

  pub count-owned : IsUnique key t → count owned t ≡ (if passes p (find key k t) then 1 else 0)
  count-owned u = elim (Option-cases (find key k t)) [
    | inl missing ↦ rw (count_own, missing)
    | inr (r, found) ↦
        rw (count_own, found) (ground (arith, key-find key k r t found, e.test_iff (key r) k))
  ]
    where
      count_own : count owned t ≡ matches owned (find key k t)
      count_own = count_one key owned k (λ r h. ground (arith, e.test_iff (key r) k)) t u

  -- The UPDATE writes the row of its key, and no other.
  pub find-update-owned :
      ((r : Row) → key (f r) ≡ key r)
      → (j : K)
      → find key j (update owned f t)
        ≡ (if e.test k j then updated p f (find key j t) else find key j t)
  find-update-owned same j = elim (Option-cases (find key j t)) [
    | inl missing ↦ rw (find-update key owned f same j t, missing) (ground arith)
    | inr (r, found) ↦
        rw (find-update key owned f same j t, found)
          (ground (
            arith,
            key-find key j r t found,
            e.test_iff (key r) k,
            e.test_iff k j,
            e.test_iff (key r) j,
          ))
  ]

  pub update-owned-IsUnique :
      ((r : Row) → key (f r) ≡ key r) → IsUnique key t → IsUnique key (update owned f t)
  update-owned-IsUnique same u = update-IsUnique key owned f same t u

  -- An UPDATE that finds no row changes nothing.
  pub update-owned-none : IsUnique key t → passes p (find key k t) ≡ false → update owned f t ≡ t
  update-owned-none u lost = update-count_zero key owned f t (rw (count-owned u, lost))
