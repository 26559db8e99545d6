-- ===== src/Table/Laws.antt =====
-- The statements seen row by row, through the lookup of a key.
use rails.Prelude.{
  ◌&&◌, ℕ, ◌≡◌, refl, Bool, true, Eq, Option, none, some, List, [], ◌∷◌, arith, inl, inr,
  Bool-cases, Option-cases, if◌then◌else◌,
}
use rails.Table.{select, update, count, delete, insert}

-- A row that an UPDATE has gone over.
abbrev pub updated {ℓ} : {Row : Type ℓ} → (Row → Bool) → (Row → Row) → Option Row → Option Row
updated p f none = none
updated p f (some r) = some (if p r then f r else r)

-- A row that a DELETE has gone over.
abbrev pub kept {ℓ} : {Row : Type ℓ} → (Row → Bool) → Option Row → Option Row
kept p none = none
kept p (some r) = if p r then none else some r

-- Whether the row that a key names satisfies the test, as a number.
abbrev pub matches {ℓ} : {Row : Type ℓ} → (Row → Bool) → Option Row → ℕ
matches p none = 0
matches p (some r) = if p r then 1 else 0

module _ {ℓ κ} {K : Type κ} ⦃e : Eq K⦄ {Row : Type ℓ} (key : Row → K) where
  -- `SELECT … WHERE key = ?`
  abbrev pub find : K → List Row → Option Row
  find k t = select (λ r. e.test (key r) k) t

  -- The PRIMARY KEY constraint.
  abbrev pub IsUnique : List Row → Type ℓ
  IsUnique [] = Unit
  IsUnique (r ∷ t) = (find (key r) t ≡ none) × IsUnique t

  pub find-update :
      (p : Row → Bool) (f : Row → Row)
      → ((r : Row) → key (f r) ≡ key r)
      → (k : K) (t : List Row) → find k (update p f t) ≡ updated p f (find k t)
  unfolding select update
  find-update p f same k [] = refl
  find-update p f same k (r ∷ t) = ground (arith, same r, find-update p f same k t)

  pub find-insert :
      (k : K) (r : Row) (t : List Row)
      → find k t ≡ none
      → find k (insert r t) ≡ (if e.test (key r) k then some r else none)
  unfolding select insert
  find-insert k r [] h = refl
  find-insert k r (x ∷ t) h = ground (arith, find-insert k r t)

  -- A key that has a row keeps it when another row is added at the end.
  pub find-insert_old :
      (k : K) (r x : Row) (t : List Row) → find k t ≡ some x → find k (insert r t) ≡ some x
  unfolding select insert
  find-insert_old k r x [] h = ground arith
  find-insert_old k r x (y ∷ t) h = ground (arith, find-insert_old k r x t)

  -- A row under a new key is found by that key, and hides no other.
  pub find-insert_new :
      (k : K) (r : Row) (t : List Row)
      → find (key r) t ≡ none
      → find k (insert r t) ≡ (if e.test (key r) k then some r else find k t)
  find-insert_new k r t new = elim (Option-cases (find k t)) [
    | inl missing ↦ rw (find-insert k r t missing, missing)
    | inr (x, found) ↦
        rw (find-insert_old k r x t found, found)
          (elim (Bool-cases (e.test (key r) k)) [
            | inl same ↦
                let gone : find k t ≡ none = rw ((e.test_iff (key r) k).0 same) at new in
                cc (gone, found)
            | inr other ↦ rw other
          ])
  ]

  -- The row that a key finds has that key.
  pub key-find : (k : K) (r : Row) (t : List Row) → find k t ≡ some r → key r ≡ k
  unfolding select
  key-find k r [] h = ground arith
  key-find k r (x ∷ t) h = ground (arith, key-find k r t, (e.test_iff (key x) k).0)

  -- A further test that the row of the key passes does not change what is selected.
  pub select-find :
      (p : Row → Bool) (k : K) (r : Row) (t : List Row)
      → find k t ≡ some r
      → p r ≡ true
      → select (λ x. e.test (key x) k && p x) t ≡ some r
  unfolding select
  select-find p k r [] h h' = ground arith
  select-find p k r (x ∷ t) h h' = ground (arith, select-find p k r t)

  find-delete-none :
      (p : Row → Bool) (k : K) (t : List Row) → find k t ≡ none → find k (delete p t) ≡ none
  unfolding select delete
  find-delete-none p k [] h = refl
  find-delete-none p k (x ∷ t) h = ground (arith, find-delete-none p k t)

  pub find-delete :
      (p : Row → Bool) (k : K) (t : List Row) → IsUnique t → find k (delete p t) ≡ kept p (find k t)
  unfolding select delete
  find-delete p k [] u = refl
  find-delete p k (x ∷ t) u = elim (Bool-cases (e.test (key x) k)) [
    | inl same ↦
        let gone : find k t ≡ none = rw ((e.test_iff (key x) k).0 same) at u.0 in
        ground (arith, find-delete-none p k t gone)
    | inr other ↦ ground (arith, find-delete p k t u.1)
  ]

  pub update-IsUnique :
      (p : Row → Bool) (f : Row → Row)
      → ((r : Row) → key (f r) ≡ key r)
      → (t : List Row) → IsUnique t
      → IsUnique (update p f t)
  unfolding update
  update-IsUnique p f same [] u = tt
  update-IsUnique p f same (r ∷ t) u = (
    rw (find-update p f same (key (if p r then f r else r)) t) (rw same_key (rw u.0)),
    update-IsUnique p f same t u.1,
  )
    where
      same_key : key (if p r then f r else r) ≡ key r
      same_key = ground (arith, same r)

  pub insert-IsUnique :
      (r : Row) (t : List Row) → find (key r) t ≡ none → IsUnique t → IsUnique (insert r t)
  unfolding insert select
  insert-IsUnique r [] h u = (refl, tt)
  insert-IsUnique r (x ∷ t) h u = (
    ground (
      arith,
      find-insert (key x) r t u.0,
      (e.test_iff (key r) (key x)).0,
      (e.test_iff (key x) (key r)).1,
    ),
    insert-IsUnique r t (ground arith) u.1,
  )

  pub delete-IsUnique : (p : Row → Bool) (t : List Row) → IsUnique t → IsUnique (delete p t)
  unfolding delete
  delete-IsUnique p [] u = tt
  delete-IsUnique p (x ∷ t) u =
      ground (arith, delete-IsUnique p t u.1, find-delete-none p (key x) t u.0)

  count-none :
      (p : Row → Bool) (k : K)
      → ((r : Row) → p r ≡ true → key r ≡ k)
      → (t : List Row) → find k t ≡ none
      → count p t ≡ 0
  unfolding select count
  count-none p k own [] h = refl
  count-none p k own (r ∷ t) h =
      ground (arith, own r, (e.test_iff (key r) k).1, count-none p k own t)

  -- An UPDATE that no row passes changes nothing.
  pub update-count_zero :
      (p : Row → Bool) (f : Row → Row) (t : List Row) → count p t ≡ 0 → update p f t ≡ t
  unfolding update count
  update-count_zero p f [] h = refl
  update-count_zero p f (r ∷ t) h = ground (arith, update-count_zero p f t)

  -- A statement whose test names the key touches one row at most, that of the key.
  pub count_one :
      (p : Row → Bool) (k : K)
      → ((r : Row) → p r ≡ true → key r ≡ k)
      → (t : List Row) → IsUnique t
      → count p t ≡ matches p (find k t)
  unfolding select count
  count_one p k own [] u = refl
  count_one p k own (r ∷ t) u = elim (Bool-cases (e.test (key r) k)) [
    | inl same ↦
        let gone : find k t ≡ none = rw ((e.test_iff (key r) k).0 same) at u.0 in
        ground (arith, count-none p k own t gone)
    | inr other ↦ ground (arith, own r, (e.test_iff (key r) k).1, count_one p k own t u.1)
  ]
