-- ===== src/Bitcoin/Store/Recent.antt =====
-- What `recent_transactions` shows.
use rails.Prelude.{
  ℕ, zero, suc, ◌+◌, ◌≤◌, String, string_eq, ◌≡◌, refl, Bool, true, false, ◌&&◌, Option, List, [],
  ◌∷◌, map, min, arith, inl, inr, leb, Bool-cases, if◌then◌else◌,
}
use rails.Text.{truthy_column}
use rails.Effect.{ok}
use rails.Table.{holds, count}
use rails.Bitcoin.Store.Rows.{TransactionRecord, Db}
use rails.Bitcoin.Store.Transactions.{
  of_wallet, place, newest_first, first, clamp_limit, Recent, recent_of, recent_transactions,
}

-- The rows that the query asks for.
abbrev pub is_asked : Option String → TransactionRecord → Bool
is_asked wallet r = if truthy_column wallet then holds wallet r.wallet else true

-- The ids go down.
abbrev pub Descending : List Recent → Type 0
Descending [] = Unit
Descending (r ∷ []) = Unit
Descending (r ∷ s ∷ t) = (s.id ≤ r.id) × Descending (s ∷ t)

abbrev Sorted : List TransactionRecord → Type 0
Sorted [] = Unit
Sorted (r ∷ []) = Unit
Sorted (r ∷ s ∷ t) = (s.id ≤ r.id) × Sorted (s ∷ t)

count-of_wallet :
    (p : TransactionRecord → Bool) (wallet : Option String) (t : List TransactionRecord)
    → count p (of_wallet wallet t) ≡ count (λ r. is_asked wallet r && p r) t
unfolding of_wallet count
count-of_wallet p wallet [] = refl
count-of_wallet p wallet (r ∷ t) = ground (arith, count-of_wallet p wallet t)

count-place :
    (p : TransactionRecord → Bool) (r : TransactionRecord) (t : List TransactionRecord)
    → count p (place r t) ≡ (if p r then 1 else 0) + count p t
unfolding count place
count-place p r [] = refl
count-place p r (x ∷ t) = ground (arith, count-place p r t)

count-newest_first :
    (p : TransactionRecord → Bool) (t : List TransactionRecord)
    → count p (newest_first t) ≡ count p t
unfolding count newest_first
count-newest_first p [] = refl
count-newest_first p (r ∷ t) = rw (count-place p r (newest_first t), count-newest_first p t)

place-Sorted : (r : TransactionRecord) (t : List TransactionRecord) → Sorted t → Sorted (place r t)
unfolding place
place-Sorted r [] s = tt
place-Sorted r (x ∷ []) s = elim (Bool-cases (leb x.id r.id)) [
  | inl below ↦ rw below (ground arith, tt)
  | inr above ↦ rw above (ground arith, tt)
]
place-Sorted r (x ∷ y ∷ t) s = elim (Bool-cases (leb x.id r.id)) [
  | inl below ↦ rw below (ground arith, s)
  | inr above ↦
      let later = place-Sorted r (y ∷ t) s.1 in
      elim (Bool-cases (leb y.id r.id)) [
        | inl next ↦ rw (above, next) (ground arith, rw next at later)
        | inr last ↦ rw (above, last) (s.0, rw last at later)
      ]
]

newest_first-Sorted : (t : List TransactionRecord) → Sorted (newest_first t)
unfolding newest_first
newest_first-Sorted [] = tt
newest_first-Sorted (r ∷ t) = place-Sorted r (newest_first t) (newest_first-Sorted t)

first-Descending :
    (n : ℕ) (t : List TransactionRecord) → Sorted t → Descending (map recent_of (first n t))
unfolding first
first-Descending zero t s = tt
first-Descending (suc n) [] s = tt
first-Descending (suc zero) (r ∷ t) s = tt
first-Descending (suc (suc n)) (r ∷ []) s = tt
first-Descending (suc (suc n)) (r ∷ x ∷ t) s = (s.0, first-Descending (suc n) (x ∷ t) s.1)

abbrev pub is_since : ℕ → TransactionRecord → Bool
is_since id r = leb id r.id

Sorted-tail : (r : TransactionRecord) (t : List TransactionRecord) → Sorted (r ∷ t) → Sorted t
Sorted-tail r [] s = tt
Sorted-tail r (x ∷ t) s = s.1

-- Behind a row that is older than `id` all rows are.
count-Sorted :
    (id : ℕ) (r : TransactionRecord) (t : List TransactionRecord)
    → Sorted (r ∷ t)
    → is_since id r ≡ false
    → count (is_since id) t ≡ 0
unfolding count
count-Sorted id r [] s old = refl
count-Sorted id r (x ∷ t) s old =
    let older : is_since id x ≡ false = let below = s.0 in ground arith in
    rw (older, count-Sorted id x t s.1 older) (omega arith)

count-first :
    (id n : ℕ) (t : List TransactionRecord)
    → Sorted t
    → count (λ (r : Recent). leb id r.id) (map recent_of (first n t))
      ≡ min n (count (is_since id) t)
unfolding count first
count-first id zero t s = omega arith
count-first id (suc n) [] s = omega arith
count-first id (suc n) (r ∷ t) s =
    let later = count-first id n t (Sorted-tail r t s) in
    elim (Bool-cases (is_since id r)) [
      | inl new ↦ rw (new, later) (omega arith)
      | inr old ↦ rw (old, later, count-Sorted id r t s old) (omega arith)
    ]

-- `recent_transactions` shows the newest rows of the wallet, or of all wallets if it is given none, from
-- the newest down, and changes nothing: of the rows since any id it shows all, or as many as the limit
-- allows, which lies between 1 and 100.
pub recent_transactions_lem :
    (wallet : Option String) (limit id : ℕ) (db : Db)
    → (shown : List Recent) × (recent_transactions wallet limit db ≡ (ok shown, db))
      × Descending shown
      × (count (λ (r : Recent). leb id r.id) shown
          ≡ min
              (clamp_limit limit)
              (count (λ r. is_asked wallet r && is_since id r) db.transaction_records))
      × (1 ≤ clamp_limit limit)
      × (clamp_limit limit ≤ 100)
unfolding recent_transactions
recent_transactions_lem wallet limit id db =
    let rows : List TransactionRecord = newest_first (of_wallet wallet db.transaction_records) in
    let sorted = newest_first-Sorted (of_wallet wallet db.transaction_records) in
    (
      map recent_of (first (clamp_limit limit) rows),
      refl,
      first-Descending (clamp_limit limit) rows sorted,
      rw (
        count-first id (clamp_limit limit) rows sorted,
        count-newest_first (is_since id) (of_wallet wallet db.transaction_records),
        count-of_wallet (is_since id) wallet db.transaction_records,
      ),
      omega arith,
      omega arith,
    )
