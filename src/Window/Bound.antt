-- ===== src/Window/Bound.antt =====
-- No window of time holds more admitted requests than the limit.
use rails.Prelude.{
  ℕ, ◌+◌, ◌≤◌, ◌<◌, String, string_eq, eq_iff, ◌≡◌, refl, Bool, true, false, List, [], ◌∷◌, ◌++◌,
  ◌==◌, arith, leb, inl, inr, Bool-cases, if◌then◌else◌,
}
use rails.Window.{drop_old, length, hit, within, Buckets, set}

within_append :
    (window t : ℕ) (a b : List ℕ) → within window t (a ++ b) ≡ within window t a + within window t b
unfolding within
within_append window t [] b = omega arith
within_append window t (x ∷ a) b = ground (arith, within_append window t a b)

within-length : (window t : ℕ) (a : List ℕ) → within window t a ≤ length a
unfolding within length
within-length window t [] = omega arith
within-length window t (x ∷ a) = ground (arith, within-length window t a)

length_append : (a b : List ℕ) → length (a ++ b) ≡ length a + length b
unfolding length
length_append [] b = omega arith
length_append (x ∷ a) b = ground (arith, length_append a b)

length-drop_old : (window now : ℕ) (a : List ℕ) → length (drop_old window now a) ≤ length a
unfolding drop_old length
length-drop_old window now [] = omega arith
length-drop_old window now (x ∷ a) = ground (arith, length-drop_old window now a)

-- What is dropped at `now` is in no window that ends later.
within-drop_old :
    (window now t : ℕ) (a : List ℕ)
    → now ≤ t
    → within window t (drop_old window now a) ≡ within window t a
unfolding drop_old within
within-drop_old window now t [] h = refl
within-drop_old window now t (x ∷ a) h = ground (arith, within-drop_old window now t a h)

-- The deque of a key, the requests of the key that were admitted, newest first, and the last time seen.
pub record IsBounded (limit window : ℕ) (last : ℕ) (admitted events : List ℕ) : Type 0 where
  pub kept : (t : ℕ) → last ≤ t → within window t admitted ≤ within window t events
  pub short : length events ≤ limit
  pub bounded : (t : ℕ) → within window t admitted ≤ limit

pub start-IsBounded : (limit window : ℕ) → IsBounded limit window 0 [] []
unfolding within length
start-IsBounded limit window = record {
  kept = λ t h. omega arith;
  short = omega arith;
  bounded = λ t. omega arith;
}

pub later-IsBounded :
    (limit window last now : ℕ) (admitted events : List ℕ)
    → last ≤ now
    → IsBounded limit window last admitted events
    → IsBounded limit window now admitted events
later-IsBounded limit window last now admitted events h b = record {
  kept = λ t h'. b.kept t (omega arith);
  short = b.short;
  bounded = b.bounded;
}

-- The requests admitted behind a request.
abbrev pub admit : Bool → ℕ → List ℕ → List ℕ
admit true now admitted = now ∷ admitted
admit false now admitted = admitted

module _ (limit window last now : ℕ) (admitted events : List ℕ) (h : last ≤ now)
    (b : IsBounded limit window last admitted events) where
  abbrev left : List ℕ
  left = drop_old window now events

  kept-left : (t : ℕ) → now ≤ t → within window t admitted ≤ within window t left
  kept-left t h' = rw (within-drop_old window now t events h') (b.kept t (omega arith))

  refused-IsBounded : IsBounded limit window now admitted left
  refused-IsBounded =
      let shorter = length-drop_old window now events in
      let short = b.short in record { kept = kept-left; short = omega arith; bounded = b.bounded }

  admitted-IsBounded :
      length left < limit → IsBounded limit window now (now ∷ admitted) (left ++ now ∷ [])
  unfolding within length
  admitted-IsBounded room = record {
    kept = λ t h'.
        rw (within_append window t left (now ∷ [])) (let k = kept-left t h' in ground arith);
    short = rw (length_append left (now ∷ [])) (omega arith);
    bounded = λ t. elim (Bool-cases (leb now t)) [
      | inl after ↦
          let k = kept-left t (ground arith) in let l = within-length window t left in ground arith
      | inr before ↦ let k = b.bounded t in ground arith
    ];
  }

  pub hit-IsBounded :
      let (ok, events') = hit limit window now events in
      IsBounded limit window now (admit ok now admitted) events'
  unfolding hit
  hit-IsBounded = elim (Bool-cases (leb limit (length left))) [
    | inl full ↦ rw full refused-IsBounded
    | inr room ↦ rw room (admitted-IsBounded (ground arith))
  ]

-- A request of any key keeps the bound of every key.
pub bucket-IsBounded :
    (limit window last now : ℕ) (key k : String) (admitted : List ℕ) (buckets : Buckets)
    → last ≤ now
    → IsBounded limit window last admitted (buckets key)
    → let (ok, events) = hit limit window now (buckets k) in
      IsBounded limit window now
        (if k == key then admit ok now admitted else admitted)
        (set k events buckets key)
bucket-IsBounded limit window last now key k admitted buckets h b = elim (Bool-cases (k == key)) [
  | inr other ↦ rw other (later-IsBounded limit window last now admitted (buckets key) h b)
  | inl mine ↦
      let same : k ≡ key = (eq_iff k key).0 mine in
      rw (mine, same) (hit-IsBounded limit window last now admitted (buckets key) h b)
]
