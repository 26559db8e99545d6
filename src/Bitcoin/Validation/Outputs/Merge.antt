-- ===== src/Bitcoin/Validation/Outputs/Merge.antt =====
-- Merging and sorting outputs keep what they pay.
use rails.Prelude.{
  ℕ, suc, ◌+◌, ◌≤◌, String, string_eq, eq_iff, ◌≡◌, refl, ◌==◌, List, [], ◌∷◌, arith, if◌then◌else◌,
}
use rails.Bitcoin.Store.Rows.{Output}
use rails.Bitcoin.Validation.{merge, total, place, sort}
use rails.Bitcoin.Validation.Outputs.{paid, size}

pub paid-merge :
    (address b : String) (sats : ℕ) (m : List Output)
    → paid address (merge b sats m) ≡ paid address m + (if b == address then sats else 0)
unfolding paid merge
paid-merge address b sats [] = ground arith
paid-merge address b sats (o ∷ m) = ground (arith, eq_iff o.address b, paid-merge address b sats m)

pub total-merge :
    (b : String) (sats : ℕ) (m : List Output) → total (merge b sats m) ≡ total m + sats
unfolding total merge
total-merge b sats [] = omega arith
total-merge b sats (o ∷ m) = ground (arith, total-merge b sats m)

pub size-merge : (b : String) (sats : ℕ) (m : List Output) → size (merge b sats m) ≤ suc (size m)
unfolding size merge
size-merge b sats [] = omega arith
size-merge b sats (o ∷ m) = ground (arith, size-merge b sats m)

paid-place :
    (address : String) (o : Output) (m : List Output)
    → paid address (place o m)
      ≡ (if o.address == address then o.amount_sats else 0) + paid address m
unfolding paid place
paid-place address o [] = refl
paid-place address o (p ∷ m) = ground (arith, paid-place address o m)

total-place : (o : Output) (m : List Output) → total (place o m) ≡ o.amount_sats + total m
unfolding total place
total-place o [] = refl
total-place o (p ∷ m) = ground (arith, total-place o m)

size-place : (o : Output) (m : List Output) → size (place o m) ≡ suc (size m)
unfolding size place
size-place o [] = refl
size-place o (p ∷ m) = ground (arith, size-place o m)

pub paid-sort : (address : String) (m : List Output) → paid address (sort m) ≡ paid address m
unfolding paid sort
paid-sort address [] = refl
paid-sort address (o ∷ m) = rw (paid-place address o (sort m), paid-sort address m)

pub total-sort : (m : List Output) → total (sort m) ≡ total m
unfolding total sort
total-sort [] = refl
total-sort (o ∷ m) = rw (total-place o (sort m), total-sort m)

pub size-sort : (m : List Output) → size (sort m) ≡ size m
unfolding size sort
size-sort [] = refl
size-sort (o ∷ m) = rw (size-place o (sort m), size-sort m)
