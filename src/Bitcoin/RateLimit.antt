-- ===== src/Bitcoin/RateLimit.antt =====
-- FixedWindowLimiter of bitcoin_core_backend/src/api/app.py. `allow` holds its lock throughout, so that the
-- requests of all threads are one sequence.
use rails.Prelude.{ℕ, ◌≤◌, String, string_eq, Bool, ◌==◌, List, [], ◌∷◌, if◌then◌else◌}
use rails.Window.{Buckets, set, hit, within}
use rails.Window.Bound.{IsBounded, start-IsBounded, admit, bucket-IsBounded}

pub record FixedWindowLimiter : Type 0 where
  pub limit : ℕ
  pub window_seconds : ℕ
  pub events : Buckets

-- `__init__`
abbrev pub new_limiter : ℕ → ℕ → FixedWindowLimiter
new_limiter limit window_seconds = record {
  limit = limit;
  window_seconds = window_seconds;
  events = λ key. [];
}

unfoldable pub allow : ℕ → String → FixedWindowLimiter → Bool × FixedWindowLimiter
allow now key l =
    let (ok, events) = hit l.limit l.window_seconds now (l.events key) in
    (ok, record l { events = set key events l.events })

-- The times of the requests of `key` that a sequence of requests gets through, newest first, behind those
-- that got through before.
unfoldable pub admitted : String → List (ℕ × String) → FixedWindowLimiter → List ℕ → List ℕ
admitted key [] l before = before
admitted key ((now, k) ∷ requests) l before =
    let (ok, l') = allow now k l in
    admitted key requests l' (if k == key then admit ok now before else before)

-- The clock does not go back.
abbrev pub Ordered : ℕ → List (ℕ × String) → Type 0
Ordered last [] = Unit
Ordered last ((now, key) ∷ requests) = (last ≤ now) × Ordered now requests

admitted-IsBounded :
    (key : String) (requests : List (ℕ × String)) (l : FixedWindowLimiter) (last : ℕ)
    (before : List ℕ)
    → Ordered last requests
    → IsBounded l.limit l.window_seconds last before (l.events key)
    → (t : ℕ) → within l.window_seconds t (admitted key requests l before) ≤ l.limit
unfolding admitted allow
admitted-IsBounded key [] l last before ordered b t = b.bounded t
admitted-IsBounded key ((now, k) ∷ requests) l last before ordered b t =
    admitted-IsBounded key requests _ now _ ordered.1
      (bucket-IsBounded l.limit l.window_seconds last now key k before l.events ordered.0 b) t

-- Whatever requests of whatever keys come, in the order of the clock, a new limiter lets at most `limit`
-- requests of a key through in any window of time, wherever the window ends.
pub allowed_at_most_limit :
    (limit window_seconds : ℕ) (key : String) (requests : List (ℕ × String)) (t : ℕ)
    → Ordered 0 requests
    → within window_seconds t (admitted key requests (new_limiter limit window_seconds) []) ≤ limit
allowed_at_most_limit limit window_seconds key requests t ordered =
    admitted-IsBounded key requests (new_limiter limit window_seconds) 0 [] ordered
      (start-IsBounded limit window_seconds) t
