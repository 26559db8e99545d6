-- ===== src/Lightning/RateLimit.antt =====
-- RateLimiter of lightning_flask/src/core/security.py, one request after the other. The source's `check` takes no
-- lock: threads that run it at once are not modelled, and may exceed the bound together.
use rails.Prelude.{
  ℕ, ◌≤◌, ◌*◌, String, string_eq, ◌≡◌, refl, Bool, true, false, ◌==◌, List, [], ◌∷◌, max,
  if◌then◌else◌,
}
use rails.Effect.{ok, err, Action, is_ok}
use rails.Lightning.Errors.{ApiError}
use rails.Window.{Buckets, set, hit, within}
use rails.Window.Bound.{IsBounded, start-IsBounded, admit, bucket-IsBounded}

pub record RateLimiter : Type 0 where
  pub limit : ℕ
  pub hits : Buckets

-- `__init__`
abbrev pub new_limiter : ℕ → RateLimiter
new_limiter limit_per_minute = record { limit = max 1 limit_per_minute; hits = λ key. [] }

abbrev pub too_many : ApiError
too_many = record { message = "Too many requests"; status_code = 429; code = "rate_limited" }

-- `second` is the number of ticks of a second of the clock; `bucket[0] < now - 60` is written without the
-- subtraction.
unfoldable pub check : ℕ → ℕ → String → Action RateLimiter ApiError Unit
check second now key l =
    let (room, bucket) = hit l.limit (60 * second) now (l.hits key) in
    (if room then ok tt else err too_many, record l { hits = set key bucket l.hits })

-- The times of the requests of `key` that a sequence of requests gets through, newest first, behind those
-- that got through before.
unfoldable pub passed : ℕ → String → List (ℕ × String) → RateLimiter → List ℕ → List ℕ
passed second key [] l before = before
passed second key ((now, k) ∷ requests) l before =
    let (answer, l') = check second now k l in
    passed second key requests l' (if k == key then admit (is_ok answer) now before else before)

-- The clock does not go back.
abbrev pub Ordered : ℕ → List (ℕ × String) → Type 0
Ordered last [] = Unit
Ordered last ((now, key) ∷ requests) = (last ≤ now) × Ordered now requests

is_ok_if : (room : Bool) → is_ok {A = Unit} (if room then ok tt else err too_many) ≡ room
is_ok_if true = refl
is_ok_if false = refl

passed-IsBounded :
    (second : ℕ) (key : String) (requests : List (ℕ × String)) (l : RateLimiter) (last : ℕ)
    (before : List ℕ)
    → Ordered last requests
    → IsBounded l.limit (60 * second) last before (l.hits key)
    → (t : ℕ) → within (60 * second) t (passed second key requests l before) ≤ l.limit
unfolding passed check
passed-IsBounded second key [] l last before ordered b t = b.bounded t
passed-IsBounded second key ((now, k) ∷ requests) l last before ordered b t =
    passed-IsBounded second key requests _ now _ ordered.1
      (rw (is_ok_if (hit l.limit (60 * second) now (l.hits k)).0)
        (bucket-IsBounded l.limit (60 * second) last now key k before l.hits ordered.0 b))
      t

-- Whatever requests of whatever keys come in the order of the clock, each checked only after the one before it
-- (`check` takes no lock, and threads that run it at once are not modelled), a new limiter lets at most
-- `limit_per_minute` requests of a key through in any 60 seconds, and one where the limit is 0.
pub passed_at_most_limit :
    (second limit_per_minute : ℕ) (key : String) (requests : List (ℕ × String)) (t : ℕ)
    → Ordered 0 requests
    → within (60 * second) t (passed second key requests (new_limiter limit_per_minute) [])
      ≤ max 1 limit_per_minute
passed_at_most_limit second limit_per_minute key requests t ordered =
    passed-IsBounded second key requests (new_limiter limit_per_minute) 0 [] ordered
      (start-IsBounded (max 1 limit_per_minute) (60 * second)) t
