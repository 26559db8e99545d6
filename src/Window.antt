-- ===== src/Window.antt =====
-- The sliding window of the two rate limiters, FixedWindowLimiter of bitcoin_core_backend/src/api/app.py and
-- RateLimiter of lightning_flask/src/core/security.py: a deque of the times of the admitted requests. A
-- time of `time.monotonic` is a number of ticks of any length, and a window is so many ticks. A request is tested
-- and admitted in one step, as under FixedWindowLimiter's lock; RateLimiter has no lock.
pub mod Bound
mod Tests
use rails.Prelude.{
  ℕ, suc, ◌+◌, String, string_eq, Bool, true, false, List, [], ◌∷◌, ◌++◌, ◌==◌, ltb, leb,
  if◌then◌else◌,
}

-- `while events and now - events[0] > window: events.popleft()`
unfoldable pub drop_old : ℕ → ℕ → List ℕ → List ℕ
drop_old window now [] = []
drop_old window now (x ∷ events) =
    let rest = drop_old window now events in if ltb (x + window) now then rest else x ∷ events

-- `len(events)`
unfoldable pub length : List ℕ → ℕ
length [] = 0
length (x ∷ events) = suc (length events)

-- The deque behind a request at `now`, and whether it is admitted: `append` unless `limit` are left.
unfoldable pub hit : ℕ → ℕ → ℕ → List ℕ → Bool × List ℕ
hit limit window now events =
    let left = drop_old window now events in
    if leb limit (length left) then (false, left) else (true, left ++ now ∷ [])

-- `defaultdict(deque)`, with one key set.
abbrev pub Buckets : Type 0
Buckets = String → List ℕ

abbrev pub set : String → List ℕ → Buckets → Buckets
set key events buckets j = if key == j then events else buckets j

-- The admitted requests that a client sees at time `t` within the window that ends there.
abbrev pub is_within : ℕ → ℕ → ℕ → Bool
is_within window t x = if leb x t then leb t (x + window) else false

unfoldable pub within : ℕ → ℕ → List ℕ → ℕ
within window t [] = 0
within window t (x ∷ times) = (if is_within window t x then 1 else 0) + within window t times
