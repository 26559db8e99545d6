-- ===== src/Window/Tests.antt =====
-- Runs of the two rate limiters, and their theorems at them.
use rails.Prelude.{ℕ, ◌≤◌, String, string_eq, ◌≡◌, refl, List, [], ◌∷◌, arith}
use rails.Window.{drop_old, length, hit, within}
use rails.Bitcoin.RateLimit.{new_limiter, allow, admitted, allowed_at_most_limit}
use rails.Lightning.RateLimit.{new_limiter as new_rate_limiter, passed, passed_at_most_limit}

-- Three requests of one client in ten seconds, one of another, and one more of the first after a minute.
abbrev requests : List (ℕ × String)
requests = (1, "a") ∷ (4, "a") ∷ (5, "b") ∷ (10, "a") ∷ (62, "a") ∷ []

third_is_refused : admitted "a" requests (new_limiter 2 60) [] ≡ 62 ∷ 4 ∷ 1 ∷ []
unfolding admitted allow hit drop_old length
third_is_refused = refl

allowed_at_most_limit_example : within 60 62 (admitted "a" requests (new_limiter 2 60) []) ≤ 2
allowed_at_most_limit_example =
    allowed_at_most_limit 2 60 "a" requests 62
      (omega arith, (omega arith, (omega arith, (omega arith, (omega arith, tt)))))

passed_at_most_limit_example : within 60 62 (passed 1 "a" requests (new_rate_limiter 2) []) ≤ 2
passed_at_most_limit_example =
    passed_at_most_limit 1 2 "a" requests 62
      (omega arith, (omega arith, (omega arith, (omega arith, (omega arith, tt)))))
