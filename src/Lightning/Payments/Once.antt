-- ===== src/Lightning/Payments/Once.antt =====
-- A key pays once: requests of POST /v1/payments in lightning_flask/src/api/app.py, one
-- after the other.
use rails.Prelude.{ℕ, ◌+◌, ◌≤◌, String, ◌≡◌, List, [], ◌∷◌, arith, inr, if◌then◌else◌}
use rails.Effect.{ok}
use rails.Lightning.Config.{Settings}
use rails.Lightning.Store.Rows.{find_key, HasKeys}
use rails.Lightning.Store.Once.{may_still_submit}
use rails.Lightning.Host.{Host, World, LndCall}
use rails.Lightning.Api.{Request}
use rails.Lightning.Payments.{serve}
use rails.Lightning.Payments.Checks.{payment_key}
use rails.Lightning.Payments.Bounded.{Keeps, AllPaid, payments, left}
use rails.Lightning.Payments.Requests.{respond-Keeps}

-- Each of the requests is made under the key, or has none that is valid.
abbrev pub AllFor : String → List Request → Type 0
AllFor key [] = Unit
AllFor key (r ∷ requests) = ((k : String) → payment_key r ≡ ok k → k ≡ key) × AllFor key requests

module _ {Node : Type 0} (s : Settings) (h : Host Node) where
  -- No matter what is paid.
  abbrev Any : LndCall → Type 0
  Any x = Unit

  all_calls-AllPaid : (calls : List LndCall) → AllPaid Any calls
  all_calls-AllPaid [] = tt
  all_calls-AllPaid (x ∷ calls) = (inr tt, all_calls-AllPaid calls)

  serve-Keeps :
      (key : String) (n : ℕ) (requests : List Request) (w : World Node)
      → AllFor key requests
      → Keeps Any key n w
      → Keeps Any key n (serve s h requests w)
  unfolding serve
  serve-Keeps key n [] w mine k = k
  serve-Keeps key n (r ∷ requests) w (mine, all_mine) k =
      serve-Keeps key n requests _ all_mine
        (respond-Keeps s Any h key n r w (λ body invoice z plan a b c d. tt) mine k)

  -- However often a payment is requested under one key, whatever LND answers, and whatever other workers call
  -- on the store before each of the requests' own calls, these requests ask LND to pay at most once, and not at
  -- all where the key's row is past CLAIMED from the start.
  -- The keys of the database are distinct, and every request that has a valid key has this one.
  pub paid_at_most_once :
      (key : String) (requests : List Request) (w : World Node)
      → AllFor key requests
      → HasKeys w.db
      → payments (serve s h requests w).calls
        ≤ payments w.calls + (if may_still_submit (find_key key w.db) then 1 else 0)
  paid_at_most_once key requests w mine u =
      let k =
        serve-Keeps key (payments w.calls + left key w.db) requests w mine
          (record { keys = u; bound = omega arith; paid = all_calls-AllPaid w.calls }) in
      let b = k.bound in omega arith
