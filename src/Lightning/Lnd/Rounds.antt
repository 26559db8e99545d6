-- ===== src/Lightning/Lnd/Rounds.antt =====
-- How long `lookup_payment` of lightning_flask/src/infra/lnd.py searches.
use rails.Prelude.{ℕ, zero, suc, ◌+◌, ◌≤◌, String, List, [], ◌∷◌, Option, none, some, arith}
use rails.Prelude.Int.{ℤ, pos}
use rails.Json.{Json, Items, Fields, nil, cons}
use rails.Effect.{Result, ok, err}
use rails.Effect.Triple.{
  Outcome, Triple, bind_rule, pure_rule, lift_rule_in, if_rule, relax_rule, strengthen_rule,
}
use rails.Lightning.Errors.{Failure}
use rails.Lightning.Security.{validate_payment_hash}
use rails.Lightning.Host.{Host, World, LndCall, Handler, request}
use rails.Lightning.Lnd.{
  is_last, get_lnd, int_at, after_page, in_page, find_payment, search_pages, lookup_payment,
  page_of,
}

unfoldable pub asked : List LndCall → ℕ
asked [] = 0
asked (x ∷ calls) = suc (asked calls)

module _ {Node : Type 0} (h : Host Node) where
  -- At most n requests were made to LND.
  pub record Asked (n : ℕ) (w : World Node) : Type 0 where
    pub bound : asked w.calls ≤ n

  later : (m n : ℕ) → m ≤ n → (w : World Node) → Asked m w → Asked n w
  later m n less w k = record { bound = let b = k.bound in omega arith }

  both :
      {A : Type 0} (F : World Node → Type 0) (o : Result Failure A × World Node)
      → F o.1
      → Outcome F (λ _. F) o
  both F (ok a, w) k = k
  both F (err e, w) k = k

  get_lnd-Asked :
      (n : ℕ) (path : String) (query : Json)
      → Triple (Asked (suc n)) (Asked n) (get_lnd h path query) (λ _. Asked (suc n))
  unfolding request asked
  get_lnd-Asked n path query = record {
    at = λ w k.
        both (Asked (suc n)) (get_lnd h path query w)
          (record { bound = let b = k.bound in omega arith });
  }

  module _ (hash : String) where
    -- Up to `rounds` more requests behind n.
    abbrev Searches : {A : Type 0} → ℕ → ℕ → Handler Node A → Type 0
    Searches rounds n m = Triple (Asked (rounds + n)) (Asked n) m (λ _. Asked (rounds + n))

    module _ (rounds n : ℕ) (offset : ℤ) (result : Json) (deeper : ℤ → Handler Node Fields)
        (searches : (next : ℤ) → Searches rounds n (deeper next)) where
      after_page-Searches :
          (found : Option Fields) → Searches rounds n (after_page h hash offset result deeper found)
      after_page-Searches (some view) = pure_rule _ view (later n (rounds + n) (omega arith))
      after_page-Searches none =
          bind_rule
            (lift_rule_in (int_at h "last_index_offset" result)
              (later n (rounds + n) (omega arith)))
            (λ next.
              if_rule (is_last h offset next) _ _
                (λ e. pure_rule _ _ (later n (rounds + n) (omega arith))) (λ e. searches next))

      in_page-Searches :
          (items : Items) → Searches rounds n (in_page h hash offset result deeper items)
      in_page-Searches nil = pure_rule _ _ (later n (rounds + n) (omega arith))
      in_page-Searches (cons j rest) =
          bind_rule
            (lift_rule_in (find_payment h hash (cons j rest)) (later n (rounds + n) (omega arith)))
            after_page-Searches

    search_pages-Searches :
        (rounds n : ℕ) (offset : ℤ) → Searches rounds n (search_pages h rounds hash offset)
    unfolding search_pages
    search_pages-Searches zero n offset = pure_rule _ _ (later n (zero + n) (omega arith))
    search_pages-Searches (suc rounds) n offset =
        bind_rule
          (relax_rule (get_lnd-Asked n "/v1/payments" _)
            (later (suc n) (suc rounds + n) (omega arith)))
          (λ result.
            relax_rule
              (strengthen_rule
                (in_page-Searches rounds (suc n) offset result (search_pages h rounds hash)
                  (search_pages-Searches rounds (suc n)) (page_of h result))
                (λ view. later (rounds + suc n) (suc rounds + n) (omega arith)))
              (later (rounds + suc n) (suc rounds + n) (omega arith)))

  asked_of :
      {A : Type 0} (n : ℕ) (o : Result Failure A × World Node)
      → Outcome (Asked n) (λ _. Asked n) o
      → asked o.1.calls ≤ n
  asked_of n (ok a, w) k = k.bound
  asked_of n (err e, w) k = k.bound

  lookup-Searches :
      (value : Json) (n : ℕ)
      → Triple (Asked (20 + n)) (Asked n) (lookup_payment h value) (λ _. Asked (20 + n))
  unfolding lookup_payment
  lookup-Searches value n =
      bind_rule (lift_rule_in (validate_payment_hash h.show value) (later n (20 + n) (omega arith)))
        (λ hash. search_pages-Searches hash 20 n (pos 0))

  -- A lookup ends after 20 requests to LND at the latest, whatever LND answers and however many pages it
  -- has, and whether it returns or raises.
  pub lookup_ends :
      (value : Json) (w : World Node)
      → asked (lookup_payment h value w).1.calls ≤ 20 + asked w.calls
  lookup_ends value w =
      asked_of (20 + asked w.calls) (lookup_payment h value w)
        ((lookup-Searches value (asked w.calls)).at w (record { bound = omega arith }))
